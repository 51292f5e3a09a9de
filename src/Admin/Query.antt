-- ===== src/Admin/Query.antt =====
-- messaging_admin.go: the listing queries and the counts by status.
pub mod Where
pub mod Narrowing
pub mod Selection
use go_messaging.Prelude.{
  ℕ, pos_part, Bool, true, false, ◌&&◌, Option, none, some, List, [], ◌∷◌, ◌++◌, Bytes, bytes_eq,
  leb, codes, take, drop, length, ltb_ℤ, pos, if◌then◌else◌,
}
use go_messaging.Message.{
  Status, pending, processing, retry, failed, Message, ArchivedMessage, FinalStatus,
  final_processed, final_failed,
}
use go_messaging.Config.{PageOptions, page_defaults}
use go_messaging.Database.{
  HotRow, ArchiveRow, Tables, Act, pure, ◌>>=◌, ◌>>◌, wrapping, db_call, execute,
}
use go_messaging.Database.Rows.{select_where, count_where, order_by}
use go_messaging.Store.{Store}
use go_messaging.Store.Claims.{
  has_id, is_pending, is_processing, is_retry, is_failed, created_before,
}
use go_messaging.Store.Archived.{scan_archived_safe}
use go_messaging.Store.Scan.{scan_messages_safe}
use go_messaging.Admin.{FilterOptions, passes}

-- type MessageCountByStatus struct
record MessageCountByStatus : Type 0 where
  pub pending_count : ℕ
  pub processing_count : ℕ
  pub retry_count : ℕ
  pub failed_count : ℕ

unfoldable pub has_status : Status → Status → Bool
unfolding is_pending is_processing is_retry is_failed
has_status pending s = is_pending s
has_status processing s = is_processing s
has_status retry s = is_retry s
has_status failed s = is_failed s

unfoldable count_status : FilterOptions → Status → List HotRow → ℕ
count_status o s rows = count_where (λ r. passes o r && has_status s r.status) rows

-- (*Messaging).GetMetrics: a status that no row has is missing in the answer and stays 0.
unfoldable get_metrics : FilterOptions → Act MessageCountByStatus
unfolding count_status
get_metrics o = do
  counts ← wrapping (codes "message: get metrics") (
      execute (λ w. some (
        record {
          pending_count = count_status o pending w.hot;
          processing_count = count_status o processing w.hot;
          retry_count = count_status o retry w.hot;
          failed_count = count_status o failed w.hot;
        },
        w.tables,
      )))
  wrapping (codes "message: scan metrics") db_call
  db_call
  pure counts

-- LIMIT … OFFSET …, with a limit that is positive; a negative offset is an error.
unfoldable page_of {ℓ} : {A : Type ℓ} → PageOptions → List A → Option (List A)
page_of p rows =
    if ltb_ℤ p.offset (pos 0)
    then none
    else some (take (pos_part p.limit) (drop (pos_part p.offset) rows))

-- A query that changes nothing.
unfoldable reads : {A : Type 0} → Option A → Tables → Option (A × Tables)
reads none t = none
reads (some a) t = some (a, t)

unfoldable listed : Status → FilterOptions → PageOptions → List HotRow → Option (List HotRow)
unfolding page_of
listed s o page rows =
    page_of page
      (order_by created_before (select_where (λ r. has_status s r.status && passes o r) rows))

unfoldable pub status_name : Status → Bytes
status_name pending = codes "PENDING"
status_name processing = codes "PROCESSING"
status_name retry = codes "RETRY"
status_name failed = codes "FAILED"

-- (*Messaging).listByStatus
unfoldable list_by_status : Store → Status → FilterOptions → PageOptions → Act (List Message)
unfolding listed reads status_name
list_by_status s status o page = do
  rows ←
      wrapping (codes "message: list " ++ status_name status)
        (execute (λ w. reads (listed status o (page_defaults page) w.hot) w.tables))
  scan_messages_safe s rows

-- (*Messaging).ListFailed and (*Messaging).ListPending
unfoldable list_failed : Store → FilterOptions → PageOptions → Act (List Message)
list_failed s = list_by_status s failed

unfoldable list_pending : Store → FilterOptions → PageOptions → Act (List Message)
list_pending s = list_by_status s pending

unfoldable first {ℓ} : {A : Type ℓ} → List A → Option A
first [] = none
first (x ∷ xs) = some x

-- (*Messaging).FindByMessageID
unfoldable find_by_message_id : Store → Bytes → Act (Option Message)
unfolding first
find_by_message_id s id = do
  rows ←
      wrapping (codes "message: find by message id")
        (execute (λ w. some (select_where (has_id id) w.hot, w.tables)))
  msgs ← scan_messages_safe s rows
  pure (first msgs)

-- type ListArchivedOptions struct; an empty topic and no status do not narrow.
pub record ListArchivedOptions : Type 0 where
  pub topic : Bytes
  pub final_status : Option FinalStatus

unfoldable pub is_final : Option FinalStatus → FinalStatus → Bool
is_final none s = true
is_final (some final_processed) final_processed = true
is_final (some final_processed) final_failed = false
is_final (some final_failed) final_processed = false
is_final (some final_failed) final_failed = true

unfoldable pub archive_topic_passes : Bytes → ArchiveRow → Bool
archive_topic_passes [] r = true
archive_topic_passes (c ∷ cs) r = bytes_eq r.topic (c ∷ cs)

-- ORDER BY archived_at DESC
unfoldable archived_after : ArchiveRow → ArchiveRow → Bool
archived_after a b = leb b.archived_at a.archived_at

unfoldable listed_archived :
    ListArchivedOptions → PageOptions → List ArchiveRow → Option (List ArchiveRow)
unfolding page_of is_final archive_topic_passes archived_after
listed_archived o page rows = page_of page (
    order_by archived_after (
      select_where (λ r. archive_topic_passes o.topic r && is_final o.final_status r.final_status)
        rows))

-- (*Messaging).ListArchived
unfoldable list_archived : Store → ListArchivedOptions → PageOptions → Act (List ArchivedMessage)
unfolding listed_archived reads
list_archived s o page = do
  rows ←
      wrapping (codes "message: list archived")
        (execute (λ w. reads (listed_archived o (page_defaults page) w.archive) w.tables))
  scan_archived_safe s rows
