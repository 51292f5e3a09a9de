-- ===== src/Store/Claims.antt =====
-- store.go: claiming rows, and the four ways in which a claimed row leaves PROCESSING.
pub mod Moving
pub mod Ownership
pub mod Exclusion
pub mod Fairness
use go_messaging.Prelude.{
  ℤ, pos, negsuc, ℕ, suc, ◌+◌, ltb, leb, Bool, true, false, not, ◌&&◌, ◌||◌, Option, none, some,
  List, [], ◌∷◌, ◌++◌, map, Bytes, codes, bytes_eq, take, if◌then◌else◌,
}
use go_messaging.Message.{
  Status, pending, processing, retry, failed, FinalStatus, final_processed, Message, Time,
}
use go_messaging.Backoff.{truncate_error}
use go_messaging.Database.{
  HotRow, ArchiveRow, Tables, World, Act, pure, raise, ◌>>=◌, ◌>>◌, wrapping, execute,
  rows_affected_or_zero, TxEnd, commits, rolls_back, in_tx,
}
use go_messaging.Database.Rows.{
  select_where, update_where, delete_where, count_where, order_by, member, at_value, is_null,
}
use go_messaging.Store.{Store}
use go_messaging.Store.Scan.{scan_messages}

unfoldable pub is_pending : Status → Bool
is_pending pending = true
is_pending _ = false

unfoldable pub is_processing : Status → Bool
is_processing processing = true
is_processing _ = false

unfoldable pub is_retry : Status → Bool
is_retry retry = true
is_retry _ = false

unfoldable pub is_failed : Status → Bool
is_failed failed = true
is_failed _ = false

-- processing_by = $n
unfoldable is_worker : Bytes → Option Bytes → Bool
is_worker worker none = false
is_worker worker (some w) = bytes_eq w worker

unfoldable pub has_id : Bytes → HotRow → Bool
has_id id r = bytes_eq r.message_id id

-- WHERE message_id = $1 AND processing_by = $2 AND status = 'PROCESSING'
unfoldable pub owned_by : Bytes → Bytes → HotRow → Bool
unfolding has_id is_worker is_processing
owned_by worker id r = has_id id r && is_worker worker r.processing_by && is_processing r.status

-- The rows that a claim may take: ready, and not locked by another transaction.
unfoldable pub claimable : Time → HotRow → Bool
unfolding is_pending is_retry at_value is_null
claimable now r =
    (is_pending r.status || is_retry r.status)
    && (is_null r.next_retry_at || at_value (λ t. leb t now) r.next_retry_at)

unfoldable pub created_before : HotRow → HotRow → Bool
created_before a b = leb a.created_at b.created_at

-- SELECT … ORDER BY created_at FOR UPDATE SKIP LOCKED LIMIT $2
unfoldable pub claim_ids : Time → (Bytes → Bool) → ℕ → List HotRow → List Bytes
unfolding claimable created_before
claim_ids now locked size rows =
    map (λ r. r.message_id)
      (take size (
        order_by created_before
          (select_where (λ r. claimable now r && not (locked r.message_id)) rows)))

unfoldable pub set_claimed : Bytes → Time → HotRow → HotRow
set_claimed worker now r = record r {
  status = processing;
  processing_by = some worker;
  processing_at = some now;
}

-- The UPDATE of the claim, and what it returns.
unfoldable pub claim_rows : Bytes → Time → List Bytes → List HotRow → List HotRow × List HotRow
unfolding set_claimed
claim_rows worker now ids rows =
    let rows' = update_where (λ r. member r.message_id ids) (set_claimed worker now) rows in
    (select_where (λ r. member r.message_id ids) rows', rows')

unfoldable pub claim_statement : Bytes → ℕ → World → Option (List HotRow × Tables)
unfolding claim_ids claim_rows
claim_statement worker size w =
    let (claimed, rows) = claim_rows worker w.now (claim_ids w.now w.locked size w.hot) w.hot in
    some (claimed, record w.tables { hot = rows })

-- LIMIT $2, which PostgreSQL refuses where it is negative.
unfoldable pub claim_limited : Bytes → ℤ → World → Option (List HotRow × Tables)
unfolding claim_statement
claim_limited worker (pos size) w = claim_statement worker size w
claim_limited worker (negsuc n) w = none

-- (*store).claimBatch
unfoldable pub claim_batch : Store → ℤ → Act (List Message)
unfolding claim_limited
claim_batch s size = do
  rows ← wrapping (codes "message: claim batch") (execute (claim_limited s.cfg.worker_id size))
  scan_messages s rows

-- An UPDATE of the hot table, with the number of rows that it affects.
unfoldable pub update_hot : (HotRow → Bool) → (HotRow → HotRow) → World → ℕ × Tables
update_hot p f w = (count_where p w.hot, record w.tables { hot = update_where p f w.hot })

-- INSERT INTO archive … SELECT … FROM hot WHERE p: a row for each, under the next identities.
unfoldable pub archive_row : FinalStatus → Time → ℕ → HotRow → ArchiveRow
archive_row final now id r = record {
  id = id;
  message_id = r.message_id;
  partition_key = r.partition_key;
  topic = r.topic;
  payload = r.payload;
  headers = r.headers;
  source = r.source;
  encrypted = r.encrypted;
  final_status = final;
  retry_count = r.retry_count;
  created_at = r.created_at;
  processed_at = r.processed_at;
  archived_at = now;
  last_error = r.last_error;
}

unfoldable pub archive_rows : FinalStatus → Time → ℕ → List HotRow → List ArchiveRow
archive_rows final now id [] = []
archive_rows final now id (r ∷ rs) = archive_row final now id r ∷ archive_rows final now (suc id) rs

unfoldable pub copy_to_archive : FinalStatus → (HotRow → Bool) → World → Option (Unit {0} × Tables)
unfolding archive_rows archive_row
copy_to_archive final p w =
    let moved = select_where p w.hot in
    some (
      tt,
      record w.tables {
        archive = w.archive ++ archive_rows final w.now w.next_id moved;
        next_id = w.next_id + count_where p w.hot;
      },
    )

unfoldable pub delete_hot : (HotRow → Bool) → World → Option (Unit {0} × Tables)
delete_hot p w = some (tt, record w.tables { hot = delete_where p w.hot })

unfoldable pub set_processed_at : Time → HotRow → HotRow
set_processed_at ts r = record r { processed_at = some ts }

-- (*store).markDoneAndArchive: false where this worker no longer owns the row.
unfoldable pub mark_done_and_archive : Store → Bytes → Time → Act Bool
unfolding update_hot owned_by set_processed_at copy_to_archive delete_hot
mark_done_and_archive s id ts =
    in_tx (codes "message: archive begin tx") (some (codes "message: archive commit")) (do
      affected ←
          wrapping (codes "message: mark done")
            (execute (λ w. some (update_hot (owned_by s.cfg.worker_id id) (set_processed_at ts) w)))
      n ← rows_affected_or_zero affected
      if leb n 0 then pure (rolls_back false) else do
        wrapping (codes "message: archive insert")
            (execute (copy_to_archive final_processed (has_id id)))
        wrapping (codes "message: archive delete") (execute (delete_hot (has_id id)))
        pure (commits true))

-- A statement that writes an error text, which the database may refuse.
unfoldable pub with_text : Bytes → (World → ℕ × Tables) → World → Option (ℕ × Tables)
with_text last_error statement w =
    if w.engine.accepts_text last_error then some (statement w) else none

unfoldable pub set_retry : ℕ → Time → Bytes → HotRow → HotRow
set_retry retry_count next_retry_at last_error r = record r {
  status = retry;
  retry_count = retry_count;
  next_retry_at = some next_retry_at;
  last_error = some last_error;
  processing_by = none;
  processing_at = none;
}

-- (*store).markRetry
unfoldable pub mark_retry : Store → Bytes → ℕ → Time → Bytes → Act Bool
unfolding update_hot owned_by set_retry with_text
mark_retry s id retry_count next_retry_at last_error = do
  let cut = truncate_error last_error
  affected ← wrapping (codes "message: mark retry") (
      execute (
        with_text cut
          (update_hot (owned_by s.cfg.worker_id id) (set_retry retry_count next_retry_at cut))))
  n ← rows_affected_or_zero affected
  pure (ltb 0 n)

unfoldable pub set_failed : Time → Bytes → HotRow → HotRow
set_failed now last_error r = record r {
  status = failed;
  last_error = some last_error;
  processed_at = some now;
  processing_by = none;
  processing_at = none;
}

-- (*store).markFailed
unfoldable pub mark_failed : Store → Bytes → Bytes → Act Bool
unfolding update_hot owned_by set_failed with_text
mark_failed s id last_error = do
  let cut = truncate_error last_error
  affected ← wrapping (codes "message: mark failed") (
      execute
        (with_text cut (λ w. update_hot (owned_by s.cfg.worker_id id) (set_failed w.now cut) w)))
  n ← rows_affected_or_zero affected
  pure (ltb 0 n)

-- (*store).deadLetter: no test of ownership.
unfoldable pub dead_letter : Bytes → Bytes → Act (Unit {0})
unfolding update_hot has_id set_failed with_text
dead_letter id reason = do
  let cut = truncate_error reason
  affected ←
      wrapping (codes "message: dead letter")
        (execute (with_text cut (λ w. update_hot (has_id id) (set_failed w.now cut) w)))
  pure tt
