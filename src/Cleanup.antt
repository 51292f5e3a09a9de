-- ===== src/Cleanup.antt =====
-- cleanup.go: expiry, recovery of stuck rows, and the archive of the dead-letter queue.
pub mod Recovery
pub mod Exhaustion
use go_messaging.Prelude.{
  ℕ, zero, suc, ◌+◌, ◌-◌, ◌*◌, ◌/◌, ◌^◌, ltb, leb, ℤ, pos, pos_part, leb_ℤ, ltb_ℤ, Bool, true,
  false, not, ◌&&◌, Option, none, some, List, [], ◌∷◌, ◌++◌, map, Bytes, codes, take, length,
  if◌then◌else◌,
}
use go_messaging.Cipher.{Result, ok, err}
use go_messaging.Message.{Error, Status, retry, failed, final_failed, Time}
use go_messaging.Config.{millisecond, positive_or}
use go_messaging.Database.{
  DedupRow, HotRow, ArchiveRow, Tables, World, Act, pure, attempt, ◌>>=◌, ◌>>◌, wrapping, db_call,
  execute, rows_affected, TxEnd, commits, rolls_back, in_tx,
}
use go_messaging.Database.Rows.{
  select_where, update_where, delete_where, count_where, order_by, member, at_value,
}
use go_messaging.Names.{table_name}
use go_messaging.Store.{Store}
use go_messaging.Store.Claims.{is_processing, is_failed, update_hot, copy_to_archive, delete_hot}
use go_messaging.Admin.{LoopEnd, total_is, stopped, out_of_fuel, batches, processed_before}

-- d.Milliseconds() as an interval: the part below a millisecond is dropped.
unfoldable whole_milliseconds : ℤ → ℕ
whole_milliseconds d = pos_part d / millisecond * millisecond

-- t < now() - interval
unfoldable older_than : ℕ → Time → Time → Bool
older_than interval now t = ltb (t + interval) now

-- expire_at IS NOT NULL AND expire_at < now()
pub has_expired : Time → DedupRow → Bool
unfolding at_value
has_expired now r = at_value (λ t. ltb t now) r.expire_at

-- DELETE … WHERE ctid IN (SELECT ctid … WHERE p LIMIT n): the first n rows that pass.
unfoldable pub delete_first : {A : Type 0} → (A → Bool) → ℕ → List A → List A
delete_first p zero rows = rows
delete_first p (suc n) [] = []
delete_first p (suc n) (r ∷ rs) = elim (p r) [
  | true ↦ delete_first p n rs
  | false ↦ r ∷ delete_first p (suc n) rs
]

unfoldable pub count_first : {A : Type 0} → (A → Bool) → ℕ → List A → ℕ
count_first p zero rows = 0
count_first p (suc n) [] = 0
count_first p (suc n) (r ∷ rs) = elim (p r) [
  | true ↦ suc (count_first p n rs)
  | false ↦ count_first p (suc n) rs
]

unfoldable pub purge_dedup_batch : Bytes → ℕ → Act ℕ
unfolding delete_first count_first has_expired
purge_dedup_batch table size = do
  n ← wrapping (codes "message: purge " ++ table) (
      execute (λ w. some (
        count_first (has_expired w.now) size w.dedup,
        record w.tables { dedup = delete_first (has_expired w.now) size w.dedup },
      )))
  rows_affected n

-- (*Messaging).PurgeExpiredDedup, with the loop of purgeBatched.
unfoldable pub purge_expired_dedup : Store → ℕ → ℤ → Act LoopEnd
unfolding purge_dedup_batch positive_or
purge_expired_dedup s fuel batch_size =
    let size = pos_part (positive_or (pos 1000) batch_size) in
    batches fuel size (purge_dedup_batch (table_name s.cfg.name (codes "dedup")) size)

-- archived_at < now() - retention, in milliseconds
pub is_old : ℕ → Time → ArchiveRow → Bool
unfolding older_than
is_old retention_millis now r = older_than (retention_millis * millisecond) now r.archived_at

unfoldable purge_archive_batch : Bytes → ℕ → ℕ → Act ℕ
unfolding delete_first count_first is_old
purge_archive_batch table retention_millis size = do
  n ← wrapping (codes "message: purge " ++ table) (
      execute (λ w. some (
        count_first (is_old retention_millis w.now) size w.archive,
        record w.tables { archive = delete_first (is_old retention_millis w.now) size w.archive },
      )))
  rows_affected n

-- (*Messaging).PurgeOldArchive
unfoldable pub purge_old_archive : Store → ℕ → ℕ → ℤ → Act LoopEnd
unfolding purge_archive_batch positive_or
purge_old_archive s fuel retention_millis batch_size =
    let size = pos_part (positive_or (pos 1000) batch_size) in
    batches fuel size
      (purge_archive_batch (table_name s.cfg.name (codes "archive")) retention_millis size)

-- status = 'PROCESSING' AND processing_at < now() - ClaimTimeout
unfoldable pub is_stuck : ℕ → Time → HotRow → Bool
unfolding is_processing at_value older_than
is_stuck timeout now r = is_processing r.status && at_value (older_than timeout now) r.processing_at

abbrev pub stuck_reason : Bytes
stuck_reason = codes "stuck recovery exhausted"

-- The SET of RecoverStuck: FAILED where retry_count + 1 > max_retry, else RETRY at once.
unfoldable pub set_recovered : Time → HotRow → HotRow
set_recovered now r =
    if ltb_ℤ r.max_retry (pos (r.retry_count + 1))
    then record r {
      retry_count = r.retry_count + 1;
      status = failed;
      last_error = some stuck_reason;
      processed_at = some now;
      processing_by = none;
      processing_at = none;
    }
    else record r {
      retry_count = r.retry_count + 1;
      status = retry;
      next_retry_at = some now;
      processing_by = none;
      processing_at = none;
    }

-- The largest value of an INT column.
abbrev pub max_int : ℕ
max_int = 2 ^ 31 - 1

-- retry_count + 1 is no INT.
unfoldable pub is_count_full : HotRow → Bool
is_count_full r = leb max_int r.retry_count

-- The UPDATE of RecoverStuck: PostgreSQL refuses all of it where the count of one stuck row is full.
unfoldable pub recover_statement : ℕ → World → Option (ℕ × Tables)
unfolding is_stuck is_count_full set_recovered update_hot
recover_statement timeout w =
    if ltb 0 (count_where (λ r. is_stuck timeout w.now r && is_count_full r) w.hot)
    then none
    else some (update_hot (is_stuck timeout w.now) (set_recovered w.now) w)

unfoldable error_of : Result (Unit {0}) → Option Error
error_of (ok u) = none
error_of (err e) = some e

unfoldable pub after_row : ℕ → Result (Unit {0}) → Act (ℕ × Option Error) → Act (ℕ × Option Error)
after_row n (ok u) rest = rest
after_row n (err e) rest = pure (n, some e)

-- for rows.Next() { n++ }, and rows.Err(): the rows read so far, and the error that ended the loop.
unfoldable pub count_rows : ℕ → ℕ → Act (ℕ × Option Error)
unfolding error_of after_row
count_rows n zero = do r ← attempt db_call; pure (n, error_of r)
count_rows n (suc left) = do r ← attempt db_call; after_row n r (count_rows (suc n) left)

-- (*Messaging).RecoverStuck: it counts the rows that RETURNING gives, also beside an error.
unfoldable pub recover_stuck : Store → Act (ℕ × Option Error)
unfolding recover_statement whole_milliseconds count_rows
recover_stuck s = do
  n ←
      wrapping (codes "message: recover stuck")
        (execute (recover_statement (whole_milliseconds s.cfg.claim_timeout)))
  count_rows 0 n

-- status = 'FAILED' AND processed_at < now() - FailedRetention
unfoldable is_exhausted : ℕ → Time → HotRow → Bool
unfolding is_failed at_value older_than
is_exhausted retention now r =
    is_failed r.status && at_value (older_than retention now) r.processed_at

-- SELECT … ORDER BY processed_at FOR UPDATE SKIP LOCKED LIMIT $2
unfoldable exhausted_ids : ℕ → Time → (Bytes → Bool) → ℕ → List HotRow → List Bytes
unfolding is_exhausted processed_before
exhausted_ids retention now locked size rows =
    map (λ r. r.message_id)
      (take size (
        order_by processed_before
          (select_where (λ r. is_exhausted retention now r && not (locked r.message_id)) rows)))

unfoldable pub scan_ids : List Bytes → Act (Unit {0})
scan_ids [] = db_call
scan_ids (id ∷ ids) = do wrapping (codes "message: archive exhausted: scan") db_call; scan_ids ids

unfoldable pub move_exhausted : List Bytes → Act (TxEnd ℕ)
unfolding copy_to_archive delete_hot
move_exhausted [] = pure (rolls_back 0)
move_exhausted (id ∷ ids) = do
  wrapping (codes "message: archive exhausted: insert")
      (execute (copy_to_archive final_failed (λ r. member r.message_id (id ∷ ids))))
  wrapping (codes "message: archive exhausted: delete")
      (execute (delete_hot (λ r. member r.message_id (id ∷ ids))))
  pure (commits (length (id ∷ ids)))

-- (*Messaging).ArchiveExhausted
unfoldable pub archive_exhausted : Store → ℤ → Act ℕ
unfolding exhausted_ids scan_ids move_exhausted positive_or whole_milliseconds
archive_exhausted s batch_size =
    in_tx (codes "message: archive exhausted: begin tx")
      (some (codes "message: archive exhausted: commit"))
      (do
        ids ← wrapping (codes "message: archive exhausted: select") (
            execute (λ w. some (
              exhausted_ids (whole_milliseconds s.cfg.failed_retention) w.now w.locked
                  (pos_part (positive_or (pos 500) batch_size)) w.hot,
              w.tables,
            )))
        scan_ids ids
        move_exhausted ids)

-- type CleanupResult struct
pub record CleanupResult : Type 0 where
  pub dedup_purged : ℕ
  pub recovered : ℕ
  pub exhausted_archived : ℕ

unfoldable pub after_archive : ℕ → ℕ → Result ℕ → Act (CleanupResult × Option Error)
after_archive purged recovered (ok n) =
    pure (record { dedup_purged = purged; recovered = recovered; exhausted_archived = n }, none)
after_archive purged recovered (err e) =
    pure (record { dedup_purged = purged; recovered = recovered; exhausted_archived = 0 }, some e)

unfoldable pub after_recovery :
    Store → ℕ → Result (ℕ × Option Error) → Act (CleanupResult × Option Error)
unfolding after_archive
after_recovery s purged (ok (n, none)) = do
  r ← attempt (archive_exhausted s (pos 0))
  after_archive purged n r
after_recovery s purged (ok (n, some e)) =
    pure (record { dedup_purged = purged; recovered = n; exhausted_archived = 0 }, some e)
after_recovery s purged (err e) =
    pure (record { dedup_purged = purged; recovered = 0; exhausted_archived = 0 }, some e)

unfoldable pub after_purge : Store → LoopEnd → Act (Option (CleanupResult × Option Error))
unfolding after_recovery
after_purge s (total_is n) = do
  r ← attempt (recover_stuck s)
  res ← after_recovery s n r
  pure (some res)
after_purge s (stopped n e) =
    pure (some (record { dedup_purged = n; recovered = 0; exhausted_archived = 0 }, some e))
after_purge s out_of_fuel = pure none

-- (*Messaging).RunAll: the counts so far, and the error of the part that failed. `none` is lack of
-- fuel.
unfoldable pub run_all : ℕ → Store → Act (Option (CleanupResult × Option Error))
unfolding after_purge
run_all fuel s = do purged ← purge_expired_dedup s fuel (pos 0); after_purge s purged
