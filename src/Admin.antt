-- ===== src/Admin.antt =====
-- messaging_admin.go: the dead-letter queue, the queries and the dedup table.
pub mod Drain
pub mod Query
use mathlib.Core.Option
use go_messaging.Prelude.{
  ℕ, zero, suc, ◌+◌, ltb, leb, ℤ, pos, pos_part, leb_ℤ, Bool, true, false, not, ◌&&◌, ◌||◌, Option,
  none, some, List, [], ◌∷◌, ◌++◌, map, Bytes, codes, bytes_eq, take, drop, if◌then◌else◌,
}
use go_messaging.Message.{
  Status, pending, processing, retry, failed, Message, Time, err_not_found, Error,
}
use go_messaging.Config.{positive_or}
use go_messaging.Cipher.{Result, ok, err}
use go_messaging.Database.{
  attempt, DedupRow, HotRow, Tables, World, Act, pure, raise, ◌>>=◌, ◌>>◌, wrapping, execute,
  rows_affected, rows_affected_or_zero,
}
use go_messaging.Database.Rows.{
  select_where, update_where, delete_where, count_where, order_by, member, at_value, nulls_last,
}
use go_messaging.Store.Claims.{has_id, is_failed, update_hot, dead_letter}

-- type FilterOptions struct; an empty field does not narrow.
pub record FilterOptions : Type 0 where
  pub topic : Bytes
  pub partition_key : Bytes

unfoldable is_value : Bytes → Option Bytes → Bool
is_value v none = false
is_value v (some x) = bytes_eq x v

unfoldable topic_passes : Bytes → HotRow → Bool
topic_passes [] r = true
topic_passes (c ∷ cs) r = bytes_eq r.topic (c ∷ cs)

unfoldable key_passes : Bytes → HotRow → Bool
unfolding is_value
key_passes [] r = true
key_passes (c ∷ cs) r = is_value (c ∷ cs) r.partition_key

-- The conditions that applyFilter adds to a WHERE clause. A NULL key passes no test.
unfoldable pub passes : FilterOptions → HotRow → Bool
unfolding topic_passes key_passes
passes o r = topic_passes o.topic r && key_passes o.partition_key r

-- (*Messaging).DeadLetter
unfoldable pub admin_dead_letter : Bytes → Bytes → Act (Unit {0})
admin_dead_letter id reason = dead_letter id reason

-- SET status = 'PENDING', retry_count = 0, next_retry_at = NULL, last_error = NULL,
-- processed_at = NULL
unfoldable pub set_requeued : HotRow → HotRow
set_requeued r = record r {
  status = pending;
  retry_count = 0;
  next_retry_at = none;
  last_error = none;
  processed_at = none;
}

unfoldable before_passes : Option Time → HotRow → Bool
before_passes none r = true
before_passes (some t) r = at_value (λ p. leb p t) r.processed_at

-- The FAILED rows that RetryFailed asks for.
unfoldable pub retryable : FilterOptions → Option Time → HotRow → Bool
unfolding before_passes passes is_failed
retryable o before r = is_failed r.status && passes o r && before_passes before r

unfoldable pub processed_before : HotRow → HotRow → Bool
unfolding nulls_last
processed_before a b = nulls_last a.processed_at b.processed_at

unfoldable pub retry_ids : FilterOptions → Option Time → ℕ → List HotRow → List Bytes
unfolding retryable processed_before
retry_ids o before limit rows =
    map (λ r. r.message_id)
      (take limit (order_by processed_before (select_where (retryable o before) rows)))

unfoldable pub retry_statement : FilterOptions → Option Time → ℕ → World → ℕ × Tables
unfolding retry_ids set_requeued update_hot
retry_statement o before limit w =
    let ids = retry_ids o before limit w.hot in
    update_hot (λ r. member r.message_id ids) set_requeued w

-- (*Messaging).RetryFailed
unfoldable pub retry_failed : FilterOptions → Option Time → ℤ → Act ℕ
unfolding positive_or retry_statement
retry_failed o before limit = do
  n ←
      wrapping (codes "message: retry failed")
        (execute (λ w. some (retry_statement o before (pos_part (positive_or (pos 1000) limit)) w)))
  rows_affected n

-- How a loop of batches ends: with the total, or with an error beside the total so far.
-- `out_of_fuel` is no end of the program's.
pub data LoopEnd : Type 0 where
  total_is : ℕ → LoopEnd
  stopped : ℕ → Error → LoopEnd
  out_of_fuel : LoopEnd

unfoldable add_total : ℕ → LoopEnd → LoopEnd
add_total n (total_is t) = total_is (n + t)
add_total n (stopped t e) = stopped (n + t) e
add_total n out_of_fuel = out_of_fuel

unfoldable pub next_batch : ℕ → Act LoopEnd → Result ℕ → Act LoopEnd
unfolding add_total
next_batch size rest (err e) = pure (stopped 0 e)
next_batch size rest (ok n) =
    if ltb n size then pure (total_is n) else (do t ← rest; pure (add_total n t))

-- The loop over batches of RetryAllFailed and of purgeBatched: a batch that is not full is the
-- last one.
unfoldable pub batches : ℕ → ℕ → Act ℕ → Act LoopEnd
unfolding next_batch
batches zero size batch = pure out_of_fuel
batches (suc fuel) size batch = do r ← attempt batch; next_batch size (batches fuel size batch) r

-- (*Messaging).RetryAllFailed: the cutoff is the time of the call.
unfoldable pub retry_all_failed : ℕ → FilterOptions → ℤ → Act LoopEnd
unfolding positive_or
retry_all_failed fuel o batch_size w =
    let size = positive_or (pos 500) batch_size in
    batches fuel (pos_part size) (retry_failed o (some w.local_now) size) w

-- (*Messaging).RetryOne
unfoldable pub retry_one : Bytes → Act (Unit {0})
unfolding set_requeued update_hot has_id is_failed
retry_one id = do
  affected ←
      wrapping (codes "message: retry one")
        (execute (λ w. some (update_hot (λ r. has_id id r && is_failed r.status) set_requeued w)))
  n ← rows_affected_or_zero affected
  if leb n 0 then raise err_not_found else pure tt

unfoldable pub has_dedup : Bytes → DedupRow → Bool
has_dedup id r = bytes_eq r.message_id id

-- (*Messaging).IsDuplicate
unfoldable is_duplicate_id : Bytes → Act Bool
unfolding has_dedup
is_duplicate_id id =
    wrapping (codes "message: is duplicate")
      (execute (λ w. some (leb 1 (count_where (has_dedup id) w.dedup), w.tables)))

-- (*Messaging).RemoveDedup
unfoldable pub remove_dedup : Bytes → Act Bool
unfolding has_dedup
remove_dedup id = do
  affected ← wrapping (codes "message: remove dedup") (
      execute (λ w. some (
        count_where (has_dedup id) w.dedup,
        record w.tables { dedup = delete_where (has_dedup id) w.dedup },
      )))
  n ← rows_affected affected
  pure (ltb 0 n)
