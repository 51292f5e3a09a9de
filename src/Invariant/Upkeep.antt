-- ===== src/Invariant/Upkeep.antt =====
-- The admin calls and the cleanup keep an invariant of the tables.
use go_messaging.Prelude.{
  ℕ, zero, suc, ◌&&◌, ltb, Bool-cases, inl, inr, Option, none, some, Bytes, ℤ, pos,
}
use go_messaging.Message.{Time, Error}
use go_messaging.Cipher.{Result, ok, err}
use go_messaging.Database.{Tables, World, Act, execute}
use go_messaging.Database.Keeps.{
  Keeps, Keeps-bind, Keeps-attempt, Keeps-execute, Keeps-pure, Keeps-db_call, Gives, keeps_rules,
}
use go_messaging.Database.Rows.{count_where, delete_where}
use go_messaging.Store.{Store}
use go_messaging.Store.Claims.{update_hot, has_id, is_failed}
use go_messaging.Admin.{
  FilterOptions, retry_failed, retry_statement, retry_one, retry_all_failed, remove_dedup,
  has_dedup, LoopEnd, total_is, stopped, out_of_fuel, batches, next_batch, set_requeued,
}
use go_messaging.Cleanup.{
  delete_first, count_first, has_expired, purge_expired_dedup, recover_stuck, is_stuck,
  is_count_full, recover_statement, after_row, count_rows, run_all, after_purge, after_recovery,
  after_archive,
}
use go_messaging.Invariant.Interface.{AsksAgain, Forgets, Recovers, Buries}

-- A loop of batches keeps what each batch keeps.
next_batch-Keeps :
    (P : Tables → Type 0) (size : ℕ) (rest : Act LoopEnd) (r : Result ℕ)
    → Keeps P rest
    → Keeps P (next_batch size rest r)
unfolding next_batch
next_batch-Keeps P size rest (err e) k = Keeps-pure _
next_batch-Keeps P size rest (ok n) k = search keeps_rules

pub batches-Keeps :
    (P : Tables → Type 0) (fuel size : ℕ) (batch : Act ℕ)
    → Keeps P batch
    → Keeps P (batches fuel size batch)
unfolding batches
batches-Keeps P zero size batch k = Keeps-pure out_of_fuel
batches-Keeps P (suc fuel) size batch k =
    Keeps-bind _ _ (Keeps-attempt _ k)
      (λ r. next_batch-Keeps P size _ r (batches-Keeps P fuel size batch k))

module _ {P : Tables → Type 0} (inv : AsksAgain P) where
  requeue-Keeps :
      (o : FilterOptions) (before : Option Time) (limit : ℕ)
      → Keeps P (execute (λ w. some (retry_statement o before limit w)))
  requeue-Keeps o before limit = Keeps-execute _ (inv.requeues o before limit)

  pub retry_failed-Keeps :
      (o : FilterOptions) (before : Option Time) (limit : ℤ) → Keeps P (retry_failed o before limit)
  unfolding retry_failed
  retry_failed-Keeps o before limit = search (keeps_rules, requeue-Keeps)

  requeue_one-Keeps :
      (id : Bytes)
      → Keeps P
          (execute (λ w. some (update_hot (λ r. has_id id r && is_failed r.status) set_requeued w)))
  requeue_one-Keeps id = Keeps-execute _ (inv.requeues_one id)

  pub retry_one-Keeps : (id : Bytes) → Keeps P (retry_one id)
  unfolding retry_one
  retry_one-Keeps id = search (keeps_rules, requeue_one-Keeps)

  pub retry_all_failed-Keeps :
      (fuel : ℕ) (o : FilterOptions) (size : ℤ) → Keeps P (retry_all_failed fuel o size)
  unfolding retry_all_failed
  retry_all_failed-Keeps fuel o size = record {
    at = λ w v. (batches-Keeps P fuel _ _ (retry_failed-Keeps o (some w.local_now) _)).at w v;
  }

module _ {P : Tables → Type 0} (inv : Forgets P) where
  forget-Keeps :
      (id : Bytes)
      → Keeps P (
          execute (λ w. some (
            count_where (has_dedup id) w.dedup,
            record w.tables { dedup = delete_where (has_dedup id) w.dedup },
          )))
  forget-Keeps id = Keeps-execute _ (inv.forgets id)

  pub remove_dedup-Keeps : (id : Bytes) → Keeps P (remove_dedup id)
  unfolding remove_dedup
  remove_dedup-Keeps id = search (keeps_rules, forget-Keeps)

  purge_dedup-Keeps :
      (size : ℕ)
      → Keeps P (
          execute (λ w. some (
            count_first (has_expired w.now) size w.dedup,
            record w.tables { dedup = delete_first (has_expired w.now) size w.dedup },
          )))
  purge_dedup-Keeps size = Keeps-execute _ (inv.expires size)

  pub purge_expired_dedup-Keeps :
      (s : Store) (fuel : ℕ) (size : ℤ) → Keeps P (purge_expired_dedup s fuel size)
  unfolding purge_expired_dedup
  purge_expired_dedup-Keeps s fuel size =
      batches-Keeps P fuel _ _ (search (keeps_rules, purge_dedup-Keeps))

module _ {P : Tables → Type 0} where
  after_row-Keeps :
      (n : ℕ) (r : Result (Unit {0})) (rest : Act (ℕ × Option Error))
      → Keeps P rest
      → Keeps P (after_row n r rest)
  unfolding after_row
  after_row-Keeps n (ok u) rest k = k
  after_row-Keeps n (err e) rest k = Keeps-pure _

  count_rows-Keeps : (n left : ℕ) → Keeps P (count_rows n left)
  unfolding count_rows
  count_rows-Keeps n zero = search keeps_rules
  count_rows-Keeps n (suc left) =
      Keeps-bind _ _ (Keeps-attempt _ Keeps-db_call)
        (λ r. after_row-Keeps n r _ (count_rows-Keeps (suc n) left))

module _ {P : Tables → Type 0} (inv : Recovers P) where
  recover-Gives : (timeout : ℕ) (w : World) → P w.tables → Gives P (recover_statement timeout w)
  unfolding recover_statement
  recover-Gives timeout w v =
      elim (Bool-cases
        (ltb 0 (count_where (λ r. is_stuck timeout w.now r && is_count_full r) w.hot))) [
          | inl full ↦ rw full tt
          | inr free ↦ rw free (inv.recovers timeout w v)
        ]

  recover-Keeps : (timeout : ℕ) → Keeps P (execute (recover_statement timeout))
  recover-Keeps timeout = Keeps-execute _ (recover-Gives timeout)

  pub recover_stuck-Keeps : (s : Store) → Keeps P (recover_stuck s)
  unfolding recover_stuck
  recover_stuck-Keeps s = search (keeps_rules, recover-Keeps, count_rows-Keeps)

module _ {P : Tables → Type 0} (forgetting : Forgets P) (recovering : Recovers P)
    (burying : Buries P) where
  after_archive-Keeps : (a b : ℕ) (r : Result ℕ) → Keeps P (after_archive a b r)
  unfolding after_archive
  after_archive-Keeps a b (ok n) = Keeps-pure _
  after_archive-Keeps a b (err e) = Keeps-pure _

  after_recovery-Keeps :
      (s : Store) (a : ℕ) (r : Result (ℕ × Option Error)) → Keeps P (after_recovery s a r)
  unfolding after_recovery
  after_recovery-Keeps s a (ok (n, none)) =
      search (keeps_rules, burying.exhausts, after_archive-Keeps)
  after_recovery-Keeps s a (ok (n, some e)) = Keeps-pure _
  after_recovery-Keeps s a (err e) = Keeps-pure _

  after_purge-Keeps : (s : Store) (l : LoopEnd) → Keeps P (after_purge s l)
  unfolding after_purge
  after_purge-Keeps s (total_is n) =
      search (keeps_rules, recover_stuck-Keeps recovering, after_recovery-Keeps)
  after_purge-Keeps s (stopped n e) = Keeps-pure _
  after_purge-Keeps s out_of_fuel = Keeps-pure _

  pub run_all-Keeps : (fuel : ℕ) (s : Store) → Keeps P (run_all fuel s)
  unfolding run_all
  run_all-Keeps fuel s =
      Keeps-bind _ _ (purge_expired_dedup-Keeps forgetting s fuel (pos 0))
        (λ l. after_purge-Keeps s l)
