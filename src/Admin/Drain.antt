-- ===== src/Admin/Drain.antt =====
-- The loops over batches, of RetryAllFailed and of purgeBatched: they end, and their totals are
-- right.
use go_messaging.Prelude.{
  ℕ, zero, suc, ◌+◌, ◌-◌, ◌≤◌, ◌<◌, ◌≡◌, refl, ◌∙◌, arith, Bool, true, Option, some, List, [], ◌∷◌,
  Bytes, ltb, leb, Bool-cases, inl, inr, All, All-map, ℤ, pos, negsuc, pos_part, leb_ℤ, length,
}
use go_messaging.Message.{Time}
use go_messaging.Config.{positive_or}
use go_messaging.Cipher.{ok}
use go_messaging.Database.{Tables, HotRow, World, Act, ◌>>=◌, wrapping, execute, rows_affected}
use go_messaging.Database.Hoare.{
  Outcome, Triple, Triple-pure, Triple-weaken, Triple-given, Triple-bind, Triple-attempt,
  Triple-wrapping, Triple-execute, Triple-rows_affected,
}
use go_messaging.Database.Rows.{count_where, update_where}
use go_messaging.Database.Rows.Laws.{IsKeyed, IsKeyed-update_where, member-picked}
use go_messaging.Store.{Store}
use go_messaging.Store.Claims.{is_failed, update_hot}
use go_messaging.Invariant.{hot_key}
use go_messaging.Cleanup.{
  purge_expired_dedup, purge_dedup_batch, count_first, delete_first, has_expired,
}
use go_messaging.Admin.{
  LoopEnd, total_is, stopped, out_of_fuel, add_total, next_batch, batches, FilterOptions, retryable,
  processed_before, retry_ids, retry_statement, set_requeued, retry_failed, retry_all_failed,
}

-- How a loop that takes `k` rows in batches may end: with their number, or with an error and no more
-- than what was taken. It does not run out of fuel.
abbrev pub IsDrained : (Tables → ℕ) → ℕ → LoopEnd → Tables → Type 0
IsDrained left k (total_is n) t = n + left t ≡ k
IsDrained left k (stopped n e) t = n + left t ≤ k
IsDrained left k out_of_fuel t = ⊥

abbrev Is : (Tables → Type 0) → (Tables → ℕ) → ℕ → Tables → Type 0
Is P left k t = P t × (left t ≡ k)

-- A batch that takes as many rows as it reports, or fails and puts none back.
abbrev IsBatch : (Tables → Type 0) → (Tables → ℕ) → Act ℕ → Type 0
IsBatch P left batch =
    (k : ℕ) → Triple (Is P left k) (λ n t. P t × (n + left t ≡ k)) (λ t. left t ≤ k) batch

module _ (P : Tables → Type 0) (left : Tables → ℕ) (size : ℕ) (batch : Act ℕ)
    (batch_takes : IsBatch P left batch) where
  add_total-IsDrained :
      (n k : ℕ) (end : LoopEnd) (t : Tables)
      → n ≤ k
      → IsDrained left (k - n) end t
      → IsDrained left k (add_total n end) t
  unfolding add_total
  add_total-IsDrained n k (total_is m) t le h = omega (arith, h, le)
  add_total-IsDrained n k (stopped m e) t le h = omega (arith, h, le)
  add_total-IsDrained n k out_of_fuel t le h = h

  next_batch-IsDrained :
      (fuel k n : ℕ)
      → 1 ≤ size
      → k < suc fuel
      → ((k' : ℕ)
          → k' < fuel
          → Triple (Is P left k') (IsDrained left k') (λ t. ⊥) (batches fuel size batch))
      → Triple
          (λ t. P t × (n + left t ≡ k))
          (IsDrained left k)
          (λ t. ⊥)
          (next_batch size (batches fuel size batch) (ok n))
  unfolding next_batch
  next_batch-IsDrained fuel k n one enough rest = elim (Bool-cases (ltb n size)) [
    | inl last ↦ rw last (Triple-pure _ (λ t h. h.1))
    | inr full ↦ rw full (elim (Bool-cases (leb n k)) [
      | inl fits ↦
          Triple-bind _ _
            (Triple-given _ (rest (k - n) (ground (arith, one, enough)))
              (λ t h. (h.0, omega (arith, h.1))))
            (λ end. Triple-pure _ (λ t g. add_total-IsDrained n k end t (ground arith) g))
      | inr past ↦ record { at = λ w h. absurd (ground (arith, h.1)) }
    ])
  ]

  batches-IsDrained :
      (fuel k : ℕ)
      → 1 ≤ size
      → k < fuel
      → Triple (Is P left k) (IsDrained left k) (λ t. ⊥) (batches fuel size batch)
  unfolding batches next_batch
  batches-IsDrained zero k one enough = absurd (omega (arith, enough))
  batches-IsDrained (suc fuel) k one enough =
      Triple-attempt _ _ (batch_takes k)
        (λ n. next_batch-IsDrained fuel k n one enough (λ k' e. batches-IsDrained fuel k' one e))
        (λ e. Triple-pure _ (λ t h. omega (arith, h)))

positive-size : (d n : ℤ) → leb_ℤ (pos 1) d ≡ true → 1 ≤ pos_part (positive_or d n)
unfolding positive_or
positive-size d n h = elim (Bool-cases (leb_ℤ n (pos 0))) [
  | inl none_given ↦ rw none_given (positive d h)
  | inr given ↦ rw given (positive n (ground arith))
]
  where
    positive : (n : ℤ) → leb_ℤ (pos 1) n ≡ true → 1 ≤ pos_part n
    positive (pos n) h = ground (arith, h)
    positive (negsuc n) h = absurd (ground (arith, h))

-- The rows of the dead-letter queue.
unfoldable pub failed_rows : Tables → ℕ
failed_rows t = count_where (λ r. is_failed r.status) t.hot

-- With unique keys, an update of failed rows takes as many rows out of the queue as it affects.
requeue-count :
    (p : HotRow → Bool) (rows : List HotRow)
    → All (λ r. p r ≡ true → is_failed r.status ≡ true) rows
    → count_where p rows + count_where (λ r. is_failed r.status) (update_where p set_requeued rows)
      ≡ count_where (λ r. is_failed r.status) rows
unfolding count_where update_where set_requeued is_failed
requeue-count p [] h = refl
requeue-count p (r ∷ rs) h = elim (Bool-cases (p r)) [
  | inl hit ↦ rw (hit, h.0 hit) (omega (arith, requeue-count p rs h.1))
  | inr miss ↦ rw miss (omega (arith, requeue-count p rs h.1))
]

retryable_failed :
    (o : FilterOptions) (before : Option Time) (r : HotRow)
    → retryable o before r ≡ true
    → is_failed r.status ≡ true
unfolding retryable
retryable_failed o before r h = ground (arith, h)

abbrev HasKeys : Tables → Type 0
HasKeys t = IsKeyed hot_key t.hot

-- A count that the driver fails to report is not part of the total.
counted-IsBatch :
    (P : Tables → Type 0) (left : Tables → ℕ) (context : Bytes) (statement : World → ℕ × Tables)
    → ((k : ℕ) (w : World)
        → Is P left k w.tables
        → P (statement w).1 × ((statement w).0 + left (statement w).1 ≡ k))
    → IsBatch P left (do n ← wrapping context (execute (λ w. some (statement w))); rows_affected n)
counted-IsBatch P left context statement takes k =
    Triple-bind {R = λ n t. P t × (n + left t ≡ k)} _ _
      (Triple-wrapping context _
        (Triple-execute _ (λ t h. omega (arith, h.1)) (λ w h. takes k w h)))
      (λ n.
        Triple-weaken _ (Triple-rows_affected n (λ t h. omega (arith, h.1))) (λ c t h. rw h.0 h.1))

retry_statement-takes :
    (o : FilterOptions) (before : Option Time) (limit k : ℕ) (w : World)
    → Is HasKeys failed_rows k w.tables
    → HasKeys (retry_statement o before limit w).1
      × ((retry_statement o before limit w).0 + failed_rows (retry_statement o before limit w).1
          ≡ k)
unfolding retry_statement retry_ids update_hot failed_rows set_requeued
retry_statement-takes o before limit k w h = (
  IsKeyed-update_where hot_key _ set_requeued w.hot (λ r. refl) h.0,
  requeue-count _ w.hot (
        All-map (λ r chosen m. retryable_failed o before r (chosen m)) w.hot
          (member-picked hot_key (retryable o before) processed_before limit w.hot h.0))
      ∙ h.1,
)

-- With more fuel than there are FAILED rows, RetryAllFailed ends, whatever fails on the way. Where
-- it returns no error, its total and the FAILED rows that are left make up the FAILED rows that there
-- were; beside an error, the total counts no more than were taken. It is asked that message ids are
-- unique in the hot table.
pub retry_all_failed-IsDrained :
    (o : FilterOptions) (batch_size : ℤ) (fuel : ℕ) (w : World)
    → IsKeyed hot_key w.hot
    → failed_rows w.tables < fuel
    → Outcome
        (IsDrained failed_rows (failed_rows w.tables))
        (λ t. ⊥)
        (retry_all_failed fuel o batch_size w)
unfolding retry_all_failed retry_failed
retry_all_failed-IsDrained o batch_size fuel w keys enough =
    (batches-IsDrained HasKeys failed_rows _ _
        (counted-IsBatch HasKeys failed_rows _ _ (retry_statement-takes o (some w.local_now) _))
        fuel (failed_rows w.tables) (positive-size (pos 500) batch_size refl) enough).at
      w (keys, refl)

delete_first-takes :
    {A : Type 0} (p : A → Bool) (size : ℕ) (rows : List A)
    → count_first p size rows + length (delete_first p size rows) ≡ length rows
unfolding count_first delete_first
delete_first-takes p zero rows = omega arith
delete_first-takes p (suc n) [] = refl
delete_first-takes p (suc n) (r ∷ rs) = elim (Bool-cases (p r)) [
  | inl hit ↦ rw (hit, count_first, delete_first) (omega (arith, delete_first-takes p n rs))
  | inr miss ↦ rw (miss, count_first, delete_first) (omega (arith, delete_first-takes p (suc n) rs))
]

-- With more fuel than there are dedup rows, PurgeExpiredDedup ends, whatever fails on the way, and
-- where it returns no error its total is the number of the rows that it has deleted.
pub purge_expired_dedup-IsDrained :
    (s : Store) (batch_size : ℤ) (fuel : ℕ) (w : World)
    → length w.dedup < fuel
    → Outcome
        (IsDrained (λ t. length t.dedup) (length w.dedup))
        (λ t. ⊥)
        (purge_expired_dedup s fuel batch_size w)
unfolding purge_expired_dedup purge_dedup_batch
purge_expired_dedup-IsDrained s batch_size fuel w enough =
    (batches-IsDrained (λ t. Unit {0}) (λ t. length t.dedup) _ _
        (counted-IsBatch (λ t. Unit {0}) (λ t. length t.dedup) _ _
          (λ k w' h. (tt, delete_first-takes (has_expired w'.now) _ w'.dedup ∙ h.1)))
        fuel (length w.dedup) (positive-size (pos 1000) batch_size refl) enough).at
      w (tt, refl)
