-- ===== src/System/Retention.antt =====
-- No message is lost: what has been stored is in the hot table or in the archive from then on.
use go_messaging.Prelude.{
  ℕ, suc, ◌+◌, ◌≤◌, ◌≡◌, refl, ap, arith, Bool, not, ◌&&◌, some, List, [], ◌∷◌, All, Bytes,
  bytes_eq, Bool-cases, inl, inr, ℤ,
}
use go_messaging.Message.{Time, FinalStatus}
use go_messaging.Database.{
  DedupRow, HotRow, Tables, World, Act, ◌>>◌, execute, wrapping, rows_affected_or_zero,
}
use go_messaging.Database.Rows.{select_where, delete_where, count_where, member}
use go_messaging.Database.Rows.Laws.{count_where-update, count_where-append}
use go_messaging.Database.Keeps.{Keeps, Gives, keeps_rules}
use go_messaging.Database.Leads.{
  Leads, Keeps-Leads, Leads-pure, Leads-wrapping, Leads-if, Leads-execute, Leads-bind, Leads-in_tx,
}
use go_messaging.Store.{
  Store, insert_dedup_statement, insert_hot_statement, insert_rows, insert_hot_row, stored_as,
  all_accepted,
}
use go_messaging.Store.Claims.{
  has_id, archive_row, archive_rows, copy_to_archive, delete_hot, update_hot, claim_statement,
  claim_rows, set_claimed, set_failed, set_retry, set_processed_at, mark_done_and_archive,
}
use go_messaging.Store.Claims.Ownership.{is_copy, copies}
use go_messaging.Admin.{retry_statement, set_requeued}
use go_messaging.Cleanup.{set_recovered, archive_exhausted, move_exhausted}
use go_messaging.Messaging.{Messaging}
use go_messaging.Invariant.Interface.{IsInvariant}
use go_messaging.Invariant.Valid.{query-Keeps, scan_ids-Keeps}
use go_messaging.System.{Call, run}
use go_messaging.System.Safety.{IsTameCall, run-Keeps}

-- At least `n` rows.
abbrev IsStored : Bytes → ℕ → Tables → Type 0
IsStored id n t = n ≤ copies id t

module _ (id : Bytes) (n : ℕ) where
  update_hot-IsStored :
      (p : HotRow → Bool) (f : HotRow → HotRow) (w : World)
      → ((r : HotRow) → (f r).message_id ≡ r.message_id)
      → IsStored id n w.tables
      → IsStored id n (update_hot p f w).1
  unfolding update_hot copies has_id
  update_hot-IsStored p f w same h =
      omega
        (arith, h, count_where-update (has_id id) p f w.hot (λ r. ap (λ k. bytes_eq k id) (same r)))

  insert_hot_row-count :
      (row : HotRow) (rows : List HotRow)
      → count_where (has_id id) rows ≤ count_where (has_id id) (insert_hot_row row rows)
  unfolding insert_hot_row
  insert_hot_row-count row rows = ground (arith, count_where-append (has_id id) rows (row ∷ []))

  insert_rows-count :
      (jsonb : Bytes → Bytes) (new rows : List HotRow)
      → count_where (has_id id) rows ≤ count_where (has_id id) (insert_rows jsonb new rows)
  unfolding insert_rows
  insert_rows-count jsonb [] rows = omega arith
  insert_rows-count jsonb (r ∷ rs) rows = omega (
    arith,
    insert_hot_row-count (stored_as jsonb r) rows,
    insert_rows-count jsonb rs (insert_hot_row (stored_as jsonb r) rows),
  )

  insert_hot_statement-IsStored :
      (new : List HotRow) (w : World)
      → IsStored id n w.tables
      → Gives (IsStored id n) (insert_hot_statement new w)
  unfolding insert_hot_statement copies
  insert_hot_statement-IsStored new w h =
      elim (Bool-cases (all_accepted w.engine.accepts_hot new)) [
        | inl fits ↦ rw fits (omega (arith, h, insert_rows-count w.engine.jsonb new w.hot))
        | inr refused ↦ rw refused tt
      ]

  insert_dedup_statement-IsStored :
      (row : DedupRow) (w : World)
      → IsStored id n w.tables
      → Gives (IsStored id n) (insert_dedup_statement row w)
  unfolding insert_dedup_statement copies
  insert_dedup_statement-IsStored row w h = elim (Bool-cases (w.engine.accepts_dedup row)) [
    | inl fits ↦ rw fits h
    | inr refused ↦ rw refused tt
  ]

-- Once the rows that pass `p` are copied, they are not needed in the hot table.
abbrev IsCopied : Bytes → ℕ → (HotRow → Bool) → Tables → Type 0
IsCopied id n p t =
    n ≤ count_where (λ r. has_id id r && not (p r)) t.hot + count_where (is_copy id) t.archive

module _ (id : Bytes) (p : HotRow → Bool) where
  count_where-kept :
      (rows : List HotRow)
      → count_where (has_id id) (delete_where p rows)
        ≡ count_where (λ r. has_id id r && not (p r)) rows
  unfolding count_where delete_where
  count_where-kept [] = refl
  count_where-kept (r ∷ rs) = ground (arith, count_where-kept rs)

  count_where-copied :
      (final : FinalStatus) (now : Time) (next : ℕ) (rows : List HotRow)
      → count_where (is_copy id) (archive_rows final now next (select_where p rows))
          + count_where (λ r. has_id id r && not (p r)) rows
        ≡ count_where (has_id id) rows
  unfolding count_where select_where archive_rows archive_row is_copy has_id
  count_where-copied final now next [] = refl
  count_where-copied final now next (r ∷ rs) =
      ground
        (arith, count_where-copied final now next rs, count_where-copied final now (suc next) rs)

module _ (id : Bytes) (n : ℕ) (p : HotRow → Bool) where
  copy_to_archive-IsCopied :
      (final : FinalStatus) (w : World)
      → IsStored id n w.tables
      → Gives (IsCopied id n p) (copy_to_archive final p w)
  unfolding copy_to_archive copies
  copy_to_archive-IsCopied final w h = omega (
    arith,
    h,
    count_where-append (is_copy id) w.archive
        (archive_rows final w.now w.next_id (select_where p w.hot)),
    count_where-copied id p final w.now w.next_id w.hot,
  )

  delete_hot-IsStored :
      (w : World) → IsCopied id n p w.tables → Gives (IsStored id n) (delete_hot p w)
  unfolding delete_hot copies
  delete_hot-IsStored w h = omega (arith, h, count_where-kept id p w.hot)

  -- The two statements that move rows to the archive, in their order.
  move-Leads :
      (final : FinalStatus) (c d : Bytes) {A : Type 0} (end : Act A)
      → Leads (IsStored id n) (IsStored id n) end
      → Leads (IsStored id n) (IsStored id n) (
          wrapping c (execute (copy_to_archive final p))
          >> (wrapping d (execute (delete_hot p)) >> end))
  move-Leads final c d end k =
      Leads-bind _ _ (Leads-wrapping c _ (Leads-execute _ (copy_to_archive-IsCopied final)))
        (λ _. Leads-bind _ _ (Leads-wrapping d _ (Leads-execute _ delete_hot-IsStored)) (λ _. k))

module _ (id : Bytes) (n : ℕ) where
  done-Leads :
      (p : HotRow → Bool) (ts : Time)
      → Leads
          (IsStored id n)
          (IsStored id n)
          (execute (λ w. some (update_hot p (set_processed_at ts) w)))
  unfolding set_processed_at
  done-Leads p ts =
      Leads-execute _ (λ w h. update_hot-IsStored id n p (set_processed_at ts) w (λ r. refl) h)

  affected-Leads : (k : ℕ) → Leads (IsStored id n) (IsStored id n) (rows_affected_or_zero k)
  affected-Leads k = Keeps-Leads _ (search keeps_rules)

  finishes-IsStored :
      (s : Store) (other : Bytes) (ts : Time)
      → Keeps (IsStored id n) (mark_done_and_archive s other ts)
  unfolding mark_done_and_archive
  finishes-IsStored s other ts = Leads-in_tx _ _ _ _ (
      Leads-bind _ _ (Leads-wrapping _ _ (done-Leads _ ts)) (λ affected.
        Leads-bind _ _ (affected-Leads affected) (λ k. search (Leads-if, Leads-pure, move-Leads))))

  move_exhausted-Leads :
      (ids : List Bytes) → Leads (IsStored id n) (IsStored id n) (move_exhausted ids)
  unfolding move_exhausted
  move_exhausted-Leads [] = Leads-pure _
  move_exhausted-Leads (x ∷ xs) =
      move-Leads id n (λ r. member r.message_id (x ∷ xs)) _ _ _ _ (Leads-pure _)

  exhausts-IsStored : (s : Store) (size : ℤ) → Keeps (IsStored id n) (archive_exhausted s size)
  unfolding archive_exhausted
  exhausts-IsStored s size = Leads-in_tx _ _ _ _ (
      Leads-bind _ _ (Leads-wrapping _ _ (Keeps-Leads _ (query-Keeps (IsStored id n) _))) (λ ids.
        Leads-bind _ _ (Keeps-Leads _ (scan_ids-Keeps (IsStored id n) ids))
          (λ u. move_exhausted-Leads ids)))

  same_id-recovered : (now : Time) (r : HotRow) → (set_recovered now r).message_id ≡ r.message_id
  unfolding set_recovered
  same_id-recovered now r = ground arith

  claim_statement-IsStored :
      (worker : Bytes) (size : ℕ) (w : World)
      → IsStored id n w.tables
      → Gives (IsStored id n) (claim_statement worker size w)
  unfolding claim_statement claim_rows set_claimed update_hot
  claim_statement-IsStored worker size w h =
      update_hot-IsStored id n _ (set_claimed worker w.now) w (λ r. refl) h

  IsStored-IsInvariant : IsInvariant (IsStored id n)
  unfolding set_failed set_retry set_requeued retry_statement copies
  IsStored-IsInvariant = record {
    takes_in = record {
      inserts_dedup = insert_dedup_statement-IsStored id n;
      inserts_hot = λ new w _. insert_hot_statement-IsStored id n new w;
    };
    works = record {
      gives_up = record {
        fails = λ p t w. update_hot-IsStored id n p (set_failed w.now t) w (λ r. refl);
      };
      claims = claim_statement-IsStored;
      retries =
          λ worker other k at t w. update_hot-IsStored id n _ (set_retry k at t) w (λ r. refl);
      finishes = finishes-IsStored;
    };
    asks_again = record {
      requeues = λ o before limit w. update_hot-IsStored id n _ set_requeued w (λ r. refl);
      requeues_one = λ other w. update_hot-IsStored id n _ set_requeued w (λ r. refl);
    };
    forgetting = record { forgets = λ other w h. h; expires = λ size w h. h };
    recovering = record {
      recovers =
          λ timeout w. update_hot-IsStored id n _ (set_recovered w.now) w (same_id-recovered w.now);
    };
    burying = record { exhausts = exhausts-IsStored };
  }

  -- Whatever calls are made by whatever instances, and whichever of their statements, commits and
  -- answers fail, the hot table and the archive together have at least as many rows of a message as
  -- they had before. It is asked that each call's instance has a default number of retries that is
  -- not negative, that the handlers that a ProcessBatch can run lose no row of the message, and of a
  -- PurgeOldArchive, which is there to delete from the archive, that it does not.
  pub run-copies :
      (calls : List (Messaging × Call)) (w : World)
      → All (IsTameCall (IsStored id n)) calls
      → n ≤ copies id w.tables
      → n ≤ copies id (run w calls).tables
  run-copies calls w = run-Keeps IsStored-IsInvariant calls w
