-- ===== src/Invariant/Valid.antt =====
-- The validity of the tables is an invariant.
use go_messaging.Prelude.{
  All-map, ℕ, zero, suc, ◌≤◌, ◌<◌, ◌≡◌, refl, Bool, some, List, [], ◌∷◌, Bytes, ℤ, arith,
  Bool-cases, inl, inr, All, bytes_eq,
}
use go_messaging.Message.{Time, FinalStatus}
use go_messaging.Database.{HotRow, Tables, World, execute}
use go_messaging.Database.Keeps.{
  Keeps, Keeps-bind, Keeps-wrapping, Keeps-execute, Keeps-pure, Keeps-in_tx, Keeps-db_call,
  keeps_rules,
}
use go_messaging.Database.Rows.{count_where}
use go_messaging.Database.Rows.Laws.{IsKeyed, IsKeyed-delete_where}
use go_messaging.Store.{Store}
use go_messaging.Store.Claims.{
  update_hot, owned_by, set_failed, set_retry, set_processed_at, copy_to_archive, delete_hot,
  mark_done_and_archive,
}
use go_messaging.Admin.{has_dedup}
use go_messaging.Cleanup.{
  delete_first, count_first, has_expired, purge_old_archive, is_old, is_stuck, set_recovered,
  archive_exhausted, scan_ids, move_exhausted,
}
use go_messaging.Invariant.{
  IsValid, dedup_key, set_failed-IsValidRow, set_retry-IsValidRow, set_processed_at-IsValidRow,
  set_recovered-IsValidRow,
}
use go_messaging.Invariant.Interface.{IsInvariant}
use go_messaging.Invariant.Upkeep.{batches-Keeps}
use go_messaging.Invariant.Statements.{
  insert_dedup_statement-IsValid, insert_hot_statement-IsValid, claim_statement-IsValid,
  copy_to_archive-IsValid, delete_hot-IsValid, retry_statement-IsValid, retry_one-IsValid,
  update_hot-IsValid_any,
}

copy-Keeps :
    (final : FinalStatus) (p : HotRow → Bool) → Keeps IsValid (execute (copy_to_archive final p))
copy-Keeps final p = Keeps-execute _ (copy_to_archive-IsValid final p)

delete-Keeps : (p : HotRow → Bool) → Keeps IsValid (execute (delete_hot p))
delete-Keeps p = Keeps-execute _ (delete_hot-IsValid p)

done-Keeps :
    (ts : Time) (p : HotRow → Bool)
    → Keeps IsValid (execute (λ w. some (update_hot p (set_processed_at ts) w)))
unfolding set_processed_at
done-Keeps ts p = Keeps-execute _ (λ w.
    update_hot-IsValid_any p (set_processed_at ts) w (λ r. refl)
      (λ r hr. set_processed_at-IsValidRow ts r hr))

mark_done_and_archive-IsValid :
    (s : Store) (id : Bytes) (ts : Time) → Keeps IsValid (mark_done_and_archive s id ts)
unfolding mark_done_and_archive
mark_done_and_archive-IsValid s id ts =
    search (keeps_rules, done-Keeps, copy-Keeps, delete-Keeps) depth 10

-- A delete with a limit takes rows away and adds none.
module _ {A : Type 0} where
  All-delete_first :
      (P : A → Type 0) (p : A → Bool) (n : ℕ) (rows : List A)
      → All P rows
      → All P (delete_first p n rows)
  unfolding delete_first
  All-delete_first P p zero rows h = h
  All-delete_first P p (suc n) [] h = tt
  All-delete_first P p (suc n) (r ∷ rs) h = elim (Bool-cases (p r)) [
    | inl hit ↦ rw (hit, delete_first) (All-delete_first P p n rs h.1)
    | inr miss ↦ rw (miss, delete_first) (h.0, All-delete_first P p (suc n) rs h.1)
  ]

  count_where-delete_first :
      (q p : A → Bool) (n : ℕ) (rows : List A)
      → count_where q (delete_first p n rows) ≤ count_where q rows
  unfolding delete_first count_where
  count_where-delete_first q p zero rows = omega arith
  count_where-delete_first q p (suc n) [] = omega arith
  count_where-delete_first q p (suc n) (r ∷ rs) =
      ground (arith, count_where-delete_first q p n rs, count_where-delete_first q p (suc n) rs)

  IsKeyed-delete_first :
      (key : A → Bytes) (p : A → Bool) (n : ℕ) (rows : List A)
      → IsKeyed key rows
      → IsKeyed key (delete_first p n rows)
  unfolding delete_first
  IsKeyed-delete_first key p zero rows h = h
  IsKeyed-delete_first key p (suc n) [] h = tt
  IsKeyed-delete_first key p (suc n) (r ∷ rs) h = elim (Bool-cases (p r)) [
    | inl hit ↦ rw (hit, delete_first) (IsKeyed-delete_first key p n rs h.1)
    | inr miss ↦
        rw (miss, delete_first)
          (
            omega
                (arith, count_where-delete_first (λ x. bytes_eq (key x) (key r)) p (suc n) rs, h.0),
            IsKeyed-delete_first key p (suc n) rs h.1,
          )
  ]

pub purge_archive-IsValid :
    (millis size : ℕ) (w : World)
    → IsValid w.tables
    → IsValid (record w.tables { archive = delete_first (is_old millis w.now) size w.archive })
purge_archive-IsValid millis size w v = record {
  rows = v.rows;
  keys = v.keys;
  dedup_keys = v.dedup_keys;
  numbered =
      All-delete_first (λ r. r.id < w.next_id) (is_old millis w.now) size w.archive v.numbered;
}

purge_archive-Keeps :
    (millis size : ℕ)
    → Keeps IsValid (
        execute (λ w. some (
          count_first (is_old millis w.now) size w.archive,
          record w.tables { archive = delete_first (is_old millis w.now) size w.archive },
        )))
purge_archive-Keeps millis size = Keeps-execute _ (purge_archive-IsValid millis size)

pub purge_old_archive-IsValid :
    (s : Store) (fuel millis : ℕ) (size : ℤ) → Keeps IsValid (purge_old_archive s fuel millis size)
unfolding purge_old_archive
purge_old_archive-IsValid s fuel millis size =
    batches-Keeps IsValid fuel _ _ (search (keeps_rules, purge_archive-Keeps))

pub scan_ids-Keeps : (P : Tables → Type 0) (ids : List Bytes) → Keeps P (scan_ids ids)
unfolding scan_ids
scan_ids-Keeps P [] = Keeps-db_call
scan_ids-Keeps P (id ∷ ids) =
    Keeps-bind _ _ (Keeps-wrapping _ _ Keeps-db_call) (λ _. scan_ids-Keeps P ids)

move_exhausted-Keeps : (ids : List Bytes) → Keeps IsValid (move_exhausted ids)
unfolding move_exhausted
move_exhausted-Keeps [] = Keeps-pure _
move_exhausted-Keeps (id ∷ ids) = search (keeps_rules, copy-Keeps, delete-Keeps) depth 7

-- A query changes no table.
pub query-Keeps :
    (P : Tables → Type 0) {A : Type 0} (f : World → A)
    → Keeps P (execute (λ w. some (f w, w.tables)))
query-Keeps P f = Keeps-execute _ (λ w h. h)

archive_exhausted-IsValid : (s : Store) (size : ℤ) → Keeps IsValid (archive_exhausted s size)
unfolding archive_exhausted
archive_exhausted-IsValid s size = Keeps-in_tx _ _ _ (
    Keeps-bind _ _ (Keeps-wrapping _ _ (query-Keeps IsValid _))
      (λ ids. Keeps-bind _ _ (scan_ids-Keeps IsValid ids) (λ _. move_exhausted-Keeps ids)))

same_id-recovered : (now : Time) (r : HotRow) → (set_recovered now r).message_id ≡ r.message_id
unfolding set_recovered
same_id-recovered now r = ground arith

fails-IsValid :
    (p : HotRow → Bool) (t : Bytes) (w : World)
    → IsValid w.tables
    → IsValid (update_hot p (set_failed w.now t) w).1
unfolding set_failed
fails-IsValid p t w =
    update_hot-IsValid_any p (set_failed w.now t) w (λ r. refl)
      (λ r hr. set_failed-IsValidRow w.now t r hr)

retries-IsValid :
    (worker id : Bytes) (n : ℕ) (at : Time) (t : Bytes) (w : World)
    → IsValid w.tables
    → IsValid (update_hot (owned_by worker id) (set_retry n at t) w).1
unfolding set_retry
retries-IsValid worker id n at t w =
    update_hot-IsValid_any (owned_by worker id) (set_retry n at t) w (λ r. refl)
      (λ r hr. set_retry-IsValidRow n at t r hr)

pub IsValid-IsInvariant : IsInvariant IsValid
IsValid-IsInvariant = record {
  takes_in = record {
    inserts_dedup = insert_dedup_statement-IsValid;
    inserts_hot = λ new w h. insert_hot_statement-IsValid new w (All-map (λ r f. f.valid) new h);
  };
  works = record {
    gives_up = record { fails = fails-IsValid };
    claims = claim_statement-IsValid;
    retries = retries-IsValid;
    finishes = mark_done_and_archive-IsValid;
  };
  asks_again = record { requeues = retry_statement-IsValid; requeues_one = retry_one-IsValid };
  forgetting = record {
    forgets = λ id w v. record {
      rows = v.rows;
      keys = v.keys;
      dedup_keys = IsKeyed-delete_where dedup_key (has_dedup id) w.dedup v.dedup_keys;
      numbered = v.numbered;
    };
    expires = λ size w v. record {
      rows = v.rows;
      keys = v.keys;
      dedup_keys = IsKeyed-delete_first dedup_key (has_expired w.now) size w.dedup v.dedup_keys;
      numbered = v.numbered;
    };
  };
  recovering = record {
    recovers = λ timeout w.
        update_hot-IsValid_any (is_stuck timeout w.now) (set_recovered w.now) w
          (same_id-recovered w.now) (set_recovered-IsValidRow w.now);
  };
  burying = record { exhausts = archive_exhausted-IsValid };
}
