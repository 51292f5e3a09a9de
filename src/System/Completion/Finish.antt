-- ===== src/System/Completion/Finish.antt =====
-- store.go, markDoneAndArchive: what it makes of every message where no call of the database fails.
use go_messaging.Prelude.{
  ℕ, ◌≤◌, ◌≡◌, ◌≢◌, refl, ap, sym, ◌∙◌, arith, Bool, true, false, Option, none, some, List, [], ◌∷◌,
  ◌++◌, Bytes, bytes_eq, bytes_eq-eq, codes, leb, Bool-cases, inl, inr, if◌then◌else◌,
}
use mathlib.Core.List.{append-nil}
use go_messaging.Message.{Status, Time, FinalStatus, final_processed}
use go_messaging.Cipher.{Result, ok, err}
use go_messaging.Database.{
  HotRow, Tables, World, ◌>>◌, execute, wrapping, pure, commits, rolls_back,
}
use go_messaging.Database.Total.{
  IsFaultless, Ran, Runs, Runs-pure, Runs-wrapping, Runs-bind, Runs-execute,
  Runs-rows_affected_or_zero, Runs-in_tx,
}
use go_messaging.Database.Hoare.{Outcome}
use go_messaging.Database.Rows.{select_where, update_where, delete_where, count_where}
use go_messaging.Database.Rows.Laws.{IsKeyed, IsKeyed-update_where, count_where-update}
use go_messaging.Store.{Store}
use go_messaging.Store.Claims.{
  has_id, owned_by, update_hot, set_processed_at, archive_rows, copy_to_archive, delete_hot,
  mark_done_and_archive,
}
use go_messaging.Store.Claims.Moving.{IsFinished, marked, mark_done_and_archive-IsFinished}
use go_messaging.Invariant.{IsValid, hot_key}
use go_messaging.Invariant.Valid.{IsValid-IsInvariant}
use go_messaging.System.Lifecycle.{View, find_row, status_of, outcomes, view}
use go_messaging.System.Lifecycle.Rows.{
  find_row-delete_where, outcomes-append, outcomes-absent, outcomes-copied, find_row-owned,
}
use go_messaging.System.Lifecycle.Ways.{marked-live}

-- The worker has a PROCESSING row of the message.
abbrev pub IsHeld : Bytes → Bytes → Tables → Type 0
IsHeld worker id t = 1 ≤ count_where (owned_by worker id) t.hot

module _ (id : Bytes) where
  move-Runs :
      Runs
        (λ t. Unit {0})
        (λ end t. (a : Bool) × (end ≡ commits a) × (a ≡ true))
        (do
          wrapping
              (codes "message: archive insert")
              (execute (copy_to_archive final_processed (has_id id)))
          wrapping (codes "message: archive delete") (execute (delete_hot (has_id id)))
          pure (commits true))
  unfolding copy_to_archive delete_hot
  move-Runs =
      Runs-bind {R = λ u t. Unit {0}} _ _
        (Runs-wrapping _ _ (Runs-execute _ (λ w h. (tt, _, refl, tt))))
        (λ u.
          Runs-bind {R = λ u t. Unit {0}} _ _
            (Runs-wrapping _ _ (Runs-execute _ (λ w h. (tt, _, refl, tt))))
            (λ v. Runs-pure _ (λ t h. (true, refl, refl))))

  rest-Runs :
      (n k : ℕ)
      → Runs
          (λ t. (k ≡ n) × (1 ≤ n))
          (λ end t. (a : Bool) × (end ≡ commits a) × (a ≡ true))
          (if leb k 0 then pure (rolls_back false) else (do
            wrapping
                (codes "message: archive insert")
                (execute (copy_to_archive final_processed (has_id id)))
            wrapping (codes "message: archive delete") (execute (delete_hot (has_id id)))
            pure (commits true)))
  rest-Runs n k = record {
    at = λ w f h.
        let some_rows : leb k 0 ≡ false = ground (arith, h.0, h.1) in
        rw some_rows (move-Runs.at w f tt);
  }

  -- A worker that holds the row is told so.
  finish-Runs :
      (s : Store) (ts : Time)
      → Runs (IsHeld s.cfg.worker_id id) (λ b t. b ≡ true) (mark_done_and_archive s id ts)
  unfolding mark_done_and_archive update_hot
  finish-Runs s ts = Runs-in_tx _ _ _ (
      Runs-bind {R = λ n t. 1 ≤ n} _ _ (Runs-wrapping _ _ (Runs-execute _ (λ w h. (_, _, refl, h))))
        (λ n. Runs-bind _ _ (Runs-rows_affected_or_zero n) (λ k. rest-Runs n k)))

module _ (k : Bytes) (q : Bytes → Bool) (final : FinalStatus) (now : Time) (next : ℕ)
    (rows : List HotRow) (keys : IsKeyed hot_key rows) where
  -- No outcome is recorded of a message whose id the move does not take.
  outcomes-untaken :
      q k ≡ false
      → outcomes k (archive_rows final now next (select_where (λ r. q r.message_id) rows)) ≡ []
  outcomes-untaken miss = by_row (find_row k rows) refl
    where
      by_row :
          (found : Option HotRow)
          → find_row k rows ≡ found
          → outcomes k (archive_rows final now next (select_where (λ r. q r.message_id) rows)) ≡ []
      by_row none e = outcomes-absent k q final now next rows e
      by_row (some r) e = outcomes-copied k q final now next rows keys e ∙ rw miss refl

  outcomes-taken :
      (found : Option HotRow)
      → find_row k rows ≡ found
      → found ≢ none
      → q k ≡ true
      → outcomes k (archive_rows final now next (select_where (λ r. q r.message_id) rows))
        ≡ final ∷ []
  outcomes-taken none e there hit = absurd (there refl)
  outcomes-taken (some r) e there hit = outcomes-copied k q final now next rows keys e ∙ rw hit refl

no_status : {s : Status} → some s ≡ status_of none → ⊥
unfolding status_of
no_status h = cc

-- What one message that is done comes to, for each message.
unfoldable pub after_done : Bytes → View → Bytes → View
after_done id v k = if bytes_eq k id then (none, v.1 ++ final_processed ∷ []) else v

module _ (worker id : Bytes) (ts : Time) (t₀ t : Tables) (keys : IsKeyed hot_key t₀.hot) where
  marked-IsKeyed : IsKeyed hot_key (marked worker id ts t₀).hot
  unfolding marked set_processed_at
  marked-IsKeyed = IsKeyed-update_where hot_key _ _ t₀.hot (λ r. refl) keys

  marked-there :
      (k : Bytes)
      → IsHeld worker id t₀
      → bytes_eq k id ≡ true
      → find_row k (marked worker id ts t₀).hot ≢ none
  unfolding status_of
  marked-there k held hit gone =
      let (r, there, own) = find_row-owned id worker t₀.hot keys held in
      let live : status_of none ≡ some r.status =
        ap status_of (sym gone)
        ∙ marked-live k worker id ts t₀
        ∙ ap (λ j. status_of (find_row j t₀.hot)) (bytes_eq-eq k id hit)
        ∙ ap status_of there in
      no_status (sym live)

  finished-view :
      (k : Bytes) → IsFinished worker id ts t₀ true t → view k t ≡ after_done id (view k t₀) k
  unfolding view has_id after_done marked status_of
  finished-view k (held, moved) =
      let rows = (marked worker id ts t₀).hot in
      let by_id : Bytes → Bool = λ j. bytes_eq j id in
      rw
        (
          moved.hot,
          moved.archive,
          find_row-delete_where k by_id rows,
          outcomes-append k t₀.archive (
              archive_rows final_processed moved.at t₀.next_id
                (select_where (λ r. bytes_eq r.message_id id) rows)),
        )
        (elim (Bool-cases (bytes_eq k id)) [
          | inl hit ↦
              rw
                (
                  hit,
                  outcomes-taken k by_id final_processed moved.at t₀.next_id rows marked-IsKeyed
                      (find_row k rows) refl (marked-there k held hit) hit,
                )
                refl
          | inr miss ↦
              rw
                (
                  miss,
                  outcomes-untaken k by_id final_processed moved.at t₀.next_id rows marked-IsKeyed
                      miss,
                  append-nil (outcomes k t₀.archive),
                  marked-live k worker id ts t₀,
                )
                refl
        ])

-- A count that a deletion spares.
count_where-spared :
    (q p : HotRow → Bool) (rows : List HotRow)
    → ((r : HotRow) → q r ≡ true → p r ≡ false)
    → count_where q (delete_where p rows) ≡ count_where q rows
unfolding count_where delete_where
count_where-spared q p [] spared = refl
count_where-spared q p (r ∷ rs) spared =
    ground (arith, Bool-cases (q r), spared r, count_where-spared q p rs spared)

module _ (worker id : Bytes) (ts : Time) (t₀ t : Tables) where
  other_row :
      (k : Bytes) (r : HotRow)
      → bytes_eq k id ≡ false
      → owned_by worker k r ≡ true
      → has_id id r ≡ false
  unfolding owned_by has_id
  other_row k r other owned =
      let same : bytes_eq r.message_id k ≡ true = ground (arith, owned) in
      ap (λ j. bytes_eq j id) (bytes_eq-eq r.message_id k same) ∙ other

  -- The worker still holds the rows of the other messages.
  finished-IsHeld :
      (k : Bytes)
      → bytes_eq k id ≡ false
      → IsFinished worker id ts t₀ true t
      → IsHeld worker k t₀
      → IsHeld worker k t
  unfolding marked set_processed_at owned_by
  finished-IsHeld k other (owned, moved) held = omega (
    arith,
    held,
    ap (count_where (owned_by worker k)) moved.hot,
    count_where-spared (owned_by worker k) (has_id id)
        (update_where (owned_by worker id) (set_processed_at ts) t₀.hot) (λ r. other_row k r other),
    count_where-update (owned_by worker k) (owned_by worker id) (set_processed_at ts) t₀.hot
        (λ r. refl),
  )

-- The message is done, and the tables are valid.
pub IsComplete : Bytes → Bytes → Tables → Tables → Type 0
IsComplete worker id t₀ t = IsValid t × (ts : Time) × IsFinished worker id ts t₀ true t

-- What markDoneAndArchive comes to for a worker that holds the row.
pub finish-Ran :
    (s : Store) (id : Bytes) (ts : Time) (w : World)
    → IsFaultless w
    → IsValid w.tables
    → IsHeld s.cfg.worker_id id w.tables
    → Ran
        (λ b t. (b ≡ true) × IsComplete s.cfg.worker_id id w.tables t)
        (mark_done_and_archive s id ts w)
unfolding IsComplete
finish-Ran s id ts w faultless valid held =
    both (mark_done_and_archive s id ts w) ((finish-Runs id s ts).at w faultless held)
      (mark_done_and_archive-IsFinished s id ts w)
      ((IsValid-IsInvariant.works.finishes s id ts).at w valid)
  where
    both :
        (x : Result Bool × World)
        → Ran (λ b t. b ≡ true) x
        → Outcome (IsFinished s.cfg.worker_id id ts w.tables) (λ t. t ≡ w.tables) x
        → IsValid x.1.tables
        → Ran (λ b t. (b ≡ true) × IsComplete s.cfg.worker_id id w.tables t) x
    both (ok true, w') (f, e) done v = (f, (refl, (v, ts, done)))
    both (ok false, w') (f, e) done v = absurd cc
    both (err e, w') r done v = absurd r

pub complete-view :
    (worker id : Bytes) (t₀ t : Tables) (k : Bytes)
    → IsValid t₀
    → IsComplete worker id t₀ t
    → view k t ≡ after_done id (view k t₀) k
unfolding IsComplete
complete-view worker id t₀ t k valid (v, ts, done) =
    finished-view worker id ts t₀ t valid.keys k done

pub complete-IsHeld :
    (worker id : Bytes) (t₀ t : Tables) (k : Bytes)
    → bytes_eq k id ≡ false
    → IsComplete worker id t₀ t
    → IsHeld worker k t₀
    → IsHeld worker k t
unfolding IsComplete
complete-IsHeld worker id t₀ t k other (v, ts, done) =
    finished-IsHeld worker id ts t₀ t k other done

pub complete-IsValid : (worker id : Bytes) (t₀ t : Tables) → IsComplete worker id t₀ t → IsValid t
unfolding IsComplete
complete-IsValid worker id t₀ t (v, ts, done) = v
