-- ===== src/System/Lifecycle/Ways.antt =====
-- What the statements and the transactions that move rows make of the view of a message.
use go_messaging.Prelude.{
  ℕ, ◌≡◌, refl, ap, sym, ◌∙◌, arith, Bool, true, false, Option, none, some, List, [], ◌∷◌, ◌++◌,
  Bytes, bytes_eq, bytes_eq-eq, leb, ◌≤◌, All, Bool-cases, inl, inr, if◌then◌else◌,
}
use mathlib.Core.List.{append-nil}
use go_messaging.Message.{
  pending, processing, failed, FinalStatus, final_failed, final_processed, Time,
}
use go_messaging.Database.{HotRow, DedupRow, Tables, World}
use go_messaging.Database.Rows.{select_where, count_where, member}
use go_messaging.Database.Rows.Laws.{IsKeyed, IsKeyed-update_where}
use go_messaging.Database.Keeps.{Gives}
use go_messaging.Store.{
  insert_hot_statement, insert_dedup_statement, insert_rows, insert_hot_row, stored_as,
  all_accepted,
}
use go_messaging.Store.Claims.{
  has_id, owned_by, is_pending, is_processing, update_hot, archive_rows, set_processed_at,
}
use go_messaging.Store.Claims.Moving.{IsMoved, IsFinished, marked}
use go_messaging.Cleanup.Exhaustion.{IsBuried}
use go_messaging.Invariant.{hot_key}
use go_messaging.Invariant.Interface.{IsFresh}
use go_messaging.System.Lifecycle.{
  Kind, entering, finishing, burying, View, ◌⟶⟨◌⟩◌, enters, moves, finishes, buries, ◌⟶*⟨◌⟩◌, goes,
  find_row, status_of, outcomes, view,
}
use go_messaging.System.Lifecycle.Updates.{IsMove, pending_status, processing_status, failed_status}
use go_messaging.System.Lifecycle.Rows.{
  updated, find_row-update_where, All-find_row, find_row-append, outcomes-append, outcomes-absent,
  find_row-delete_where, outcomes-copied, find_row-owned,
}

module _ (allowed : Kind → Bool) (id : Bytes) (start : View) where
  updated-way :
      (p : HotRow → Bool) (f : HotRow → HotRow) (found : Option HotRow) (past : List FinalStatus)
      → ((r : HotRow) → found ≡ some r → IsMove allowed p f r)
      → start ⟶*⟨ allowed ⟩ (status_of found, past)
      → start ⟶*⟨ allowed ⟩ (status_of (updated p f found), past)
  unfolding status_of updated IsMove
  updated-way p f none past moved way = way
  updated-way p f (some r) past moved way = elim (Bool-cases (p r)) [
    | inl hit ↦ rw hit (let (k, may, move) = moved r refl hit in goes way may (moves move))
    | inr miss ↦ rw miss way
  ]

  -- An update whose moves are allowed, whatever row of the message it finds.
  pub update_hot-way :
      (p : HotRow → Bool) (f : HotRow → HotRow) (w : World)
      → ((r : HotRow) → (f r).message_id ≡ r.message_id)
      → All (IsMove allowed p f) w.hot
      → start ⟶*⟨ allowed ⟩ view id w.tables
      → start ⟶*⟨ allowed ⟩ view id (update_hot p f w).1
  unfolding update_hot view
  update_hot-way p f w same moved way = rw (find_row-update_where id p f w.hot same) (
      updated-way p f (find_row id w.hot) (outcomes id w.archive)
        (λ r e. (All-find_row id (IsMove allowed p f) w.hot moved e).1) way)

  entered-way :
      (row : HotRow) (found : Option HotRow) (past : List FinalStatus)
      → allowed entering ≡ true
      → is_pending row.status ≡ true
      → start ⟶*⟨ allowed ⟩ (status_of found, past)
      → start ⟶*⟨ allowed ⟩ (
        status_of
            (elim found [ none ↦ if has_id id row then some row else none | some r ↦ some r ]),
        past,
      )
  unfolding status_of
  entered-way row (some r) past may waits way = way
  entered-way row none past may waits way = elim (Bool-cases (has_id id row)) [
    | inl hit ↦
        let new : row.status ≡ pending = pending_status row.status waits in
        rw (hit, new) (goes way may enters)
    | inr miss ↦ rw miss way
  ]

  insert_hot_row-way :
      (row : HotRow) (rows : List HotRow) (past : List FinalStatus)
      → allowed entering ≡ true
      → is_pending row.status ≡ true
      → start ⟶*⟨ allowed ⟩ (status_of (find_row id rows), past)
      → start ⟶*⟨ allowed ⟩ (status_of (find_row id (insert_hot_row row rows)), past)
  unfolding insert_hot_row
  insert_hot_row-way row rows past may waits way =
      elim (Bool-cases (leb 1 (count_where (λ r. bytes_eq r.message_id row.message_id) rows))) [
        | inl old ↦ rw old way
        | inr new ↦
            rw (new, find_row-append id rows row)
              (entered-way row (find_row id rows) past may waits way)
      ]

  insert_rows-way :
      (jsonb : Bytes → Bytes) (new rows : List HotRow) (past : List FinalStatus)
      → allowed entering ≡ true
      → All IsFresh new
      → start ⟶*⟨ allowed ⟩ (status_of (find_row id rows), past)
      → start ⟶*⟨ allowed ⟩ (status_of (find_row id (insert_rows jsonb new rows)), past)
  unfolding insert_rows stored_as
  insert_rows-way jsonb [] rows past may fresh way = way
  insert_rows-way jsonb (r ∷ rs) rows past may fresh way =
      insert_rows-way jsonb rs _ past may fresh.1
        (insert_hot_row-way (stored_as jsonb r) rows past may fresh.0.waits way)

  pub insert_hot_statement-way :
      (new : List HotRow) (w : World)
      → allowed entering ≡ true
      → All IsFresh new
      → start ⟶*⟨ allowed ⟩ view id w.tables
      → Gives (λ t. start ⟶*⟨ allowed ⟩ view id t) (insert_hot_statement new w)
  unfolding insert_hot_statement view
  insert_hot_statement-way new w may fresh way =
      elim (Bool-cases (all_accepted w.engine.accepts_hot new)) [
        | inl fits ↦
            rw fits (insert_rows-way w.engine.jsonb new w.hot (outcomes id w.archive) may fresh way)
        | inr refused ↦ rw refused tt
      ]

  pub insert_dedup_statement-way :
      (row : DedupRow) (w : World)
      → start ⟶*⟨ allowed ⟩ view id w.tables
      → Gives (λ t. start ⟶*⟨ allowed ⟩ view id t) (insert_dedup_statement row w)
  unfolding insert_dedup_statement view
  insert_dedup_statement-way row w way = elim (Bool-cases (w.engine.accepts_dedup row)) [
    | inl fits ↦ rw fits way
    | inr refused ↦ rw refused tt
  ]

  -- What is found where rows are moved to the archive by their ids.
  archived-way :
      (final : FinalStatus) (q : Bytes → Bool) (now : Time) (next : ℕ) (rows : List HotRow)
      (found : Option HotRow) (past : List FinalStatus) (k : Kind)
      → allowed k ≡ true
      → IsKeyed hot_key rows
      → find_row id rows ≡ found
      → ((r : HotRow)
          → found ≡ some r
          → q id ≡ true
          → (some r.status, past) ⟶⟨ k ⟩ (none, past ++ final ∷ []))
      → start ⟶*⟨ allowed ⟩ (status_of found, past)
      → start ⟶*⟨ allowed ⟩ (
        status_of (if q id then none else found),
        past ++ outcomes id (archive_rows final now next (select_where (λ r. q r.message_id) rows)),
      )
  unfolding status_of
  archived-way final q now next rows none past k may keys e leaves way =
      rw (outcomes-absent id q final now next rows e, append-nil past)
        (elim (Bool-cases (q id)) [ inl hit ↦ rw hit way | inr miss ↦ rw miss way ])
  archived-way final q now next rows (some r) past k may keys e leaves way =
      rw (outcomes-copied id q final now next rows keys e) (elim (Bool-cases (q id)) [
        | inl hit ↦ rw hit (goes way may (leaves r refl hit))
        | inr miss ↦ rw (miss, append-nil past) way
      ])

  -- Rows that the archive takes by their ids.
  moved-way :
      (final : FinalStatus) (q : Bytes → Bool) (t₁ t : Tables) (k : Kind)
      → allowed k ≡ true
      → IsKeyed hot_key t₁.hot
      → IsMoved final (λ r. q r.message_id) t₁ t
      → ((r : HotRow)
          → find_row id t₁.hot ≡ some r
          → q id ≡ true
          → (some r.status, outcomes id t₁.archive)
            ⟶⟨ k ⟩ (none, outcomes id t₁.archive ++ final ∷ []))
      → start ⟶*⟨ allowed ⟩ view id t₁
      → start ⟶*⟨ allowed ⟩ view id t
  unfolding view
  moved-way final q t₁ t k may keys moved leaves way =
      rw (moved.hot, moved.archive, find_row-delete_where id q t₁.hot, outcomes-append)
        (archived-way final q moved.at t₁.next_id t₁.hot (find_row id t₁.hot)
          (outcomes id t₁.archive) k may keys refl leaves way)

status-injective : (r r' : HotRow) → status_of (some r) ≡ status_of (some r') → r.status ≡ r'.status
unfolding status_of
status-injective r r' h = cc

owned_processing :
    (worker id : Bytes) (r : HotRow) → owned_by worker id r ≡ true → is_processing r.status ≡ true
unfolding owned_by
owned_processing worker id r h = ground arith

module _ (id : Bytes) where
  -- To mark a row as done leaves its status.
  pub marked-live :
      (worker other : Bytes) (ts : Time) (t₀ : Tables)
      → status_of (find_row id (marked worker other ts t₀).hot) ≡ status_of (find_row id t₀.hot)
  unfolding marked set_processed_at
  marked-live worker other ts t₀ =
      rw (find_row-update_where id (owned_by worker other) (set_processed_at ts) t₀.hot (λ r. refl))
        (same (find_row id t₀.hot))
    where
      same :
          (found : Option HotRow)
          → status_of (updated (owned_by worker other) (set_processed_at ts) found)
            ≡ status_of found
      same none = unfold updated in refl
      same (some r) = unfold updated status_of in ground arith

-- The transactions that move rows.
module _ (allowed : Kind → Bool) (id : Bytes) (start : View) where
  -- The row of the message that is done is PROCESSING.
  finished-processing :
      (worker other : Bytes) (ts : Time) (t₀ : Tables) (r : HotRow)
      → IsKeyed hot_key t₀.hot
      → 1 ≤ count_where (owned_by worker other) t₀.hot
      → find_row id (marked worker other ts t₀).hot ≡ some r
      → bytes_eq id other ≡ true
      → r.status ≡ processing
  finished-processing worker other ts t₀ r keys owned e hit =
      let (held, there, own) = find_row-owned other worker t₀.hot keys owned in
      let same : status_of (some r) ≡ status_of (some held) =
        ap status_of (sym e)
        ∙ marked-live id worker other ts t₀
        ∙ ap (λ k. status_of (find_row k t₀.hot)) (bytes_eq-eq id other hit)
        ∙ ap status_of there in
      status-injective r held same
      ∙ processing_status held.status (owned_processing worker other held own)

  pub finished-way :
      (worker other : Bytes) (ts : Time) (t₀ : Tables) (b : Bool) (t : Tables)
      → allowed finishing ≡ true
      → IsKeyed hot_key t₀.hot
      → IsFinished worker other ts t₀ b t
      → start ⟶*⟨ allowed ⟩ view id t₀
      → start ⟶*⟨ allowed ⟩ view id t
  unfolding has_id marked view set_processed_at
  finished-way worker other ts t₀ false t may keys same way = rw same way
  finished-way worker other ts t₀ true t may keys (owned, moved) way =
      moved-way allowed id start final_processed (λ k. bytes_eq k other) (marked worker other ts t₀)
        t finishing may (IsKeyed-update_where hot_key _ _ t₀.hot (λ r. refl) keys) moved
        (λ r e hit.
          let was : r.status ≡ processing =
            finished-processing worker other ts t₀ r keys owned e hit in
          rw was finishes)
        (rw (marked-live id worker other ts t₀) way)

  pub buried-way :
      (t₀ : Tables) (n : ℕ) (t : Tables)
      → allowed burying ≡ true
      → IsKeyed hot_key t₀.hot
      → IsBuried t₀ n t
      → start ⟶*⟨ allowed ⟩ view id t₀
      → start ⟶*⟨ allowed ⟩ view id t
  unfolding has_id
  buried-way t₀ n t may keys (inl same) way = rw same way
  buried-way t₀ n t may keys (inr (ids, dead, moved)) way =
      moved-way allowed id start final_failed (λ k. member k ids) t₀ t burying may keys moved
        (λ r e hit.
          let (named, dies) = All-find_row id _ t₀.hot dead e in
          let listed = ap (λ k. member k ids) (bytes_eq-eq r.message_id id named) ∙ hit in
          let was : r.status ≡ failed = failed_status r.status (dies listed) in rw was buries)
        way
