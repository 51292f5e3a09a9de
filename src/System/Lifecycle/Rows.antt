-- ===== src/System/Lifecycle/Rows.antt =====
-- What the row operations make of the first row with an id, and of the outcomes that are recorded.
use go_messaging.Prelude.{
  ℕ, suc, ◌≤◌, ◌≡◌, refl, ap, sym, ◌∙◌, arith, Bool, true, false, Option, none, some, List, [], ◌∷◌,
  ◌++◌, Bytes, bytes_eq, bytes_eq-eq, All, Bool-cases, inl, inr, if◌then◌else◌,
}
use mathlib.Core.Path.{subst}
use go_messaging.Message.{FinalStatus, Time}
use go_messaging.Database.{HotRow, ArchiveRow}
use go_messaging.Database.Rows.{select_where, update_where, delete_where, count_where}
use go_messaging.Database.Rows.Laws.{IsKeyed}
use go_messaging.Invariant.{hot_key}
use go_messaging.Store.Claims.{has_id, owned_by, archive_row, archive_rows}
use go_messaging.Store.Claims.Ownership.{is_copy}
use go_messaging.System.Lifecycle.{find_row, outcomes}

-- What an update makes of a row.
unfoldable pub updated : (HotRow → Bool) → (HotRow → HotRow) → Option HotRow → Option HotRow
updated p f none = none
updated p f (some r) = some (if p r then f r else r)

module _ (id : Bytes) where
  pub find_row-update_where :
      (p : HotRow → Bool) (f : HotRow → HotRow) (rows : List HotRow)
      → ((r : HotRow) → (f r).message_id ≡ r.message_id)
      → find_row id (update_where p f rows) ≡ updated p f (find_row id rows)
  unfolding find_row update_where updated has_id
  find_row-update_where p f [] same = refl
  find_row-update_where p f (r ∷ rs) same =
      ground (
        arith,
        ap (λ k. bytes_eq k id) (same r),
        Bool-cases (p r),
        find_row-update_where p f rs same,
      )

  -- The row that is found is one of the rows.
  pub All-find_row :
      (P : HotRow → Type 0) (rows : List HotRow) {r : HotRow}
      → All P rows
      → find_row id rows ≡ some r
      → (has_id id r ≡ true) × P r
  unfolding find_row
  All-find_row P [] h e = cc
  All-find_row P (x ∷ xs) {r} h e = elim (Bool-cases (has_id id x)) [
    | inl hit ↦
        let same : x ≡ r = ground (arith, hit) in
        subst (λ r. (has_id id r ≡ true) × P r) same (hit, h.0)
    | inr miss ↦ All-find_row P xs h.1 (ground (arith, miss))
  ]

  pub find_row-append :
      (rows : List HotRow) (r : HotRow)
      → find_row id (rows ++ r ∷ []) ≡ elim (find_row id rows) [
        | none ↦ if has_id id r then some r else none
        | some found ↦ some found
      ]
  unfolding find_row
  find_row-append [] r = refl
  find_row-append (x ∷ xs) r = elim (Bool-cases (has_id id x)) [
    | inl hit ↦ rw hit refl
    | inr miss ↦ rw miss (find_row-append xs r)
  ]

  pub outcomes-append :
      (xs ys : List ArchiveRow) → outcomes id (xs ++ ys) ≡ outcomes id xs ++ outcomes id ys
  unfolding outcomes
  outcomes-append [] ys = refl
  outcomes-append (x ∷ xs) ys = ground (arith, outcomes-append xs ys)

  -- A deletion that goes by the id alone.
  pub find_row-delete_where :
      (q : Bytes → Bool) (rows : List HotRow)
      → find_row id (delete_where (λ r. q r.message_id) rows)
        ≡ (if q id then none else find_row id rows)
  unfolding find_row delete_where has_id
  find_row-delete_where q [] = ground (arith, Bool-cases (q id))
  find_row-delete_where q (r ∷ rs) = elim (Bool-cases (bytes_eq r.message_id id)) [
    | inl hit ↦
        let same = ap q (bytes_eq-eq r.message_id id hit) in
        ground (arith, hit, same, Bool-cases (q id), find_row-delete_where q rs)
    | inr miss ↦
        ground
          (arith, miss, Bool-cases (q r.message_id), Bool-cases (q id), find_row-delete_where q rs)
  ]

  absent-find_row :
      (rows : List HotRow) → count_where (has_id id) rows ≡ 0 → find_row id rows ≡ none
  unfolding find_row count_where
  absent-find_row [] h = refl
  absent-find_row (r ∷ rs) h = ground (arith, absent-find_row rs)

  module _ (q : Bytes → Bool) (final : FinalStatus) (now : Time) where
    pub outcomes-absent :
        (next : ℕ) (rows : List HotRow)
        → find_row id rows ≡ none
        → outcomes id (archive_rows final now next (select_where (λ r. q r.message_id) rows)) ≡ []
    unfolding find_row outcomes select_where archive_rows archive_row is_copy has_id
    outcomes-absent next [] h = refl
    outcomes-absent next (r ∷ rs) h = ground (
      arith,
      Bool-cases (q r.message_id),
      Bool-cases (bytes_eq r.message_id id),
      outcomes-absent next rs,
      outcomes-absent (suc next) rs,
    )

    -- Of the rows that are copied by their id, at most one is that of a message.
    pub outcomes-copied :
        (next : ℕ) (rows : List HotRow) {r : HotRow}
        → IsKeyed hot_key rows
        → find_row id rows ≡ some r
        → outcomes id (archive_rows final now next (select_where (λ r. q r.message_id) rows))
          ≡ (if q id then final ∷ [] else [])
    unfolding find_row outcomes select_where archive_rows archive_row is_copy has_id
    outcomes-copied next [] keys e = cc
    outcomes-copied next (x ∷ xs) {r} keys e = elim (Bool-cases (bytes_eq x.message_id id)) [
      | inl hit ↦
          let same = bytes_eq-eq x.message_id id hit in
          let none_left =
            absent-find_row xs
              (ap (λ k. count_where (λ r. bytes_eq r.message_id k) xs) (sym same) ∙ keys.0) in
          ground (
            arith,
            hit,
            ap q same,
            Bool-cases (q id),
            outcomes-absent next xs none_left,
            outcomes-absent (suc next) xs none_left,
          )
      | inr miss ↦ ground (
        arith,
        miss,
        Bool-cases (q x.message_id),
        outcomes-copied next xs {r = r} keys.1 (ground (arith, miss)),
        outcomes-copied (suc next) xs {r = r} keys.1 (ground (arith, miss)),
      )
    ]

  owned-absent :
      (worker : Bytes) (rows : List HotRow)
      → count_where (has_id id) rows ≡ 0
      → count_where (owned_by worker id) rows ≡ 0
  unfolding count_where owned_by
  owned-absent worker [] h = refl
  owned-absent worker (r ∷ rs) h = ground (arith, owned-absent worker rs)

  owned-has_id : (worker : Bytes) (r : HotRow) → has_id id r ≡ false → owned_by worker id r ≡ false
  unfolding owned_by
  owned-has_id worker r h = ground arith

  -- With unique ids the row that a worker owns is the one that is found.
  pub find_row-owned :
      (worker : Bytes) (rows : List HotRow)
      → IsKeyed hot_key rows
      → 1 ≤ count_where (owned_by worker id) rows
      → (r : HotRow) × (find_row id rows ≡ some r) × (owned_by worker id r ≡ true)
  unfolding find_row count_where has_id
  find_row-owned worker [] keys h = absurd (omega (arith, h))
  find_row-owned worker (r ∷ rs) keys h = elim (Bool-cases (has_id id r)) [
    | inl hit ↦
        let same = bytes_eq-eq r.message_id id hit in
        let none_left =
          owned-absent worker rs
            (ap (λ k. count_where (λ r. bytes_eq r.message_id k) rs) (sym same) ∙ keys.0) in
        (r, rw hit refl, ground (arith, h, none_left))
    | inr miss ↦
        let (found, there, owned) =
          find_row-owned worker rs keys.1 (ground (arith, owned-has_id worker r miss)) in
        (found, rw miss there, owned)
  ]
