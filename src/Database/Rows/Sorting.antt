-- ===== src/Database/Rows/Sorting.antt =====
-- ORDER BY: the rows come in order, and none is lost.
use go_messaging.Prelude.{
  ℕ, suc, ◌≤◌, ◌≡◌, refl, arith, Bool, true, List, [], ◌∷◌, leb, All, All-map, Bool-cases, inl, inr,
  length,
}
use go_messaging.Database.Rows.{select_where, count_where, insert_by, order_by}

module _ {A : Type 0} where
  module _ (P : A → Type 0) where
    All-insert_by :
        (before : A → A → Bool) (x : A) (rows : List A)
        → P x
        → All P rows
        → All P (insert_by before x rows)
    unfolding insert_by
    All-insert_by before x [] hx h = (hx, tt)
    All-insert_by before x (r ∷ rs) hx h = elim (Bool-cases (before x r)) [
      | inl earlier ↦ rw earlier (hx, h)
      | inr later ↦ rw later (h.0, All-insert_by before x rs hx h.1)
    ]

    inserted-All :
        (before : A → A → Bool) (x : A) (rows : List A)
        → All P (insert_by before x rows)
        → P x × All P rows
    unfolding insert_by
    inserted-All before x [] h = h
    inserted-All before x (r ∷ rs) h = elim (Bool-cases (before x r)) [
      | inl earlier ↦ rw earlier at h
      | inr later ↦
          let (hr, hrs) : P r × All P (insert_by before x rs) = rw later at h in
          let (hx, rest) = inserted-All before x rs hrs in (hx, (hr, rest))
    ]

    -- What holds of all rows in order holds of all rows.
    pub ordered-All :
        (before : A → A → Bool) (rows : List A) → All P (order_by before rows) → All P rows
    unfolding order_by
    ordered-All before [] h = tt
    ordered-All before (r ∷ rs) h =
        let (hr, hrs) = inserted-All before r (order_by before rs) h in
        (hr, ordered-All before rs hrs)

    pub selected-All :
        (p : A → Bool) (rows : List A)
        → All P (select_where p rows)
        → All (λ r. p r ≡ true → P r) rows
    unfolding select_where
    selected-All p [] h = tt
    selected-All p (r ∷ rs) h = elim (Bool-cases (p r)) [
      | inl hit ↦
          let (hr, hrs) : P r × All P (select_where p rs) = rw hit at h in
          ((λ e. hr), selected-All p rs hrs)
      | inr miss ↦
          let hrs : All P (select_where p rs) = rw miss at h in ((λ e. cc), selected-All p rs hrs)
    ]

  -- Rows in the order of a number.
  abbrev pub IsSorted : (A → ℕ) → List A → Type 0
  IsSorted rank [] = Unit {0}
  IsSorted rank (r ∷ rs) = All (λ x. rank r ≤ rank x) rs × IsSorted rank rs

  abbrev pub ranked : (A → ℕ) → A → A → Bool
  ranked rank a b = leb (rank a) (rank b)

  insert_by-IsSorted :
      (rank : A → ℕ) (x : A) (rows : List A)
      → IsSorted rank rows
      → IsSorted rank (insert_by (ranked rank) x rows)
  unfolding insert_by
  insert_by-IsSorted rank x [] h = (tt, tt)
  insert_by-IsSorted rank x (r ∷ rs) h = elim (Bool-cases (leb (rank x) (rank r))) [
    | inl earlier ↦
        rw earlier ((ground (arith, earlier), All-map (λ y k. ground (arith, earlier)) rs h.0), h)
    | inr later ↦ rw later (
      All-insert_by (λ y. rank r ≤ rank y) (ranked rank) x rs (ground (arith, later)) h.0,
      insert_by-IsSorted rank x rs h.1,
    )
  ]

  pub order_by-IsSorted :
      (rank : A → ℕ) (rows : List A) → IsSorted rank (order_by (ranked rank) rows)
  unfolding order_by
  order_by-IsSorted rank [] = tt
  order_by-IsSorted rank (r ∷ rs) =
      insert_by-IsSorted rank r (order_by (ranked rank) rs) (order_by-IsSorted rank rs)

  pub count_where-insert_by :
      (p : A → Bool) (before : A → A → Bool) (x : A) (rows : List A)
      → count_where p (insert_by before x rows) ≡ count_where p (x ∷ rows)
  unfolding count_where insert_by
  count_where-insert_by p before x [] = refl
  count_where-insert_by p before x (r ∷ rs) = ground (arith, count_where-insert_by p before x rs)

  pub count_where-order_by :
      (p : A → Bool) (before : A → A → Bool) (rows : List A)
      → count_where p (order_by before rows) ≡ count_where p rows
  unfolding count_where order_by
  count_where-order_by p before [] = refl
  count_where-order_by p before (r ∷ rs) = omega (
    arith,
    count_where-insert_by p before r (order_by before rs),
    count_where-order_by p before rs,
  )

  length-insert_by :
      (before : A → A → Bool) (x : A) (rows : List A)
      → length (insert_by before x rows) ≡ suc (length rows)
  unfolding insert_by
  length-insert_by before x [] = refl
  length-insert_by before x (r ∷ rs) = ground (arith, length-insert_by before x rs)

  pub length-order_by :
      (before : A → A → Bool) (rows : List A) → length (order_by before rows) ≡ length rows
  unfolding order_by
  length-order_by before [] = refl
  length-order_by before (r ∷ rs) =
      omega (arith, length-insert_by before r (order_by before rs), length-order_by before rs)

  -- A test that only selected rows pass counts the same rows among them.
  pub count_where-selected :
      (q p : A → Bool) (rows : List A)
      → All (λ r. q r ≡ true → p r ≡ true) rows
      → count_where q (select_where p rows) ≡ count_where q rows
  unfolding count_where select_where
  count_where-selected q p [] h = refl
  count_where-selected q p (r ∷ rs) h =
      ground (arith, h.0, Bool-cases (q r), count_where-selected q p rs h.1)
