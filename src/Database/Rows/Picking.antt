-- ===== src/Database/Rows/Picking.antt =====
-- LIMIT n behind ORDER BY: the first n rows are picked, no fewer.
use Prim.Native.Nat.{min}
use go_messaging.Prelude.{
  ℕ, zero, suc, ◌≤◌, ◌≡◌, refl, ap, sym, ◌∙◌, arith, Bool, true, false, List, [], ◌∷◌, Bytes,
  bytes_eq, bytes_eq_refl, All, All-map, All-zip, Bool-cases, inl, inr, length, map, take,
}
use go_messaging.Database.Rows.{select_where, count_where, insert_by, order_by, member}
use go_messaging.Database.Rows.Laws.{
  IsKeyed, All-always, member-picked, length-select_where, absent, bytes_eq_comm,
}
use go_messaging.Database.Rows.Sorting.{
  ordered-All, selected-All, IsSorted, ranked, order_by-IsSorted, count_where-insert_by,
  count_where-order_by, length-order_by, count_where-selected,
}

module _ {A : Type 0} (key : A → Bytes) where
  IsKeyed-insert_by :
      (before : A → A → Bool) (x : A) (rows : List A)
      → count_where (λ r. bytes_eq (key r) (key x)) rows ≡ 0
      → IsKeyed key rows
      → IsKeyed key (insert_by before x rows)
  unfolding insert_by count_where
  IsKeyed-insert_by before x [] fresh h = (refl, tt)
  IsKeyed-insert_by before x (r ∷ rs) fresh h = elim (Bool-cases (before x r)) [
    | inl earlier ↦ rw earlier (fresh, h)
    | inr later ↦ rw later (
      count_where-insert_by (λ y. bytes_eq (key y) (key r)) before x rs
          ∙ ground (arith, bytes_eq_comm key (key x) (key r), fresh, h.0),
      IsKeyed-insert_by before x rs (ground (arith, fresh)) h.1,
    )
  ]

  IsKeyed-order_by :
      (before : A → A → Bool) (rows : List A)
      → IsKeyed key rows
      → IsKeyed key (order_by before rows)
  unfolding order_by
  IsKeyed-order_by before [] h = tt
  IsKeyed-order_by before (r ∷ rs) h =
      IsKeyed-insert_by before r (order_by before rs)
        (count_where-order_by (λ x. bytes_eq (key x) (key r)) before rs ∙ h.0)
        (IsKeyed-order_by before rs h.1)

  count_where-select_where :
      (q p : A → Bool) (rows : List A) → count_where q (select_where p rows) ≤ count_where q rows
  unfolding count_where select_where
  count_where-select_where q p [] = omega arith
  count_where-select_where q p (r ∷ rs) = ground (arith, count_where-select_where q p rs)

  pub IsKeyed-select_where :
      (p : A → Bool) (rows : List A) → IsKeyed key rows → IsKeyed key (select_where p rows)
  unfolding select_where
  IsKeyed-select_where p [] h = tt
  IsKeyed-select_where p (r ∷ rs) h = elim (Bool-cases (p r)) [
    | inl hit ↦ rw hit (
      omega (arith, h.0, count_where-select_where (λ x. bytes_eq (key x) (key r)) p rs),
      IsKeyed-select_where p rs h.1,
    )
    | inr miss ↦ rw miss (IsKeyed-select_where p rs h.1)
  ]

  -- The keys of the first `n` rows.
  pub first_keys : ℕ → List A → List Bytes
  first_keys n rows = map key (take n rows)

  -- Of the other rows the first is not one.
  first-other :
      (r : A) (m : ℕ) (rs rows : List A)
      → All (λ x. bytes_eq (key x) (key r) ≡ false) rows
      → All (λ x. member (key x) (key r ∷ first_keys m rs) ≡ member (key x) (first_keys m rs)) rows
  unfolding member
  first-other r m rs [] h = tt
  first-other r m rs (x ∷ xs) h =
      (ground (arith, bytes_eq_comm key (key r) (key x), h.0), first-other r m rs xs h.1)

  count_where-same :
      (p q : A → Bool) (rows : List A)
      → All (λ r. p r ≡ q r) rows
      → count_where p rows ≡ count_where q rows
  unfolding count_where
  count_where-same p q [] h = refl
  count_where-same p q (r ∷ rs) h = ground (arith, h.0, count_where-same p q rs h.1)

  count_where-no_key : (rows : List A) → count_where (λ r. member (key r) []) rows ≡ 0
  unfolding count_where member
  count_where-no_key [] = refl
  count_where-no_key (r ∷ rs) = omega (arith, count_where-no_key rs)

  -- With unique keys, as many rows as were asked for are picked, where there are so many.
  count_where-first_keys :
      (n : ℕ) (rows : List A)
      → IsKeyed key rows
      → count_where (λ r. member (key r) (first_keys n rows)) rows ≡ min n (length rows)
  unfolding first_keys count_where member
  count_where-first_keys zero rows h = omega (arith, count_where-no_key rows)
  count_where-first_keys (suc m) [] h = omega arith
  count_where-first_keys (suc m) (r ∷ rs) h = rw (bytes_eq_refl (key r)) (
      omega (
        arith,
        count_where-same _ _ rs (first-other r m rs rs (absent key (key r) rs h.0)),
        count_where-first_keys m rs h.1,
      ))

  -- With unique keys and rows in order, what is picked is not after what is not.
  first_keys-least :
      (rank : A → ℕ) (n : ℕ) (rows : List A)
      → IsKeyed key rows
      → IsSorted rank rows
      → All
          (λ r.
            All
              (λ x.
                member (key r) (first_keys n rows) ≡ true
                → member (key x) (first_keys n rows) ≡ false
                → rank r ≤ rank x)
              rows)
          rows
  unfolding first_keys member
  first_keys-least rank zero rows h sorted =
      All-always _ rows (λ r. All-always _ rows (λ x m n. absurd cc))
  first_keys-least rank (suc m) [] h sorted = tt
  first_keys-least rank (suc m) (r ∷ rs) h sorted =
      let others = first-other r m rs rs (absent key (key r) rs h.0) in
      (
        ((λ here gone. omega arith), All-map (λ x after here gone. after) rs sorted.0),
        All-zip
            (λ y same_y least. (
              (λ here gone. absurd (ground (arith, bytes_eq_refl (key r), gone))),
              All-zip (λ x same_x le here gone. le (sym same_y ∙ here) (sym same_x ∙ gone)) rs
                  others least,
            ))
            rs others (first_keys-least rank m rs h.1 sorted.1),
      )

  -- What a statement picks: all that it may take, up to the limit, and none after one that it leaves.
  module _ (rank : A → ℕ) (p : A → Bool) (n : ℕ) (rows : List A) (keys : IsKeyed key rows) where
    sorted : List A
    sorted = order_by (ranked rank) (select_where p rows)

    sorted-IsKeyed : IsKeyed key sorted
    unfolding sorted
    sorted-IsKeyed =
        IsKeyed-order_by (ranked rank) (select_where p rows) (IsKeyed-select_where p rows keys)

    pub picked-count :
        count_where
          (λ r. member (key r) (map key (take n (order_by (ranked rank) (select_where p rows)))))
          rows
        ≡ min n (count_where p rows)
    unfolding sorted first_keys
    picked-count =
        let chosen = member-picked key p (ranked rank) n rows keys in
        sym (count_where-selected _ p rows chosen)
        ∙ sym (count_where-order_by _ (ranked rank) (select_where p rows))
        ∙ count_where-first_keys n sorted sorted-IsKeyed
        ∙ ap (min n)
            (length-order_by (ranked rank) (select_where p rows) ∙ length-select_where p rows)

    pub picked-least :
        let picked : A → Bool =
          λ r. member (key r) (map key (take n (order_by (ranked rank) (select_where p rows)))) in
        All
          (λ r. picked r ≡ true → All (λ x. p x ≡ true → picked x ≡ false → rank r ≤ rank x) rows)
          rows
    unfolding sorted first_keys
    picked-least =
        All-zip (λ r least chosen m. All-map (λ x le px gone. le px m gone) rows (least (chosen m)))
          rows
          (whole _ (
            All-map (λ r least. whole _ least) sorted
              (first_keys-least rank n sorted sorted-IsKeyed
                (order_by-IsSorted rank (select_where p rows)))))
          (member-picked key p (ranked rank) n rows keys)
      where
        whole : (P : A → Type 0) → All P sorted → All (λ r. p r ≡ true → P r) rows
        whole P h = selected-All P p rows (ordered-All P (ranked rank) (select_where p rows) h)
