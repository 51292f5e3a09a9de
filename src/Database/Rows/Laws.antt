-- ===== src/Database/Rows/Laws.antt =====
-- Laws of the row operations: what they keep of a predicate on all rows, and of unique keys.
use go_messaging.Prelude.{
  ℕ, zero, suc, ◌+◌, ◌≤◌, ◌≡◌, refl, ap, sym, ◌∙◌, arith, Bool, true, false, List, [], ◌∷◌, ◌++◌,
  Bytes, bytes_eq, bytes_eq_iff, All, Bool-cases, inl, inr, if◌then◌else◌, length, map, take, ◌||◌,
  All-map,
}
use go_messaging.Database.Rows.{
  select_where, update_where, delete_where, count_where, insert_by, order_by, member,
}

module _ {A : Type 0} where
  -- An update keeps a predicate `P` where the rows that it changes also meet `Q`.
  pub All-update_where_if :
      (P Q : A → Type 0) (p : A → Bool) (f : A → A) (rows : List A)
      → ((r : A) → P r → Q r → P (f r))
      → All P rows
      → All (λ r. p r ≡ true → Q r) rows
      → All P (update_where p f rows)
  unfolding update_where
  All-update_where_if P Q p f [] keep h q = tt
  All-update_where_if P Q p f (r ∷ rs) keep h q = elim (Bool-cases (p r)) [
    | inl hit ↦ rw hit (keep r h.0 (q.0 hit), All-update_where_if P Q p f rs keep h.1 q.1)
    | inr miss ↦ rw miss (h.0, All-update_where_if P Q p f rs keep h.1 q.1)
  ]

  pub All-always : (P : A → Type 0) (rows : List A) → ((r : A) → P r) → All P rows
  All-always P [] h = tt
  All-always P (r ∷ rs) h = (h r, All-always P rs h)

  -- An update keeps a predicate that each changed row still meets.
  pub All-update_where :
      (P : A → Type 0) (p : A → Bool) (f : A → A) (rows : List A)
      → ((r : A) → p r ≡ true → P r → P (f r))
      → All P rows
      → All P (update_where p f rows)
  All-update_where P p f rows keep h =
      All-update_where_if P (λ r. p r ≡ true) p f rows (λ r hr hit. keep r hit hr) h
        (All-always _ rows (λ r hit. hit))

  pub All-delete_where :
      (P : A → Type 0) (p : A → Bool) (rows : List A) → All P rows → All P (delete_where p rows)
  unfolding delete_where
  All-delete_where P p [] h = tt
  All-delete_where P p (r ∷ rs) h = elim (Bool-cases (p r)) [
    | inl hit ↦ rw hit (All-delete_where P p rs h.1)
    | inr miss ↦ rw miss (h.0, All-delete_where P p rs h.1)
  ]

  All-select_where :
      (P : A → Type 0) (p : A → Bool) (rows : List A) → All P rows → All P (select_where p rows)
  unfolding select_where
  All-select_where P p [] h = tt
  All-select_where P p (r ∷ rs) h = elim (Bool-cases (p r)) [
    | inl hit ↦ rw hit (h.0, All-select_where P p rs h.1)
    | inr miss ↦ rw miss (All-select_where P p rs h.1)
  ]

  -- What is selected passes the test.
  pub select_where-passes :
      (p : A → Bool) (rows : List A) → All (λ r. p r ≡ true) (select_where p rows)
  unfolding select_where
  select_where-passes p [] = tt
  select_where-passes p (r ∷ rs) = elim (Bool-cases (p r)) [
    | inl hit ↦ rw (hit, select_where) (hit, select_where-passes p rs)
    | inr miss ↦ rw (miss, select_where) (select_where-passes p rs)
  ]

  pub count_where-append :
      (p : A → Bool) (xs ys : List A)
      → count_where p (xs ++ ys) ≡ count_where p xs + count_where p ys
  unfolding count_where
  count_where-append p [] ys = omega arith
  count_where-append p (x ∷ xs) ys = omega (arith, count_where-append p xs ys)

  pub length-select_where :
      (p : A → Bool) (rows : List A) → length (select_where p rows) ≡ count_where p rows
  unfolding select_where count_where
  length-select_where p [] = refl
  length-select_where p (r ∷ rs) = ground (arith, length-select_where p rs)

  length-update_where :
      (p : A → Bool) (f : A → A) (rows : List A) → length (update_where p f rows) ≡ length rows
  unfolding update_where
  length-update_where p f [] = refl
  length-update_where p f (r ∷ rs) = omega (arith, length-update_where p f rs)

  length-delete_where :
      (p : A → Bool) (rows : List A)
      → length (delete_where p rows) + count_where p rows ≡ length rows
  unfolding delete_where count_where
  length-delete_where p [] = refl
  length-delete_where p (r ∷ rs) = ground (arith, length-delete_where p rs)

  -- An update that no row passes changes nothing.
  pub update_where-none :
      (p : A → Bool) (f : A → A) (rows : List A)
      → count_where p rows ≡ 0
      → update_where p f rows ≡ rows
  unfolding update_where count_where
  update_where-none p f [] h = refl
  update_where-none p f (r ∷ rs) h = ground (arith, update_where-none p f rs)

  count_where-delete :
      (q p : A → Bool) (rows : List A) → count_where q (delete_where p rows) ≤ count_where q rows
  unfolding delete_where count_where
  count_where-delete q p [] = omega arith
  count_where-delete q p (r ∷ rs) = ground (arith, count_where-delete q p rs)

  -- A test that an update does not change counts the same rows.
  pub count_where-update :
      (q p : A → Bool) (f : A → A) (rows : List A)
      → ((r : A) → q (f r) ≡ q r)
      → count_where q (update_where p f rows) ≡ count_where q rows
  unfolding update_where count_where
  count_where-update q p f [] same = refl
  count_where-update q p f (r ∷ rs) same = ground (arith, same r, count_where-update q p f rs same)

  -- Rows with unique keys.
  abbrev pub IsKeyed : (A → Bytes) → List A → Type 0
  IsKeyed key [] = Unit {0}
  IsKeyed key (r ∷ rs) = (count_where (λ x. bytes_eq (key x) (key r)) rs ≡ 0) × IsKeyed key rs

module _ {A : Type 0} (key : A → Bytes) where
  pub IsKeyed-update_where :
      (p : A → Bool) (f : A → A) (rows : List A)
      → ((r : A) → key (f r) ≡ key r)
      → IsKeyed key rows
      → IsKeyed key (update_where p f rows)
  unfolding update_where
  IsKeyed-update_where p f [] same h = tt
  IsKeyed-update_where p f (r ∷ rs) same h = (
    rw same_key (
        count_where-update (λ x. bytes_eq (key x) (key r)) p f rs
          (λ x. ap (λ k. bytes_eq k (key r)) (same x))
        ∙ h.0),
    IsKeyed-update_where p f rs same h.1,
  )
    where
      same_key : key (if p r then f r else r) ≡ key r
      same_key = ground (arith, same r)

  pub IsKeyed-delete_where :
      (p : A → Bool) (rows : List A) → IsKeyed key rows → IsKeyed key (delete_where p rows)
  unfolding delete_where
  IsKeyed-delete_where p [] h = tt
  IsKeyed-delete_where p (r ∷ rs) h = elim (Bool-cases (p r)) [
    | inl hit ↦ rw hit (IsKeyed-delete_where p rs h.1)
    | inr miss ↦ rw miss (
      omega (arith, count_where-delete (λ x. bytes_eq (key x) (key r)) p rs, h.0),
      IsKeyed-delete_where p rs h.1,
    )
  ]

  pub bytes_eq_comm : (a b : Bytes) → bytes_eq a b ≡ bytes_eq b a
  bytes_eq_comm a b = ground (arith, bytes_eq_iff a b, bytes_eq_iff b a)

  -- A new row has a key that no row has.
  pub IsKeyed-append :
      (rows : List A) (new : A)
      → count_where (λ x. bytes_eq (key x) (key new)) rows ≡ 0
      → IsKeyed key rows
      → IsKeyed key (rows ++ new ∷ [])
  unfolding count_where
  IsKeyed-append [] new fresh h = (refl, tt)
  IsKeyed-append (r ∷ rs) new fresh h = (
    rw (count_where-append (λ x. bytes_eq (key x) (key r)) rs (new ∷ []), h.0)
        (ground (arith, bytes_eq_comm (key new) (key r))),
    IsKeyed-append rs new (ground arith) h.1,
  )

  -- No row has the key `k`, in the two ways to say it.
  pub absent :
      (k : Bytes) (rows : List A)
      → count_where (λ x. bytes_eq (key x) k) rows ≡ 0
      → All (λ x. bytes_eq (key x) k ≡ false) rows
  unfolding count_where
  absent k [] h = tt
  absent k (r ∷ rs) h = elim (Bool-cases (bytes_eq (key r) k)) [
    | inl hit ↦ absurd (ground arith)
    | inr miss ↦ (miss, absent k rs (ground arith))
  ]

  pub member-absent :
      (k : Bytes) (rows : List A)
      → All (λ x. bytes_eq (key x) k ≡ false) rows
      → member k (map key rows) ≡ false
  unfolding member
  member-absent k [] h = refl
  member-absent k (r ∷ rs) h = rw h.0 (member-absent k rs h.1)

  skip_first :
      (p : A → Bool) (r : A) (rs rows : List A)
      → All (λ x. bytes_eq (key x) (key r) ≡ false) rows
      → All (λ x. member (key x) (map key (select_where p rs)) ≡ true → p x ≡ true) rows
      → All (λ x. member (key x) (map key (select_where p (r ∷ rs))) ≡ true → p x ≡ true) rows
  unfolding select_where member
  skip_first p r rs [] other h = tt
  skip_first p r rs (x ∷ xs) other h = (
    (λ m. h.0 (elim (Bool-cases (p r)) [
      | inl hit ↦ ground (arith, bytes_eq_comm (key r) (key x), other.0)
      | inr miss ↦ ground arith
    ])),
    skip_first p r rs xs other.1 h.1,
  )

  select_where_head :
      (p : A → Bool) (r : A) (rs : List A)
      → All (λ x. bytes_eq (key x) (key r) ≡ false) rs
      → member (key r) (map key (select_where p (r ∷ rs))) ≡ true
      → p r ≡ true
  unfolding select_where
  select_where_head p r rs other m = elim (Bool-cases (p r)) [
    | inl hit ↦ hit
    | inr miss ↦ ground (
      arith,
      member-absent (key r) (select_where p rs)
          (All-select_where (λ x. bytes_eq (key x) (key r) ≡ false) p rs other),
    )
  ]

  -- With unique keys, a row whose key is among those of the selected rows is itself selected.
  member-select_where :
      (p : A → Bool) (rows : List A)
      → IsKeyed key rows
      → All (λ r. member (key r) (map key (select_where p rows)) ≡ true → p r ≡ true) rows
  member-select_where p [] h = tt
  member-select_where p (r ∷ rs) h =
      let other = absent (key r) rs h.0 in
      (select_where_head p r rs other, skip_first p r rs rs other (member-select_where p rs h.1))

  member-take :
      (k : Bytes) (n : ℕ) (rows : List A)
      → member k (map key (take n rows)) ≡ true
      → member k (map key rows) ≡ true
  unfolding member
  member-take k zero rows h = cc
  member-take k (suc n) [] h = cc
  member-take k (suc n) (r ∷ rs) h = ground (arith, member-take k n rs)

  member-insert_by :
      (k : Bytes) (before : A → A → Bool) (x : A) (rows : List A)
      → member k (map key (insert_by before x rows))
        ≡ (bytes_eq (key x) k || member k (map key rows))
  unfolding member insert_by
  member-insert_by k before x [] = refl
  member-insert_by k before x (r ∷ rs) = ground (arith, member-insert_by k before x rs)

  member-order_by :
      (k : Bytes) (before : A → A → Bool) (rows : List A)
      → member k (map key (order_by before rows)) ≡ member k (map key rows)
  unfolding member order_by
  member-order_by k before [] = refl
  member-order_by k before (r ∷ rs) =
      member-insert_by k before r (order_by before rs)
      ∙ ap (λ b. bytes_eq (key r) k || b) (member-order_by k before rs)

  -- So is one among the keys of the first of them, in some order.
  pub member-picked :
      (p : A → Bool) (before : A → A → Bool) (n : ℕ) (rows : List A)
      → IsKeyed key rows
      → All
          (λ r.
            member (key r) (map key (take n (order_by before (select_where p rows)))) ≡ true
            → p r ≡ true)
          rows
  member-picked p before n rows h =
      All-map
        (λ r chosen m. chosen (
          sym (member-order_by (key r) before (select_where p rows))
          ∙ member-take (key r) n (order_by before (select_where p rows)) m))
        rows (member-select_where p rows h)
