-- ===== src/Schema/Indexes.antt =====
-- schema.go, the indexes of a table: what becomes of names that PostgreSQL cuts.
use go_messaging.Prelude.{
  ℕ, zero, suc, ◌≤◌, ◌≡◌, refl, sym, ap, ◌∙◌, arith, List, [], ◌∷◌, ◌++◌, Bytes, codes, length,
  take, length-append, true, Bool-cases, inl, inr, bytes_eq_refl,
}
use go_messaging.Names.{table_name}
use go_messaging.Schema.{
  Relation, create_index, index_name, index_of, has_name, add_relation, carry_out,
}

take-prefix : (n : ℕ) (xs ys : Bytes) → n ≤ length xs → take n (xs ++ ys) ≡ take n xs
take-prefix zero xs ys h = refl
take-prefix (suc n) [] ys h = absurd (omega (arith, h))
take-prefix (suc n) (x ∷ xs) ys h = ap (λ zs. x ∷ zs) (take-prefix n xs ys (omega (arith, h)))

-- Where the name of the table leaves no room, all its indexes are cut to the same identifier.
long_table-cut :
    (table suffix : Bytes)
    → 58 ≤ length table
    → take 63 (index_name table suffix) ≡ take 63 (codes "idx_" ++ table ++ codes "_")
unfolding index_name
long_table-cut table suffix long = take-prefix 63 (codes "idx_" ++ table ++ codes "_") suffix (
    omega (
      arith,
      length-append (codes "idx_" ++ table) (codes "_"),
      length-append (codes "idx_") table,
      long,
    ))

has_name-append :
    (n table : Bytes) (rs : List Relation)
    → has_name n (rs ++ record { name = n; table = table } ∷ []) ≡ true
unfolding has_name
has_name-append n table [] = rw (bytes_eq_refl n) refl
has_name-append n table (r ∷ rs) = ground (arith, has_name-append n table rs)

-- Whatever was to be added, its name is there.
pub add_relation-has_name :
    (n table : Bytes) (rs : List Relation) → has_name n (add_relation n table rs) ≡ true
unfolding add_relation
add_relation-has_name n table rs = elim (Bool-cases (has_name n rs)) [
  | inl there ↦ rw there there
  | inr new ↦ rw new (has_name-append n table rs)
]

-- A name that is there is left alone.
pub add_relation-present :
    (n table : Bytes) (rs : List Relation) → has_name n rs ≡ true → add_relation n table rs ≡ rs
unfolding add_relation
add_relation-present n table rs there = rw there refl

-- An index is not created twice, even under a name that is only cut to the same.
second-skipped :
    (cut : Bytes → Bytes) (a b table : Bytes) (rs : List Relation)
    → cut b ≡ cut a
    → carry_out cut (create_index b table) (carry_out cut (create_index a table) rs)
      ≡ carry_out cut (create_index a table) rs
unfolding carry_out
second-skipped cut a b table rs same =
    add_relation-present (cut b) (cut table) (add_relation (cut a) (cut table) rs)
      (rw same (add_relation-has_name (cut a) (cut table) rs))

archive-length : (name : Bytes) → 42 ≤ length name → 58 ≤ length (table_name name (codes "archive"))
unfolding table_name
archive-length [] long = absurd (omega (arith, long))
archive-length (c ∷ cs) long = omega (
  arith,
  length-append (codes "message_" ++ (c ∷ cs) ++ codes "_") (codes "archive"),
  length-append (codes "message_" ++ (c ∷ cs)) (codes "_"),
  length-append (codes "message_") (c ∷ cs),
  long,
)

-- Where the database cuts identifiers to 63 bytes, a name of 42 characters or more, which may well be
-- valid, has one index on its archive: once the first one is there, the statement for any other
-- creates nothing.
pub archive_indexes_collide :
    (cut : Bytes → Bytes) (name a b : Bytes) (rs : List Relation)
    → ((s : Bytes) → cut s ≡ take 63 s)
    → 42 ≤ length name
    → let archive = table_name name (codes "archive") in
      carry_out cut (index_of archive b) (carry_out cut (index_of archive a) rs)
      ≡ carry_out cut (index_of archive a) rs
unfolding index_of
archive_indexes_collide cut name a b rs cuts long =
    second-skipped cut (index_name archive a) (index_name archive b) archive rs (
      cuts (index_name archive b)
      ∙ long_table-cut archive b (archive-length name long)
      ∙ sym (cuts (index_name archive a) ∙ long_table-cut archive a (archive-length name long)))
  where
    archive : Bytes
    archive = table_name name (codes "archive")
