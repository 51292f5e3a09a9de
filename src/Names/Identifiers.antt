-- ===== src/Names/Identifiers.antt =====
-- db.go: the length of the table names, and which names share tables.
use go_messaging.Prelude.{
  ℕ, ◌+◌, ◌&&◌, leb, if◌then◌else◌, ◌↔◌, ◌≤◌, ◌≡◌, refl, sym, ap, ◌∙◌, arith, not, [], ◌∷◌, ◌++◌,
  Bytes, codes, length, take, drop, length-append, ◌⊎◌, ◌≢◌, ltb, Bool-cases, inl, inr,
}
use go_messaging.Cipher.{ok}
use go_messaging.Names.{assert_valid_name, all_name_chars, max_name_len, table_name}

-- The longest identifier that PostgreSQL does not cut.
abbrev max_identifier_len : ℕ
max_identifier_len = 63

valid_name-length : (name : Bytes) → assert_valid_name name ≡ ok tt → length name ≤ max_name_len
unfolding assert_valid_name
valid_name-length [] h = omega arith
valid_name-length (c ∷ cs) h = elim (Bool-cases (not (all_name_chars (c ∷ cs)))) [
  | inl bad ↦ absurd (cc)
  | inr good ↦ elim (Bool-cases (ltb max_name_len (length (c ∷ cs)))) [
    | inl long ↦ absurd (cc)
    | inr short ↦ ground (arith, short)
  ]
]

-- The suffixes that tableName is called with.
abbrev IsSuffix : Bytes → Type 0
IsSuffix s = (s ≡ codes "dedup") ⊎ (s ≡ codes "hot") ⊎ (s ≡ codes "archive")

suffix-length : (s : Bytes) → IsSuffix s → length s ≤ 7
suffix-length s (inl e) = rw e (omega arith)
suffix-length s (inr (inl e)) = rw e (omega arith)
suffix-length s (inr (inr e)) = rw e (omega arith)

-- A valid name gives tables whose names PostgreSQL does not cut.
pub length-table_name :
    (name suffix : Bytes)
    → assert_valid_name name ≡ ok tt
    → IsSuffix suffix
    → length (table_name name suffix) ≤ max_identifier_len
unfolding table_name
length-table_name [] suffix h s =
    omega (arith, length-append (codes "message_") suffix, suffix-length suffix s)
length-table_name (c ∷ cs) suffix h s = omega (
  arith,
  length-append (codes "message_" ++ (c ∷ cs) ++ codes "_") suffix,
  length-append (codes "message_" ++ (c ∷ cs)) (codes "_"),
  length-append (codes "message_") (c ∷ cs),
  suffix-length suffix s,
  valid_name-length (c ∷ cs) h,
)

take-prefix : (xs ys : Bytes) → take (length xs) (xs ++ ys) ≡ xs
take-prefix [] ys = refl
take-prefix (x ∷ xs) ys = ap (λ zs. x ∷ zs) (take-prefix xs ys)

-- A common end can be cut off.
append-cancel : (xs ys zs : Bytes) → xs ++ zs ≡ ys ++ zs → xs ≡ ys
append-cancel xs ys zs e =
    sym (take-prefix xs zs)
    ∙ ap (take (length xs)) e
    ∙ ap (λ n. take n (ys ++ zs)) same_length
    ∙ take-prefix ys zs
  where
    same_length : length xs ≡ length ys
    same_length = omega (arith, length-append xs zs, length-append ys zs, ap length e)

longer : (c : ℕ) (cs suffix : Bytes) → table_name [] suffix ≢ table_name (c ∷ cs) suffix
unfolding table_name
longer c cs suffix e = omega (
  arith,
  length-append (codes "message_") suffix,
  length-append (codes "message_" ++ (c ∷ cs) ++ codes "_") suffix,
  length-append (codes "message_" ++ (c ∷ cs)) (codes "_"),
  length-append (codes "message_") (c ∷ cs),
  ap length e,
)

-- Different names give different texts.
table_name-injective : (a b suffix : Bytes) → table_name a suffix ≡ table_name b suffix → a ≡ b
unfolding table_name
table_name-injective [] [] suffix e = refl
table_name-injective [] (d ∷ ds) suffix e = absurd (longer d ds suffix e)
table_name-injective (c ∷ cs) [] suffix e = absurd (longer c cs suffix (sym e))
table_name-injective (c ∷ cs) (d ∷ ds) suffix e = append-cancel (c ∷ cs) (d ∷ ds) (codes "_") (
    ap (drop 8) (
      append-cancel (codes "message_" ++ (c ∷ cs) ++ codes "_")
        (codes "message_" ++ (d ∷ ds) ++ codes "_") suffix e))

-- What PostgreSQL makes of an identifier that is not quoted.
lower : ℕ → ℕ
lower c = if leb b'A' c && leb c b'Z' then c + 32 else c

pub fold_case : Bytes → Bytes
unfolding lower
fold_case [] = []
fold_case (c ∷ cs) = lower c ∷ fold_case cs

-- Two identifiers that PostgreSQL takes for the same one.
abbrev pub IsSameTable : Bytes → Bytes → Type 0
IsSameTable x y = fold_case x ≡ fold_case y

fold_case-append : (xs ys : Bytes) → fold_case (xs ++ ys) ≡ fold_case xs ++ fold_case ys
unfolding fold_case
fold_case-append [] ys = refl
fold_case-append (x ∷ xs) ys = ap (λ zs. lower x ∷ zs) (fold_case-append xs ys)

fold_case-table_name :
    (name suffix : Bytes)
    → fold_case (table_name name suffix) ≡ table_name (fold_case name) (fold_case suffix)
unfolding table_name fold_case
fold_case-table_name [] suffix = fold_case-append (codes "message_") suffix
fold_case-table_name (c ∷ cs) suffix =
    fold_case-append (codes "message_" ++ (c ∷ cs) ++ codes "_") suffix
    ∙ ap (λ xs. xs ++ fold_case suffix)
        (fold_case-append (codes "message_" ++ (c ∷ cs)) (codes "_")
          ∙ ap (λ xs. xs ++ codes "_") (fold_case-append (codes "message_") (c ∷ cs)))

-- Two names have a table in common exactly where they are the same name but for the case of their letters:
-- PostgreSQL folds an identifier that is not quoted to lower case, and no table name is quoted.
pub table_name-IsSameTable :
    (a b suffix : Bytes) → IsSameTable (table_name a suffix) (table_name b suffix) ↔ IsSameTable a b
table_name-IsSameTable a b suffix = (
  λ same.
      table_name-injective (fold_case a) (fold_case b) (fold_case suffix)
        (sym (fold_case-table_name a suffix) ∙ same ∙ fold_case-table_name b suffix),
  λ same.
      fold_case-table_name a suffix
      ∙ ap (λ n. table_name n (fold_case suffix)) same
      ∙ sym (fold_case-table_name b suffix),
)
