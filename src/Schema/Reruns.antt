-- ===== src/Schema/Reruns.antt =====
-- migrate.go: Migrate run again after a success or a failure.
use go_messaging.Prelude.{
  ℕ, suc, ◌≡◌, ◌≢◌, ◌⊎◌, refl, ap, ◌∙◌, arith, Bool, true, ◌||◌, Option, none, some, List, [], ◌∷◌,
  ◌++◌, Bytes, bytes_eq, bytes_eq_refl, codes, All, Bool-cases, inl, inr,
}
use mathlib.Core.Path.{subst}
use go_messaging.Cipher.{Result, ok, err, >>=-eq-ok, ok-injective}
use go_messaging.Names.{assert_valid_name, table_name}
use go_messaging.Schema.{
  Statement, index_of, statements, schema, Relation, has_name, add_relation, carry_out, run_from,
  run_statements, migrate, statement_error,
}
use go_messaging.Schema.Indexes.{add_relation-has_name, add_relation-present}

abbrev pub no_fault : ℕ → Option Bytes
no_fault i = none

has_name-add_relation :
    (n m table : Bytes) (rs : List Relation)
    → has_name n rs ≡ true
    → has_name n (add_relation m table rs) ≡ true
unfolding add_relation has_name
has_name-add_relation n m table rs h = elim (Bool-cases (has_name m rs)) [
  | inl there ↦ rw there h
  | inr new ↦ rw new (kept rs h)
]
  where
    kept :
        (rs : List Relation)
        → has_name n rs ≡ true
        → has_name n (rs ++ record { name = m; table = table } ∷ []) ≡ true
    kept [] h = cc
    kept (r ∷ rs) h = ground (arith, kept rs)

module _ (cut : Bytes → Bytes) where
  -- A statement that adds a relation where its name is free.
  unfoldable pub Adds : (Bytes → Bool) → Statement → Type 0
  Adds p s =
      (n table : Bytes) × (p table ≡ true)
      × ((rs : List Relation) → carry_out cut s rs ≡ add_relation n table rs)

  carry_out-has_name :
      (p : Bytes → Bool) (n : Bytes) (s : Statement) (rs : List Relation)
      → Adds p s
      → has_name n rs ≡ true
      → has_name n (carry_out cut s rs) ≡ true
  unfolding Adds
  carry_out-has_name p n s rs (m, table, belongs, adds) h =
      rw (adds rs) (has_name-add_relation n m table rs h)

  -- Where the statement fails, the loop returns; otherwise it goes on from what the statement made.
  pub run_from-fault :
      (fault : ℕ → Option Bytes) (label : Bytes) (i : ℕ) (s : Statement) (ss : List Statement)
      (rs : List Relation)
      → ((run_from cut fault label i (s ∷ ss) rs).1 ≡ rs)
          × ((run_from cut fault label i (s ∷ ss) rs).0 ≢ ok tt)
        ⊎ (run_from cut fault label i (s ∷ ss) rs
            ≡ run_from cut fault label (suc i) ss (carry_out cut s rs))
  unfolding run_from
  run_from-fault fault label i s ss rs = split (fault i)
    where
      split :
          (o : Option Bytes)
          → let r : Result (Unit {0}) × List Relation = elim o [
            | none ↦ run_from cut fault label (suc i) ss (carry_out cut s rs)
            | some e ↦ (err (statement_error label i e), rs)
          ] in
            ((r.1 ≡ rs) × (r.0 ≢ ok tt))
            ⊎ (r ≡ run_from cut fault label (suc i) ss (carry_out cut s rs))
      split none = inr refl
      split (some e) = inl (refl, λ h. cc)

  run_from-has_name :
      (p : Bytes → Bool) (fault : ℕ → Option Bytes) (label : Bytes) (n : Bytes) (i : ℕ)
      (ss : List Statement) (rs : List Relation)
      → All (Adds p) ss
      → has_name n rs ≡ true
      → has_name n (run_from cut fault label i ss rs).1 ≡ true
  unfolding run_from
  run_from-has_name p fault label n i [] rs adds h = h
  run_from-has_name p fault label n i (s ∷ ss) rs adds h =
      elim (run_from-fault fault label i s ss rs) [
        | inl (same, failed) ↦ rw same h
        | inr on ↦ rw on (
            run_from-has_name p fault label n (suc i) ss (carry_out cut s rs) adds.1
              (carry_out-has_name p n s rs adds.0 h))
      ]

  -- Once a statement has been carried out, doing it again changes nothing.
  carry_out-again :
      (p : Bytes → Bool) (fault : ℕ → Option Bytes) (label : Bytes) (i : ℕ) (s : Statement)
      (ss : List Statement) (rs : List Relation)
      → All (Adds p) (s ∷ ss)
      → let later = (run_from cut fault label i ss (carry_out cut s rs)).1 in
        carry_out cut s later ≡ later
  unfolding Adds
  carry_out-again p fault label i s ss rs adds =
      let (n, table, belongs, adds_it) = adds.0 in
      let later = (run_from cut fault label i ss (carry_out cut s rs)).1 in
      let there : has_name n (carry_out cut s rs) ≡ true =
        rw (adds_it rs) (add_relation-has_name n table rs) in
      adds_it later
      ∙ add_relation-present n table later
          (run_from-has_name p fault label n i ss (carry_out cut s rs) adds.1 there)

  run_from-resumes :
      (p : Bytes → Bool) (fault : ℕ → Option Bytes) (label : Bytes) (i j : ℕ) (ss : List Statement)
      (rs : List Relation)
      → All (Adds p) ss
      → run_from cut no_fault label j ss (run_from cut fault label i ss rs).1
        ≡ run_from cut no_fault label j ss rs
  unfolding run_from
  run_from-resumes p fault label i j [] rs adds = refl
  run_from-resumes p fault label i j (s ∷ ss) rs adds =
      elim (run_from-fault fault label i s ss rs) [
        | inl (same, failed) ↦ rw same refl
        | inr on ↦
            ap (λ r. run_from cut no_fault label j (s ∷ ss) r.1) on
            ∙ ap (run_from cut no_fault label (suc j) ss)
                (carry_out-again p fault label (suc i) s ss rs adds)
            ∙ run_from-resumes p fault label (suc i) (suc j) ss (carry_out cut s rs) adds.1
      ]

  -- A table of the three that Migrate makes for the name.
  unfoldable pub belongs : Bytes → Bytes → Bool
  belongs name table =
      bytes_eq table (cut (table_name name (codes "archive")))
      || bytes_eq table (cut (table_name name (codes "hot")))
      || bytes_eq table (cut (table_name name (codes "dedup")))

  pub schema-Adds :
      (name : Bytes) {ss : List Statement} → schema name ≡ ok ss → All (Adds (belongs name)) ss
  unfolding schema statements index_of carry_out Adds belongs
  schema-Adds name {ss} e =
      let dedup = table_name name (codes "dedup") in
      let hot = table_name name (codes "hot") in
      let archive = table_name name (codes "archive") in
      let (valid, made, same) =
        >>=-eq-ok (assert_valid_name name) (λ valid. ok (statements dedup hot archive)) {last = ss}
          e in
      let in_archive : belongs name (cut archive) ≡ true = rw (bytes_eq_refl (cut archive)) refl in
      let in_hot : belongs name (cut hot) ≡ true = ground (arith, bytes_eq_refl (cut hot)) in
      let in_dedup : belongs name (cut dedup) ≡ true = ground (arith, bytes_eq_refl (cut dedup)) in
      subst (All (Adds (belongs name))) (ok-injective same) (
        (cut dedup, cut dedup, in_dedup, λ rs. refl),
        (
          (cut _, cut dedup, in_dedup, λ rs. refl),
          (
            (cut hot, cut hot, in_hot, λ rs. refl),
            (
              (cut _, cut hot, in_hot, λ rs. refl),
              (
                (cut _, cut hot, in_hot, λ rs. refl),
                (
                  (cut archive, cut archive, in_archive, λ rs. refl),
                  (
                    (cut _, cut archive, in_archive, λ rs. refl),
                    (
                      (cut _, cut archive, in_archive, λ rs. refl),
                      ((cut _, cut archive, in_archive, λ rs. refl), tt),
                    ),
                  ),
                ),
              ),
            ),
          ),
        ),
      )

module _ (cut : Bytes → Bytes) where
  -- Migrate run again until nothing fails: where it stopped before, or that it had already
  -- succeeded, makes no difference to the relations or to the result.
  pub migrate-resumes :
      (fault : ℕ → Option Bytes) (name : Bytes) (rs : List Relation)
      → migrate cut no_fault name (migrate cut fault name rs).1 ≡ migrate cut no_fault name rs
  unfolding migrate
  migrate-resumes fault name rs = resumes (schema name) refl
    where
      label : Bytes
      label = codes "message: migrate statement "

      resumes :
          (r : Result (List Statement))
          → schema name ≡ r
          → run_statements cut no_fault label r (run_statements cut fault label r rs).1
            ≡ run_statements cut no_fault label r rs
      resumes (err e) h = unfold run_statements in refl
      resumes (ok ss) h =
          unfold run_statements in
          run_from-resumes cut (belongs cut name) fault label 0 0 ss rs (schema-Adds cut name h)
