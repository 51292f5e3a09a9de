-- ===== src/Schema/Teardown.antt =====
-- migrate.go: Migrate undone by DropSchema.
use go_messaging.Prelude.{
  ℕ, suc, ◌≡◌, refl, ap, sym, ◌∙◌, arith, Bool, true, false, ◌||◌, Option, List, [], ◌∷◌, ◌++◌,
  Bytes, bytes_eq, codes, All, Bool-cases, inl, inr,
}
use go_messaging.Cipher.{Result, ok, err, >>=-eq-ok, ok-injective}
use go_messaging.Names.{assert_valid_name, table_name}
use go_messaging.Database.Rows.{delete_where}
use go_messaging.Schema.{
  Statement, drop_table, schema, drop_schema, Relation, has_name, add_relation, carry_out, run_from,
  run_statements, migrate, drop_schema_tables,
}
use go_messaging.Schema.Reruns.{Adds, run_from-fault, belongs, schema-Adds}

module _ (cut : Bytes → Bytes) where
  -- What is left when all statements have been carried out.
  carried : List Statement → List Relation → List Relation
  carried [] rs = rs
  carried (s ∷ ss) rs = carried ss (carry_out cut s rs)

  run_from-carried :
      (fault : ℕ → Option Bytes) (label : Bytes) (i : ℕ) (ss : List Statement) (rs : List Relation)
      → (run_from cut fault label i ss rs).0 ≡ ok tt
      → (run_from cut fault label i ss rs).1 ≡ carried ss rs
  unfolding run_from carried
  run_from-carried fault label i [] rs e = refl
  run_from-carried fault label i (s ∷ ss) rs e = elim (run_from-fault cut fault label i s ss rs) [
    | inl (same, failed) ↦ absurd (failed e)
    | inr on ↦
        ap (λ r. r.1) on
        ∙ run_from-carried fault label (suc i) ss (carry_out cut s rs) (sym (ap (λ r. r.0) on) ∙ e)
  ]

  delete-last :
      (p : Bytes → Bool) (n table : Bytes) (rs : List Relation)
      → p table ≡ true
      → delete_where (λ r. p r.table) (rs ++ record { name = n; table = table } ∷ [])
        ≡ delete_where (λ r. p r.table) rs
  unfolding delete_where
  delete-last p n table [] h = rw h refl
  delete-last p n table (r ∷ rs) h = rw (delete-last p n table rs h) refl

  -- A relation of a table that is deleted leaves no trace.
  delete-add :
      (p : Bytes → Bool) (n table : Bytes) (rs : List Relation)
      → p table ≡ true
      → delete_where (λ r. p r.table) (add_relation n table rs) ≡ delete_where (λ r. p r.table) rs
  unfolding add_relation
  delete-add p n table rs h = elim (Bool-cases (has_name n rs)) [
    | inl there ↦ rw there refl
    | inr new ↦ rw new (delete-last p n table rs h)
  ]

  delete-run_from :
      (p : Bytes → Bool) (fault : ℕ → Option Bytes) (label : Bytes) (i : ℕ) (ss : List Statement)
      (rs : List Relation)
      → All (Adds cut p) ss
      → delete_where (λ r. p r.table) (run_from cut fault label i ss rs).1
        ≡ delete_where (λ r. p r.table) rs
  unfolding run_from Adds
  delete-run_from p fault label i [] rs adds = refl
  delete-run_from p fault label i (s ∷ ss) rs adds =
      elim (run_from-fault cut fault label i s ss rs) [
        | inl (same, failed) ↦ rw same refl
        | inr on ↦
            let (n, table, mine, adds_it) = adds.0 in
            ap (λ r. delete_where (λ r. p r.table) r.1) on
            ∙ delete-run_from p fault label (suc i) ss (carry_out cut s rs) adds.1
            ∙ ap (delete_where (λ r. p r.table)) (adds_it rs)
            ∙ delete-add p n table rs mine
      ]

delete-delete :
    {A : Type 0} (p q : A → Bool) (rs : List A)
    → delete_where q (delete_where p rs) ≡ delete_where (λ r. p r || q r) rs
unfolding delete_where
delete-delete p q [] = refl
delete-delete p q (r ∷ rs) = ground (arith, delete-delete p q rs)

delete-none :
    {A : Type 0} (p : A → Bool) (rs : List A) → All (λ r. p r ≡ false) rs → delete_where p rs ≡ rs
unfolding delete_where
delete-none p [] h = refl
delete-none p (r ∷ rs) h = rw (h.0, delete-none p rs h.1) refl

module _ (cut : Bytes → Bytes) where
  drop_schema-carried :
      (name : Bytes) (rs : List Relation) {ss : List Statement}
      → drop_schema name ≡ ok ss
      → carried cut ss rs ≡ delete_where (λ r. belongs cut name r.table) rs
  unfolding drop_schema carried carry_out belongs
  drop_schema-carried name rs {ss} e =
      let drops =
        drop_table (table_name name (codes "archive"))
        ∷ drop_table (table_name name (codes "hot"))
        ∷ drop_table (table_name name (codes "dedup"))
        ∷ [] in
      let (valid, made, same) =
        >>=-eq-ok (assert_valid_name name) (λ valid. ok drops) {last = ss} e in
      let is : Bytes → Relation → Bool =
        λ suffix r. bytes_eq r.table (cut (table_name name suffix)) in
      ap (λ ss. carried cut ss rs) (sym (ok-injective same))
      ∙ ap (delete_where (is (codes "dedup")))
          (delete-delete (is (codes "archive")) (is (codes "hot")) rs)
      ∙ delete-delete (λ r. is (codes "archive") r || is (codes "hot") r) (is (codes "dedup")) rs

  dropped :
      (fault : ℕ → Option Bytes) (label name : Bytes) (rs : List Relation)
      (r : Result (List Statement))
      → drop_schema name ≡ r
      → (run_statements cut fault label r rs).0 ≡ ok tt
      → (run_statements cut fault label r rs).1 ≡ delete_where (λ r. belongs cut name r.table) rs
  unfolding run_statements
  dropped fault label name rs (err e) h k = absurd cc
  dropped fault label name rs (ok ss) h k =
      run_from-carried cut fault label 0 ss rs k ∙ drop_schema-carried name rs h

  migrated :
      (fault : ℕ → Option Bytes) (label name : Bytes) (rs : List Relation)
      (r : Result (List Statement))
      → schema name ≡ r
      → delete_where (λ r. belongs cut name r.table) (run_statements cut fault label r rs).1
        ≡ delete_where (λ r. belongs cut name r.table) rs
  unfolding run_statements
  migrated fault label name rs (err e) h = refl
  migrated fault label name rs (ok ss) h =
      delete-run_from cut (belongs cut name) fault label 0 ss rs (schema-Adds cut name h)

  -- DropSchema, when it returns no error, undoes Migrate, also one that failed halfway: where no
  -- relation belonged to the three tables before, the relations are again what they were.
  pub drop_schema_tables-migrate :
      (fault later : ℕ → Option Bytes) (name : Bytes) (rs : List Relation)
      → All (λ r. belongs cut name r.table ≡ false) rs
      → let migrated = (migrate cut fault name rs).1 in
        (drop_schema_tables cut later name migrated).0 ≡ ok tt
        → (drop_schema_tables cut later name migrated).1 ≡ rs
  unfolding migrate drop_schema_tables
  drop_schema_tables-migrate fault later name rs free e =
      dropped later (codes "message: drop schema statement ") name _ (drop_schema name) refl e
      ∙ migrated fault (codes "message: migrate statement ") name rs (schema name) refl
      ∙ delete-none (λ r. belongs cut name r.table) rs free
