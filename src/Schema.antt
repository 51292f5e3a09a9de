-- ===== src/Schema.antt =====
-- schema.go and migrate.go: which relations the statements of the schema create and drop. Of a
-- statement, the names in it count; the columns are those of the records in Database.
pub mod Indexes
pub mod Reruns
pub mod Teardown
use go_messaging.Prelude.{
  ℕ, suc, Bool, true, false, ◌||◌, Option, none, some, List, [], ◌∷◌, ◌++◌, Bytes, bytes_eq, codes,
  decimal, if◌then◌else◌,
}
use go_messaging.Message.{Error, text, wrapped}
use go_messaging.Cipher.{Result, ok, err, ◌>>=◌}
use go_messaging.Names.{assert_valid_name, table_name}
use go_messaging.Database.Rows.{delete_where}

-- CREATE TABLE IF NOT EXISTS, CREATE INDEX IF NOT EXISTS … ON table, and DROP TABLE IF EXISTS
pub data Statement : Type 0 where
  create_table drop_table : Bytes → Statement
  create_index : Bytes → Bytes → Statement

-- idx_<table>_<suffix>
unfoldable index_name : Bytes → Bytes → Bytes
index_name table suffix = codes "idx_" ++ table ++ codes "_" ++ suffix

pub index_of : Bytes → Bytes → Statement
unfolding index_name
index_of table suffix = create_index (index_name table suffix) table

statements : Bytes → Bytes → Bytes → List Statement
unfolding index_of
statements dedup hot archive =
    create_table dedup
    ∷ index_of dedup (codes "expire")
    ∷ create_table hot
    ∷ index_of hot (codes "claim")
    ∷ index_of hot (codes "failed")
    ∷ create_table archive
    ∷ index_of archive (codes "message_id")
    ∷ index_of archive (codes "topic")
    ∷ index_of archive (codes "archived")
    ∷ []

-- Schema
unfoldable pub schema : Bytes → Result (List Statement)
unfolding statements
schema name = do
  valid ← assert_valid_name name
  ok (
      statements (table_name name (codes "dedup")) (table_name name (codes "hot"))
        (table_name name (codes "archive")))

-- dropSchema
unfoldable pub drop_schema : Bytes → Result (List Statement)
drop_schema name = do
  valid ← assert_valid_name name
  ok (
      drop_table (table_name name (codes "archive"))
      ∷ drop_table (table_name name (codes "hot"))
      ∷ drop_table (table_name name (codes "dedup"))
      ∷ [])

-- A table, which belongs to itself, or an index, which belongs to its table.
pub record Relation : Type 0 where
  pub name : Bytes
  pub table : Bytes

unfoldable pub has_name : Bytes → List Relation → Bool
has_name n [] = false
has_name n (r ∷ rs) = bytes_eq r.name n || has_name n rs

unfoldable pub add_relation : Bytes → Bytes → List Relation → List Relation
add_relation n table rs =
    if has_name n rs then rs else rs ++ record { name = n; table = table } ∷ []

-- What a statement makes of the relations; `cut` is what the database makes of an identifier. A
-- name that is there already is left alone, as IF NOT EXISTS asks for; a table that is dropped
-- takes its indexes with it.
pub carry_out : (Bytes → Bytes) → Statement → List Relation → List Relation
unfolding add_relation
carry_out cut (create_table n) rs = add_relation (cut n) (cut n) rs
carry_out cut (create_index n table) rs = add_relation (cut n) (cut table) rs
carry_out cut (drop_table n) rs = delete_where (λ r. bytes_eq r.table (cut n)) rs

-- fmt.Errorf("message: … statement %d: %w", i, err)
statement_error : Bytes → ℕ → Bytes → Error
statement_error label i s = wrapped (label ++ decimal i) (text s)

-- The loop of Migrate and of DropSchema from statement `i` on. `fault i` is the text of the error
-- that the database gives for statement `i`.
unfoldable pub run_from :
    (Bytes → Bytes)
    → (ℕ → Option Bytes)
    → Bytes
    → ℕ
    → List Statement
    → List Relation
    → Result (Unit {0}) × List Relation
unfolding carry_out statement_error
run_from cut fault label i [] rs = (ok tt, rs)
run_from cut fault label i (s ∷ ss) rs = elim (fault i) [
  | none ↦ run_from cut fault label (suc i) ss (carry_out cut s rs)
  | some e ↦ (err (statement_error label i e), rs)
]

run_statements :
    (Bytes → Bytes)
    → (ℕ → Option Bytes)
    → Bytes
    → Result (List Statement)
    → List Relation
    → Result (Unit {0}) × List Relation
unfolding run_from
run_statements cut fault label (err e) rs = (err e, rs)
run_statements cut fault label (ok ss) rs = run_from cut fault label 0 ss rs

-- Migrate
unfoldable pub migrate :
    (Bytes → Bytes) → (ℕ → Option Bytes) → Bytes → List Relation → Result (Unit {0}) × List Relation
unfolding run_statements
migrate cut fault name rs =
    run_statements cut fault (codes "message: migrate statement ") (schema name) rs

-- DropSchema
unfoldable pub drop_schema_tables :
    (Bytes → Bytes) → (ℕ → Option Bytes) → Bytes → List Relation → Result (Unit {0}) × List Relation
unfolding run_statements
drop_schema_tables cut fault name rs =
    run_statements cut fault (codes "message: drop schema statement ") (drop_schema name) rs
