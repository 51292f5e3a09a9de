-- ===== src/Database/Rows.antt =====
-- What the SQL statements of the package do to a list of rows: WHERE, UPDATE, DELETE, ORDER BY,
-- LIMIT, ON CONFLICT DO NOTHING.
pub mod Laws
pub mod Sorting
pub mod Picking
use go_messaging.Prelude.{
  ℕ, suc, ◌+◌, Bool, true, false, ◌&&◌, ◌||◌, not, Option, none, some, List, [], ◌∷◌, Bytes,
  bytes_eq, leb, if◌then◌else◌,
}

module _ {A : Type 0} where
  -- SELECT … WHERE p
  unfoldable pub select_where : (A → Bool) → List A → List A
  select_where p [] = []
  select_where p (r ∷ rs) = let rest = select_where p rs in if p r then r ∷ rest else rest

  -- UPDATE … SET f WHERE p
  unfoldable pub update_where : (A → Bool) → (A → A) → List A → List A
  update_where p f [] = []
  update_where p f (r ∷ rs) = (if p r then f r else r) ∷ update_where p f rs

  -- DELETE … WHERE p
  unfoldable pub delete_where : (A → Bool) → List A → List A
  delete_where p [] = []
  delete_where p (r ∷ rs) = let rest = delete_where p rs in if p r then rest else r ∷ rest

  -- The rows that a statement affects.
  unfoldable pub count_where : (A → Bool) → List A → ℕ
  count_where p [] = 0
  count_where p (r ∷ rs) = (if p r then 1 else 0) + count_where p rs

  unfoldable pub insert_by : (A → A → Bool) → A → List A → List A
  insert_by before x [] = x ∷ []
  insert_by before x (r ∷ rs) =
      let rest = insert_by before x rs in if before x r then x ∷ r ∷ rs else r ∷ rest

  -- ORDER BY, where rows that the order does not tell apart keep the order of the table.
  unfoldable pub order_by : (A → A → Bool) → List A → List A
  unfolding insert_by
  order_by before [] = []
  order_by before (r ∷ rs) = insert_by before r (order_by before rs)

-- message_id = ANY(ids), message_id IN (ids)
unfoldable pub member : Bytes → List Bytes → Bool
member id [] = false
member id (x ∷ xs) = bytes_eq x id || member id xs

-- The order of a nullable column: NULL comes last.
unfoldable pub nulls_last : Option ℕ → Option ℕ → Bool
nulls_last (some a) (some b) = leb a b
nulls_last (some a) none = true
nulls_last none (some b) = false
nulls_last none none = true

-- A column that has a value, and one at which the test passes. A NULL passes none.
unfoldable pub at_value : (ℕ → Bool) → Option ℕ → Bool
at_value p none = false
at_value p (some a) = p a

unfoldable pub is_null : Option ℕ → Bool
is_null none = true
is_null (some a) = false
