-- ===== src/Names.antt =====
-- db.go: the names of the tables.
pub mod Identifiers
use go_messaging.Prelude.{
  ℕ, Bool, true, false, ◌&&◌, ◌||◌, not, Option, none, some, List, [], ◌∷◌, ◌++◌, Bytes, codes,
  length, leb, ltb, ◌==◌, if◌then◌else◌,
}
use go_messaging.Message.{Error, text}
use go_messaging.Cipher.{Result, ok, err}

-- [a-zA-Z0-9_]
unfoldable pub is_name_char : ℕ → Bool
is_name_char c =
    (leb b'a' c && leb c b'z')
    || (leb b'A' c && leb c b'Z')
    || (leb b'0' c && leb c b'9')
    || c == b'_'

unfoldable pub all_name_chars : Bytes → Bool
all_name_chars [] = true
all_name_chars (c ∷ cs) = is_name_char c && all_name_chars cs

abbrev max_name_len : ℕ
max_name_len = 47

-- %q of a name in which nothing has to be escaped.
invalid_name : Bytes → Bytes → Error
invalid_name name why = text (codes "message: invalid name \"" ++ name ++ codes "\"" ++ why)

-- assertValidName
unfoldable pub assert_valid_name : Bytes → Result (Unit {0})
unfolding invalid_name
assert_valid_name [] = ok tt
assert_valid_name (c ∷ cs) =
    if not (all_name_chars (c ∷ cs))
    then err (invalid_name (c ∷ cs) (codes ": must match ^[a-zA-Z0-9_]+$"))
    else if ltb max_name_len (length (c ∷ cs))
    then err (invalid_name (c ∷ cs) (codes ": exceeds 47 chars"))
    else ok tt

-- tableName
unfoldable pub table_name : Bytes → Bytes → Bytes
table_name [] suffix = codes "message_" ++ suffix
table_name (c ∷ cs) suffix = codes "message_" ++ (c ∷ cs) ++ codes "_" ++ suffix
