-- ===== src/Crypto/Json.antt =====
-- encoding/json on a Go string, as crypto.go uses it: Marshal of a stamped ciphertext and Unmarshal
-- of the stored column. Bytes of 128 and more are read as the valid UTF-8 that the column holds.
pub mod RoundTrip
use go_messaging.Prelude.{
  ℕ, zero, suc, ◌+◌, ◌-◌, ◌*◌, ◌/◌, ◌%◌, Bool, true, false, ◌&&◌, ◌||◌, Option, none, some, List,
  [], ◌∷◌, ◌++◌, Bytes, codes, bytes_eq, ltb, leb, ◌==◌, if◌then◌else◌, take, drop,
}

hex_digit : ℕ → ℕ
hex_digit n = if ltb n 10 then 48 + n else 87 + n

-- The quotes, the control characters and the three characters that HTML gives a meaning.
unfoldable escape : ℕ → Bytes
unfolding hex_digit
escape c =
    if c == b'"' || c == 92
    then 92 ∷ c ∷ []
    else if c == 8
    then 92 ∷ b'b' ∷ []
    else if c == 12
    then 92 ∷ b'f' ∷ []
    else if c == 10
    then 92 ∷ b'n' ∷ []
    else if c == 13
    then 92 ∷ b'r' ∷ []
    else if c == 9
    then 92 ∷ b't' ∷ []
    else if ltb c 32 || c == b'<' || c == b'>' || c == b'&'
    then 92 ∷ b'u' ∷ b'0' ∷ b'0' ∷ hex_digit (c / 16) ∷ hex_digit (c % 16) ∷ []
    else c ∷ []

unfoldable escape_all : Bytes → Bytes
escape_all [] = []
escape_all (c ∷ cs) = escape c ++ escape_all cs

-- json.Marshal of a string
pub marshal_string : Bytes → Bytes
unfolding escape_all
marshal_string s = b'"' ∷ (escape_all s ++ b'"' ∷ [])

-- Where the decoder stands in a string: behind a backslash, in the digits of \uXXXX (how many are
-- read, and their value), or behind a first half of a surrogate pair.
pub data Scan : Type 0 where
  plain escaped : Scan
  hex : ℕ → ℕ → Scan
  high : ℕ → Scan
  high_escaped : ℕ → Scan
  high_hex : ℕ → ℕ → ℕ → Scan

data Move : Type 0 where
  refuse : Move
  close : Bytes → Move
  emit : Bytes → Scan → Move

unfoldable hex_value : ℕ → Option ℕ
hex_value c =
    if leb b'0' c && leb c b'9'
    then some (c - 48)
    else if leb b'a' c && leb c b'f'
    then some (c - 87)
    else if leb b'A' c && leb c b'F'
    then some (c - 55)
    else none

-- The UTF-8 bytes of a code point.
unfoldable utf8 : ℕ → Bytes
utf8 n =
    if ltb n 0x80
    then n ∷ []
    else if ltb n 0x800
    then (0xc0 + n / 64) ∷ (0x80 + n % 64) ∷ []
    else if ltb n 0x10000
    then (0xe0 + n / 4096) ∷ (0x80 + n / 64 % 64) ∷ (0x80 + n % 64) ∷ []
    else (0xf0 + n / 262144) ∷ (0x80 + n / 4096 % 64) ∷ (0x80 + n / 64 % 64) ∷ (0x80 + n % 64) ∷ []

unfoldable replacement : Bytes
unfolding utf8
replacement = utf8 0xfffd

-- A code unit is a character, the first half of a pair, or a lone second half.
code_unit : Bytes → ℕ → Move
unfolding replacement utf8
code_unit out v =
    if leb 0xd800 v && ltb v 0xdc00
    then emit out (high v)
    else if leb 0xdc00 v && ltb v 0xe000
    then emit (out ++ replacement) plain
    else emit (out ++ utf8 v) plain

on_plain : Bytes → ℕ → Move
on_plain out c =
    if c == b'"'
    then close out
    else if c == 92
    then emit out escaped
    else if ltb c 32
    then refuse
    else emit (out ++ c ∷ []) plain

on_escaped : Bytes → ℕ → Move
on_escaped out c =
    if c == b'"' || c == 92 || c == b'/'
    then emit (out ++ c ∷ []) plain
    else if c == b'b'
    then emit (out ++ 8 ∷ []) plain
    else if c == b'f'
    then emit (out ++ 12 ∷ []) plain
    else if c == b'n'
    then emit (out ++ 10 ∷ []) plain
    else if c == b'r'
    then emit (out ++ 13 ∷ []) plain
    else if c == b't'
    then emit (out ++ 9 ∷ []) plain
    else if c == b'u'
    then emit out (hex 0 0)
    else refuse

-- A first half that no second half follows is replaced, and what follows is read on its own.
pair : ℕ → ℕ → Move
unfolding code_unit
pair h v =
    if leb 0xdc00 v && ltb v 0xe000
    then emit (utf8 (0x10000 + (h - 0xd800) * 1024 + (v - 0xdc00))) plain
    else code_unit replacement v

on_hex : ℕ → ℕ → Option ℕ → Move
unfolding code_unit
on_hex k v none = refuse
on_hex k v (some d) =
    if k == 3 then code_unit [] (v * 16 + d) else emit [] (hex (k + 1) (v * 16 + d))

on_high_hex : ℕ → ℕ → ℕ → Option ℕ → Move
unfolding pair
on_high_hex h k v none = refuse
on_high_hex h k v (some d) =
    if k == 3 then pair h (v * 16 + d) else emit [] (high_hex h (k + 1) (v * 16 + d))

unfoldable move : Scan → ℕ → Move
unfolding on_plain on_escaped on_hex on_high_hex hex_value
move plain c = on_plain [] c
move escaped c = on_escaped [] c
move (hex k v) c = on_hex k v (hex_value c)
move (high h) c = if c == 92 then emit [] (high_escaped h) else on_plain replacement c
move (high_escaped h) c = if c == b'u' then emit [] (high_hex h 0 0) else on_escaped replacement c
move (high_hex h k v) c = on_high_hex h k v (hex_value c)

prefixed : Bytes → Option (Bytes × Bytes) → Option (Bytes × Bytes)
prefixed out none = none
prefixed out (some (s, rest)) = some (out ++ s, rest)

-- One byte moves the scan; `next` scans the rest.
advance : Move → Bytes → (Scan → Option (Bytes × Bytes)) → Option (Bytes × Bytes)
unfolding prefixed
advance refuse rest next = none
advance (close out) rest next = some (out, rest)
advance (emit out st) rest next = prefixed out (next st)

-- The text up to the closing quote, and what stands behind it.
unfoldable scan : Scan → Bytes → Option (Bytes × Bytes)
unfolding move advance
scan st [] = none
scan st (c ∷ cs) = advance (move st c) cs (λ st'. scan st' cs)

is_space : ℕ → Bool
is_space c = c == 32 || c == 9 || c == 10 || c == 13

skip_space : Bytes → Bytes
skip_space [] = []
skip_space (c ∷ cs) = let rest = skip_space cs in if is_space c then rest else c ∷ cs

is_blank : Bytes → Bool
is_blank [] = true
is_blank (c ∷ cs) = is_space c && is_blank cs

closed : Option (Bytes × Bytes) → Option Bytes
closed none = none
closed (some (s, rest)) = if is_blank rest then some s else none

-- `null` leaves the variable, a new and empty string, as it was.
json_value : Bytes → Option Bytes
json_value [] = none
json_value (c ∷ cs) =
    if c == b'"'
    then closed (scan plain cs)
    else if bytes_eq (take 4 (c ∷ cs)) (codes "null") && is_blank (drop 4 (c ∷ cs))
    then some []
    else none

-- json.Unmarshal into a new string; `none` is its error.
pub unmarshal_string : Bytes → Option Bytes
unfolding json_value closed is_blank skip_space is_space scan
unmarshal_string s = json_value (skip_space s)
