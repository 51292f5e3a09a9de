-- ===== src/Crypto/Base64.antt =====
-- encoding/base64's StdEncoding, as crypto.go uses it: EncodeToString and DecodeString.
use go_messaging.Prelude.{
  ℕ, ◌+◌, ◌-◌, ◌*◌, ◌/◌, ◌%◌, ◌<◌, ◌≡◌, refl, ap, ◌∙◌, arith, Bool, true, false, ◌&&◌, ◌||◌, Option,
  none, some, [], ◌∷◌, Bytes, ltb, leb, ◌==◌, if◌then◌else◌, All,
}
use mathlib.Core.Path.{ap₂}

-- The 64 letters.
unfoldable letter : ℕ → ℕ
letter n =
    if ltb n 26
    then 65 + n
    else if ltb n 52
    then 71 + n
    else if ltb n 62
    then n - 4
    else if n == 62
    then b'+'
    else b'/'

unfoldable letter_value : ℕ → Option ℕ
letter_value c =
    if leb b'A' c && leb c b'Z'
    then some (c - 65)
    else if leb b'a' c && leb c b'z'
    then some (c - 71)
    else if leb b'0' c && leb c b'9'
    then some (c + 4)
    else if c == b'+'
    then some 62
    else if c == b'/'
    then some 63
    else none

pub encode : Bytes → Bytes
encode [] = []
encode (a ∷ []) = letter (a / 4) ∷ letter (a % 4 * 16) ∷ b'=' ∷ b'=' ∷ []
encode (a ∷ b ∷ []) =
    letter (a / 4) ∷ letter (a % 4 * 16 + b / 16) ∷ letter (b % 16 * 4) ∷ b'=' ∷ []
encode (a ∷ b ∷ c ∷ rest) =
    letter (a / 4)
    ∷ letter (a % 4 * 16 + b / 16)
    ∷ letter (b % 16 * 4 + c / 64)
    ∷ letter (c % 64)
    ∷ encode rest

infixl 5 ◌>>=◌
abbrev ◌>>=◌ : {A B : Type 0} → Option A → (A → Option B) → Option B
none >>= f = none
some a >>= f = f a

is_padding : ℕ → Bool
is_padding c = c == b'='

is_newline : ℕ → Bool
is_newline c = c == 10 || c == 13

is_nil : Bytes → Bool
is_nil [] = true
is_nil (x ∷ xs) = false

-- Four letters; padding may stand at the end of the text only. `more` is what the rest decodes to.
quantum : ℕ → ℕ → ℕ → ℕ → Bool → Option Bytes → Option Bytes
quantum w x y z last more = do
  a ← letter_value w
  b ← letter_value x
  if is_padding y then (if is_padding z && last then some ((a * 4 + b / 16) ∷ []) else none) else do
    c ← letter_value y
    if is_padding z
        then (if last then some ((a * 4 + b / 16) ∷ (b % 16 * 16 + c / 4) ∷ []) else none)
        else do
          d ← letter_value z
          rest ← more
          some ((a * 4 + b / 16) ∷ (b % 16 * 16 + c / 4) ∷ (c % 4 * 64 + d) ∷ rest)

decode_letters : Bytes → Option Bytes
decode_letters [] = some []
decode_letters (w ∷ x ∷ y ∷ z ∷ rest) = quantum w x y z (is_nil rest) (decode_letters rest)
decode_letters _ = none

-- DecodeString reads over line ends.
skip_newlines : Bytes → Bytes
skip_newlines [] = []
skip_newlines (c ∷ cs) = let rest = skip_newlines cs in if is_newline c then rest else c ∷ rest

pub decode : Bytes → Option Bytes
unfolding decode_letters quantum skip_newlines is_nil is_padding is_newline
decode s = decode_letters (skip_newlines s)

letter_value-letter : (n : ℕ) → n < 64 → letter_value (letter n) ≡ some n
unfolding letter letter_value
letter_value-letter n h = ground arith

is_padding_lem : is_padding b'=' ≡ true
unfolding is_padding
is_padding_lem = refl

padding-letter : (n : ℕ) → n < 64 → is_padding (letter n) ≡ false
unfolding letter is_padding
padding-letter n h = ground arith

newline-letter : (n : ℕ) → n < 64 → is_newline (letter n) ≡ false
unfolding letter is_newline
newline-letter n h = ground arith

abbrev IsOneLine : Bytes → Type 0
IsOneLine = All (λ c. is_newline c ≡ false)

skip_newlines_keep : (s : Bytes) → IsOneLine s → skip_newlines s ≡ s
unfolding skip_newlines
skip_newlines_keep [] h = refl
skip_newlines_keep (c ∷ cs) h = ground (arith, skip_newlines_keep cs h.1)

newline-padding : is_newline b'=' ≡ false
unfolding is_newline
newline-padding = refl

abbrev pub AreBytes : Bytes → Type 0
AreBytes = All (λ b. b < 256)

encode-IsOneLine : (bs : Bytes) → AreBytes bs → IsOneLine (encode bs)
unfolding encode
encode-IsOneLine [] h = tt
encode-IsOneLine (a ∷ []) h = (
  newline-letter _ (omega arith),
  (newline-letter _ (omega arith), (newline-padding, (newline-padding, tt))),
)
encode-IsOneLine (a ∷ b ∷ []) h = (
  newline-letter _ (omega arith),
  (newline-letter _ (omega arith), (newline-letter _ (omega arith), (newline-padding, tt))),
)
encode-IsOneLine (a ∷ b ∷ c ∷ rest) h = (
  newline-letter _ (omega arith),
  (
    newline-letter _ (omega arith),
    (
      newline-letter _ (omega arith),
      (newline-letter _ (omega arith), encode-IsOneLine rest h.1.1.1),
    ),
  ),
)

quantum-letters :
    (p q r s : ℕ) (last : Bool) (rest : Bytes)
    → p < 64
    → q < 64
    → r < 64
    → s < 64
    → quantum (letter p) (letter q) (letter r) (letter s) last (some rest)
      ≡ some ((p * 4 + q / 16) ∷ (q % 16 * 16 + r / 4) ∷ (r % 4 * 64 + s) ∷ rest)
unfolding quantum
quantum-letters p q r s last rest hp hq hr hs = ground (
  arith,
  letter_value-letter p,
  letter_value-letter q,
  letter_value-letter r,
  letter_value-letter s,
  padding-letter r,
  padding-letter s,
)

quantum-two :
    (p q r : ℕ) (more : Option Bytes)
    → p < 64
    → q < 64
    → r < 64
    → quantum (letter p) (letter q) (letter r) b'=' true more
      ≡ some ((p * 4 + q / 16) ∷ (q % 16 * 16 + r / 4) ∷ [])
unfolding quantum
quantum-two p q r more hp hq hr = ground (
  arith,
  letter_value-letter p,
  letter_value-letter q,
  letter_value-letter r,
  padding-letter r,
  is_padding_lem,
)

quantum-one :
    (p q : ℕ) (more : Option Bytes)
    → p < 64
    → q < 64
    → quantum (letter p) (letter q) b'=' b'=' true more ≡ some ((p * 4 + q / 16) ∷ [])
unfolding quantum
quantum-one p q more hp hq =
    ground (arith, letter_value-letter p, letter_value-letter q, is_padding_lem)

decode_letters-encode : (bs : Bytes) → AreBytes bs → decode_letters (encode bs) ≡ some bs
unfolding encode decode_letters is_nil
decode_letters-encode [] h = refl
decode_letters-encode (a ∷ []) h =
    let e : a / 4 * 4 + a % 4 * 16 / 16 ≡ a = omega arith in
    quantum-one (a / 4) (a % 4 * 16) _ (omega arith) (omega arith) ∙ ap (λ x. some (x ∷ [])) e
decode_letters-encode (a ∷ b ∷ []) h =
    let e : a / 4 * 4 + (a % 4 * 16 + b / 16) / 16 ≡ a = omega arith in
    let f : (a % 4 * 16 + b / 16) % 16 * 16 + b % 16 * 4 / 4 ≡ b = omega arith in
    quantum-two (a / 4) (a % 4 * 16 + b / 16) (b % 16 * 4) _ (omega arith) (omega arith)
      (omega arith)
    ∙ ap₂ (λ x y. some (x ∷ y ∷ [])) e f
decode_letters-encode (a ∷ b ∷ c ∷ rest) h =
    let e : a / 4 * 4 + (a % 4 * 16 + b / 16) / 16 ≡ a = omega arith in
    let f : (a % 4 * 16 + b / 16) % 16 * 16 + (b % 16 * 4 + c / 64) / 4 ≡ b = omega arith in
    let g : (b % 16 * 4 + c / 64) % 4 * 64 + c % 64 ≡ c = omega arith in
    rw (decode_letters-encode rest h.1.1.1) (
      quantum-letters (a / 4) (a % 4 * 16 + b / 16) (b % 16 * 4 + c / 64) (c % 64) _ rest
        (omega arith) (omega arith) (omega arith) (omega arith)
      ∙ λ i. some (e i ∷ f i ∷ g i ∷ rest))

-- Whatever bytes are encoded, decoding gives them back.
pub decode-encode : (bs : Bytes) → AreBytes bs → decode (encode bs) ≡ some bs
unfolding decode
decode-encode bs h =
    rw (skip_newlines_keep (encode bs) (encode-IsOneLine bs h)) (decode_letters-encode bs h)

letter-le : (n : ℕ) → n < 64 → letter n < 128
unfolding letter
letter-le n h = ground arith

-- The encoding is ASCII.
pub encode_ascii : (bs : Bytes) → AreBytes bs → All (λ c. c < 128) (encode bs)
unfolding encode
encode_ascii [] h = tt
encode_ascii (a ∷ []) h =
    (letter-le _ (omega arith), (letter-le _ (omega arith), (omega arith, (omega arith, tt))))
encode_ascii (a ∷ b ∷ []) h = (
  letter-le _ (omega arith),
  (letter-le _ (omega arith), (letter-le _ (omega arith), (omega arith, tt))),
)
encode_ascii (a ∷ b ∷ c ∷ rest) h = (
  letter-le _ (omega arith),
  (
    letter-le _ (omega arith),
    (letter-le _ (omega arith), (letter-le _ (omega arith), encode_ascii rest h.1.1.1)),
  ),
)
