-- ===== src/Crypto/Json/RoundTrip.antt =====
-- A string that was marshalled is read back.
use go_messaging.Prelude.{
  if◌then◌else◌, Option-cases, inl, inr, ◌∙◌, ap, sym, ℕ, zero, suc, ◌<◌, ◌≡◌, refl, arith, Bool,
  true, false, ◌&&◌, Option, none, some, [], ◌∷◌, ◌++◌, All, Bytes, bytes_eq, bytes_eq-eq,
}
use mathlib.Core.List.{append_assoc}
use mathlib.Core.Option
use go_messaging.Crypto.Json.{
  Scan, plain, Move, refuse, close, emit, move, scan, escape, escape_all, marshal_string,
  unmarshal_string, prefixed, advance, closed,
}

is_plain : Scan → Bool
is_plain plain = true
is_plain _ = false

emitted : Move → (Scan → Option Bytes) → Option Bytes
emitted refuse next = none
emitted (close out) next = none
emitted (emit out st) next = Option.map (◌++◌ out) (next st)

-- What a text that does not close the string gives, if the scan is back at plain text behind it.
gives : Scan → Bytes → Option Bytes
unfolding is_plain emitted
gives st [] = if is_plain st then some [] else none
gives st (c ∷ cs) = emitted (move st c) (λ st'. gives st' cs)

prefixed-nil : (o : Option (Bytes × Bytes)) → prefixed [] o ≡ o
unfolding prefixed
prefixed-nil none = refl
prefixed-nil (some (s, rest)) = refl

prefixed-prefixed :
    (a b : Bytes) (o : Option (Bytes × Bytes)) → prefixed a (prefixed b o) ≡ prefixed (a ++ b) o
unfolding prefixed
prefixed-prefixed a b none = refl
prefixed-prefixed a b (some (s, rest)) = ap (λ x. some (x, rest)) (sym (append_assoc a b s))

advance-emitted :
    (m : Move) (rest out : Bytes) (tail : Option (Bytes × Bytes))
    (next : Scan → Option (Bytes × Bytes)) (next' : Scan → Option Bytes)
    → ((st : Scan) (o : Bytes) → next' st ≡ some o → next st ≡ prefixed o tail)
    → emitted m next' ≡ some out
    → advance m rest next ≡ prefixed out tail
unfolding advance emitted
advance-emitted refuse rest out tail next next' ih h = cc
advance-emitted (close o) rest out tail next next' ih h = cc
advance-emitted (emit o st) rest out tail next next' ih h = elim (Option-cases (next' st)) [
  | inl e ↦ absurd (ground arith)
  | inr (x, e) ↦
      rw (ih st x e) (prefixed-prefixed o x tail ∙ ap (λ y. prefixed y tail) (ground arith))
]

scan-Gives :
    (st : Scan) (s rest out : Bytes)
    → gives st s ≡ some out
    → scan st (s ++ rest) ≡ prefixed out (scan plain rest)
unfolding gives scan
scan-Gives plain [] rest out h =
    let e : [] ≡ out = ground arith in
    sym (prefixed-nil (scan plain rest)) ∙ ap (λ o. prefixed o (scan plain rest)) e
scan-Gives _ [] rest out h = cc
scan-Gives st (c ∷ cs) rest out h =
    advance-emitted (move st c) (cs ++ rest) out (scan plain rest) (λ st'. scan st' (cs ++ rest))
      (λ st'. gives st' cs) (λ st'. scan-Gives st' cs rest) h

-- A test on all the characters below a bound.
passes_below : (ℕ → Bool) → ℕ → Bool
passes_below test zero = true
passes_below test (suc bound) = passes_below test bound && test bound

passes_below_each :
    (test : ℕ → Bool) (bound c : ℕ) → c < bound → passes_below test bound ≡ true → test c ≡ true
unfolding passes_below
passes_below_each test zero c small all = absurd (omega (arith, small))
passes_below_each test (suc bound) c small all =
    ground (arith, small, all, passes_below_each test bound c)

is_some_of : Bytes → Option Bytes → Bool
is_some_of s none = false
is_some_of s (some t) = bytes_eq t s

is_some_of-eq : (s : Bytes) (o : Option Bytes) → is_some_of s o ≡ true → o ≡ some s
unfolding is_some_of
is_some_of-eq s none h = cc
is_some_of-eq s (some t) h = ap some (bytes_eq-eq t s h)

escape_table : passes_below (λ c. is_some_of (c ∷ []) (gives plain (escape c))) 128 ≡ true
unfolding passes_below is_some_of gives is_plain move escape bytes_eq
escape_table = refl

gives-escape : (c : ℕ) → c < 128 → gives plain (escape c) ≡ some (c ∷ [])
gives-escape c h = is_some_of-eq _ _ (passes_below_each _ 128 c h escape_table)

abbrev pub IsAscii : Bytes → Type 0
IsAscii = All (λ c. c < 128)

scan_quote : (rest : Bytes) → scan plain (b'"' ∷ rest) ≡ some ([], rest)
unfolding scan
scan_quote rest = refl

scan-escape_all :
    (s rest : Bytes) → IsAscii s → scan plain (escape_all s ++ b'"' ∷ rest) ≡ some (s, rest)
unfolding escape_all prefixed
scan-escape_all [] rest h = scan_quote rest
scan-escape_all (c ∷ cs) rest h = rw (append_assoc (escape c) (escape_all cs) (b'"' ∷ rest)) (
    scan-Gives plain (escape c) _ (c ∷ []) (gives-escape c h.0)
    ∙ ap (prefixed (c ∷ [])) (scan-escape_all cs rest h.1))

-- An ASCII string is read back from its JSON, whatever of it had to be escaped.
pub unmarshal_string-marshal_string :
    (s : Bytes) → IsAscii s → unmarshal_string (marshal_string s) ≡ some s
unfolding unmarshal_string marshal_string
unmarshal_string-marshal_string s h = ap closed (scan-escape_all s [] h)
