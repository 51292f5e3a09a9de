-- ===== src/Backoff/Utf8.antt =====
-- utils.go, truncateError: what the cut makes of a text in UTF-8.
use go_messaging.Prelude.{
  ℕ, zero, suc, ◌<◌, ◌≡◌, refl, ap, sym, ◌∙◌, arith, Bool, true, false, not, ◌&&◌, [], ◌∷◌, ◌++◌,
  Bytes, leb, ltb, length, take, if◌then◌else◌,
}
use go_messaging.Backoff.{truncate_error}

-- A byte that continues a character.
unfoldable pub is_continuation : ℕ → Bool
is_continuation b = leb 128 b && ltb b 192

-- The bytes that a lead byte asks for, and 4 for a byte that is none.
unfoldable pub following : ℕ → ℕ
following b =
    if ltb b 128
    then 0
    else if leb 194 b && ltb b 224
    then 1
    else if leb 224 b && ltb b 240
    then 2
    else if leb 240 b && ltb b 245
    then 3
    else 4

-- Each lead byte is followed by its continuation bytes, of which `k` are still to come. Every text in
-- UTF-8 is so framed.
unfoldable pub framed_from : ℕ → Bytes → Bool
unfolding is_continuation following
framed_from zero [] = true
framed_from (suc k) [] = false
framed_from zero (b ∷ bs) = let rest = framed_from (following b) bs in leb (following b) 3 && rest
framed_from (suc k) (b ∷ bs) = let rest = framed_from k bs in is_continuation b && rest

unfoldable pub is_framed : Bytes → Bool
is_framed = framed_from 0

lead-is_continuation : (b : ℕ) → leb (following b) 3 ≡ true → is_continuation b ≡ false
unfolding following is_continuation
lead-is_continuation b h = ground arith

prefix-framed_from :
    (k : ℕ) (p : Bytes) (b : ℕ) (rest : Bytes)
    → framed_from k (p ++ b ∷ rest) ≡ true
    → framed_from k p ≡ not (is_continuation b)
unfolding framed_from
prefix-framed_from zero [] b rest h = rw (lead-is_continuation b (ground (arith, h))) refl
prefix-framed_from (suc k) [] b rest h =
    let c : is_continuation b ≡ true = ground (arith, h) in rw c refl
prefix-framed_from zero (x ∷ xs) b rest h =
    ground (arith, prefix-framed_from (following x) xs b rest)
prefix-framed_from (suc k) (x ∷ xs) b rest h = ground (arith, prefix-framed_from k xs b rest)

take-append : (p : Bytes) (bs : Bytes) → take (length p) (p ++ bs) ≡ p
take-append [] bs = refl
take-append (x ∷ xs) bs = ap (λ ys. x ∷ ys) (take-append xs bs)

length-longer : (p : Bytes) (b : ℕ) (rest : Bytes) → length p < length (p ++ b ∷ rest)
length-longer [] b rest = omega arith
length-longer (x ∷ xs) b rest = let h = length-longer xs b rest in omega arith

-- A framed text of more than 1,000 bytes is cut after 1,000 bytes, and what is left is framed just if the
-- byte after the cut continues no character.
pub truncate_error-is_framed :
    (p : Bytes) (b : ℕ) (rest : Bytes)
    → length p ≡ 1_000
    → is_framed (p ++ b ∷ rest) ≡ true
    → (truncate_error (p ++ b ∷ rest) ≡ p)
      × (is_framed (truncate_error (p ++ b ∷ rest)) ≡ not (is_continuation b))
unfolding truncate_error is_framed
truncate_error-is_framed p b rest size framed =
    (cut, ap (framed_from 0) cut ∙ prefix-framed_from 0 p b rest framed)
  where
    long : leb (length (p ++ b ∷ rest)) 1_000 ≡ false
    long = let h = length-longer p b rest in ground (arith, h, size)

    cut : truncate_error (p ++ b ∷ rest) ≡ p
    cut = rw long (sym (ap (λ n. take n (p ++ b ∷ rest)) size) ∙ take-append p (b ∷ rest))
