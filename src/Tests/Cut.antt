-- ===== src/Tests/Cut.antt =====
-- A stored error that is cut within a character.
use go_messaging.Prelude.{ℕ, zero, suc, ◌≡◌, refl, false, [], ◌∷◌, ◌++◌, Bytes}
use go_messaging.Backoff.{truncate_error}
use go_messaging.Backoff.Utf8.{
  is_framed, framed_from, following, is_continuation, truncate_error-is_framed,
}

-- 999 letters and the first of the two bytes of an é.
letters : ℕ → Bytes
letters zero = 195 ∷ []
letters (suc n) = 97 ∷ letters n

truncate_error-is_framed_example :
    (truncate_error (letters 999 ++ 169 ∷ []) ≡ letters 999)
    × (is_framed (truncate_error (letters 999 ++ 169 ∷ [])) ≡ false)
unfolding is_framed framed_from following is_continuation letters
truncate_error-is_framed_example = truncate_error-is_framed (letters 999) 169 [] refl refl
