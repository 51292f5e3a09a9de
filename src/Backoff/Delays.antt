-- ===== src/Backoff/Delays.antt =====
-- Bounds and growth of the retry delays, and of the stored error text.
use Prim.Native.Nat.{min}
use mathlib.Core.List.{append-nil}
use go_messaging.Prelude.{
  ℕ, zero, suc, ◌-◌, ◌*◌, ◌^◌, ◌≤◌, ◌<◌, ◌≡◌, ℤ, pos, negsuc, arith, Bytes, length, length-take,
  take, drop, take-append-drop, if◌then◌else◌, [], leb, Bool-cases, inl, inr, ◌++◌, Option, some,
  pos_part,
}
use go_messaging.Backoff.Floats.{float_of-exact, overflow-float_of}
use go_messaging.Backoff.{
  exponential, next_delay, scale_float, float_of, duration_of, at_least_one, truncate_error,
  max_error_len,
}

abbrev pub min_int64 : ℤ
min_int64 = negsuc (2 ^ 63 - 1)

-- For a positive base of at most 53 bits the exponential delay is the doubled base, capped, as long as the
-- doubled base is inside int64.
pub exponential-eq-min :
    (saturate : Option ℤ → ℤ) (base cap k : ℕ)
    → 0 < cap
    → 0 < base
    → base < 2 ^ 53
    → base * 2 ^ k < 2 ^ 63
    → next_delay saturate (exponential (pos base) (pos cap)) (pos (suc k))
      ≡ pos (min (base * 2 ^ k) cap)
unfolding next_delay scale_float
exponential-eq-min saturate zero cap k h some_base exact fits = elim some_base [ ]
exponential-eq-min saturate (suc b) cap k h some_base exact fits =
    rw (float_of-exact (suc b) exact) (ground arith)

clip : ℕ → Bytes → Bytes
clip n s = if leb (length s) n then s else take n s

clip_prefix :
    (n : ℕ) (s : Bytes)
    → (rest : Bytes) × (clip n s ++ rest ≡ s) × (length (clip n s) ≡ min (length s) n)
unfolding clip
clip_prefix n s = elim (Bool-cases (leb (length s) n)) [
  | inl short ↦ ([], rw short (append-nil s), rw short (ground arith))
  | inr long ↦ (drop n s, rw long (take-append-drop n s), rw long (ground (arith, length-take n s)))
]

-- The stored error is a prefix of the error's text, whole where the text has at most 1000 bytes,
-- and 1000 bytes long where it has more.
pub truncate_error_prefix :
    (s : Bytes)
    → (rest : Bytes) × (truncate_error s ++ rest ≡ s)
      × (length (truncate_error s) ≡ min (length s) max_error_len)
unfolding truncate_error clip
truncate_error_prefix s = clip_prefix max_error_len s

past-duration_of :
    (saturate : Option ℤ → ℤ) (x : ℕ)
    → 2 ^ 63 ≤ x
    → duration_of saturate x ≡ saturate (some (pos x))
unfolding duration_of
past-duration_of saturate x h = ground arith

exponent : (k : ℕ) → pos_part (at_least_one (pos (suc k))) - 1 ≡ k
unfolding at_least_one
exponent k = ground arith

-- Once the doubled base passes int64, the cap takes no part: where the conversion gives the least
-- int64, as amd64 does, that is the delay.
pub exponential-overflow :
    (base cap k : ℕ)
    → 2 ^ 63 ≤ base * 2 ^ k
    → next_delay (λ _. min_int64) (exponential (pos base) (pos cap)) (pos (suc k)) ≡ min_int64
unfolding next_delay scale_float
exponential-overflow zero cap k h = absurd (omega (arith, h))
exponential-overflow (suc b) cap k h =
    rw
      (
        exponent k,
        past-duration_of (λ _. min_int64) (float_of (suc b) * 2 ^ k)
            (overflow-float_of (suc b) k h),
      )
      (ground arith)
