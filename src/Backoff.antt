-- ===== src/Backoff.antt =====
-- backoff.go and utils.go: retry delays as 64-bit durations, and the bound on stored errors.
pub mod Delays
pub mod Floats
pub mod Utf8
use Prim.Native.Nat.{min}
use go_messaging.Prelude.{
  ℕ, zero, suc, ◌+◌, ◌-◌, ◌*◌, ◌/◌, ◌%◌, ◌^◌, ℤ, pos, negsuc, pos_part, neg_part, ltb_ℤ, leb_ℤ, leb,
  ltb, Bool, if◌then◌else◌, Bytes, length, take, ◌&&◌, ◌||◌, ◌==◌, Option, some, none,
}
use go_messaging.Message.{Error, error_text}

-- An int64 as the bits that it stands for, and the other way.
unfoldable to_word : ℤ → ℕ
to_word (pos n) = n % 2 ^ 64
to_word (negsuc n) = 2 ^ 64 - 1 - n % 2 ^ 64

unfoldable of_word : ℕ → ℤ
of_word w = if ltb w (2 ^ 63) then pos w else negsuc (2 ^ 64 - 1 - w)

-- a * b on int64, with its wrap-around.
unfoldable mul_int64 : ℤ → ℤ → ℤ
unfolding to_word of_word
mul_int64 a b = of_word (to_word a * to_word b % 2 ^ 64)

-- What the package ships as Backoff, and what a caller may bring instead.
pub data Backoff : Type 0 where
  fixed : ℤ → Backoff
  linear : ℤ → Backoff
  exponential : ℤ → ℤ → Backoff
  custom : (ℤ → ℤ) → Backoff

-- `if retryCount < 1 { retryCount = 1 }`
unfoldable at_least_one : ℤ → ℤ
at_least_one n = if ltb_ℤ n (pos 1) then pos 1 else n

-- How often a number is halved until it has at most 53 bits; 11 halvings do for an int64.
unfoldable pub excess_bits : ℕ → ℕ → ℕ
excess_bits zero n = 0
excess_bits (suc fuel) n =
    let rest = excess_bits fuel (n / 2) in if ltb n (2 ^ 53) then 0 else suc rest

-- A number in units of 2 ^ e, rounded to the nearest one, and to the even one of two.
unfoldable pub round_even : ℕ → ℕ → ℕ
round_even n e =
    if ltb (2 * (n % 2 ^ e)) (2 ^ e) || (2 * (n % 2 ^ e) == 2 ^ e && n / 2 ^ e % 2 == 0)
    then n / 2 ^ e * 2 ^ e
    else suc (n / 2 ^ e) * 2 ^ e

-- float64 of the size of an int64.
unfoldable pub float_of : ℕ → ℕ
float_of n = round_even n (excess_bits 11 n)

-- The conversion of the float of this size to a time.Duration, for a float that is not negative. Go leaves
-- the conversion of a float that no int64 holds to the implementation: `saturate` is what it gives for the
-- sign and the size of the float, or for NaN.
unfoldable duration_of : (Option ℤ → ℤ) → ℕ → ℤ
duration_of saturate x = if ltb x (2 ^ 63) then pos x else saturate (some (pos x))

-- The same for the float of minus this size.
unfoldable duration_of_neg : (Option ℤ → ℤ) → ℕ → ℤ
duration_of_neg saturate x =
    if leb x (2 ^ 63) then negsuc (x - 1) else saturate (some (negsuc (x - 1)))

-- time.Duration(float64(base) * math.Pow(2, float64(n-1))). The power is infinite from 2 ^ 1024 on, and its
-- product with 0 then no number.
unfoldable scale_float : (Option ℤ → ℤ) → ℤ → ℕ → ℤ
unfolding duration_of duration_of_neg
scale_float saturate (pos zero) k = if leb 1024 k then saturate none else pos 0
scale_float saturate (pos (suc b)) k = duration_of saturate (float_of (suc b) * 2 ^ k)
scale_float saturate (negsuc b) k = duration_of_neg saturate (float_of (suc b) * 2 ^ k)

-- `if b.MaxDelay > 0 && delay > b.MaxDelay`
unfoldable cap_delay : ℤ → ℤ → ℤ
cap_delay max_delay delay =
    if ltb_ℤ (pos 0) max_delay && ltb_ℤ max_delay delay then max_delay else delay

-- Backoff.Next for each strategy.
pub next_delay : (Option ℤ → ℤ) → Backoff → ℤ → ℤ
unfolding at_least_one cap_delay
next_delay saturate (fixed interval) n = interval
next_delay saturate (linear base) n = mul_int64 base (at_least_one n)
next_delay saturate (exponential base max_delay) n =
    cap_delay max_delay (scale_float saturate base (pos_part (at_least_one n) - 1))
next_delay saturate (custom f) n = f n

-- utils.go
abbrev max_error_len : ℕ
max_error_len = 1000

-- s[:maxErrorLen] where s is longer.
pub truncate_error : Bytes → Bytes
truncate_error s = if leb (length s) max_error_len then s else take max_error_len s

-- toErrorMessage of an error that is not nil, as its one caller has it.
pub to_error_message : Error → Bytes
unfolding truncate_error
to_error_message e = truncate_error (error_text e)
