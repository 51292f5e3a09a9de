-- ===== src/Backoff/Floats.antt =====
-- backoff.go: what the conversion of the base delay to a float64 keeps.
use native.Mathlib.Nat.{
  pow-succ', le_refl, le_trans, mul_assoc, le_of_mul-le-mul_right, one-le-pow, pow-le-pow_right,
  le-div_iff_mul-le, mul-le-mul_right,
}
use mathlib.Core.Path.{subst}
use go_messaging.Prelude.{
  Bool, sym, ap, ◌∙◌, ℕ, zero, suc, ◌+◌, ◌-◌, ◌*◌, ◌/◌, ◌%◌, ◌^◌, ◌≤◌, ◌<◌, ◌≡◌, refl, arith, true,
  false, ltb, leb, Bool-cases, inl, inr, ◌||◌, ◌&&◌, ◌==◌, if◌then◌else◌,
}
use go_messaging.Backoff.{excess_bits, round_even, float_of}

small-excess : (fuel n : ℕ) → n < 2 ^ 53 → excess_bits fuel n ≡ 0
unfolding excess_bits
small-excess zero n h = refl
small-excess (suc fuel) n h = ground arith

-- A number of at most 53 bits is a float64.
pub float_of-exact : (n : ℕ) → n < 2 ^ 53 → float_of n ≡ n
unfolding float_of round_even
float_of-exact n h = rw (small-excess 11 n h) (ground arith)

excess-fits : (fuel n : ℕ) → 1 ≤ n → 2 ^ excess_bits fuel n ≤ n
unfolding excess_bits
excess-fits zero n h = omega arith
excess-fits (suc fuel) n h = elim (Bool-cases (ltb n (2 ^ 53))) [
  | inl small ↦ rw small (omega (arith, h))
  | inr large ↦ rw large (
      omega (
        arith,
        pow-succ' 2 (excess_bits fuel (n / 2)),
        excess-fits fuel (n / 2) (ground (arith, large)),
      ))
]

round_even-ge : (n e : ℕ) → n / 2 ^ e * 2 ^ e ≤ round_even n e
unfolding round_even
round_even-ge n e =
    by_rounding (ltb (2 * (n % 2 ^ e)) (2 ^ e) || (2 * (n % 2 ^ e) == 2 ^ e && n / 2 ^ e % 2 == 0))
  where
    by_rounding :
        (down : Bool)
        → n / 2 ^ e * 2 ^ e ≤ (if down then n / 2 ^ e * 2 ^ e else suc (n / 2 ^ e) * 2 ^ e)
    by_rounding true = le_refl _
    by_rounding false = mul-le-mul_right (2 ^ e) (omega arith)

pow-add : (d e : ℕ) → 2 ^ (d + e) ≡ 2 ^ d * 2 ^ e
pow-add zero e = ap (λ i. 2 ^ i) (none_less e) ∙ omega arith
  where
    none_less : (e : ℕ) → 0 + e ≡ e
    none_less e = omega arith
pow-add (suc d) e =
    ap (λ i. 2 ^ i) (suc-add d e)
    ∙ pow-succ' 2 (d + e)
    ∙ ap (λ p. 2 * p) (pow-add d e)
    ∙ sym (mul_assoc 2 (2 ^ d) (2 ^ e))
    ∙ ap (λ p. p * 2 ^ e) (sym (pow-succ' 2 d))
  where
    suc-add : (d e : ℕ) → suc d + e ≡ suc (d + e)
    suc-add d e = omega arith

split-power : (j e : ℕ) → e ≤ j → 2 ^ j ≡ 2 ^ (j - e) * 2 ^ e
split-power j e h = ap (λ i. 2 ^ i) (omega (arith, h)) ∙ pow-add (j - e) e

power-pos : (e : ℕ) → 0 < 2 ^ e
power-pos e = one-le-pow e 2 (omega arith)

whole-units : (j n e : ℕ) → 2 ^ e ≤ n → 2 ^ j ≤ n → 2 ^ j ≤ n / 2 ^ e * 2 ^ e
whole-units j n e one above = by_width (leb e j) refl
  where
    in_units : (x : ℕ) → x * 2 ^ e ≤ n → x * 2 ^ e ≤ n / 2 ^ e * 2 ^ e
    in_units x h = mul-le-mul_right (2 ^ e) ((le-div_iff_mul-le (power-pos e)).1 h)

    by_width : (wide : Bool) → leb e j ≡ wide → 2 ^ j ≤ n / 2 ^ e * 2 ^ e
    by_width true wide =
        let fits : e ≤ j = ground (arith, wide) in
        rw (split-power j e fits) (in_units (2 ^ (j - e)) (rw (sym (split-power j e fits)) above))
    by_width false narrow =
        let less : j ≤ e = ground (arith, narrow) in
        le_trans (pow-le-pow_right (omega arith) less)
          (omega (arith, in_units 1 (omega (arith, one))))

-- A power of two that is at most a number is at most its float64.
pub power-float_of : (j n : ℕ) → 2 ^ j ≤ n → 2 ^ j ≤ float_of n
unfolding float_of
power-float_of j n h =
    le_trans
      (whole-units j n (excess_bits 11 n)
        (excess-fits 11 n (le_trans (one-le-pow j 2 (omega arith)) h)) h)
      (round_even-ge n (excess_bits 11 n))

-- Where a doubled base passes int64, so does its float64.
pub overflow-float_of : (n k : ℕ) → 2 ^ 63 ≤ n * 2 ^ k → 2 ^ 63 ≤ float_of n * 2 ^ k
overflow-float_of n k h = by_width (leb k 63) refl
  where
    positive : (n : ℕ) → 2 ^ 63 ≤ n * 2 ^ k → 1 ≤ n
    positive zero h = absurd (omega (arith, h))
    positive (suc n) h = omega arith

    by_width : (wide : Bool) → leb k 63 ≡ wide → 2 ^ 63 ≤ float_of n * 2 ^ k
    by_width true wide =
        let fits : k ≤ 63 = ground (arith, wide) in
        let small : 2 ^ (63 - k) * 2 ^ k ≤ n * 2 ^ k =
          subst (λ x. x ≤ n * 2 ^ k) (split-power 63 k fits) h in
        subst (λ x. x ≤ float_of n * 2 ^ k) (sym (split-power 63 k fits))
          (mul-le-mul_right (2 ^ k)
            (power-float_of (63 - k) n (le_of_mul-le-mul_right small (power-pos k))))
    by_width false narrow =
        let past : 63 ≤ k = ground (arith, narrow) in
        let some : 1 ≤ n = positive n h in
        le_trans (pow-le-pow_right {n = 2} (omega arith) past)
          (le_trans (omega arith) (mul-le-mul_right (2 ^ k) (power-float_of 0 n some)))
