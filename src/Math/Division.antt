-- ===== src/Math/Division.antt =====
-- The long division of math.c against `/` and `%`.
use native.Mathlib.Nat.{
  pow-suc, one-le-pow, mul-le-mul_right, mul-add-div_right, div-eq_of_lt, mul-add-mod_self_right,
  mod-eq_of_lt,
}
use sandnix.Prelude.{ℕ, zero, suc, ◌+◌, ◌*◌, ◌/◌, ◌%◌, ◌^◌, ◌≤◌, ◌<◌, ◌≡◌, ◌⊎◌, inl, inr, arith, ap}
use sandnix.Math.{Registers, division_step, division_loop, start, div64, mod64, div32, mod32}

-- One round of a division by `d` keeps the remainder below `d`, and shifts the dividend's top
-- bit in.
record IsStep (word d : ℕ) (s t : Registers) : Type 0 where
  bit : ℕ
  bit_lt : bit < 2
  dividend : s.dividend * 2 ≡ t.dividend + bit * word
  dividend_lt : t.dividend < word
  remainder : t.remainder < d
  remainder_le : t.remainder ≤ 2 * s.remainder + 1
  quotient : t.quotient ≤ 2 * s.quotient + 1
  balance :
      (t.quotient ≡ 2 * s.quotient) × (t.remainder ≡ 2 * s.remainder + bit)
      ⊎ (t.quotient ≡ 2 * s.quotient + 1) × (t.remainder + d ≡ 2 * s.remainder + bit)

-- `k` rounds: the quotient and remainder take in the top `k` bits of the dividend, `high`.
record IsRun (word d k : ℕ) (s t : Registers) : Type 0 where
  high : ℕ
  below : high * word ≤ s.dividend * 2 ^ k
  above : s.dividend * 2 ^ k < (high + 1) * word
  remainder : t.remainder < d
  balance : t.quotient * d + t.remainder ≡ (s.quotient * d + s.remainder) * 2 ^ k + high

step64 :
    (d : ℕ) (s : Registers)
    → 0 < d
    → s.dividend < 2 ^ 64
    → s.remainder < d
    → s.remainder < 2 ^ 63
    → s.quotient < 2 ^ 63
    → IsStep (2 ^ 64) d s (division_step (2 ^ 63) d s)
unfolding division_step
step64 d s pos x r small q = record {
  bit = s.dividend / 2 ^ 63;
  bit_lt = omega arith;
  dividend = ground arith;
  dividend_lt = ground arith;
  remainder = ground arith;
  remainder_le = ground arith;
  quotient = ground arith;
  balance = ground arith;
}

step32 :
    (d : ℕ) (s : Registers)
    → 0 < d
    → s.dividend < 2 ^ 32
    → s.remainder < d
    → s.remainder < 2 ^ 31
    → s.quotient < 2 ^ 31
    → IsStep (2 ^ 32) d s (division_step (2 ^ 31) d s)
unfolding division_step
step32 d s pos x r small q = record {
  bit = s.dividend / 2 ^ 31;
  bit_lt = omega arith;
  dividend = ground arith;
  dividend_lt = ground arith;
  remainder = ground arith;
  remainder_le = ground arith;
  quotient = ground arith;
  balance = ground arith;
}

-- A step in front of a run.
IsStep-IsRun :
    (word d k : ℕ) (s m t : Registers)
    → IsStep word d s m
    → IsRun word d k m t
    → IsRun word d (suc k) s t
IsStep-IsRun word d k s m t step run = record {
  high = step.bit * 2 ^ k + run.high;
  below = rw pow-suc (omega (arith, run.below, ap (λ (n : ℕ). n * 2 ^ k) step.dividend));
  above = rw pow-suc (omega (arith, run.above, ap (λ (n : ℕ). n * 2 ^ k) step.dividend));
  remainder = run.remainder;
  balance = rw pow-suc (omega (arith, run.balance, ap (λ (n : ℕ). n * 2 ^ k) both));
}
  where
    both : m.quotient * d + m.remainder ≡ 2 * (s.quotient * d + s.remainder) + step.bit
    both = elim step.balance [
      | inl e ↦ omega (arith, ap (λ (n : ℕ). n * d) (e.0), e.1)
      | inr e ↦ omega (arith, ap (λ (n : ℕ). n * d) (e.0), e.1)
    ]

room : (k q half : ℕ) → (q + 1) * 2 ^ suc k ≤ 2 * half → q < half
room k q half h =
    let h' : (q + 1) * (2 ^ k * 2) ≤ 2 * half = rw pow-suc at h in
    let pos : 1 ≤ 2 ^ k = one-le-pow k 2 (omega arith) in grind arith

room_step :
    (k q q' word : ℕ) → (q + 1) * 2 ^ suc k ≤ word → q' ≤ 2 * q + 1 → (q' + 1) * 2 ^ k ≤ word
room_step k q q' word h le =
    let h' : (q + 1) * (2 ^ k * 2) ≤ word = rw pow-suc at h in
    let more : (q' + 1) * 2 ^ k ≤ (2 * q + 2) * 2 ^ k = mul-le-mul_right (2 ^ k) (omega arith) in
    omega arith

-- `k` rounds from a state whose quotient and remainder still have room for `k` more bits.
run64 :
    (d k : ℕ) (s : Registers)
    → 0 < d
    → s.dividend < 2 ^ 64
    → s.remainder < d
    → (s.remainder + 1) * 2 ^ k ≤ 2 ^ 64
    → (s.quotient + 1) * 2 ^ k ≤ 2 ^ 64
    → IsRun (2 ^ 64) d k s (division_loop (2 ^ 63) d k s)
unfolding division_loop
run64 d zero s pos x r small q = record {
  high = 0;
  below = omega arith;
  above = omega arith;
  remainder = r;
  balance = omega arith;
}
run64 d (suc k) s pos x r small q =
    let step =
      step64 d s pos x r (room k s.remainder (2 ^ 63) small) (room k s.quotient (2 ^ 63) q) in
    IsStep-IsRun (2 ^ 64) d k s (division_step (2 ^ 63) d s) _ step (
      run64 d k (division_step (2 ^ 63) d s) pos step.dividend_lt step.remainder
        (room_step k s.remainder _ (2 ^ 64) small step.remainder_le)
        (room_step k s.quotient _ (2 ^ 64) q step.quotient))

run32 :
    (d k : ℕ) (s : Registers)
    → 0 < d
    → s.dividend < 2 ^ 32
    → s.remainder < d
    → (s.remainder + 1) * 2 ^ k ≤ 2 ^ 32
    → (s.quotient + 1) * 2 ^ k ≤ 2 ^ 32
    → IsRun (2 ^ 32) d k s (division_loop (2 ^ 31) d k s)
unfolding division_loop
run32 d zero s pos x r small q = record {
  high = 0;
  below = omega arith;
  above = omega arith;
  remainder = r;
  balance = omega arith;
}
run32 d (suc k) s pos x r small q =
    let step =
      step32 d s pos x r (room k s.remainder (2 ^ 31) small) (room k s.quotient (2 ^ 31) q) in
    IsStep-IsRun (2 ^ 32) d k s (division_step (2 ^ 31) d s) _ step (
      run32 d k (division_step (2 ^ 31) d s) pos step.dividend_lt step.remainder
        (room_step k s.remainder _ (2 ^ 32) small step.remainder_le)
        (room_step k s.quotient _ (2 ^ 32) q step.quotient))

-- A quotient and a remainder below the divisor are unique.
quotient_unique : (a d q r : ℕ) → q * d + r ≡ a → r < d → (q ≡ a / d) × (r ≡ a % d)
quotient_unique a d q r e h = (
  rw (← e) (omega (arith, mul-add-div_right {m = d} (omega arith) q r, div-eq_of_lt h)),
  rw (← e) (omega (arith, mul-add-mod_self_right q d r, mod-eq_of_lt h)),
)

-- For a divisor other than 0, `hal_rtl_math_div64` and `hal_rtl_math_mod64` return the quotient
-- and the remainder of a 64-bit dividend.
pub div64-mod64 :
    (dividend divisor : ℕ)
    → dividend < 2 ^ 64
    → 0 < divisor
    → (div64 dividend divisor ≡ dividend / divisor) × (mod64 dividend divisor ≡ dividend % divisor)
unfolding div64 mod64
div64-mod64 a d x pos =
    let run = run64 d 64 (start a) pos x pos (omega arith) (omega arith) in
    quotient_unique a d _ _ (omega (arith, run.balance, run.below, run.above)) run.remainder

-- For a divisor other than 0, `hal_rtl_math_div32` and `hal_rtl_math_mod32` return the quotient
-- and the remainder of a 32-bit dividend.
div32-mod32 :
    (dividend divisor : ℕ)
    → dividend < 2 ^ 32
    → 0 < divisor
    → (div32 dividend divisor ≡ dividend / divisor) × (mod32 dividend divisor ≡ dividend % divisor)
unfolding div32 mod32
div32-mod32 a d x pos =
    let run = run32 d 32 (start a) pos x pos (omega arith) (omega arith) in
    quotient_unique a d _ _ (omega (arith, run.balance, run.below, run.above)) run.remainder
