-- ===== src/Math.antt =====
-- src/sandnix/kernel/hal/rtl/math/math.c: long division for the platforms without a wide divide.
pub mod Division
mod Tests
use sandnix.Prelude.{
  ℕ, zero, suc, ◌+◌, ◌-◌, ◌*◌, ◌/◌, ◌%◌, ◌^◌, Bool, true, ◌==◌, leb, if◌then◌else◌,
}

-- The local variables of the four functions.
pub record Registers : Type 0 where
  pub quotient : ℕ
  pub remainder : ℕ
  pub dividend : ℕ

-- A word is below `2 * half`; its top bit is tested as `dividend & half`.
module _ (half divisor : ℕ) where
  abbrev pub word : ℕ → ℕ
  word n = n % (2 * half)

  abbrev pub top_bit : ℕ → Bool
  top_bit n = n / half % 2 == 1

  -- The body of the `for` loop.
  pub division_step : Registers → Registers
  division_step s =
      let shifted =
        if top_bit s.dividend then word (word (s.remainder * 2) + 1) else word (s.remainder * 2) in
      if leb divisor shifted
      then record {
        quotient = word (word (s.quotient * 2) + 1);
        remainder = shifted - divisor;
        dividend = word (s.dividend * 2);
      }
      else record {
        quotient = word (s.quotient * 2);
        remainder = shifted;
        dividend = word (s.dividend * 2);
      }

  -- The loop, with the given number of rounds left.
  pub division_loop : ℕ → Registers → Registers
  division_loop zero s = s
  division_loop (suc k) s = division_loop k (division_step s)

abbrev pub start : ℕ → Registers
start dividend = record { quotient = 0; remainder = 0; dividend = dividend }

pub div64 : ℕ → ℕ → ℕ
div64 dividend divisor = (division_loop (2 ^ 63) divisor 64 (start dividend)).quotient

pub mod64 : ℕ → ℕ → ℕ
mod64 dividend divisor = (division_loop (2 ^ 63) divisor 64 (start dividend)).remainder

pub div32 : ℕ → ℕ → ℕ
div32 dividend divisor = (division_loop (2 ^ 31) divisor 32 (start dividend)).quotient

pub mod32 : ℕ → ℕ → ℕ
mod32 dividend divisor = (division_loop (2 ^ 31) divisor 32 (start dividend)).remainder
