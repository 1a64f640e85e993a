-- ===== src/Words.antt =====
-- Bitwise operations on unsigned numbers, bit by bit.
pub mod Bits
use sandnix.Prelude.{ℕ, zero, suc, ◌+◌, ◌*◌, ◌/◌, ◌%◌}

-- `a & b` and `a ^ b` on the lowest `bits` bits.
pub and_bits : (bits a b : ℕ) → ℕ
and_bits zero a b = 0
and_bits (suc k) a b = (a % 2) * (b % 2) + 2 * and_bits k (a / 2) (b / 2)

pub xor_bits : (bits a b : ℕ) → ℕ
xor_bits zero a b = 0
xor_bits (suc k) a b = (a % 2 + b % 2) % 2 + 2 * xor_bits k (a / 2) (b / 2)
