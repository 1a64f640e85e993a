-- ===== src/Words/Bits.antt =====
-- The bits of `and_bits` and `xor_bits`.
use native.Mathlib.Nat.{pow-suc, div-one, div-div-eq-div-mul}
use sandnix.Prelude.{
  ℕ, zero, suc, ◌+◌, ◌*◌, ◌/◌, ◌%◌, ◌^◌, ◌<◌, ◌≡◌, sym, ap, ap₂, ◌∙◌, ◌⊎◌, inl, inr, arith,
}
use sandnix.Words.{and_bits, xor_bits}

abbrev pub bit : (i a : ℕ) → ℕ
bit i a = a / 2 ^ i % 2

bit_zero : (a : ℕ) → bit 0 a ≡ a % 2
bit_zero a = ap (λ k. k % 2) (div-one a)

bit_suc : (i a : ℕ) → bit (suc i) a ≡ bit i (a / 2)
bit_suc i a =
    ap (λ k. k % 2)
      (sym (div-div-eq-div-mul a 2 (2 ^ i) ∙ ap (λ k. a / k) (rw (pow-suc 2 i) (omega arith))))

bit_cases : (a : ℕ) → (a % 2 ≡ 0) ⊎ (a % 2 ≡ 1)
bit_cases a = grind arith

-- The lowest bit and the rest of a number that is put together from them.
join_low : (b r : ℕ) → b < 2 → ((b + 2 * r) % 2 ≡ b) × ((b + 2 * r) / 2 ≡ r)
join_low b r h = (omega arith, omega arith)

and_low : (a b : ℕ) → (a % 2) * (b % 2) < 2
and_low a b = elim (bit_cases a) [ inl e ↦ rw e (omega arith) | inr e ↦ rw e (omega arith) ]

pub bit-and_bits : (k i a b : ℕ) → i < k → bit i (and_bits k a b) ≡ bit i a * bit i b
unfolding and_bits
bit-and_bits zero i a b lt = absurd (omega arith)
bit-and_bits (suc k) zero a b lt =
    bit_zero _
    ∙ (join_low ((a % 2) * (b % 2)) (and_bits k (a / 2) (b / 2)) (and_low a b)).0
    ∙ ap₂ ◌*◌ (sym (bit_zero a)) (sym (bit_zero b))
bit-and_bits (suc k) (suc i) a b lt =
    bit_suc i _
    ∙ ap (bit i) ((join_low ((a % 2) * (b % 2)) (and_bits k (a / 2) (b / 2)) (and_low a b)).1)
    ∙ bit-and_bits k i (a / 2) (b / 2) (omega arith)
    ∙ ap₂ ◌*◌ (sym (bit_suc i a)) (sym (bit_suc i b))

pub bit-xor_bits : (k i a b : ℕ) → i < k → bit i (xor_bits k a b) ≡ (bit i a + bit i b) % 2
unfolding xor_bits
bit-xor_bits zero i a b lt = absurd (omega arith)
bit-xor_bits (suc k) zero a b lt =
    bit_zero _
    ∙ (join_low ((a % 2 + b % 2) % 2) (xor_bits k (a / 2) (b / 2)) (omega arith)).0
    ∙ ap₂ (λ x y. (x + y) % 2) (sym (bit_zero a)) (sym (bit_zero b))
bit-xor_bits (suc k) (suc i) a b lt =
    bit_suc i _
    ∙ ap (bit i) ((join_low ((a % 2 + b % 2) % 2) (xor_bits k (a / 2) (b / 2)) (omega arith)).1)
    ∙ bit-xor_bits k i (a / 2) (b / 2) (omega arith)
    ∙ ap₂ (λ x y. (x + y) % 2) (sym (bit_suc i a)) (sym (bit_suc i b))
