-- ===== src/Length/ZeroTest.antt =====
-- The test of a longword for a zero byte.
use native.Mathlib.Nat.{zero-div}
use sandnix.Prelude.{ℕ, ◌+◌, ◌-◌, ◌*◌, ◌%◌, ◌^◌, ◌<◌, ◌≡◌, ◌≢◌, refl, sym, ap, ◌∙◌, arith}
use sandnix.Words.{and_bits}
use sandnix.Words.Bits.{bit, bit-and_bits}
use sandnix.Length.{zero_test}

-- The bit 7 of a byte is clear in the test only where it is clear in the difference or set in the
-- longword.
clear :
    (i w : ℕ)
    → i < 32
    → bit i 2155905152 ≡ 1
    → zero_test w ≡ 0
    → bit i ((w + 2 ^ 32 - 16843009) % 2 ^ 32) * bit i (2 ^ 32 - 1 - w) ≡ 0
unfolding zero_test
clear i w lt mask e =
    let diff = (w + 2 ^ 32 - 16843009) % 2 ^ 32 in
    let flip = 2 ^ 32 - 1 - w in
    let none_set : bit i 0 ≡ 0 = ap (λ k. k % 2) (zero-div (2 ^ i)) in
    let outer =
      bit-and_bits 32 i (and_bits 32 ((w + 2 ^ 32 - 16843009) % 2 ^ 32) (2 ^ 32 - 1 - w)) 2155905152
        lt in
    let masked : bit i (and_bits 32 ((w + 2 ^ 32 - 16843009) % 2 ^ 32) (2 ^ 32 - 1 - w)) * 1 ≡ 0 =
      ap (λ k. bit i (and_bits 32 ((w + 2 ^ 32 - 16843009) % 2 ^ 32) (2 ^ 32 - 1 - w)) * k)
        (sym mask)
      ∙ sym outer
      ∙ ap (bit i) e
      ∙ none_set in
    sym (bit-and_bits 32 i ((w + 2 ^ 32 - 16843009) % 2 ^ 32) (2 ^ 32 - 1 - w) lt) ∙ omega arith

both_set : (a b : ℕ) → a ≡ 1 → b ≡ 1 → a * b ≡ 0 → ⊥
both_set a b e f h = let one : a * b ≡ 1 = rw (e, f) refl in omega arith

module _ (b0 b1 b2 b3 : ℕ) (h0 : b0 < 256) (h1 : b1 < 256) (h2 : b2 < 256) (h3 : b3 < 256) where
  abbrev word : ℕ
  word = b0 + 256 * b1 + 65536 * b2 + 16777216 * b3

  pub zero_test_lem : zero_test word ≡ 0 → (b0 ≢ 0) × (b1 ≢ 0) × (b2 ≢ 0) × (b3 ≢ 0)
  zero_test_lem e =
      let n0 = first e in
      let n1 = second e n0 in let n2 = third e n0 n1 in (n0, n1, n2, fourth e n0 n1 n2)
    where
      first : zero_test word ≡ 0 → b0 ≢ 0
      first e z = both_set _ _ (omega arith) (omega arith) (clear 7 word (omega arith) refl e)

      second : zero_test word ≡ 0 → b0 ≢ 0 → b1 ≢ 0
      second e n0 z = both_set _ _ (omega arith) (omega arith) (clear 15 word (omega arith) refl e)

      third : zero_test word ≡ 0 → b0 ≢ 0 → b1 ≢ 0 → b2 ≢ 0
      third e n0 n1 z =
          both_set _ _ (omega arith) (omega arith) (clear 23 word (omega arith) refl e)

      fourth : zero_test word ≡ 0 → b0 ≢ 0 → b1 ≢ 0 → b2 ≢ 0 → b3 ≢ 0
      fourth e n0 n1 n2 z =
          both_set _ _ (omega arith) (omega arith) (clear 31 word (omega arith) refl e)
