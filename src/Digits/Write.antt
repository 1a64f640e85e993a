-- ===== src/Digits/Write.antt =====
-- `core_rtl_itoa`, `core_rtl_htoa` and `core_rtl_otoa` write the digits of a number.
use native.Mathlib.Nat.{
  pow-suc, div-div-eq-div-mul, div-lt_iff_lt-mul, le-div_iff_mul-le, div-one, pow-zero,
  pow-le-pow_right, mul-le-mul_left,
}
use sandnix.Prelude.{
  ℕ, zero, suc, ◌+◌, ◌-◌, ◌*◌, ◌/◌, ◌%◌, ◌^◌, ◌≤◌, ◌<◌, ◌≡◌, ◌≢◌, refl, ap, subst, ◌∙◌, true, false,
  ◌==◌, ◌⊎◌, Option, some, Bool-cases, inl, inr, arith,
}
use sandnix.Bytes.{Bytes}
use sandnix.Digits.{store, Radix, write_digits}

-- The routine's operations on numbers of 64 bits are those of the base, and `digit` its characters.
pub record IsRadix (base : ℕ) (digit : ℕ → ℕ) (r : Radix) : Type 0 where
  pub base_pos : 2 ≤ base
  pub rest : (n : ℕ) → n < 2 ^ 64 → r.rest n ≡ n / base
  pub char : (n : ℕ) → n < 2 ^ 64 → r.char n ≡ digit (n % base)
  pub null : digit 0 ≡ 48

module _ (base : ℕ) (digit : ℕ → ℕ) (r : Radix) (ok : IsRadix base digit r) where
  -- `n` stands at `p` with its last digit first.
  pub record IsWritten (k n p : ℕ) (m : Bytes) (result : Option (ℕ × Bytes)) : Type 0 where
    pub len : ℕ
    pub bound : len ≤ k
    pub after : Bytes
    pub returns : result ≡ some (p + len, after)
    pub chars : (i : ℕ) → i < len → after (p + i) ≡ digit (n / base ^ i % base)
    pub outside : (q : ℕ) → (q < p) ⊎ (p + len ≤ q) → after q ≡ m q
    pub upper : n < base ^ len
    pub lower : (len ≡ 0) ⊎ (base ^ (len - 1) ≤ n)

  digit_suc : (n i : ℕ) → n / base / base ^ i ≡ n / base ^ suc i
  digit_suc n i =
      div-div-eq-div-mul n base (base ^ i) ∙ ap (λ k. n / k) (rw (pow-suc base i) (omega arith))

  write_more :
      (k n p : ℕ) (m : Bytes) {result : Option (ℕ × Bytes)}
      → n ≢ 0
      → IsWritten k (n / base) (p + 1) (store p (digit (n % base)) m) result
      → IsWritten (suc k) n p m result
  write_more k n p m ne w = record {
    len = suc w.len;
    bound = omega (arith, w.bound);
    after = w.after;
    returns = w.returns ∙ ap (λ k. some (k, w.after)) (omega arith);
    chars = chars;
    outside = outside;
    upper = rw (pow-suc base w.len) ((div-lt_iff_lt-mul (omega (arith, ok.base_pos))).0 w.upper);
    lower = inr (subst (λ k. base ^ k ≤ n) (omega arith) (lower w.len w.lower));
  }
    where
      chars : (i : ℕ) → i < suc w.len → w.after (p + i) ≡ digit (n / base ^ i % base)
      chars zero lt =
          let first : store p (digit (n % base)) m p ≡ digit (n % base) =
            let same : (p == p) ≡ true = ground arith in rw same refl in
          let one : n / base ^ 0 ≡ n = rw (pow-zero base) (div-one n) in
          let here : p + 0 ≡ p = omega arith in
          rw (here, one) (w.outside p (inl (omega arith)) ∙ first)
      chars (suc i) lt =
          let here : p + suc i ≡ p + 1 + i = omega arith in
          rw here (w.chars i (omega arith) ∙ ap (λ k. digit (k % base)) (digit_suc n i))

      outside : (q : ℕ) → (q < p) ⊎ (p + suc w.len ≤ q) → w.after q ≡ m q
      outside q (inl lt) =
          w.outside q (inl (omega arith))
          ∙ (let other : (q == p) ≡ false = ground arith in rw other refl)
      outside q (inr le) =
          w.outside q (inr (omega arith))
          ∙ (let other : (q == p) ≡ false = ground arith in rw other refl)

      lower : (len : ℕ) → (len ≡ 0) ⊎ (base ^ (len - 1) ≤ n / base) → base ^ len ≤ n
      lower len (inl e) = rw e (rw (pow-zero base) (omega arith))
      lower zero (inr le) = rw (pow-zero base) (omega arith)
      lower (suc len) (inr le) = rw (pow-suc base len) (
          (le-div_iff_mul-le (omega (arith, ok.base_pos))).0
            (subst (λ k. base ^ k ≤ n / base) (omega arith) le))

  IsWritten-zero : (k n p : ℕ) (m : Bytes) → n ≡ 0 → IsWritten k n p m (some (p, m))
  IsWritten-zero k n p m e = record {
    len = 0;
    bound = omega arith;
    after = m;
    returns = ap (λ k. some (k, m)) (omega arith);
    chars = λ i lt. absurd (omega arith);
    outside = λ q o. refl;
    upper = rw (pow-zero base) (omega arith);
    lower = inl refl;
  }

  -- On fuel for its bits, a number is written.
  pub write_digits-IsWritten :
      (fuel k n p : ℕ) (m : Bytes)
      → k < fuel
      → k ≤ 64
      → n < 2 ^ k
      → IsWritten k n p m (write_digits r fuel n p m)
  unfolding write_digits
  write_digits-IsWritten zero k n p m lt le small = absurd (omega arith)
  write_digits-IsWritten (suc fuel) zero n p m lt le small =
      let empty : (n == 0) ≡ true = ground arith in
      rw empty (IsWritten-zero zero n p m (omega arith))
  write_digits-IsWritten (suc fuel) (suc k) n p m lt le small =
      let bits : 2 ^ suc k ≤ 2 ^ 64 = pow-le-pow_right (omega arith) le in
      let fits : n < 2 ^ 64 = omega (arith, bits) in
      let small' : n < 2 ^ k * 2 = rw pow-suc at small in
      let half : n / base < 2 ^ k =
        (div-lt_iff_lt-mul (omega (arith, ok.base_pos))).1
          (omega (arith, mul-le-mul_left (2 ^ k) ok.base_pos)) in
      elim (Bool-cases (n == 0)) [
        | inl e ↦ rw e (IsWritten-zero (suc k) n p m (ground arith))
        | inr e ↦ rw e (
            rw (ok.rest n fits, ok.char n fits)
              (write_more k n p m (ground arith) (
                write_digits-IsWritten fuel k (n / base) (p + 1) _ (omega arith) (omega arith)
                  half)))
      ]
