-- ===== src/Length/Scan.antt =====
-- `core_rtl_strlen` on a string.
use sandnix.Prelude.{
  ℕ, zero, suc, ◌+◌, ◌-◌, ◌*◌, ◌%◌, ◌<◌, ◌≤◌, ◌≡◌, ◌≢◌, inl, inr, refl, sym, ap, ◌∙◌, true, false,
  ◌==◌, some, List, [], ◌∷◌, length, Bool-cases, subst, arith,
}
use sandnix.Bytes.{Bytes}
use sandnix.Compare.{longword}
use sandnix.Compare.Memcmp.{AllBytes}
use sandnix.Compare.Strcmp.{IsString}
use sandnix.Length.{zero_test, scan_longwords, scan_head, strlen}
use sandnix.Length.ZeroTest.{zero_test_lem}

-- The first NUL from `p` on stands `n` bytes behind.
pub record EndsAt (m : Bytes) (p n : ℕ) : Type 0 where
  pub ends : m (p + n) ≡ 0
  pub before : (i : ℕ) → i < n → m (p + i) ≢ 0

pub IsString-EndsAt : (m : Bytes) (p : ℕ) (xs : List ℕ) → IsString m p xs → EndsAt m p (length xs)
IsString-EndsAt m p [] s = record {
  ends = ap m (omega arith) ∙ s;
  before = λ i lt. absurd (omega arith);
}
IsString-EndsAt m p (x ∷ xs) s =
    let rest = IsString-EndsAt m (p + 1) xs (s.2) in
    record { ends = ap m (omega arith) ∙ rest.ends; before = λ i lt. before i lt rest }
  where
    before : (i : ℕ) → i < suc (length xs) → EndsAt m (p + 1) (length xs) → m (p + i) ≢ 0
    before zero lt rest e = s.1 (sym (s.0) ∙ ap m (omega arith) ∙ e)
    before (suc i) lt rest e = rest.before i (omega arith) (ap m (omega arith) ∙ e)

module _ (m : Bytes) (bytes : AllBytes m) where
  -- A string that goes on goes on behind its first characters.
  EndsAt-skip : (p n k : ℕ) → k ≤ n → EndsAt m p n → EndsAt m (p + k) (n - k)
  EndsAt-skip p n k le s = record {
    ends = ap m (omega arith) ∙ s.ends;
    before = λ i lt e. s.before (k + i) (omega arith) (ap m (omega arith) ∙ e);
  }

  nonzero : (p : ℕ) → zero_test (longword m p) ≡ 0 → (i : ℕ) → i < 4 → m (p + i) ≢ 0
  nonzero p e i lt = go i lt (
      zero_test_lem _ _ _ _ (bytes p) (bytes (p + 1)) (bytes (p + 1 + 1)) (bytes (p + 1 + 1 + 1)) e)
    where
      go :
          (i : ℕ)
          → i < 4
          → (m p ≢ 0) × (m (p + 1) ≢ 0) × (m (p + 1 + 1) ≢ 0) × (m (p + 1 + 1 + 1) ≢ 0)
          → m (p + i) ≢ 0
      go zero lt n z = n.0 (ap m (omega arith) ∙ z)
      go (suc zero) lt n z = n.1 z
      go (suc (suc zero)) lt n z = n.2 (ap m (omega arith) ∙ z)
      go (suc (suc (suc zero))) lt n z = n.3 (ap m (omega arith) ∙ z)
      go (suc (suc (suc (suc i)))) lt n z = omega arith

  ruled_out : (p n : ℕ) → n < 4 → EndsAt m p n → (zero_test (longword m p) == 0) ≡ false
  ruled_out p n lt s = elim (Bool-cases (zero_test (longword m p) == 0)) [
    | inl e ↦ absurd (nonzero p (ground arith) n lt s.ends)
    | inr e ↦ e
  ]

  nul : (p n i : ℕ) → EndsAt m p n → i ≡ n → (m (p + i) == 0) ≡ true
  nul p n i s e = let z : m (p + i) ≡ 0 = ap (λ k. m (p + k)) e ∙ s.ends in ground arith

  char : (p n i : ℕ) → EndsAt m p n → i < n → (m (p + i) == 0) ≡ false
  char p n i s lt = let z = s.before i lt in ground arith

  first : (p : ℕ) → (m (p + 0) == 0) ≡ (m p == 0)
  first p = ap (λ k. m k == 0) (omega arith)

  scan_longwords_lem :
      (fuel p n : ℕ) → n < 4 * fuel → EndsAt m p n → scan_longwords fuel p m ≡ some (p + n)
  unfolding scan_longwords
  scan_longwords_lem zero p n lt s = absurd (omega arith)
  scan_longwords_lem (suc fuel) p zero lt s =
      let at0 : (m p == 0) ≡ true = sym (first p) ∙ nul p 0 0 s refl in
      rw (ruled_out p 0 (omega arith) s, at0) (ap some (omega arith))
  scan_longwords_lem (suc fuel) p (suc zero) lt s =
      let at0 : (m p == 0) ≡ false = sym (first p) ∙ char p 1 0 s (omega arith) in
      rw (ruled_out p 1 (omega arith) s, at0, nul p 1 1 s refl) refl
  scan_longwords_lem (suc fuel) p (suc (suc zero)) lt s =
      let at0 : (m p == 0) ≡ false = sym (first p) ∙ char p 2 0 s (omega arith) in
      rw (ruled_out p 2 (omega arith) s, at0, char p 2 1 s (omega arith), nul p 2 2 s refl) refl
  scan_longwords_lem (suc fuel) p (suc (suc (suc zero))) lt s =
      let at0 : (m p == 0) ≡ false = sym (first p) ∙ char p 3 0 s (omega arith) in
      rw
        (
          ruled_out p 3 (omega arith) s,
          at0,
          char p 3 1 s (omega arith),
          char p 3 2 s (omega arith),
          nul p 3 3 s refl,
        )
        refl
  scan_longwords_lem (suc fuel) p (suc (suc (suc (suc n)))) lt s =
      let l = 4 + n in
      let at0 : (m p == 0) ≡ false = sym (first p) ∙ char p (4 + n) 0 (shift s) (omega arith) in
      let at1 = char p (4 + n) 1 (shift s) (omega arith) in
      let at2 = char p (4 + n) 2 (shift s) (omega arith) in
      let at3 = char p (4 + n) 3 (shift s) (omega arith) in
      let later =
        scan_longwords_lem fuel (p + 4) (4 + n - 4) (omega arith)
          (EndsAt-skip p (4 + n) 4 (omega arith) (shift s))
        ∙ ap some (omega arith) in
      elim (Bool-cases (zero_test (longword m p) == 0)) [
        | inl e ↦ rw e later
        | inr e ↦ rw (e, at0, at1, at2, at3) later
      ]
    where
      shift : EndsAt m p (suc (suc (suc (suc n)))) → EndsAt m p (4 + n)
      shift s = subst (EndsAt m p) (omega arith) s

  -- The rounds that reach a longword boundary are enough.
  scan_head_lem :
      (rounds left fuel p n : ℕ)
      → (p + left) % 4 ≡ 0
      → left < rounds
      → left < 4
      → n < 4 * fuel
      → EndsAt m p n
      → scan_head rounds fuel p m ≡ some (p + n)
  unfolding scan_head
  scan_head_lem zero left fuel p n al enough lt e s = absurd (omega arith)
  scan_head_lem (suc rounds) zero fuel p n al enough lt e s =
      let a : (p % 4 == 0) ≡ true = ground arith in rw a (scan_longwords_lem fuel p n e s)
  scan_head_lem (suc rounds) (suc left) fuel p zero al enough lt e s =
      let at0 : (m p == 0) ≡ true = sym (first p) ∙ nul p 0 0 s refl in
      let a : (p % 4 == 0) ≡ false = ground arith in rw (a, at0) (ap some (omega arith))
  scan_head_lem (suc rounds) (suc left) fuel p (suc n) al enough lt e s =
      let at0 : (m p == 0) ≡ false = sym (first p) ∙ char p (suc n) 0 s (omega arith) in
      let a : (p % 4 == 0) ≡ false = ground arith in
      let rest =
        scan_head_lem rounds left fuel (p + 1) (suc n - 1) (ap (λ k. k % 4) (omega arith) ∙ al)
          (omega arith) (omega arith) (omega arith) (EndsAt-skip p (suc n) 1 (omega arith) s)
        ∙ ap some (omega arith) in
      rw (a, at0) rest

-- On bytes, with fuel for a quarter of the characters and the NUL, `core_rtl_strlen` returns the
-- number of characters in front of the NUL.
pub strlen-length :
    (m : Bytes) (fuel p : ℕ) (xs : List ℕ)
    → AllBytes m
    → IsString m p xs
    → length xs < 4 * fuel
    → strlen fuel p m ≡ some (length xs)
unfolding strlen
strlen-length m fuel p xs bytes s lt =
    let e =
      scan_head_lem m bytes 4 ((4 - p % 4) % 4) fuel p (length xs) (omega arith) (omega arith)
        (omega arith) lt (IsString-EndsAt m p xs s) in
    rw (strlen, e) (ap some (omega arith))
