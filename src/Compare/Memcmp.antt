-- ===== src/Compare/Memcmp.antt =====
-- `core_rtl_memcmp` compares as a loop over single bytes does.
use sandnix.Prelude.{
  ℕ, zero, suc, ◌+◌, ◌-◌, ◌*◌, ◌/◌, ◌%◌, ◌≤◌, ◌<◌, ◌≡◌, refl, sym, ap, ap₂, ◌∙◌, true, false, ◌||◌,
  ◌==◌, Option, none, some, ltb, not, Bool-cases, inl, inr, arith,
}
use sandnix.Bytes.{Bytes}
use sandnix.Compare.{
  compare_bytes, longword, Outcome, returned, behind, compare_longwords, or_zero, compare_rest,
  memcmp,
}

-- Every cell of the memory holds a byte.
abbrev pub AllBytes : Bytes → Type 0
AllBytes m = (p : ℕ) → m p < 256

-- The first difference, of two regions that follow each other.
abbrev pub or_else : Option ℕ → Option ℕ → Option ℕ
or_else none r = r
or_else (some ret) r = some ret

compare_bytes_ap :
    (m : Bytes) {n n' p p' q q' : ℕ}
    → n ≡ n'
    → p ≡ p'
    → q ≡ q'
    → compare_bytes n p q m ≡ compare_bytes n' p' q' m
compare_bytes_ap m e f g = rw (e, f, g)

module _ (m : Bytes) (bytes : AllBytes m) where
  compare_bytes_add :
      (a b p q : ℕ)
      → compare_bytes (a + b) p q m
        ≡ or_else (compare_bytes a p q m) (compare_bytes b (p + a) (q + a) m)
  unfolding compare_bytes
  compare_bytes_add zero b p q =
      compare_bytes_ap m {n = 0 + b} {n' = b} {p = p} {p' = p + 0} {q = q} {q' = q + 0}
        (omega arith) (omega arith) (omega arith)
  compare_bytes_add (suc a) b p q =
      compare_bytes_ap m {n = suc a + b} {n' = suc (a + b)} (omega arith) refl refl
      ∙ elim (Bool-cases ((m p + 256 - m q) % 256 == 0)) [
        | inl e ↦ rw e (
            compare_bytes_add a b (p + 1) (q + 1)
            ∙ ap (or_else (compare_bytes a (p + 1) (q + 1) m))
                (compare_bytes_ap m refl (omega arith) (omega arith)))
        | inr e ↦ rw e refl
      ]

  byte_same : (p q : ℕ) → ((m p + 256 - m q) % 256 == 0) ≡ (m p == m q)
  byte_same p q = ground (arith, bytes p, bytes q)

  longword_bytes :
      (p q : ℕ)
      → longword m p ≡ longword m q
      → (m p ≡ m q)
        × (m (p + 1) ≡ m (q + 1))
        × (m (p + 1 + 1) ≡ m (q + 1 + 1))
        × (m (p + 1 + 1 + 1) ≡ m (q + 1 + 1 + 1))
  longword_bytes p q e =
      let b0 = bytes p in
      let c0 = bytes q in
      let b1 = bytes (p + 1) in
      let c1 = bytes (q + 1) in
      let b2 = bytes (p + 1 + 1) in
      let c2 = bytes (q + 1 + 1) in
      let b3 = bytes (p + 1 + 1 + 1) in
      let c3 = bytes (q + 1 + 1 + 1) in (omega arith, omega arith, omega arith, omega arith)

  step_same :
      (n p q : ℕ) → m p ≡ m q → compare_bytes (suc n) p q m ≡ compare_bytes n (p + 1) (q + 1) m
  unfolding compare_bytes
  step_same n p q e = let same : (m p == m q) ≡ true = ground arith in rw byte_same (rw same refl)

  -- A search whose first bytes differ.
  abbrev Differs : (n p q : ℕ) → Type 0
  Differs n p q = (ret : ℕ) × (compare_bytes n p q m ≡ some ret)

  step_other : (n p q : ℕ) → (m p == m q) ≡ false → Differs (suc n) p q
  unfolding compare_bytes
  step_other n p q e = ((m p + 256 - m q) % 256, rw byte_same (rw e refl))

  step_more : (n p q : ℕ) → ((m p == m q) ≡ true → Differs n (p + 1) (q + 1)) → Differs (suc n) p q
  step_more n p q next = elim (Bool-cases (m p == m q)) [
    | inl e ↦ ((next e).0, step_same n p q (ground arith) ∙ (next e).1)
    | inr e ↦ step_other n p q e
  ]

  longword_same : (p q : ℕ) → longword m p ≡ longword m q → compare_bytes 4 p q m ≡ none
  unfolding compare_bytes
  longword_same p q e =
      let (e0, e1, e2, e3) = longword_bytes p q e in
      step_same 3 p q e0 ∙ step_same 2 _ _ e1 ∙ step_same 1 _ _ e2 ∙ step_same 0 _ _ e3

  longword_other : (p q : ℕ) → (longword m p == longword m q) ≡ false → Differs 4 p q
  longword_other p q ne = step_more 3 p q (λ e0. step_more 2 (p + 1) (q + 1) (λ e1.
      step_more 1 (p + 1 + 1) (q + 1 + 1)
        (λ e2. step_other 0 (p + 1 + 1 + 1) (q + 1 + 1 + 1) (ground arith))))

  -- What the loop over longwords is for: the bytes that it covers.
  abbrev covers : (len p q : ℕ) → Option ℕ → Outcome
  covers len p q none = behind (p + len) (q + len)
  covers len p q (some ret) = returned ret

  no_bytes : (p q : ℕ) → compare_bytes (0 * 4) p q m ≡ none
  unfolding compare_bytes
  no_bytes p q = refl

  covers_none : (p q : ℕ) → some (behind p q) ≡ some (behind (p + 0 * 4) (q + 0 * 4))
  covers_none p q = ap₂ (λ a b. some (behind a b)) (omega arith) (omega arith)

  covers_later :
      (k p q : ℕ) (r : Option ℕ) → covers (k * 4) (p + 4) (q + 4) r ≡ covers (suc k * 4) p q r
  covers_later k p q none = ap₂ behind (omega arith) (omega arith)
  covers_later k p q (some ret) = refl

  first_four :
      (k p q : ℕ)
      → compare_bytes (suc k * 4) p q m
        ≡ or_else (compare_bytes 4 p q m) (compare_bytes (k * 4) (p + 4) (q + 4) m)
  first_four k p q =
      compare_bytes_ap m {n = suc k * 4} {n' = 4 + k * 4} (omega arith) refl refl
      ∙ compare_bytes_add 4 (k * 4) p q

  -- The end of the code, by the outcome of the loop.
  joined :
      (size p q : ℕ) (r : Option ℕ)
      → (elim (covers (size / 4 * 4) p q r) [
        | returned ret ↦ some ret
        | behind p' q' ↦ some (or_zero (compare_bytes (size % 4) p' q' m))
      ])
        ≡ some
            (or_zero (or_else r (compare_bytes (size % 4) (p + size / 4 * 4) (q + size / 4 * 4) m)))
  joined size p q none = refl
  joined size p q (some ret) = refl

  compare_longwords_lem :
      (fuel n p q k : ℕ)
      → k < fuel
      → compare_longwords fuel n (n + k * 4) p q m
        ≡ some (covers (k * 4) p q (compare_bytes (k * 4) p q m))
  unfolding compare_longwords
  compare_longwords_lem zero n p q k lt = absurd (omega arith)
  compare_longwords_lem (suc fuel) n p q zero lt =
      let stop : ltb n (n + 0 * 4) ≡ false = ground arith in
      rw stop (covers_none p q ∙ ap (λ r. some (covers (0 * 4) p q r)) (sym (no_bytes p q)))
  compare_longwords_lem (suc fuel) n p q (suc k) lt =
      let more : ltb n (n + suc k * 4) ≡ true = ground arith in
      let len : n + suc k * 4 ≡ n + 4 + k * 4 = omega arith in
      rw more (elim (Bool-cases (longword m p == longword m q)) [
        | inl e ↦
            let same : longword m p ≡ longword m q = ground arith in
            let later = compare_longwords_lem fuel (n + 4) (p + 4) (q + 4) k (omega arith) in
            rw (e, len)
              (later
                ∙ ap some (covers_later k p q (compare_bytes (k * 4) (p + 4) (q + 4) m))
                ∙ ap (λ r. some (covers (suc k * 4) p q r))
                    (sym (
                      first_four k p q
                      ∙ ap (λ r. or_else r (compare_bytes (k * 4) (p + 4) (q + 4) m))
                          (longword_same p q same))))
        | inr e ↦
            let (ret, found) = longword_other p q e in
            rw e (
              rw found (
                ap (λ r. some (covers (suc k * 4) p q r))
                  (sym (
                    first_four k p q
                    ∙ ap (λ r. or_else r (compare_bytes (k * 4) (p + 4) (q + 4) m)) found))))
      ])

  compare_rest_lem :
      (size p q : ℕ) → compare_rest size p q m ≡ some (or_zero (compare_bytes size p q m))
  unfolding compare_rest
  compare_rest_lem size p q =
      let run = compare_longwords_lem (size / 4 + 1) 0 p q (size / 4) (omega arith) in
      let start : 0 + size / 4 * 4 ≡ size / 4 * 4 = omega arith in
      let split =
        compare_bytes_ap m {n = size} {n' = size / 4 * 4 + size % 4} (omega arith) refl refl
        ∙ compare_bytes_add (size / 4 * 4) (size % 4) p q in
      rw (rw start at run) (rw split (joined size p q (compare_bytes (size / 4 * 4) p q m)))

-- On a memory of bytes, the fuel is enough, and `core_rtl_memcmp` with its comparison of whole
-- longwords returns what a loop over all the bytes of the regions returns.
pub memcmp-compare_bytes :
    (m : Bytes)
    → AllBytes m
    → (p q size : ℕ) → memcmp p q size m ≡ some (or_zero (compare_bytes size p q m))
unfolding memcmp
memcmp-compare_bytes m bytes p q size = elim (Bool-cases (ltb size 8 || not (p % 4 == q % 4))) [
  | inl e ↦ rw e
  | inr e ↦
      let large : 8 ≤ size = ground arith in
      let split =
        compare_bytes_ap m {n = size} {n' = p % 4 + (size - p % 4)} (omega arith) refl refl
        ∙ compare_bytes_add m bytes (p % 4) (size - p % 4) p q in
      rw e (rw split (go (compare_bytes (p % 4) p q m)))
]
  where
    go :
        (r : Option ℕ)
        → (elim r [
          | some ret ↦ some ret
          | none ↦ compare_rest (size - p % 4) (p + p % 4) (q + p % 4) m
        ])
          ≡ some (or_zero (or_else r (compare_bytes (size - p % 4) (p + p % 4) (q + p % 4) m)))
    go none = compare_rest_lem m bytes (size - p % 4) (p + p % 4) (q + p % 4)
    go (some ret) = refl
