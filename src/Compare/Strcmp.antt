-- ===== src/Compare/Strcmp.antt =====
-- `core_rtl_strncmp` and `core_rtl_strcmp` compare strings by their first difference.
use sandnix.Prelude.{
  ℕ, zero, suc, ◌+◌, ◌-◌, ◌<◌, ◌≡◌, ◌≢◌, ◌↔◌, refl, sym, false, ◌==◌, List, [], ◌∷◌, length, leb,
  if◌then◌else◌, Bool-cases, inl, inr, arith,
}
use sandnix.Bytes.{Bytes}
use sandnix.Compare.{ℤ, pos, negsuc, minus, strncmp, strcmp}

-- The characters `xs` and a NUL stand at `p`.
abbrev pub IsString : Bytes → ℕ → List ℕ → Type 0
IsString m p [] = m p ≡ 0
IsString m p (x ∷ xs) = (m p ≡ x) × (x ≢ 0) × IsString m (p + 1) xs

-- The difference of the first characters that differ, where an end counts as 0.
abbrev pub difference : List ℕ → List ℕ → ℤ
difference [] [] = pos 0
difference [] (y ∷ ys) = minus 0 y
difference (x ∷ xs) [] = minus x 0
difference (x ∷ xs) (y ∷ ys) = if x == y then difference xs ys else minus x y

strncmp-difference :
    (m : Bytes) (len p q : ℕ) (xs ys : List ℕ)
    → IsString m p xs
    → IsString m q ys
    → length xs < len
    → strncmp len p q m ≡ difference xs ys
unfolding strncmp
strncmp-difference m zero p q xs ys s t lt = absurd (omega arith)
strncmp-difference m (suc len) p q [] [] s t lt = rw (s, t) refl
strncmp-difference m (suc len) p q [] (y ∷ ys) s t lt =
    let other : (0 == y) ≡ false = let ne = t.1 in ground arith in rw (s, t.0) (rw other refl)
strncmp-difference m (suc len) p q (x ∷ xs) [] s t lt =
    let other : (x == 0) ≡ false = let ne = s.1 in ground arith in rw (s.0, t) (rw other refl)
strncmp-difference m (suc len) p q (x ∷ xs) (y ∷ ys) s t lt =
    let some_char : (x == 0) ≡ false = let ne = s.1 in ground arith in
    rw (s.0, t.0)
      (elim (Bool-cases (x == y)) [
        | inl e ↦
            rw (e, some_char)
              (strncmp-difference m len (p + 1) (q + 1) xs ys (s.2) (t.2) (omega arith))
        | inr e ↦ rw e refl
      ])

minus_zero : (a b : ℕ) → minus a b ≡ pos 0 → a ≡ b
minus_zero a b h = elim (Bool-cases (leb b a)) [
  | inl e ↦
      let h' : pos (a - b) ≡ pos 0 = rw e at h in let none_left : a - b ≡ 0 = cc in ground arith
  | inr e ↦ let h' : negsuc (b - a - 1) ≡ pos 0 = rw e at h in absurd cc
]

difference_zero :
    (xs ys : List ℕ) (p q : ℕ) (m : Bytes)
    → IsString m p xs
    → IsString m q ys
    → (difference xs ys ≡ pos 0) ↔ (xs ≡ ys)
difference_zero [] [] p q m s t = (λ e. refl, λ e. refl)
difference_zero [] (y ∷ ys) p q m s t = (λ e. absurd (t.1 (sym (minus_zero 0 y e))), λ e. absurd cc)
difference_zero (x ∷ xs) [] p q m s t = (λ e. absurd (s.1 (minus_zero x 0 e)), λ e. absurd cc)
difference_zero (x ∷ xs) (y ∷ ys) p q m s t = elim (Bool-cases (x == y)) [
  | inl e ↦
      let same : x ≡ y = ground arith in
      let rest = difference_zero xs ys (p + 1) (q + 1) m (s.2) (t.2) in
      (λ d. cc (same, rest.0 (rw e at d)), λ d. rw e (rest.1 cc))
  | inr e ↦
      let other : x ≢ y = ground arith in
      (λ d. absurd (other (minus_zero x y (rw e at d))), λ d. absurd (other cc))
]

-- On strings shorter than 2^32 - 1, `core_rtl_strcmp` returns the difference of the first
-- characters that differ, an end counting as 0; it returns 0 exactly for equal strings.
pub strcmp-difference :
    (m : Bytes) (p q : ℕ) (xs ys : List ℕ)
    → IsString m p xs
    → IsString m q ys
    → length xs < 4294967295
    → (strcmp p q m ≡ difference xs ys) × ((strcmp p q m ≡ pos 0) ↔ (xs ≡ ys))
unfolding strcmp
strcmp-difference m p q xs ys s t lt =
    let e = strncmp-difference m 4294967295 p q xs ys s t lt in
    (e, rw e (difference_zero xs ys p q m s t))
