-- ===== src/Strings/Find.antt =====
-- What `core_rtl_strpbrk` and `core_rtl_strstr` find in a string.
use sandnix.Prelude.{
  ℕ, zero, suc, ◌+◌, ◌<◌, ◌≡◌, refl, Bool, true, false, ◌==◌, some, List, [], ◌∷◌, length,
  if◌then◌else◌, Bool-cases, inl, inr, arith,
}
use sandnix.Bytes.{Bytes}
use sandnix.Compare.Strcmp.{IsString}
use sandnix.Strings.{accepts, strpbrk, starts_with, strstr}

abbrev pub member : ℕ → List ℕ → Bool
member ch [] = false
member ch (y ∷ ys) = if ch == y then true else member ch ys

-- The address of the first character of `xs`, which stand at `p`, that is one of `ys`, or NULL.
abbrev pub first_of : List ℕ → List ℕ → ℕ → ℕ
first_of ys [] p = 0
first_of ys (x ∷ xs) p = if member x ys then p else first_of ys xs (p + 1)

abbrev pub begins : List ℕ → List ℕ → Bool
begins xs [] = true
begins [] (y ∷ ys) = false
begins (x ∷ xs) (y ∷ ys) = if x == y then begins xs ys else false

-- The address of the first occurrence of `ys` in `xs`, which stand at `p`, or NULL.
abbrev pub occurrence : List ℕ → List ℕ → ℕ → ℕ
occurrence ys [] p = 0
occurrence ys (x ∷ xs) p = if begins (x ∷ xs) ys then p else occurrence ys xs (p + 1)

module _ (m : Bytes) where
  accepts-member :
      (fuel ch p : ℕ) (ys : List ℕ)
      → IsString m p ys
      → length ys < fuel
      → accepts fuel ch p m ≡ some (member ch ys)
  unfolding accepts
  accepts-member zero ch p ys s lt = absurd (omega arith)
  accepts-member (suc fuel) ch p [] s lt = rw s refl
  accepts-member (suc fuel) ch p (y ∷ ys) s lt =
      let some_char : (y == 0) ≡ false = let ne = s.1 in ground arith in
      rw (s.0, some_char)
        (elim (Bool-cases (ch == y)) [
          | inl e ↦ rw e refl
          | inr e ↦ rw e (accepts-member fuel ch (p + 1) ys (s.2) (omega arith))
        ])

  -- On fuel for the two strings, `core_rtl_strpbrk` returns the address of the first character of
  -- the first that is in the second, or NULL where there is none.
  strpbrk-first_of :
      (fuel inner p q : ℕ) (xs ys : List ℕ)
      → IsString m p xs
      → IsString m q ys
      → length xs < fuel
      → length ys < inner
      → strpbrk fuel inner p q m ≡ some (first_of ys xs p)
  unfolding strpbrk
  strpbrk-first_of zero inner p q xs ys s t lt lt' = absurd (omega arith)
  strpbrk-first_of (suc fuel) inner p q [] ys s t lt lt' = rw s refl
  strpbrk-first_of (suc fuel) inner p q (x ∷ xs) ys s t lt lt' =
      let some_char : (x == 0) ≡ false = let ne = s.1 in ground arith in
      let found : accepts inner x q m ≡ some (member x ys) = accepts-member inner x q ys t lt' in
      rw (s.0, some_char)
        (rw found (elim (Bool-cases (member x ys)) [
          | inl e ↦ rw e refl
          | inr e ↦ rw e (strpbrk-first_of fuel inner (p + 1) q xs ys (s.2) t (omega arith) lt')
        ]))

  starts_with-begins :
      (fuel p q : ℕ) (xs ys : List ℕ)
      → IsString m p xs
      → IsString m q ys
      → length ys < fuel
      → starts_with fuel p q m ≡ some (begins xs ys)
  unfolding starts_with
  starts_with-begins zero p q xs ys s t lt = absurd (omega arith)
  starts_with-begins (suc fuel) p q [] [] s t lt = rw t refl
  starts_with-begins (suc fuel) p q (x ∷ xs) [] s t lt = rw t refl
  starts_with-begins (suc fuel) p q [] (y ∷ ys) s t lt =
      let some_char : (y == 0) ≡ false = let ne = t.1 in ground arith in
      let other : (0 == y) ≡ false = let ne = t.1 in ground arith in
      rw (s, t.0) (rw (some_char, other) refl)
  starts_with-begins (suc fuel) p q (x ∷ xs) (y ∷ ys) s t lt =
      let some_char : (y == 0) ≡ false = let ne = t.1 in ground arith in
      rw (s.0, t.0)
        (rw some_char (elim (Bool-cases (x == y)) [
          | inl e ↦ rw e (starts_with-begins fuel (p + 1) (q + 1) xs ys (s.2) (t.2) (omega arith))
          | inr e ↦ rw e refl
        ]))

  -- On fuel for the two strings, the second of them not empty, `core_rtl_strstr` returns the address
  -- of the first occurrence of the second in the first, or NULL where there is none.
  pub strstr-occurrence :
      (fuel inner p q : ℕ) (xs : List ℕ) (y : ℕ) (ys : List ℕ)
      → IsString m p xs
      → IsString m q (y ∷ ys)
      → length xs < fuel
      → length (y ∷ ys) < inner
      → strstr fuel inner p q m ≡ some (occurrence (y ∷ ys) xs p)
  unfolding strstr
  strstr-occurrence zero inner p q xs y ys s t lt lt' = absurd (omega arith)
  strstr-occurrence (suc fuel) inner p q [] y ys s t lt lt' = rw s refl
  strstr-occurrence (suc fuel) inner p q (x ∷ xs) y ys s t lt lt' =
      let some_char : (x == 0) ≡ false = let ne = s.1 in ground arith in
      let found = starts_with-begins inner p q (x ∷ xs) (y ∷ ys) s t lt' in
      let later = strstr-occurrence fuel inner (p + 1) q xs y ys (s.2) t (omega arith) lt' in
      rw (s.0, t.0)
        (rw some_char (elim (Bool-cases (x == y)) [
          | inl e ↦
              let found' : starts_with inner p q m ≡ some (begins xs ys) = rw e at found in
              rw e (
                rw found'
                  (elim (Bool-cases (begins xs ys)) [ inl b ↦ rw b refl | inr b ↦ rw b later ]))
          | inr e ↦ rw e later
        ]))

  -- Of an empty second string `core_rtl_strstr` finds no occurrence: it returns NULL, on fuel for the
  -- first string.
  strstr_nothing :
      (fuel inner p q : ℕ) (xs : List ℕ)
      → IsString m p xs
      → IsString m q []
      → length xs < fuel
      → strstr fuel inner p q m ≡ some 0
  unfolding strstr
  strstr_nothing zero inner p q xs s t lt = absurd (omega arith)
  strstr_nothing (suc fuel) inner p q [] s t lt = rw s refl
  strstr_nothing (suc fuel) inner p q (x ∷ xs) s t lt =
      let some_char : (x == 0) ≡ false = let ne = s.1 in ground arith in
      rw (s.0, t) (rw some_char (strstr_nothing fuel inner (p + 1) q xs (s.2) t (omega arith)))
