-- ===== src/SpinLock/Line.antt =====
-- Threads in a line: each waits with the ticket behind that of the one before it.
use sandnix.Prelude.{
  ℕ, zero, suc, ◌+◌, ◌<◌, ◌≤◌, ◌≡◌, refl, ap, ◌∙◌, ◌⊎◌, inl, inr, true, ◌==◌, List, [], ◌∷◌, ◌++◌,
  length, arith, Bool-cases, if◌then◌else◌,
}
use sandnix.LinkedList.Ring.{has, ◌∉◌, Distinct}
use sandnix.SpinLock.{u16}
use sandnix.SpinLock.Stage.{Stage, waiting, holding}

abbrev pub Line : (ℕ → Stage) → ℕ → List ℕ → Type 0
Line f served [] = Unit {0}
Line f served (i ∷ is) = (f i ≡ waiting (u16 served)) × Line f (served + 1) is

-- The first of them may hold the lock.
abbrev pub Served : (ℕ → Stage) → ℕ → List ℕ → Type 0
Served f served [] = Unit {0}
Served f served (i ∷ is) = ((f i ≡ waiting (u16 served)) ⊎ (f i ≡ holding)) × Line f (served + 1) is

abbrev pub Agree : (f g : ℕ → Stage) → List ℕ → Type 0
Agree f g is = (j : ℕ) → has j is ≡ true → g j ≡ f j

pub Line-frame :
    {f g : ℕ → Stage} (served : ℕ) (is : List ℕ)
    → Agree f g is
    → Line f served is
    → Line g served is
Line-frame served [] same l = tt
Line-frame served (i ∷ is) same l =
    (same i (ground arith) ∙ l.0, Line-frame (served + 1) is (λ j h. same j (ground arith)) (l.1))

pub Served-frame :
    {f g : ℕ → Stage} (served : ℕ) (is : List ℕ)
    → Agree f g is
    → Served f served is
    → Served g served is
Served-frame served [] same l = tt
Served-frame served (i ∷ is) same (at, l) =
    let e = same i (ground arith) in
    (
      elim at [ inl w ↦ inl (e ∙ w) | inr h ↦ inr (e ∙ h) ],
      Line-frame (served + 1) is (λ j h. same j (ground arith)) l,
    )

pub Line-snoc :
    (f : ℕ → Stage) (served : ℕ) (is : List ℕ) (i : ℕ)
    → Line f served is
    → f i ≡ waiting (u16 (served + length is))
    → Line f served (is ++ i ∷ [])
Line-snoc f served [] i l e = (e ∙ ap (λ k. waiting (u16 k)) (omega arith), tt)
Line-snoc f served (h ∷ is) i l e =
    (l.0, Line-snoc f (served + 1) is i (l.1) (e ∙ ap (λ k. waiting (u16 k)) (omega arith)))

pub Served-snoc :
    (f : ℕ → Stage) (served : ℕ) (is : List ℕ) (i : ℕ)
    → Served f served is
    → f i ≡ waiting (u16 (served + length is))
    → Served f served (is ++ i ∷ [])
Served-snoc f served [] i l e = (inl (e ∙ ap (λ k. waiting (u16 k)) (omega arith)), tt)
Served-snoc f served (h ∷ is) i l e =
    (l.0, Line-snoc f (served + 1) is i (l.1) (e ∙ ap (λ k. waiting (u16 k)) (omega arith)))

pub Line-Served : (f : ℕ → Stage) (served : ℕ) (is : List ℕ) → Line f served is → Served f served is
Line-Served f served [] l = tt
Line-Served f served (i ∷ is) l = (inl (l.0), l.1)

pub Line-at :
    (f : ℕ → Stage) (served : ℕ) (is : List ℕ) (i : ℕ)
    → Line f served is
    → has i is ≡ true
    → (k : ℕ) × (k < length is) × (f i ≡ waiting (u16 (served + k)))
Line-at f served [] i l h = absurd cc
Line-at f served (j ∷ is) i l h = elim (Bool-cases (i == j)) [
  | inl e ↦
      let same : i ≡ j = ground arith in
      (0, omega arith, ap f same ∙ l.0 ∙ ap (λ k. waiting (u16 k)) (omega arith))
  | inr e ↦
      let (k, lt, at) = Line-at f (served + 1) is i (l.1) (ground arith) in
      (suc k, omega arith, at ∙ ap (λ k. waiting (u16 k)) (omega arith))
]

abbrev pub AllBelow : ℕ → List ℕ → Type 0
AllBelow n [] = Unit {0}
AllBelow n (i ∷ is) = (i < n) × AllBelow n is

without : ℕ → List ℕ → List ℕ
without i [] = []
without i (j ∷ js) = let rest = without i js in if i == j then js else j ∷ rest

length-without : (i : ℕ) (js : List ℕ) → length js ≤ suc (length (without i js))
unfolding without
length-without i [] = omega arith
length-without i (j ∷ js) = ground (arith, length-without i js)

has-without : (k i : ℕ) (js : List ℕ) → k ∉ js → k ∉ without i js
unfolding without
has-without k i [] h = refl
has-without k i (j ∷ js) h = ground (arith, has-without k i js)

Distinct-without : (i : ℕ) (js : List ℕ) → Distinct js → Distinct (without i js)
unfolding without
Distinct-without i [] d = tt
Distinct-without i (j ∷ js) d = elim (Bool-cases (i == j)) [
  | inl e ↦ rw e (d.1)
  | inr e ↦ rw e (has-without j i js (d.0), Distinct-without i js (d.1))
]

AllBelow-less : (n : ℕ) (js : List ℕ) → AllBelow (suc n) js → n ∉ js → AllBelow n js
AllBelow-less n [] b h = tt
AllBelow-less n (j ∷ js) b h = (ground (arith, b.0), AllBelow-less n js (b.1) (ground arith))

AllBelow-without :
    (n : ℕ) (js : List ℕ) → AllBelow (suc n) js → Distinct js → AllBelow n (without n js)
unfolding without
AllBelow-without n [] b d = tt
AllBelow-without n (j ∷ js) b d = elim (Bool-cases (n == j)) [
  | inl e ↦ let same : n ≡ j = ground arith in rw e (AllBelow-less n js (b.1) (rw same (d.0)))
  | inr e ↦ rw e (ground (arith, b.0), AllBelow-without n js (b.1) (d.1))
]

-- There are no more than `n` of the numbers below `n`.
pub length-le : (n : ℕ) (js : List ℕ) → AllBelow n js → Distinct js → length js ≤ n
length-le zero [] b d = omega arith
length-le zero (j ∷ js) b d = absurd (omega (arith, b.0))
length-le (suc n) js b d = omega (
  arith,
  length-without n js,
  length-le n (without n js) (AllBelow-without n js b d) (Distinct-without n js d),
)
