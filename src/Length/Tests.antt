-- ===== src/Length/Tests.antt =====
-- A run on the string of three characters at 101, which is not aligned.
use sandnix.Prelude.{ℕ, ◌≡◌, refl, some, List, [], ◌∷◌, arith, ◌==◌, if◌then◌else◌}
use sandnix.Bytes.{Bytes}
use sandnix.Length.{strlen}
use sandnix.Length.Scan.{strlen-length}

abbrev strings : Bytes
strings p = if p == 101 then 97 else if p == 102 then 200 else if p == 103 then 99 else 0

abbrev letters : List ℕ
letters = 97 ∷ 200 ∷ 99 ∷ []

strlen-length_example : strlen 1 101 strings ≡ some 3
strlen-length_example =
    strlen-length strings 1 101 letters (λ p. ground arith)
      (refl, omega arith, (refl, omega arith, (refl, omega arith, refl))) (omega arith)
