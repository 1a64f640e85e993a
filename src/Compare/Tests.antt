-- ===== src/Compare/Tests.antt =====
-- Runs of the comparisons on a memory with the strings "ab" at 100 and "ac" at 200.
use sandnix.Prelude.{ℕ, ◌≡◌, ◌↔◌, refl, some, List, [], ◌∷◌, arith, ◌==◌, if◌then◌else◌}
use sandnix.Bytes.{Bytes}
use sandnix.Compare.{pos, or_zero, compare_bytes, memcmp, strcmp}
use sandnix.Compare.Memcmp.{memcmp-compare_bytes}
use sandnix.Compare.Strcmp.{difference, strcmp-difference}

abbrev strings : Bytes
strings p =
    if p == 100
    then 97
    else if p == 101
    then 98
    else if p == 200
    then 97
    else if p == 201
    then 99
    else 0

memcmp-compare_bytes_example :
    memcmp 100 200 12 strings ≡ some (or_zero (compare_bytes 12 100 200 strings))
memcmp-compare_bytes_example = memcmp-compare_bytes strings (λ p. ground arith) 100 200 12

abbrev first : List ℕ
first = 97 ∷ 98 ∷ []

abbrev second : List ℕ
second = 97 ∷ 99 ∷ []

strcmp-difference_example :
    (strcmp 100 200 strings ≡ difference first second)
    × ((strcmp 100 200 strings ≡ pos 0) ↔ (first ≡ second))
strcmp-difference_example =
    strcmp-difference strings 100 200 first second (refl, omega arith, (refl, omega arith, refl))
      (refl, omega arith, (refl, omega arith, refl)) (omega arith)
