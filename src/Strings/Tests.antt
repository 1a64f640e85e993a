-- ===== src/Strings/Tests.antt =====
-- Runs on a memory with the string "abab" at 100 and "ba" at 200, and NULs elsewhere.
use sandnix.Prelude.{ℕ, ◌≡◌, refl, some, List, [], ◌∷◌, arith, ◌==◌, if◌then◌else◌}
use sandnix.Bytes.{Bytes}
use sandnix.Compare.Strcmp.{IsString}
use sandnix.Strings.{strspn, strstr}
use sandnix.Strings.Find.{strstr-occurrence}

abbrev strings : Bytes
strings p =
    if p == 100
    then 97
    else if p == 101
    then 98
    else if p == 102
    then 97
    else if p == 103
    then 98
    else if p == 200
    then 98
    else if p == 201
    then 97
    else 0

abbrev text : List ℕ
text = 97 ∷ 98 ∷ 97 ∷ 98 ∷ []

abbrev word : List ℕ
word = 98 ∷ 97 ∷ []

text-IsString : IsString strings 100 text
text-IsString =
    (refl, omega arith, (refl, omega arith, (refl, omega arith, (refl, omega arith, refl))))

word-IsString : IsString strings 200 word
word-IsString = (refl, omega arith, (refl, omega arith, refl))

-- "abab" does not begin with "ba" at the same characters.
strspn_runs : strspn 9 100 200 0 strings ≡ some 0
unfolding strspn
strspn_runs = refl

strstr-occurrence_example : strstr 9 9 100 200 strings ≡ some 101
strstr-occurrence_example =
    strstr-occurrence strings 9 9 100 200 text 98 (97 ∷ []) text-IsString word-IsString
      (omega arith) (omega arith)
