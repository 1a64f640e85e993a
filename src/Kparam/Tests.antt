-- ===== src/Kparam/Tests.antt =====
-- Runs on the command line "ab" at 100, with a quote at 110; the heap has memory at 200.
use sandnix.Prelude.{◌≡◌, refl, inl, inr, none, some, [], ◌∷◌, arith, ◌==◌, if◌then◌else◌}
use sandnix.Bytes.{Bytes, moved}
use sandnix.Kparam.{State, get_word, parse, get_value, eoverflow}
use sandnix.Kparam.Word.{get_word_hangs, get_word-moved}
use sandnix.Kparam.Round.{parse_overruns}
use sandnix.Kparam.Value.{get_value-moved}

abbrev line : Bytes
line p =
    if p == 100
    then 97
    else if p == 101
    then 98
    else if p == 109
    then 97
    else if p == 110
    then 34
    else 0

abbrev start : State
start = record { memory = line; supply = 200 ∷ []; params = []; results = 90 ∷ [] }

get_word_hangs_example : get_word 1000 109 start ≡ none
get_word_hangs_example = get_word_hangs 1000 1 109 start (refl, refl, refl, tt) refl

get_word-moved_example :
    get_word 5 100 start
    ≡ some (200, (102, record start { memory = moved 200 100 2 line; supply = [] }))
get_word-moved_example =
    get_word-moved 5 2 100 200 [] start (refl, refl, refl, (refl, refl, refl, tt)) refl
      (omega arith) refl (omega arith) (inr (omega arith))

parse_overruns_example :
    parse 3 5 90 100 start
    ≡ parse 2 5 90 103 (record {
      memory = moved 200 100 2 line;
      supply = [];
      params = (200, 90) ∷ [];
      results = [];
    })
parse_overruns_example =
    parse_overruns 2 4 90 1 100 200 90 [] [] start (refl, refl, refl, (refl, refl, refl, tt)) refl
      refl (omega arith) refl (omega arith) refl (omega arith) (inl (omega arith))

get_value-moved_example : get_value 1 100 300 2 line ≡ some (eoverflow, moved 300 100 2 line)
get_value-moved_example =
    get_value-moved line 1 100 300 2 (97 ∷ 98 ∷ []) (λ p. ground arith)
      (refl, omega arith, (refl, omega arith, refl)) (omega arith) (inl (omega arith, omega arith))
      (omega arith)
