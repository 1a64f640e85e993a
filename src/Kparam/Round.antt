-- ===== src/Kparam/Round.antt =====
-- The loop of hal_kparam_init at the end of the command line.
use sandnix.Prelude.{
  ℕ, suc, ◌+◌, ◌≤◌, ◌<◌, ◌≡◌, ◌≢◌, refl, ap, ◌∙◌, false, ◌==◌, ◌⊎◌, some, List, [], ◌∷◌, ◌++◌,
  arith,
}
use sandnix.Bytes.{Bytes, inside, moved}
use sandnix.Bytes.Moved.{IsForward}
use sandnix.Kparam.{
  State, is_space, jump_space, get_param_value, add_param, enter, behind_key, with_key, at_key,
  parse_round, parse_next, parse,
}
use sandnix.Kparam.Word.{IsPlain, EndsWord, get_word-moved}

jump_space-here :
    (fuel p : ℕ) (m : Bytes) → is_space (m p) ≡ false → jump_space (suc fuel) p m ≡ some p
unfolding jump_space
jump_space-here fuel p m e = rw e refl

-- Bytes outside of the copy stay.
pub apart_copy : (a p n q : ℕ) (m : Bytes) → (q < a) ⊎ (a + n ≤ q) → moved a p n m q ≡ m q
apart_copy a p n q m o = let e : inside a n q ≡ false = ground arith in rw e refl

-- Where the command line ends right behind a word of ordinary characters, which is copied to a
-- place of the heap apart from it, and where core_rtl_map_set does not return NULL, the round enters the word with the empty string and goes on
-- behind the NUL, so the loop reads on where the command line is over.
pub parse_overruns :
    (rounds fuel empty n p a result : ℕ) (rest results : List ℕ) (s : State)
    → IsPlain (suc n) p s.memory
    → (s.memory p == 10) ≡ false
    → s.memory (p + suc n) ≡ 0
    → suc n < suc fuel
    → s.supply ≡ a ∷ rest
    → a ≢ 0
    → s.results ≡ result ∷ results
    → result ≢ 0
    → (p + suc n < a) ⊎ (a + suc n ≤ p)
    → parse (suc rounds) (suc fuel) empty p s
      ≡ parse rounds (suc fuel) empty (p + suc n + 1) (record {
        memory = moved a p (suc n) s.memory;
        supply = rest;
        params = s.params ++ (a, empty) ∷ [];
        results = results;
      })
unfolding parse parse_round get_param_value
parse_overruns rounds fuel empty n p a result rest results s i line e lt given ne called kept
      apart =
    let m' = moved a p (suc n) s.memory in
    let s' : State = record s { memory = m'; supply = rest } in
    let first : is_space (s.memory p) ≡ false = let x = i.0 in let y = i.2 in ground arith in
    let forward : IsForward a p (suc n) = ground arith in
    let ended : EndsWord (s.memory (p + suc n)) = rw e refl in
    let word = get_word-moved (suc fuel) (suc n) p a rest s i ended lt given ne forward in
    let there : m' (p + suc n) ≡ 0 =
      apart_copy a p (suc n) (p + suc n) s.memory (ground arith) ∙ e in
    let stays : jump_space (suc fuel) (p + suc n) m' ≡ some (p + suc n) =
      jump_space-here fuel (p + suc n) m' (rw there refl) in
    let no_value : get_param_value (suc fuel) empty (p + suc n) s' ≡ some (empty, (p + suc n, s')) =
      rw there refl in
    let s'' : State = record s' { params = s.params ++ (a, empty) ∷ []; results = results } in
    let kept_test : (result == 0) ≡ false = ground arith in
    let entered : add_param (p + suc n + 1) a empty s' s.results ≡ some (p + suc n + 1, s'') =
      rw (called, kept_test) refl in
    let round : parse_round (suc fuel) empty p s ≡ some (p + suc n + 1, s'') =
      ap (at_key (suc fuel) empty s) (jump_space-here fuel p s.memory first)
      ∙ ap (with_key (suc fuel) empty) word
      ∙ ap (behind_key (suc fuel) empty a s') stays
      ∙ ap (enter a) no_value
      ∙ entered in
    rw (i.0) (ap (parse_next (λ p s. parse rounds (suc fuel) empty p s)) round)
