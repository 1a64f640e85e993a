-- ===== src/Kparam/Word.antt =====
-- get_word on a word without quotes, and on one with a quote.
use sandnix.Prelude.{
  ℕ, zero, suc, ◌+◌, ◌-◌, ◌<◌, ◌≡◌, ◌≢◌, refl, ap, ◌∙◌, subst, Bool-cases, inl, inr, Bool, true,
  false, not, ◌==◌, ◌||◌, none, some, List, ◌∷◌, arith,
}
use sandnix.Bytes.{Bytes, moved}
use sandnix.Bytes.Moved.{IsForward}
use sandnix.Strings.Bounded.{up_to, strncpy-moved}
use sandnix.Kparam.{State, ends_word, word_loop, copy_word, word_found, get_word}

-- Characters that are no NUL, no quote and no end of a word.
abbrev pub IsPlain : (n p : ℕ) → Bytes → Type 0
IsPlain zero p m = Unit {0}
IsPlain (suc n) p m =
    ((m p == 0) ≡ false) × ((m p == 34) ≡ false) × (ends_word (m p) ≡ false) × IsPlain n (p + 1) m

-- The word ends at a NUL, at '=', ' ' or '\t'.
abbrev pub EndsWord : ℕ → Type 0
EndsWord ch = (ch == 0 || ends_word ch) ≡ true

or_false : (b c : Bool) → (b || c) ≡ true → b ≡ false → c ≡ true
or_false true c e z = cc
or_false false c e z = e

stop_at_end :
    (ch : ℕ) → EndsWord ch → (ch == 0) ≡ false → ((ch == 34) ≡ false) × (ends_word ch ≡ true)
stop_at_end ch e z = (ground arith, or_false (ch == 0) (ends_word ch) e z)

word_loop-plain :
    (fuel n p : ℕ) (m : Bytes)
    → IsPlain n p m
    → EndsWord (m (p + n))
    → n < fuel
    → word_loop fuel p false false m ≡ some (p + n)
unfolding word_loop
word_loop-plain zero n p m i e lt = absurd (omega arith)
word_loop-plain (suc fuel) zero p m i e lt =
    let here : EndsWord (m p) = subst (λ q. EndsWord (m q)) (omega arith) e in
    elim (Bool-cases (m p == 0)) [
      | inl z ↦ rw z (ap some (omega arith))
      | inr z ↦ let s = stop_at_end (m p) here z in rw (z, s.0, s.1) (ap some (omega arith))
    ]
word_loop-plain (suc fuel) (suc n) p m i e lt =
    let next : EndsWord (m (p + 1 + n)) = subst (λ q. EndsWord (m q)) (omega arith) e in
    rw (i.0, i.1, i.2)
      (word_loop-plain fuel n (p + 1) m (i.3) next (omega arith) ∙ ap some (omega arith))

-- At a quote the flag changes for ever, and the pointer stays.
word_loop-quote :
    (fuel n p : ℕ) (m : Bytes) (quote_flag : Bool)
    → IsPlain n p m
    → m (p + n) ≡ 34
    → word_loop fuel p quote_flag false m ≡ none
unfolding word_loop
word_loop-quote zero n p m q i e = refl
word_loop-quote (suc fuel) zero p m q i e =
    let here : m p ≡ 34 = ap m (omega arith) ∙ e in
    let z : (m p == 0) ≡ false = rw here refl in
    let y : (m p == 34) ≡ true = rw here refl in
    rw (z, y) (word_loop-quote fuel zero p m (not q) tt e)
word_loop-quote (suc fuel) (suc n) p m q i e =
    let next : m (p + 1 + n) ≡ 34 = ap m (omega arith) ∙ e in
    rw (i.0, i.1, i.2) (word_loop-quote fuel n (p + 1) m q (i.3) next)

-- Behind any number of ordinary characters, a quote keeps get_word from returning, however long it
-- runs.
pub get_word_hangs :
    (fuel n p : ℕ) (s : State)
    → IsPlain n p s.memory
    → s.memory (p + n) ≡ 34
    → get_word fuel p s ≡ none
unfolding get_word
get_word_hangs fuel n p s i e = ap (word_found p s) (word_loop-quote fuel n p s.memory false i e)

up_to-plain : (n p : ℕ) (m : Bytes) → IsPlain n p m → up_to n p 0 m ≡ n
up_to-plain zero p m i = refl
up_to-plain (suc n) p m i = rw (i.0) (ap suc (up_to-plain n (p + 1) m (i.3)))

-- A word of `n` ordinary characters, to the NUL, '=', ' ' or '\t' behind it, is copied to the
-- memory from the heap, with nothing behind it, if the word may be copied there upwards;
-- get_word returns the copy and stays at the end of the word.
pub get_word-moved :
    (fuel n p a : ℕ) (rest : List ℕ) (s : State)
    → IsPlain n p s.memory
    → EndsWord (s.memory (p + n))
    → n < fuel
    → s.supply ≡ a ∷ rest
    → a ≢ 0
    → IsForward a p n
    → get_word fuel p s
      ≡ some (a, (p + n, record s { memory = moved a p n s.memory; supply = rest }))
unfolding get_word copy_word
get_word-moved fuel n p a rest s i e lt given ne f =
    let na : (a == 0) ≡ false = ground arith in
    let len : p + n - p + 1 - 1 ≡ n = omega arith in
    ap (word_found p s) (word_loop-plain fuel n p s.memory i e lt)
    ∙ rw (given, na, len)
        (ap (λ m. some (a, (p + n, record s { memory = m; supply = rest })))
          (strncpy-moved n a p s.memory f
            ∙ ap (λ k. moved a p k s.memory) (up_to-plain n p s.memory i)))
