-- ===== src/Object/Count.antt =====
-- An object is destroyed exactly once, when its last reference is given up.
use sandnix.Prelude.{
  ℕ, zero, suc, ◌+◌, ◌<◌, ◌^◌, ◌≡◌, subst, ◌==◌, Option, none, some, List, [], ◌∷◌, length,
  Bool-cases, inl, inr, if◌then◌else◌, arith,
}
use sandnix.Object.{Object, inc_ref, dec_ref}

pub data Call : Type 0 where
  to_inc to_dec : Call

abbrev pub step : Call → Object → Object
step to_inc o = inc_ref o
step to_dec o = dec_ref o

abbrev pub run : List Call → Object → Object
run [] o = o
run (c ∷ cs) o = run cs (step c o)

-- How many references there are after the calls, if only one who has a reference calls.
abbrev pub references : List Call → ℕ → Option ℕ
references [] n = some n
references (c ∷ cs) zero = none
references (to_inc ∷ cs) (suc n) = references cs (suc (suc n))
references (to_dec ∷ cs) (suc n) = references cs n

-- The count is the number of references, and the destructor was called if there are none.
pub record IsCounted (n : ℕ) (o : Object) : Type 0 where
  pub count : o.ref_count ≡ n
  pub called : o.destructions ≡ (if n == 0 then 1 else 0)

inc_ref-IsCounted :
    (n : ℕ) (o : Object)
    → suc (suc n) < 2 ^ 32
    → IsCounted (suc n) o
    → IsCounted (suc (suc n)) (inc_ref o)
unfolding inc_ref
inc_ref-IsCounted n o lt c = record {
  count = omega (arith, c.count);
  called = ground (arith, c.called);
}

dec_ref-IsCounted :
    (n : ℕ) (o : Object) → suc n < 2 ^ 32 → IsCounted (suc n) o → IsCounted n (dec_ref o)
unfolding dec_ref
dec_ref-IsCounted n o lt c = elim (Bool-cases (o.ref_count == 1)) [
  | inl e ↦
      rw e (record { count = ground (arith, c.count); called = ground (arith, c.count, c.called) })
  | inr e ↦
      rw e (record { count = ground (arith, c.count); called = ground (arith, c.count, c.called) })
]

-- From an object that counts its `n` references, calls by those who have one, too few to reach
-- 2^32 references, lead to an object that counts what is left; its destructor has been called once
-- if nothing is left, and not at all if something is.
pub run-IsCounted :
    (cs : List Call) (n left : ℕ) (o : Object)
    → n + length cs < 2 ^ 32
    → references cs n ≡ some left
    → IsCounted n o
    → IsCounted left (run cs o)
run-IsCounted [] n left o lt e c = subst (λ k. IsCounted k o) (cc) c
run-IsCounted (to_inc ∷ cs) zero left o lt e c = absurd cc
run-IsCounted (to_dec ∷ cs) zero left o lt e c = absurd cc
run-IsCounted (to_inc ∷ cs) (suc n) left o lt e c =
    run-IsCounted cs (suc (suc n)) left (inc_ref o) (ground arith) e
      (inc_ref-IsCounted n o (ground arith) c)
run-IsCounted (to_dec ∷ cs) (suc n) left o lt e c =
    run-IsCounted cs n left (dec_ref o) (ground arith) e (dec_ref-IsCounted n o (ground arith) c)
