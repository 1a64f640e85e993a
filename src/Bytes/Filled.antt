-- ===== src/Bytes/Filled.antt =====
-- The string instructions that set a region.
use sandnix.Prelude.{
  ℕ, zero, suc, ◌+◌, ◌*◌, ◌%◌, ◌^◌, ◌≤◌, ◌≡◌, refl, sym, ap, ◌∙◌, inl, inr, Bool, true, false, ltb,
  if◌then◌else◌, Bool-cases, arith, fun_ext,
}
use sandnix.Bytes.{Bytes, behind, filled, sets, setsq}

if_same : (b : Bool) (v : ℕ) → (if b then v else v) ≡ v
if_same true v = refl
if_same false v = refl

pub filled_none : (d v : ℕ) (m : Bytes) → filled d 0 v m ≡ m
filled_none d v m = fun_ext (λ p. ground arith)

-- The second of two regions that follow each other.
behind-add : (d a p : ℕ) → a ≤ behind d p → behind ((d + a) % 2 ^ 32) p + a ≡ behind d p
behind-add d a p h = omega arith

behind-add_below :
    (d a b p : ℕ) → a ≤ behind d p → ltb (behind ((d + a) % 2 ^ 32) p) b ≡ ltb (behind d p) (a + b)
behind-add_below d a b p h = let e = behind-add d a p h in ground arith

pub filled-up :
    (d a b v : ℕ) (m : Bytes)
    → filled ((d + a) % 2 ^ 32) b v (filled d a v m) ≡ filled d (a + b) v m
filled-up d a b v m = fun_ext (λ p. at p)
  where
    at : (p : ℕ) → filled ((d + a) % 2 ^ 32) b v (filled d a v m) p ≡ filled d (a + b) v m p
    at p = elim (Bool-cases (ltb (behind d p) a)) [
      | inl e ↦
          let all : ltb (behind d p) (a + b) ≡ true = ground arith in
          rw (e, all) (if_same (ltb (behind ((d + a) % 2 ^ 32) p) b) v)
      | inr e ↦ let same = behind-add_below d a b p (ground arith) in rw (e, same)
    ]

pub sets_lem : (w n d v : ℕ) (m : Bytes) → sets w n d v m ≡ filled d (n * w) v m
unfolding sets
sets_lem w zero d v m = sym (filled_none d v m) ∙ ap (λ k. filled d k v m) (omega arith)
sets_lem w (suc n) d v m =
    sets_lem w n ((d + w) % 2 ^ 32) v (filled d w v m)
    ∙ filled-up d w (n * w) v m
    ∙ ap (λ k. filled d k v m) (omega arith)

pub setsq_lem : (n d v : ℕ) (m : Bytes) → setsq n d v m ≡ filled d (n * 8) v m
unfolding setsq
setsq_lem n d v m = sets_lem 4 (n * 2) d v m ∙ ap (λ k. filled d k v m) (omega arith)
