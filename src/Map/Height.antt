-- ===== src/Map/Height.antt =====
-- How far a red-black tree reaches down, and the rounds of core_rtl_map_get on it.
use native.Mathlib.Nat.{pow-suc, one-le-pow, pow-le-pow_right}
use sandnix.Prelude.{
  ℕ, zero, suc, ◌+◌, ◌*◌, ◌^◌, ◌≤◌, ◌<◌, ◌≡◌, inl, inr, refl, sym, ap, subst, some, [], arith,
  Bool-cases, leb,
}
use sandnix.Map.{black, red, Map, get}
use sandnix.Map.Tree.{Tree, leaf, branch, entries, size}
use sandnix.Map.Context.{IsSubtree}
use sandnix.Map.Balance.{IsBalanced, IsBlackRoot, IsRedBlack}
use sandnix.Map.Lookup.{IsRanked, IsSearch, IsWithin, value_in, get-within}

double : (n : ℕ) → 2 ^ suc n ≡ 2 ^ n + 2 ^ n
double n = let e = pow-suc 2 n in omega arith

-- The black nodes alone make a full tree.
pow-size : (n : ℕ) (t : Tree) → IsBalanced n t → 2 ^ n ≤ suc (size t)
pow-size n leaf b = subst (λ n. 2 ^ n ≤ 1) (sym b) (omega arith)
pow-size n (branch l a black k v r) (n', (e, bl, br)) =
    let x = pow-size n' l bl in
    let y = pow-size n' r br in
    let d = double n' in let f : 2 ^ n ≡ 2 ^ suc n' = ap (λ i. 2 ^ i) e in omega arith
pow-size n (branch l a red k v r) b = let x = pow-size n l (b.0) in omega arith

-- A red root adds a level.
abbrev extra : Tree → ℕ
extra leaf = 0
extra (branch l a black k v r) = 0
extra (branch l a red k v r) = 1

extra_le : (t : Tree) → extra t ≤ 1
extra_le leaf = omega arith
extra_le (branch l a black k v r) = omega arith
extra_le (branch l a red k v r) = omega arith

extra_black : (t : Tree) → IsBlackRoot t → extra t ≡ 0
extra_black leaf d = refl
extra_black (branch l a black k v r) d = refl
extra_black (branch l a red k v r) d = cc

-- At most every other node of a path is red.
IsBalanced-IsWithin : (n h : ℕ) (t : Tree) → IsBalanced n t → extra t + 2 * n ≤ h → IsWithin h t
IsBalanced-IsWithin n h leaf b le = tt
IsBalanced-IsWithin n zero (branch l a black k v r) (n', (e, bl, br)) le = absurd (omega arith)
IsBalanced-IsWithin n (suc h) (branch l a black k v r) (n', (e, bl, br)) le =
    let x = extra_le l in
    let y = extra_le r in
    (IsBalanced-IsWithin n' h l bl (omega arith), IsBalanced-IsWithin n' h r br (omega arith))
IsBalanced-IsWithin n zero (branch l a red k v r) b le = absurd (omega arith)
IsBalanced-IsWithin n (suc h) (branch l a red k v r) b le =
    let x = extra_black l (b.2.0) in
    let y = extra_black r (b.2.1) in
    (IsBalanced-IsWithin n h l (b.0) (omega arith), IsBalanced-IsWithin n h r (b.1) (omega arith))

-- So many black nodes need more than half as many nodes.
black_le : (b n nodes : ℕ) → 2 ^ b ≤ suc nodes → nodes < 2 ^ n → b ≤ n
black_le b n nodes le lt = elim (Bool-cases (leb b n)) [
  | inl e ↦ ground arith
  | inr e ↦
      let more : suc n ≤ b = ground arith in
      let x = pow-le-pow_right {n = 2} (omega arith) more in
      let d = double n in let one = one-le-pow n 2 (omega arith) in absurd (omega arith)
]

-- A red-black search tree of fewer than 2 ^ n nodes, in the order of a rank, is searched in
-- 2 * n + 1 rounds: with that fuel core_rtl_map_get returns the value of the entry whose key has
-- the rank of the key it gets, or NULL where there is none.
pub get_rounds :
    (m : Map) (rank : ℕ → ℕ) (n key : ℕ) (t : Tree)
    → IsRanked m.compare_func rank
    → IsSubtree m [] t
    → IsRedBlack t
    → IsSearch rank t
    → size t < 2 ^ n
    → get (suc (2 * n)) key m ≡ some (value_in rank key (entries t))
get_rounds m rank n key t ranked s rb sorted lt =
    let b = rb.1.0 in
    let balanced = rb.1.1 in
    let few = black_le b n (size t) (pow-size b t balanced) lt in
    let e = extra_black t (rb.0) in
    get-within m rank (2 * n) key t ranked s.root s.below sorted
      (IsBalanced-IsWithin b (2 * n) t balanced (omega arith))
