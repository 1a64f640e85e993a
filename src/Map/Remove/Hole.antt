-- ===== src/Map/Remove/Hole.antt =====
-- The node of the loop of remove_rebalance: below it every path misses a black node.
use sandnix.Prelude.{
  ℕ, suc, ◌≤◌, ◌≡◌, ◌≢◌, refl, true, false, some, List, [], ◌∷◌, if◌then◌else◌, ◌⊎◌, inl, inr,
  length, subst, arith,
}
use sandnix.Nodes.{Ptr}
use sandnix.Map.{Color, black, red, Side, left, right, Map}
use sandnix.Map.Remove.{Round}
use sandnix.Map.Tree.{Tree, leaf, branch, top, join}
use sandnix.Map.Context.{Frame, frame, plug, IsSubtree}
use sandnix.Map.Balance.{IsBalanced, IsBlackRoot, IsFramed, IsAbove}
use sandnix.Map.Remove.Paint.{red_root}
use sandnix.Map.Remove.Same.{IsSame, IsSame-trans}
use sandnix.Map.Remove.Sibling.{Ended, IsSame-Rebalanced}

-- Black, or an empty subtree, it has `n` black nodes on its paths; red, it would have one more as a
-- black node.
abbrev pub IsShort : ℕ → Tree → Type 0
IsShort n leaf = n ≡ 0
IsShort n (branch l a black k v r) = IsBalanced n (branch l a black k v r)
IsShort n (branch l a red k v r) = IsBalanced (suc n) (branch l a black k v r)

-- The rounds that the loop takes: one on a red node.
abbrev pub cost : List Frame → Tree → ℕ
cost fs t = if red_root t then 1 else suc (suc (length fs))

-- The loop goes on, and the hole is one that takes no more rounds than the bound.
pub record GoesOn (bound : ℕ) (old : Tree) (r : Round) : Type 0 where
  pub memory : Map
  pub shape : Tree
  pub frames : List Frame
  pub level : ℕ
  pub next_is : r ≡ some (some (top shape, top shape), memory)
  pub there : top shape ≢ 0
  pub whole : IsSubtree memory frames shape
  pub framed : IsFramed (suc level) frames
  pub short : IsShort level shape
  pub same : IsSame (plug frames shape) old
  pub cheap : cost frames shape ≤ bound

abbrev pub Progress : ℕ → Tree → Round → Type 0
Progress bound old r = Ended old r ⊎ GoesOn bound old r

black_red : black ≡ red → ⊥
black_red e = cc

-- What a frame says of the sibling of the hole.
pub IsFramed-frame :
    (n : ℕ) (side : Side) (g : Ptr) (c : Color) (k v : ℕ) (r : Tree) (fs : List Frame)
    → IsFramed n (frame side g c k v r ∷ fs)
    → IsBalanced n r × (c ≡ red → IsBlackRoot r) × IsAbove n c fs
IsFramed-frame n side g black k v r fs f = (f.0, (λ e. absurd (black_red e)), f.1)
IsFramed-frame n side g red k v r [] f = absurd f
IsFramed-frame n side g red k v r (frame side' b red i j u ∷ fs) f = absurd f
IsFramed-frame n side g red k v r (frame side' b black i j u ∷ fs) f = (f.0, (λ e. f.1), f.2)

pub red_root-IsBlackRoot : (t : Tree) → red_root t ≡ false → IsBlackRoot t
red_root-IsBlackRoot leaf e = tt
red_root-IsBlackRoot (branch l a black k v r) e = refl
red_root-IsBlackRoot (branch l a red k v r) e = cc

-- A red or black node over a red sibling.
pub IsShort-join-black :
    (n : ℕ) (side : Side) (t : Tree) (g : Ptr) (k v : ℕ) (r : Tree)
    → IsBalanced n t
    → IsBalanced n r
    → IsShort (suc n) (join side t g black k v r)
IsShort-join-black n left t g k v r bt br = (n, (refl, bt, br))
IsShort-join-black n right t g k v r bt br = (n, (refl, br, bt))

pub IsShort-join-red :
    (n : ℕ) (side : Side) (t : Tree) (g : Ptr) (k v : ℕ) (r : Tree)
    → IsBalanced n t
    → IsBalanced n r
    → IsShort n (join side t g red k v r)
IsShort-join-red n left t g k v r bt br = (n, (refl, bt, br))
IsShort-join-red n right t g k v r bt br = (n, (refl, br, bt))

-- The subtree that a node stands on, by the colour of its root.
pub record Opened (n : ℕ) (side : Side) (c : Color) (t : Tree) : Type 0 where
  pub inner : Tree
  pub at : Ptr
  pub key : ℕ
  pub value : ℕ
  pub outer : Tree
  pub shape : t ≡ join side inner at c key value outer
  pub inner_balanced : IsBalanced n inner
  pub outer_balanced : IsBalanced n outer
  pub black_below : c ≡ red → IsBlackRoot inner × IsBlackRoot outer

pub open_black :
    (n : ℕ) (side : Side) (t : Tree) → IsBalanced (suc n) t → IsBlackRoot t → Opened n side black t
open_black n side leaf b d = absurd (no_node b)
  where
    no_node : suc n ≡ 0 → ⊥
    no_node e = omega arith
open_black n side (branch l a red k v r) b d = cc
open_black n left (branch l a black k v r) (n', (e, bl, br)) d = record {
  inner = l;
  at = a;
  key = k;
  value = v;
  outer = r;
  shape = refl;
  inner_balanced = subst (λ i. IsBalanced i l) (omega arith) bl;
  outer_balanced = subst (λ i. IsBalanced i r) (omega arith) br;
  black_below = λ e. absurd (black_red e);
}
open_black n right (branch l a black k v r) (n', (e, bl, br)) d = record {
  inner = r;
  at = a;
  key = k;
  value = v;
  outer = l;
  shape = refl;
  inner_balanced = subst (λ i. IsBalanced i r) (omega arith) br;
  outer_balanced = subst (λ i. IsBalanced i l) (omega arith) bl;
  black_below = λ e. absurd (black_red e);
}

pub open_red :
    (n : ℕ) (side : Side) (t : Tree) → IsBalanced n t → red_root t ≡ true → Opened n side red t
open_red n side leaf b d = cc
open_red n side (branch l a black k v r) b d = cc
open_red n left (branch l a red k v r) (bl, br, (dl, dr)) d = record {
  inner = l;
  at = a;
  key = k;
  value = v;
  outer = r;
  shape = refl;
  inner_balanced = bl;
  outer_balanced = br;
  black_below = λ e. (dl, dr);
}
open_red n right (branch l a red k v r) (bl, br, (dl, dr)) d = record {
  inner = r;
  at = a;
  key = k;
  value = v;
  outer = l;
  shape = refl;
  inner_balanced = br;
  outer_balanced = bl;
  black_below = λ e. (dr, dl);
}

pub GoesOn-weaken :
    (bound bound' : ℕ) (old : Tree) (r : Round)
    → bound ≤ bound'
    → Progress bound old r
    → Progress bound' old r
GoesOn-weaken bound bound' old r le (inl e) = inl e
GoesOn-weaken bound bound' old r le (inr g) = inr (record {
  memory = g.memory;
  shape = g.shape;
  frames = g.frames;
  level = g.level;
  next_is = g.next_is;
  there = g.there;
  whole = g.whole;
  framed = g.framed;
  short = g.short;
  same = g.same;
  cheap = let c = g.cheap in omega arith;
})

pub IsSame-Progress :
    (bound : ℕ) (t u : Tree) (r : Round) → IsSame t u → Progress bound t r → Progress bound u r
IsSame-Progress bound t u r d (inl (m', (e, b))) = inl (m', (e, IsSame-Rebalanced t u m' d b))
IsSame-Progress bound t u r d (inr g) = inr (record {
  memory = g.memory;
  shape = g.shape;
  frames = g.frames;
  level = g.level;
  next_is = g.next_is;
  there = g.there;
  whole = g.whole;
  framed = g.framed;
  short = g.short;
  same = IsSame-trans (plug g.frames g.shape) t u g.same d;
  cheap = g.cheap;
})
