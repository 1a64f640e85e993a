-- ===== src/Map/Remove/Black.antt =====
-- Cases 2 to 4 of remove_rebalance: the sibling is black.
use sandnix.Prelude.{
  ℕ, suc, ◌≡◌, ◌≢◌, refl, sym, ap, subst, true, false, some, List, [], ◌∷◌, length, arith,
}
use sandnix.Nodes.{Ptr}
use sandnix.Map.{Color, black, red, Side, left, right, other, Map, set_color}
use sandnix.Map.Recolor.{recolor-IsSubtree}
use sandnix.Map.Tree.{Tree, join}
use sandnix.Map.Context.{Frame, frame, plug, IsSubtree, top-join, IsTree-join, up}
use sandnix.Map.Balance.{IsBalanced, IsAbove, black-IsBalanced}
use sandnix.Map.Remove.Paint.{red_root, blackened}
use sandnix.Map.Remove.Same.{IsSame, IsSame-refl, IsSame-join, IsSame-plug}
use sandnix.Map.Remove.Sibling.{across-IsSubtree, back_across}
use sandnix.Map.Remove.Hole.{GoesOn, IsShort-join-black, IsShort-join-red, open_red}

-- The rounds left when a black sibling turned red.
abbrev pub room : Color → List Frame → ℕ
room black fs = suc (suc (length fs))
room red fs = 1

pub red_top :
    (side : Side) (t : Tree) (g : Ptr) (k v : ℕ) (r : Tree)
    → red_root (join side t g red k v r) ≡ true
red_top left t g k v r = refl
red_top right t g k v r = refl

black_top :
    (side : Side) (t : Tree) (g : Ptr) (k v : ℕ) (r : Tree)
    → red_root (join side t g black k v r) ≡ false
black_top left t g k v r = refl
black_top right t g k v r = refl

-- A red tree with a black root is balanced one level higher.
pub blackened-IsBalanced :
    (n : ℕ) (t : Tree) → red_root t ≡ true → IsBalanced n t → IsBalanced (suc n) (blackened t)
blackened-IsBalanced n t e b =
    let o = open_red n left t b e in
    subst (λ t. IsBalanced (suc n) (blackened t)) (sym o.shape)
      (black-IsBalanced n o.at o.key o.value left o.inner o.outer o.inner_balanced o.outer_balanced)

module _ (n : ℕ) (m : Map) (side : Side) (t : Tree) (g : Ptr) (k v : ℕ) (y : Tree) (s : Ptr)
    (ks vs : ℕ) (z : Tree) where
  sibling_reddened :
      (c : Color) (fs : List Frame)
      → IsSubtree m fs (join side t g c k v (join side y s black ks vs z))
      → IsSubtree (set_color s red m) fs (join side t g c k v (join side y s red ks vs z))
  sibling_reddened c fs i =
      let high = frame (other side) g c k v t ∷ fs in
      back_across (set_color s red m) side g c k v fs t (join side y s red ks vs z) (
        recolor-IsSubtree m high side y s black red ks vs z
          (across-IsSubtree m side g c k v fs t (join side y s black ks vs z) i))

  reddened-IsSame :
      (c : Color) (fs : List Frame)
      → IsSame
          (plug fs (join side t g c k v (join side y s red ks vs z)))
          (plug fs (join side t g c k v (join side y s black ks vs z)))
  reddened-IsSame c fs =
      let r = join side y s black ks vs z in
      let r' = join side y s red ks vs z in
      IsSame-plug fs (join side t g c k v r') (join side t g c k v r) (
        IsSame-join side t t g c c k v r' r (IsSame-refl t)
          (IsSame-join side y y s red black ks vs z z (IsSame-refl y) (IsSame-refl z)))

  -- Case 2.
  pub reddened-GoesOn :
      (c : Color) (fs : List Frame)
      → IsSubtree m fs (join side t g c k v (join side y s black ks vs z))
      → IsAbove (suc n) c fs
      → IsBalanced n t
      → IsBalanced n (join side y s red ks vs z)
      → GoesOn
          (room c fs)
          (plug fs (join side t g c k v (join side y s black ks vs z)))
          (some (some (g, g), set_color s red m))
  reddened-GoesOn black fs i f bt br =
      let r' = join side y s red ks vs z in
      let at = top-join side t g black k v r' in
      record {
        memory = set_color s red m;
        shape = join side t g black k v r';
        frames = fs;
        level = suc n;
        next_is = ap (λ p. some (some (p, p), set_color s red m)) (sym at);
        there =
            subst (λ p. p ≢ 0) (sym at)
              (IsTree-join side m.nodes (up fs) t g black k v _ i.below).0;
        whole = sibling_reddened black fs i;
        framed = f;
        short = IsShort-join-black n side t g k v r' bt br;
        same = reddened-IsSame black fs;
        cheap = let e = black_top side t g k v r' in rw e (omega arith);
      }
  reddened-GoesOn red [] i f bt br = absurd f
  reddened-GoesOn red (frame side' b red kb vb u ∷ fs) i f bt br = absurd f
  reddened-GoesOn red (frame side' b black kb vb u ∷ fs) i f bt br =
      let r' = join side y s red ks vs z in
      let high = frame side' b black kb vb u ∷ fs in
      let at = top-join side t g red k v r' in
      record {
        memory = set_color s red m;
        shape = join side t g red k v r';
        frames = high;
        level = n;
        next_is = ap (λ p. some (some (p, p), set_color s red m)) (sym at);
        there =
            subst (λ p. p ≢ 0) (sym at)
              (IsTree-join side m.nodes (up high) t g red k v _ i.below).0;
        whole = sibling_reddened red high i;
        framed = f;
        short = IsShort-join-red n side t g k v r' bt br;
        same = reddened-IsSame red high;
        cheap = let e = red_top side t g k v r' in rw e (omega arith);
      }
