-- ===== src/Map/Remove/Below.antt =====
-- A round of remove_rebalance: the case by the colour of the sibling, and the side of the node.
use sandnix.Prelude.{
  ℕ, suc, ◌≡◌, ◌≢◌, refl, sym, ap, ◌∙◌, subst, true, false, Bool-cases, ◌==◌, List, ◌∷◌, length,
  arith, inl, inr, if◌then◌else◌,
}
use sandnix.Nodes.{Ptr}
use sandnix.Map.{Color, black, red, Side, left, right, other, Map, child}
use sandnix.Map.Remove.{fix_side, fix_below}
use sandnix.Map.Tree.{Tree, leaf, branch, top, join, IsTree}
use sandnix.Map.Context.{Frame, frame, up, plug, IsSubtree, IsTree-join, top-join}
use sandnix.Map.Balance.{IsBalanced, IsBlackRoot, IsFramed}
use sandnix.Map.Insert.TurnGrand.{nonzero_test}
use sandnix.Map.Insert.TurnParent.{far_child, apart_top}
use sandnix.Map.Remove.Paint.{red_root}
use sandnix.Map.Remove.Hole.{
  Progress, GoesOn-weaken, IsFramed-frame, red_root-IsBlackRoot, open_red,
}
use sandnix.Map.Remove.Beside.{red_beside-Progress, black_beside-Progress}

red_not_black : (t : Tree) → red_root t ≡ true → IsBlackRoot t → ⊥
red_not_black leaf e d = cc
red_not_black (branch l a black k v r) e d = cc
red_not_black (branch l a red k v r) e d = cc

module _ (n : ℕ) (m : Map) (side : Side) (fs : List Frame) (t : Tree) (g : Ptr) (k v : ℕ) (r : Tree)
    (p_node : Ptr) where
  red_side-Progress :
      (c : Color)
      → IsSubtree m fs (join side t g c k v r)
      → IsFramed (suc n) (frame side g c k v r ∷ fs)
      → IsBalanced n t
      → red_root r ≡ true
      → Progress
          (suc (suc (length fs)))
          (plug fs (join side t g c k v r))
          (fix_side side p_node g (top r) m)
  red_side-Progress red i f bt er =
      let parts = IsFramed-frame (suc n) side g red k v r fs f in
      absurd (red_not_black r er (parts.1 refl))
  red_side-Progress black i f bt er =
      let o = open_red (suc n) side r (f.0) er in
      let at : top r ≡ o.at =
        ap top o.shape ∙ top-join side o.inner o.at red o.key o.value o.outer in
      let sub = subst (λ r. IsSubtree m fs (join side t g black k v r)) o.shape i in
      let last =
        red_beside-Progress n m side fs t g k v o.inner o.at o.key o.value o.outer p_node sub (f.1)
          bt o.inner_balanced o.outer_balanced (o.black_below refl).0 in
      let same : plug fs
            (join side t g black k v (join side o.inner o.at red o.key o.value o.outer))
          ≡ plug fs (join side t g black k v r) =
        ap (λ r. plug fs (join side t g black k v r)) (sym o.shape) in
      GoesOn-weaken 1 (suc (suc (length fs))) (plug fs (join side t g black k v r))
        (fix_side side p_node g (top r) m) (omega arith)
        (subst (λ p. Progress 1 (plug fs (join side t g black k v r)) (fix_side side p_node g p m))
          (sym at) (subst (λ old. Progress 1 old (fix_side side p_node g o.at m)) same last))

  fix_side-Progress :
      (c : Color)
      → IsSubtree m fs (join side t g c k v r)
      → IsFramed (suc n) (frame side g c k v r ∷ fs)
      → IsBalanced n t
      → Progress
          (suc (suc (length fs)))
          (plug fs (join side t g c k v r))
          (fix_side side p_node g (top r) m)
  fix_side-Progress c i f bt = elim (Bool-cases (red_root r)) [
    | inl er ↦ red_side-Progress c i f bt er
    | inr er ↦
        black_beside-Progress n m side fs t g c k v r p_node i f bt (red_root-IsBlackRoot r er)
  ]

-- The test for the left child gives the side of a node that has a sibling.
side_read :
    (m : Map) (side : Side) (fs : List Frame) (t : Tree) (g : Ptr) (c : Color) (k v : ℕ) (r : Tree)
    → IsSubtree m fs (join side t g c k v r)
    → top r ≢ 0
    → (if (m.nodes g).lchild == top t then left else right) ≡ side
side_read m left fs t g c k v r i ne =
    let b = IsTree-join left m.nodes (up fs) t g c k v r i.below in
    let e : (top t == top t) ≡ true = ground arith in rw (b.1, e) refl
side_read m right fs t g c k v r i ne =
    let b = IsTree-join right m.nodes (up fs) t g c k v r i.below in
    let e : (top r == top t) ≡ false =
      apart_top r t ne (λ p. let d = i.distinct p in omega arith) in
    rw (b.1, e) refl

sibling_there :
    (n : ℕ) (r : Tree) (m : Map) (q : Ptr) → IsBalanced (suc n) r → IsTree m.nodes q r → top r ≢ 0
sibling_there n leaf m q b i = absurd (no_node b)
  where
    no_node : suc n ≡ 0 → ⊥
    no_node e = omega arith
sibling_there n (branch l a c k v r) m q b i = i.0

pub fix_below-Progress :
    (n : ℕ) (m : Map) (side : Side) (fs : List Frame) (t : Tree) (g : Ptr) (c : Color) (k v : ℕ)
    (r : Tree)
    → IsSubtree m fs (join side t g c k v r)
    → IsFramed (suc n) (frame side g c k v r ∷ fs)
    → IsBalanced n t
    → Progress (suc (suc (length fs))) (plug fs (join side t g c k v r)) (fix_below (top t) g m)
unfolding fix_below
fix_below-Progress n m side fs t g c k v r i f bt =
    let b = IsTree-join side m.nodes (up fs) t g c k v r i.below in
    let parts = IsFramed-frame (suc n) side g c k v r fs f in
    let ng = nonzero_test g (b.0) in
    let ne = sibling_there n r m g (parts.0) (b.3) in
    let far : child (other side) (m.nodes g) ≡ top r =
      ap (child (other side)) (b.1) ∙ far_child side (up fs) (top t) (top r) c k v in
    let e : fix_below (top t) g m ≡ fix_side side (top t) g (top r) m =
      rw (fix_below, side_read m side fs t g c k v r i ne, ng, far) refl in
    subst (Progress (suc (suc (length fs))) (plug fs (join side t g c k v r))) (sym e)
      (fix_side-Progress n m side fs t g k v r (top t) c i f bt)
