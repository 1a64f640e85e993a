-- ===== src/Map/Remove/Paint.antt =====
-- The colours that remove_rebalance reads and writes.
use sandnix.Prelude.{ℕ, ◌≡◌, refl, sym, ap, ◌∙◌, subst, Bool, false, List, ◌∷◌}
use sandnix.Nodes.{Ptr}
use sandnix.Map.{Color, black, is_red, Side, left, right, Map, set_color}
use sandnix.Map.Remove.{is_red_at, blacken, paint}
use sandnix.Map.Tree.{Tree, leaf, branch, top, join, node, IsTree}
use sandnix.Map.Context.{Frame, frame, up, IsSubtree, IsSubtree-join, join-IsSubtree, IsTree-join}
use sandnix.Map.Recolor.{recolor-IsSubtree}
use sandnix.Map.Insert.TurnGrand.{nonzero_test}

abbrev pub red_root : Tree → Bool
red_root leaf = false
red_root (branch l a c k v r) = is_red c

pub is_red_at-top :
    (m : Map) (q : Ptr) (t : Tree) → IsTree m.nodes q t → is_red_at (top t) m ≡ red_root t
is_red_at-top m q leaf i = refl
is_red_at-top m q (branch l a c k v r) i = let na = nonzero_test a (i.0) in rw (na, i.1) refl

-- The tree with a black root.
abbrev pub blackened : Tree → Tree
blackened leaf = leaf
blackened (branch l a c k v r) = branch l a black k v r

blacken-IsSubtree :
    (m : Map) (fs : List Frame) (t : Tree)
    → IsSubtree m fs t
    → IsSubtree (blacken (top t) m) fs (blackened t)
blacken-IsSubtree m fs leaf s = s
blacken-IsSubtree m fs (branch l a c k v r) s =
    let na = nonzero_test a (s.below.0) in rw na (recolor-IsSubtree m fs left l a c black k v r s)

module _ (m : Map) (fs : List Frame) (side : Side) (a : Ptr) (c : Color) (k v : ℕ) where
  -- The node of a branch.
  node_at :
      (t r : Tree)
      → IsSubtree m fs (join side t a c k v r)
      → m.nodes a ≡ node side (up fs) (top t) (top r) c k v
  node_at t r s = (IsTree-join side m.nodes (up fs) t a c k v r s.below).1

  -- A subtree of a branch turns black.
  blacken_inner :
      (t r : Tree)
      → IsSubtree m fs (join side t a c k v r)
      → IsSubtree (blacken (top t) m) fs (join side (blackened t) a c k v r)
  blacken_inner t r s =
      IsSubtree-join (blacken (top t) m) side a c k v r fs (blackened t)
        (blacken-IsSubtree m (frame side a c k v r ∷ fs) t (join-IsSubtree m side a c k v r fs t s))

-- Both children of a branch turn black.
blacken_both :
    (m : Map) (fs : List Frame) (side : Side) (t : Tree) (a : Ptr) (c : Color) (k v : ℕ) (r : Tree)
    → IsSubtree m fs (join side t a c k v r)
    → IsSubtree
        (blacken (m.nodes a).rchild (blacken (m.nodes a).lchild m))
        fs
        (join side (blackened t) a c k v (blackened r))
blacken_both m fs left t a c k v r s =
    let n = node_at m fs left a c k v t r s in
    let one = blacken_inner m fs left a c k v t r s in
    let two = blacken_inner (blacken (top t) m) fs right a c k v r (blackened t) one in
    subst
      (λ n.
        IsSubtree (blacken n.rchild (blacken n.lchild m)) fs
          (branch (blackened t) a c k v (blackened r)))
      (sym n) two
blacken_both m fs right t a c k v r s =
    let n = node_at m fs right a c k v t r s in
    let one = blacken_inner m fs left a c k v r t s in
    let two = blacken_inner (blacken (top r) m) fs right a c k v t (blackened r) one in
    subst
      (λ n.
        IsSubtree (blacken n.rchild (blacken n.lchild m)) fs
          (branch (blackened r) a c k v (blackened t)))
      (sym n) two

color_of_node :
    (side : Side) (q t u : Ptr) (c : Color) (k v : ℕ) → (node side q t u c k v).color ≡ c
color_of_node left q t u c k v = refl
color_of_node right q t u c k v = refl

-- The parent goes below the sibling, which gets its colour.
module _ (m : Map) (side : Side) (fs : List Frame) (t : Tree) (g : Ptr) (c : Color) (k v : ℕ)
    (y : Tree) (s : Ptr) (ks vs : ℕ) (z : Tree) where
  abbrev pub painted : Tree
  painted = join side (join side t g black k v y) s c ks vs (blackened z)

  pub paint-IsSubtree :
      IsSubtree m fs (join side (join side t g c k v y) s black ks vs z)
      → IsSubtree (paint s g m) fs painted
  paint-IsSubtree i =
      let low = join side t g c k v y in
      let at_g : (m.nodes g).color ≡ c =
        ap (λ n. n.color)
          (node_at m (frame side s black ks vs z ∷ fs) side g c k v t y
            (join-IsSubtree m side s black ks vs z fs low i))
        ∙ color_of_node side s (top t) (top y) c k v in
      let one =
        subst (λ d. IsSubtree (set_color s d m) fs (join side low s c ks vs z)) (sym at_g)
          (recolor-IsSubtree m fs side low s black c ks vs z i) in
      let two = blacken_both (set_color s (m.nodes g).color m) fs side low s c ks vs z one in
      subst (λ x. IsSubtree (paint s g m) fs (join side x s c ks vs (blackened z))) low_black two
    where
      low_black : blackened (join side t g c k v y) ≡ join side t g black k v y
      low_black = elim side as (λ i. blackened (join i t g c k v y) ≡ join i t g black k v y) [
        | left ↦ refl
        | right ↦ refl
      ]
