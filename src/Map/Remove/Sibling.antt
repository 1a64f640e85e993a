-- ===== src/Map/Remove/Sibling.antt =====
-- What remove_rebalance reads of the nodes beside a node, and case 4.
use sandnix.Prelude.{
  ℕ, suc, ◌≡◌, refl, sym, ap, ◌∙◌, subst, true, false, ◌==◌, none, some, List, [], ◌∷◌,
}
use sandnix.Nodes.{Ptr}
use sandnix.Map.{Color, black, is_red, Side, left, right, other, Map, child}
use sandnix.Map.Rotate.Shape.{rotate-IsSubtree}
use sandnix.Map.Remove.{Round, is_red_at, paint, leave_painted, turn_up, turn_parent}
use sandnix.Map.Tree.{Tree, leaf, branch, top, join, node}
use sandnix.Map.Context.{
  Frame, frame, up, plug, IsSubtree, IsSubtree-join, join-IsSubtree, IsSubtree-plug, IsTree-join,
  top-join, join_flip,
}
use sandnix.Map.Balance.{
  IsBalanced, IsBlackRoot, IsRedBlack, IsAbove, black-IsBalanced, node-IsRedBlack, IsBlackRoot-join,
}
use sandnix.Map.Insert.TurnGrand.{nonzero_test}
use sandnix.Map.Insert.TurnParent.{far_child}
use sandnix.Map.Remove.Paint.{red_root, is_red_at-top, blackened, paint-IsSubtree}
use sandnix.Map.Remove.Same.{
  IsSame, IsSame-refl, IsSame-trans, IsSame-join, IsSame-blackened, IsSame-turn, IsSame-plug,
}

-- The map is a red-black tree with the entries and the nodes of another.
pub record Rebalanced (old : Tree) (m : Map) : Type 0 where
  pub shape : Tree
  pub whole : IsSubtree m [] shape
  pub same : IsSame shape old
  pub red_black : IsRedBlack shape

-- The loop is left with such a map.
abbrev pub Ended : Tree → Round → Type 0
Ended old r = (m' : Map) × ((r ≡ some (none, m')) × Rebalanced old m')

pub IsSame-Rebalanced : (t u : Tree) (m : Map) → IsSame t u → Rebalanced t m → Rebalanced u m
IsSame-Rebalanced t u m d b = record {
  shape = b.shape;
  whole = b.whole;
  same = IsSame-trans b.shape t u b.same d;
  red_black = b.red_black;
}

near_of_node :
    (side : Side) (q t u : Ptr) (c : Color) (k v : ℕ) → child side (node side q t u c k v) ≡ t
near_of_node left q t u c k v = refl
near_of_node right q t u c k v = refl

-- Seen from the other child of a branch.
pub across-IsSubtree :
    (m : Map) (side : Side) (g : Ptr) (c : Color) (k v : ℕ) (fs : List Frame) (t r : Tree)
    → IsSubtree m fs (join side t g c k v r)
    → IsSubtree m (frame (other side) g c k v t ∷ fs) r
across-IsSubtree m side g c k v fs t r s =
    join-IsSubtree m (other side) g c k v t fs r
      (subst (IsSubtree m fs) (sym (join_flip side t g c k v r)) s)

pub back_across :
    (m : Map) (side : Side) (g : Ptr) (c : Color) (k v : ℕ) (fs : List Frame) (t r : Tree)
    → IsSubtree m (frame (other side) g c k v t ∷ fs) r
    → IsSubtree m fs (join side t g c k v r)
back_across m side g c k v fs t r s =
    subst (IsSubtree m fs) (join_flip side t g c k v r)
      (IsSubtree-join m (other side) g c k v t fs r s)

-- What is read of a parent, the sibling of its child, and the children of the sibling.
pub record Beside (m : Map) (side : Side) (g s : Ptr) (c d : Color) (t y z : Tree) : Type 0 where
  pub sibling : child (other side) (m.nodes g) ≡ s
  pub sibling_there : (s == 0) ≡ false
  pub sibling_red : is_red_at s m ≡ is_red d
  pub parent_red : (m.nodes g).color ≡ c
  pub near : child side (m.nodes s) ≡ top y
  pub far : child (other side) (m.nodes s) ≡ top z
  pub near_red : is_red_at (top y) m ≡ red_root y
  pub far_red : is_red_at (top z) m ≡ red_root z

color_of : (side : Side) (q t u : Ptr) (c : Color) (k v : ℕ) → (node side q t u c k v).color ≡ c
color_of left q t u c k v = refl
color_of right q t u c k v = refl

module _ (m : Map) (side : Side) (fs : List Frame) (t : Tree) (g : Ptr) (c : Color) (k v : ℕ)
    (y : Tree) (s : Ptr) (d : Color) (ks vs : ℕ) (z : Tree) where
  pub join-Beside :
      IsSubtree m fs (join side t g c k v (join side y s d ks vs z)) → Beside m side g s c d t y z
  join-Beside i =
      let a = IsTree-join side m.nodes (up fs) t g c k v (join side y s d ks vs z) i.below in
      let b = IsTree-join side m.nodes g y s d ks vs z (a.3) in
      let ns = nonzero_test s (b.0) in
      record {
        sibling =
            ap (child (other side)) (a.1)
            ∙ far_child side (up fs) (top t) (top (join side y s d ks vs z)) c k v
            ∙ top-join side y s d ks vs z;
        sibling_there = ns;
        sibling_red = rw (ns, b.1, color_of side g (top y) (top z) d ks vs) refl;
        parent_red = ap (λ n. n.color) (a.1) ∙ color_of side (up fs) (top t) _ c k v;
        near = ap (child side) (b.1) ∙ near_of_node side g (top y) (top z) d ks vs;
        far = ap (child (other side)) (b.1) ∙ far_child side g (top y) (top z) d ks vs;
        near_red = is_red_at-top m s y (b.2);
        far_red = is_red_at-top m s z (b.3);
      }

-- Case 4: the sibling is black and its far child red.
module _ (n : ℕ) (m : Map) (side : Side) (fs : List Frame) (t : Tree) (g : Ptr) (c : Color)
    (k v : ℕ) (y : Tree) (s : Ptr) (ks vs : ℕ) (z : Tree) where
  abbrev old_tree : Tree
  old_tree = plug fs (join side t g c k v (join side y s black ks vs z))

  abbrev turned_tree : Tree
  turned_tree = join side (join side t g black k v y) s c ks vs (blackened z)

  turned-IsSame : IsSame (plug fs turned_tree) old_tree
  turned-IsSame = IsSame-plug fs turned_tree (join side t g c k v (join side y s black ks vs z)) (
      IsSame-trans turned_tree (join side (join side t g black k v y) s c ks vs z)
        (join side t g c k v (join side y s black ks vs z))
        (IsSame-join side (join side t g black k v y) (join side t g black k v y) s c c ks vs
          (blackened z) z (IsSame-refl (join side t g black k v y)) (IsSame-blackened z))
        (IsSame-turn side g s t y z black c c black k v ks vs))

  turned-IsRedBlack :
      IsAbove (suc n) c fs
      → IsBalanced n t
      → IsBalanced n y
      → IsBalanced (suc n) (blackened z)
      → IsRedBlack (plug fs turned_tree)
  turned-IsRedBlack f bt by bz =
      node-IsRedBlack (suc n) c fs side (join side t g black k v y) s ks vs (blackened z) f
        (black-IsBalanced n g k v side t y bt by) bz (IsBlackRoot-join side t g black k v y refl)
        (black_root z)
    where
      black_root : (z : Tree) → IsBlackRoot (blackened z)
      black_root leaf = tt
      black_root (branch l a c k v r) = refl

  pub turn_up-Ended :
      (p_node : Ptr)
      → IsSubtree m fs (join side t g c k v (join side y s black ks vs z))
      → red_root z ≡ true
      → IsAbove (suc n) c fs
      → IsBalanced n t
      → IsBalanced n y
      → IsBalanced (suc n) (blackened z)
      → Ended old_tree (turn_up side p_node g s m)
  unfolding turn_up
  turn_up-Ended p_node i ez f bt by bz =
      let b = join-Beside m side fs t g c k v y s black ks vs z i in
      let turn = rotate-IsSubtree side fs g s t y z c black k v ks vs m i in
      let m' = turn.0 in
      let made = paint-IsSubtree m' side fs t g c k v y s ks vs z (turn.2) in
      (
        paint s g m',
        (
          rw (turn_up, b.sibling_red, b.far, b.far_red, ez) (ap (leave_painted s g) (turn.1)),
          record {
            shape = plug fs turned_tree;
            whole = IsSubtree-plug (paint s g m') fs turned_tree made;
            same = turned-IsSame;
            red_black = turned-IsRedBlack f bt by bz;
          },
        ),
      )

  pub turn_parent-Ended :
      (p_node : Ptr)
      → IsSubtree m fs (join side t g c k v (join side y s black ks vs z))
      → red_root z ≡ true
      → IsAbove (suc n) c fs
      → IsBalanced n t
      → IsBalanced n y
      → IsBalanced (suc n) (blackened z)
      → Ended old_tree (turn_parent side p_node g m)
  unfolding turn_parent
  turn_parent-Ended p_node i ez f bt by bz =
      let b = join-Beside m side fs t g c k v y s black ks vs z i in
      let e = turn_up-Ended p_node i ez f bt by bz in
      (e.0, (rw (turn_parent, b.sibling, b.sibling_there) (e.1.0), e.1.1))
