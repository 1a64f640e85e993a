-- ===== src/Map/Remove/Adopt.antt =====
-- A subtree takes the place of the node above it.
use sandnix.Prelude.{
  ℕ, ◌+◌, ◌≤◌, ◌≡◌, ◌≢◌, refl, ap, ◌∙◌, true, false, ◌==◌, List, ◌∷◌, arith, if◌then◌else◌,
}
use sandnix.Nodes.{Ptr, null}
use sandnix.Map.{
  Color, Side, left, right, Node, Map, with_child, with_parent, set_parent, set_child,
}
use sandnix.Map.Remove.{relink}
use sandnix.Map.Tree.{
  Tree, leaf, branch, top, node, count, IsTree, IsTree-update, update_hit, hit_self,
}
use sandnix.Map.Context.{Frame, frame, up, top_of, count_in, IsAround, IsAround-update, IsSubtree}
use sandnix.Map.Insert.TurnGrand.{nonzero_test}
use sandnix.Map.Insert.TurnParent.{apart_top}

-- The subtree below the frames, whose root still names `q` as its parent.
pub record IsLoose (m : Map) (fs : List Frame) (q : Ptr) (t : Tree) : Type 0 where
  pub root : m.tree ≡ top_of fs (top t)
  pub around : IsAround m.nodes fs (top t)
  pub below : IsTree m.nodes q t
  pub distinct : (p : Ptr) → count_in p fs + count p t ≤ 1

parent_changed :
    (q q' l r : Ptr) (c : Color) (k v : ℕ) (n : Node)
    → n ≡ node left q l r c k v
    → with_parent q' n ≡ node left q' l r c k v
parent_changed q q' l r c k v n e = ap (with_parent q') e

-- And its parent is set.
pub set_parent-IsSubtree :
    (m : Map) (fs : List Frame) (q : Ptr) (l : Tree) (a : Ptr) (c : Color) (k v : ℕ) (r : Tree)
    → IsLoose m fs q (branch l a c k v r)
    → IsSubtree (set_parent a (up fs) m) fs (branch l a c k v r)
set_parent-IsSubtree m fs q l a c k v r s =
    let d = s.distinct a in
    let one = hit_self a in
    let b = s.below in
    record {
      root = s.root;
      around = IsAround-update m.nodes a _ _ fs (omega arith) s.around;
      below = (
        b.0,
        update_hit m.nodes a _ ∙ parent_changed q (up fs) (top l) (top r) c k v _ (b.1),
        IsTree-update m.nodes a a _ l (omega arith) (b.2),
        IsTree-update m.nodes a a _ r (omega arith) (b.3),
      );
      distinct = s.distinct;
    }

adopt-IsSubtree :
    (m : Map) (fs : List Frame) (q : Ptr) (t : Tree)
    → IsLoose m fs q t
    → IsSubtree (if top t == null then m else set_parent (top t) (up fs) m) fs t
adopt-IsSubtree m fs q leaf s = record {
  root = s.root;
  around = s.around;
  below = tt;
  distinct = s.distinct;
}
adopt-IsSubtree m fs q (branch l a c k v r) s =
    let na = nonzero_test a (s.below.0) in rw na (set_parent-IsSubtree m fs q l a c k v r s)

child_changed :
    (side : Side) (q x x' y : Ptr) (c : Color) (k v : ℕ) (n : Node)
    → n ≡ node side q x y c k v
    → with_child side x' n ≡ node side q x' y c k v
child_changed left q x x' y c k v n e = ap (with_child left x') e
child_changed right q x x' y c k v n e = ap (with_child right x') e

-- The test for the left child gives the side of a node.
own_side :
    (m : Map) (side : Side) (fs : List Frame) (t : Tree) (g : Ptr) (c : Color) (k v : ℕ) (u : Tree)
    → IsSubtree m (frame side g c k v u ∷ fs) t
    → top t ≢ 0
    → (if (m.nodes g).lchild == top t then left else right) ≡ side
own_side m left fs t g c k v u i ne =
    let b = i.around in let e : (top t == top t) ≡ true = ground arith in rw (b.1, e) refl
own_side m right fs t g c k v u i ne =
    let b = i.around in
    let e : (top u == top t) ≡ false =
      let x = apart_top t u ne (λ p. let d = i.distinct p in omega arith) in ground arith in
    rw (b.1, e) refl

module _ (m : Map) (side : Side) (g : Ptr) (c : Color) (k v : ℕ) (u : Tree) (fs : List Frame)
    (t h : Tree) where
  -- A subtree of the hole takes its place.
  linked-IsLoose :
      IsSubtree m (frame side g c k v u ∷ fs) t
      → IsTree m.nodes (top t) h
      → ((q : Ptr) → count q h ≤ count q t)
      → IsLoose (set_child side g (top h) m) (frame side g c k v u ∷ fs) (top t) h
  linked-IsLoose i below fewer =
      let d = i.distinct g in
      let one = hit_self g in
      let few = fewer g in
      let b = i.around in
      record {
        root = i.root;
        around = (
          b.0,
          update_hit m.nodes g _ ∙ child_changed side (up fs) (top t) (top h) (top u) c k v _ (b.1),
          IsTree-update m.nodes g g _ u (omega arith) (b.2),
          IsAround-update m.nodes g _ _ fs (omega arith) (b.3),
        );
        below = IsTree-update m.nodes g (top t) _ h (omega arith) below;
        distinct = λ p. let e = i.distinct p in let f = fewer p in omega arith;
      }

  pub relink-IsSubtree :
      IsSubtree m (frame side g c k v u ∷ fs) t
      → top t ≢ 0
      → IsTree m.nodes (top t) h
      → ((q : Ptr) → count q h ≤ count q t)
      → IsSubtree (relink g (top t) (top h) m) (frame side g c k v u ∷ fs) h
  relink-IsSubtree i ne below fewer = rw (own_side m side fs t g c k v u i ne) (
      adopt-IsSubtree (set_child side g (top h) m) (frame side g c k v u ∷ fs) (top t) h
        (linked-IsLoose i below fewer))
