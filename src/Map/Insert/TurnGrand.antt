-- ===== src/Map/Insert/TurnGrand.antt =====
-- Case 2 of insert_node: the grandparent turns red and goes below the parent, which turns black.
use sandnix.Prelude.{
  ℕ, ◌≡◌, ◌≢◌, refl, sym, ap, ◌∙◌, false, ◌==◌, none, some, List, ◌∷◌, arith, subst,
}
use sandnix.Nodes.{Ptr}
use sandnix.Map.{Color, black, red, Side, left, right, other, Map, set_color}
use sandnix.Map.Rotate.Shape.{rotate-IsSubtree}
use sandnix.Map.Insert.{turn_grand, turn_above, leave}
use sandnix.Map.Tree.{Tree, leaf, branch, top, join, node, entries}
use sandnix.Map.Context.{Frame, frame, up, plug, IsSubtree, IsSubtree-join, entries-plug, join_flip}
use sandnix.Map.Recolor.{recolor-IsSubtree, entries-join}

pub nonzero_test : (n : ℕ) → n ≢ 0 → (n == 0) ≡ false
nonzero_test n e = ground arith

pub parent_of_node :
    (side : Side) (q t u : Ptr) (c : Color) (k v : ℕ) → (node side q t u c k v).parent ≡ q
parent_of_node left q t u c k v = refl
parent_of_node right q t u c k v = refl

-- The nodes above the hole.
pub parent_of_hole :
    (m : Map) (fs : List Frame) (t : Tree)
    → top t ≢ 0
    → IsSubtree m fs t
    → (m.nodes (top t)).parent ≡ up fs
parent_of_hole m fs leaf ne s = absurd (ne refl)
parent_of_hole m fs (branch l a c k v r) ne s = ap (λ n. n.parent) (s.below.1)

pub parent_of_frame :
    (m : Map) (side : Side) (a : Ptr) (c : Color) (k v : ℕ) (r : Tree) (fs : List Frame) (t : Tree)
    → IsSubtree m (frame side a c k v r ∷ fs) t
    → (m.nodes a).parent ≡ up fs
parent_of_frame m side a c k v r fs t s =
    ap (λ n. n.parent) (s.around.1) ∙ parent_of_node side (up fs) (top t) (top r) c k v

module _ (side : Side) (fs : List Frame) (p g : Ptr) (cp cg : Color) (kp vp kg vg : ℕ)
    (t r u : Tree) where
  abbrev pub turned_grand : Tree
  turned_grand = join (other side) (join (other side) u g red kg vg r) p black kp vp t

  module _ (m : Map)
      (s : IsSubtree m (frame side p cp kp vp r ∷ (frame side g cg kg vg u ∷ fs)) t) where
    abbrev colored : Map
    colored = set_color g red (set_color p black m)

    at_colored :
        IsSubtree colored fs (join (other side) u g red kg vg (join (other side) r p black kp vp t))
    at_colored =
        let one =
          recolor-IsSubtree m (frame side g cg kg vg u ∷ fs) side t p cp black kp vp r
            (IsSubtree-join m side p cp kp vp r (frame side g cg kg vg u ∷ fs) t s) in
        let two =
          recolor-IsSubtree _ fs side (join side t p black kp vp r) g cg red kg vg u
            (IsSubtree-join _ side g cg kg vg u fs _ one) in
        subst (λ i. IsSubtree colored fs (join (other side) u g red kg vg i))
          (sym (join_flip side t p black kp vp r))
          (subst (IsSubtree colored fs) (sym (join_flip side _ g red kg vg u)) two)

    pub turn_grand-IsSubtree :
        (z : Ptr)
        → z ≡ top t
        → z ≢ 0
        → (m' : Map) × (turn_grand side z m ≡ some (none, m'))
          × IsSubtree m' fs turned_grand
          × (entries (plug fs turned_grand)
              ≡ entries (plug (frame side p cp kp vp r ∷ (frame side g cg kg vg u ∷ fs)) t))
    unfolding turn_grand turn_above
    turn_grand-IsSubtree z is ne =
        let up_z : (m.nodes z).parent ≡ p =
          ap (λ q. (m.nodes q).parent) is ∙ parent_of_hole m _ t (λ e. ne (is ∙ e)) s in
        let up_p : (m.nodes p).parent ≡ g = parent_of_frame m side p cp kp vp r _ t s in
        let np = nonzero_test p (s.around.0) in
        let ng = nonzero_test g (s.around.3.0) in
        let turn =
          rotate-IsSubtree (other side) fs g p u r t red black kg vg kp vp colored at_colored in
        let above : turn_grand side z m ≡ turn_above side z p g m =
          rw (turn_grand, up_z, up_p) refl in
        let turned : turn_above side z p g m ≡ some (none, turn.0) =
          rw (turn_above, np, ng) (ap leave (turn.1)) in
        (
          turn.0,
          above ∙ turned,
          turn.2,
          turn.3
              ∙ entries-plug fs _ _ (
                  ap entries (join_flip side _ g red kg vg u)
                  ∙ entries-join side _ _ g red cg kg vg u (
                      ap entries (join_flip side t p black kp vp r)
                      ∙ entries-join side t t p black cp kp vp r refl)),
        )
