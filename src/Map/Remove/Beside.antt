-- ===== src/Map/Remove/Beside.antt =====
-- Case 1 of remove_rebalance, and the side of the node.
use sandnix.Prelude.{ℕ, suc, ◌≤◌, ◌≡◌, refl, sym, ap, ◌∙◌, subst, List, ◌∷◌, length, arith}
use sandnix.Nodes.{Ptr}
use sandnix.Map.{Color, black, red, Side, other, Map, set_color}
use sandnix.Map.Rotate.Shape.{rotate-IsSubtree}
use sandnix.Map.Recolor.{recolor-IsSubtree}
use sandnix.Map.Remove.{fix_again, fix_black, fix_side}
use sandnix.Map.Tree.{Tree, top, join}
use sandnix.Map.Context.{Frame, frame, plug, IsSubtree, join-IsSubtree, top-join}
use sandnix.Map.Balance.{IsBalanced, IsBlackRoot, IsFramed}
use sandnix.Map.Remove.Same.{IsSame-turn, IsSame-plug}
use sandnix.Map.Remove.Sibling.{across-IsSubtree, back_across, join-Beside}
use sandnix.Map.Remove.Hole.{Progress, GoesOn-weaken, IsSame-Progress, IsFramed-frame, open_black}
use sandnix.Map.Remove.Black.{room}
use sandnix.Map.Remove.Cases.{fix_black-Progress}

module _ (n : ℕ) (m : Map) (side : Side) (fs : List Frame) (t : Tree) (g : Ptr) (k v : ℕ) (y : Tree)
    (s : Ptr) (ks vs : ℕ) (z : Tree) (p_node : Ptr) where
  abbrev red_beside : Tree
  red_beside = join side t g black k v (join side y s red ks vs z)

  abbrev recolored : Map
  recolored = set_color g red (set_color s black m)

  recolored-IsSubtree :
      IsSubtree m fs red_beside
      → IsSubtree recolored fs (join side t g red k v (join side y s black ks vs z))
  recolored-IsSubtree i =
      let high = frame (other side) g black k v t ∷ fs in
      let low = join side y s black ks vs z in
      recolor-IsSubtree (set_color s black m) fs side t g black red k v low (
        back_across (set_color s black m) side g black k v fs t low (
          recolor-IsSubtree m high side y s red black ks vs z
            (across-IsSubtree m side g black k v fs t (join side y s red ks vs z) i)))

  -- Case 1, behind which the parent is red and the sibling black.
  pub red_beside-Progress :
      IsSubtree m fs red_beside
      → IsFramed (suc (suc n)) fs
      → IsBalanced n t
      → IsBalanced (suc n) y
      → IsBalanced (suc n) z
      → IsBlackRoot y
      → Progress 1 (plug fs red_beside) (fix_side side p_node g s m)
  unfolding fix_side
  red_beside-Progress i f bt by bz dy =
      let b = join-Beside m side fs t g black k v y s red ks vs z i in
      let turn =
        rotate-IsSubtree side fs g s t y z red black k v ks vs recolored (recolored-IsSubtree i) in
      let m' = turn.0 in
      let above = frame side s black ks vs z ∷ fs in
      let low = join side t g red k v y in
      let made = join-IsSubtree m' side s black ks vs z fs low (turn.2) in
      let last = fix_black-Progress n m' side above t g red k v y p_node made (bz, f) bt by dy in
      let e : fix_side side p_node g s m ≡ fix_black side p_node g m' =
        rw (fix_side, b.sibling_red, b.sibling_there) (ap (fix_again side p_node g) (turn.1)) in
      subst (Progress 1 (plug fs red_beside)) (sym e) (
        IsSame-Progress 1 (plug above low) (plug fs red_beside) (fix_black side p_node g m')
          (IsSame-plug fs (join side low s black ks vs z) red_beside
            (IsSame-turn side g s t y z red black black red k v ks vs))
          last)

module _ (n : ℕ) (m : Map) (side : Side) (fs : List Frame) (t : Tree) (g : Ptr) (c : Color)
    (k v : ℕ) (r : Tree) (p_node : Ptr) where
  abbrev node_above : Tree
  node_above = join side t g c k v r

  room_le : (c : Color) → room c fs ≤ suc (suc (length fs))
  room_le black = omega arith
  room_le red = omega arith

  pub black_beside-Progress :
      IsSubtree m fs node_above
      → IsFramed (suc n) (frame side g c k v r ∷ fs)
      → IsBalanced n t
      → IsBlackRoot r
      → Progress (suc (suc (length fs))) (plug fs node_above) (fix_side side p_node g (top r) m)
  unfolding fix_side
  black_beside-Progress i f bt dr =
      let parts = IsFramed-frame (suc n) side g c k v r fs f in
      let o = open_black n side r (parts.0) dr in
      let b =
        join-Beside m side fs t g c k v o.inner o.at black o.key o.value o.outer
          (subst (λ r. IsSubtree m fs (join side t g c k v r)) o.shape i) in
      let at : top r ≡ o.at =
        ap top o.shape ∙ top-join side o.inner o.at black o.key o.value o.outer in
      let e : fix_side side p_node g (top r) m ≡ fix_black side p_node g m =
        rw (at, b.sibling_red, b.sibling_there) refl in
      subst (Progress (suc (suc (length fs))) (plug fs node_above)) (sym e) (
        GoesOn-weaken (room c fs) (suc (suc (length fs))) (plug fs node_above)
          (fix_black side p_node g m) (room_le c)
          (fix_black-Progress n m side fs t g c k v r p_node i (parts.2) bt (parts.0) dr))
