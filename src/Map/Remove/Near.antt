-- ===== src/Map/Remove/Near.antt =====
-- Case 3 of remove_rebalance: the near child of the black sibling is red.
use sandnix.Prelude.{ℕ, suc, ◌≡◌, refl, sym, ap, ◌∙◌, subst, true, List, ◌∷◌}
use sandnix.Nodes.{Ptr}
use sandnix.Map.{Color, black, red, Side, left, right, other, Map, set_color}
use sandnix.Map.Rotate.{rotate}
use sandnix.Map.Rotate.Shape.{rotate-IsSubtree}
use sandnix.Map.Recolor.{recolor-IsSubtree}
use sandnix.Map.Remove.{turn_again}
use sandnix.Map.Tree.{Tree, join}
use sandnix.Map.Context.{Frame, frame, plug, IsSubtree, IsSubtree-join, join-IsSubtree}
use sandnix.Map.Balance.{IsBalanced, IsAbove, black-IsBalanced}
use sandnix.Map.Remove.Paint.{red_root, blackened}
use sandnix.Map.Remove.Same.{IsSame, IsSame-refl, IsSame-sym, IsSame-join, IsSame-turn, IsSame-plug}
use sandnix.Map.Remove.Sibling.{
  Ended, IsSame-Rebalanced, across-IsSubtree, back_across, turn_parent-Ended,
}

-- A branch with an inner branch, seen from the other side.
seen_outside :
    (side : Side) (x : Tree) (a : Ptr) (ca : Color) (ka va : ℕ) (y : Tree) (b : Ptr) (cb : Color)
    (kb vb : ℕ) (z : Tree)
    → join side (join side x a ca ka va y) b cb kb vb z
      ≡ join (other side) z b cb kb vb (join (other side) y a ca ka va x)
seen_outside left x a ca ka va y b cb kb vb z = refl
seen_outside right x a ca ka va y b cb kb vb z = refl

seen_inside :
    (side : Side) (x : Tree) (a : Ptr) (ca : Color) (ka va : ℕ) (y : Tree) (b : Ptr) (cb : Color)
    (kb vb : ℕ) (z : Tree)
    → join (other side) (join (other side) z b cb kb vb y) a ca ka va x
      ≡ join side x a ca ka va (join side y b cb kb vb z)
seen_inside left x a ca ka va y b cb kb vb z = refl
seen_inside right x a ca ka va y b cb kb vb z = refl

red_inner :
    (side : Side) (x : Tree) (a : Ptr) (k v : ℕ) (y : Tree)
    → red_root (join side x a red k v y) ≡ true
red_inner left x a k v y = refl
red_inner right x a k v y = refl

blackened_inner :
    (side : Side) (x : Tree) (a : Ptr) (c : Color) (k v : ℕ) (y : Tree)
    → blackened (join side x a c k v y) ≡ join side x a black k v y
blackened_inner left x a c k v y = refl
blackened_inner right x a c k v y = refl

module _ (n : ℕ) (m : Map) (side : Side) (fs : List Frame) (t : Tree) (g : Ptr) (c : Color)
    (k v : ℕ) (y1 : Tree) (y0 : Ptr) (ky vy : ℕ) (y2 : Tree) (s : Ptr) (ks vs : ℕ) (z : Tree) where
  abbrev before : Tree
  before = join side t g c k v (join side (join side y1 y0 red ky vy y2) s black ks vs z)

  abbrev after : Tree
  after = join side t g c k v (join side y1 y0 black ky vy (join side y2 s red ks vs z))

  abbrev colors_swapped : Map
  colors_swapped = set_color y0 black (set_color s red m)

  colors_swapped-IsSubtree :
      IsSubtree m fs before
      → IsSubtree colors_swapped
          (frame (other side) g c k v t ∷ fs)
          (join side (join side y1 y0 black ky vy y2) s red ks vs z)
  colors_swapped-IsSubtree i =
      let high = frame (other side) g c k v t ∷ fs in
      let near = join side y1 y0 red ky vy y2 in
      let near' = join side y1 y0 black ky vy y2 in
      let one =
        recolor-IsSubtree m high side near s black red ks vs z
          (across-IsSubtree m side g c k v fs t (join side near s black ks vs z) i) in
      let two =
        recolor-IsSubtree (set_color s red m) (frame side s red ks vs z ∷ high) side y1 y0 red black
          ky vy y2 (join-IsSubtree (set_color s red m) side s red ks vs z high near one) in
      IsSubtree-join colors_swapped side s red ks vs z high near' two

  after-IsSame : IsSame (plug fs after) (plug fs before)
  after-IsSame =
      let low = join side (join side y1 y0 red ky vy y2) s black ks vs z in
      let low' = join side y1 y0 black ky vy (join side y2 s red ks vs z) in
      IsSame-plug fs after before (
        IsSame-join side t t g c c k v low' low (IsSame-refl t)
          (IsSame-sym low low' (IsSame-turn side y0 s y1 y2 z red black black red ky vy ks vs)))

  pub turn_again-Ended :
      (p_node : Ptr)
      → IsSubtree m fs before
      → IsAbove (suc n) c fs
      → IsBalanced n t
      → IsBalanced n y1
      → IsBalanced n y2
      → IsBalanced n z
      → Ended (plug fs before) (turn_again side p_node g (rotate (other side) s colors_swapped))
  turn_again-Ended p_node i f bt b1 b2 bz =
      let high = frame (other side) g c k v t ∷ fs in
      let shown =
        subst (IsSubtree colors_swapped high) (seen_outside side y1 y0 black ky vy y2 s red ks vs z)
          (colors_swapped-IsSubtree i) in
      let turn =
        rotate-IsSubtree (other side) high s y0 z y2 y1 red black ks vs ky vy colors_swapped
          shown in
      let made =
        back_across (turn.0) side g c k v fs t
          (join side y1 y0 black ky vy (join side y2 s red ks vs z))
          (subst (IsSubtree (turn.0) high) (seen_inside side y1 y0 black ky vy y2 s red ks vs z)
            (turn.2)) in
      let outer = join side y2 s red ks vs z in
      let last =
        turn_parent-Ended n (turn.0) side fs t g c k v y1 y0 ky vy outer p_node made
          (red_inner side y2 s ks vs z) f bt b1
          (subst (IsBalanced (suc n)) (sym (blackened_inner side y2 s red ks vs z))
            (black-IsBalanced n s ks vs side y2 z b2 bz)) in
      (
        last.0,
        (
          ap (turn_again side p_node g) (turn.1) ∙ last.1.0,
          IsSame-Rebalanced (plug fs after) (plug fs before) (last.0) after-IsSame (last.1.1),
        ),
      )
