-- ===== src/Map/Remove/Cases.antt =====
-- Which of the cases 2 to 4 of remove_rebalance applies.
use sandnix.Prelude.{ℕ, suc, ◌≡◌, refl, sym, subst, Bool-cases, List, inl, inr}
use sandnix.Nodes.{Ptr}
use sandnix.Map.{Color, black, red, Side, Map}
use sandnix.Map.Remove.{fix_sibling, fix_black}
use sandnix.Map.Tree.{Tree, top, join}
use sandnix.Map.Context.{Frame, plug, IsSubtree, top-join}
use sandnix.Map.Balance.{IsBalanced, IsBlackRoot, IsAbove, red-IsBalanced}
use sandnix.Map.Remove.Paint.{red_root}
use sandnix.Map.Remove.Sibling.{Ended, join-Beside, turn_up-Ended}
use sandnix.Map.Remove.Near.{turn_again-Ended}
use sandnix.Map.Remove.Hole.{Progress, red_root-IsBlackRoot, open_black, open_red}
use sandnix.Map.Remove.Black.{room, blackened-IsBalanced, reddened-GoesOn, red_top}

module _ (n : ℕ) (m : Map) (side : Side) (fs : List Frame) (t : Tree) (g : Ptr) (c : Color)
    (k v : ℕ) (s : Ptr) (ks vs : ℕ) (z : Tree) (p_node : Ptr) where
  abbrev with_near : Tree → Tree
  with_near y = join side t g c k v (join side y s black ks vs z)

  near_red-Ended :
      (y1 : Tree) (y0 : Ptr) (ky vy : ℕ) (y2 : Tree)
      → IsSubtree m fs (with_near (join side y1 y0 red ky vy y2))
      → IsAbove (suc n) c fs
      → IsBalanced n t
      → IsBalanced n y1
      → IsBalanced n y2
      → IsBalanced n z
      → Ended
          (plug fs (with_near (join side y1 y0 red ky vy y2)))
          (fix_sibling side p_node g s (top (join side y1 y0 red ky vy y2)) (top z) m)
  unfolding fix_sibling
  near_red-Ended y1 y0 ky vy y2 i f bt b1 b2 bz =
      let b = join-Beside m side fs t g c k v (join side y1 y0 red ky vy y2) s black ks vs z i in
      let e = red_top side y1 y0 ky vy y2 in
      let last =
        turn_again-Ended n m side fs t g c k v y1 y0 ky vy y2 s ks vs z p_node i f bt b1 b2 bz in
      (
        last.0,
        (rw (b.sibling_red, b.near_red, e, top-join side y1 y0 red ky vy y2) (last.1.0), last.1.1),
      )

  fix_sibling-Progress :
      (y : Tree)
      → IsSubtree m fs (with_near y)
      → IsAbove (suc n) c fs
      → IsBalanced n t
      → IsBalanced n y
      → IsBalanced n z
      → Progress (room c fs) (plug fs (with_near y)) (fix_sibling side p_node g s (top y) (top z) m)
  unfolding fix_sibling
  fix_sibling-Progress y i f bt by bz =
      let b = join-Beside m side fs t g c k v y s black ks vs z i in
      elim (Bool-cases (red_root y)) [
        | inl ey ↦
            let o = open_red n side y by ey in
            inl (
              subst
                (λ y.
                  IsSubtree m fs (with_near y)
                  → Ended (plug fs (with_near y)) (fix_sibling side p_node g s (top y) (top z) m))
                (sym o.shape)
                (λ i.
                  near_red-Ended o.inner o.at o.key o.value o.outer i f bt o.inner_balanced
                    o.outer_balanced bz)
                i)
        | inr ey ↦ elim (Bool-cases (red_root z)) [
          | inl ez ↦
              let last =
                turn_up-Ended n m side fs t g c k v y s ks vs z p_node i ez f bt by
                  (blackened-IsBalanced n z ez bz) in
              inl (last.0, (rw (b.sibling_red, b.near_red, b.far_red, ey, ez) (last.1.0), last.1.1))
          | inr ez ↦
              let next = reddened-GoesOn n m side t g k v y s ks vs z c fs i f bt (
                red-IsBalanced n s ks vs side y z by bz (red_root-IsBlackRoot y ey)
                  (red_root-IsBlackRoot z ez)) in
              inr (record {
                memory = next.memory;
                shape = next.shape;
                frames = next.frames;
                level = next.level;
                next_is = rw (b.sibling_red, b.near_red, b.far_red, ey, ez) next.next_is;
                there = next.there;
                whole = next.whole;
                framed = next.framed;
                short = next.short;
                same = next.same;
                cheap = next.cheap;
              })
        ]
      ]

-- The sibling is black.
pub fix_black-Progress :
    (n : ℕ) (m : Map) (side : Side) (fs : List Frame) (t : Tree) (g : Ptr) (c : Color) (k v : ℕ)
    (r : Tree) (p_node : Ptr)
    → IsSubtree m fs (join side t g c k v r)
    → IsAbove (suc n) c fs
    → IsBalanced n t
    → IsBalanced (suc n) r
    → IsBlackRoot r
    → Progress (room c fs) (plug fs (join side t g c k v r)) (fix_black side p_node g m)
unfolding fix_black
fix_black-Progress n m side fs t g c k v r p_node i f bt br dr =
    let o = open_black n side r br dr in
    subst
      (λ r.
        IsSubtree m fs (join side t g c k v r)
        → Progress (room c fs) (plug fs (join side t g c k v r)) (fix_black side p_node g m))
      (sym o.shape)
      (λ i. opened o.inner o.at o.key o.value o.outer i o.inner_balanced o.outer_balanced) i
  where
    opened :
        (y : Tree) (s : Ptr) (ks vs : ℕ) (z : Tree)
        → IsSubtree m fs (join side t g c k v (join side y s black ks vs z))
        → IsBalanced n y
        → IsBalanced n z
        → Progress
            (room c fs)
            (plug fs (join side t g c k v (join side y s black ks vs z)))
            (fix_black side p_node g m)
    opened y s ks vs z i by bz =
        let b = join-Beside m side fs t g c k v y s black ks vs z i in
        let e : fix_black side p_node g m ≡ fix_sibling side p_node g s (top y) (top z) m =
          rw (fix_black, b.sibling, b.near, b.far, b.sibling_there) refl in
        subst (Progress (room c fs) (plug fs (join side t g c k v (join side y s black ks vs z))))
          (sym e) (fix_sibling-Progress n m side fs t g c k v s ks vs z p_node y i f bt by bz)
