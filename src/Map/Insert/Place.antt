-- ===== src/Map/Insert/Place.antt =====
-- The loop of insert_node that finds the place of the new node.
use sandnix.Prelude.{
  ℕ, zero, suc, ◌+◌, ◌≤◌, ◌<◌, ◌≡◌, ◌≢◌, refl, ap, ◌∙◌, ◌==◌, Option, some, List, [], ◌∷◌, arith,
  length, if◌then◌else◌,
}
use sandnix.Nodes.{Ptr, null}
use sandnix.Compare.{ℤ, pos, negsuc}
use sandnix.Map.{
  Color, black, Side, left, right, Map, child, with_child, with_parent, set_child, set_parent,
  by_sign,
}
use sandnix.Map.Insert.{place, new_node}
use sandnix.Map.Tree.{
  Tree, leaf, branch, top, node, size, hit, hit_self, count, IsTree-update, update_hit, update_miss,
}
use sandnix.Map.Context.{
  Frame, frame, up, plug, count_in, IsAround-update, IsSubtree, join-IsSubtree,
}
use sandnix.Map.Lookup.{IsRanked, IsSearch}
use sandnix.Map.Rotate.Replace.{with_inner}
use sandnix.Map.Insert.Order.{Splits, Splits-nil, Splits-left, Splits-right}
use sandnix.Map.Insert.TurnGrand.{nonzero_test}

child_inner :
    (side : Side) (q t u : Ptr) (c : Color) (k v : ℕ) → child side (node side q t u c k v) ≡ t
child_inner left q t u c k v = refl
child_inner right q t u c k v = refl

module _ (rank : ℕ → ℕ) (key value : ℕ) (n : Ptr) (nn : n ≢ 0) where
  abbrev pub lone_node : Color → Tree
  lone_node c = branch leaf n c key value leaf

  -- The new node is nowhere in the map.
  abbrev pub Fresh : List Frame → Tree → Type 0
  Fresh fs t = (p : Ptr) → count_in p fs + count p t + hit p n ≤ 1

  -- The node hangs below the frames, which are those of a leaf of the tree.
  pub record Placed (whole : Tree) (room : ℕ) (m' : Map) : Type 0 where
    pub frames : List Frame
    pub subtree : IsSubtree m' frames (lone_node black)
    pub same : plug frames leaf ≡ whole
    pub splits : Splits rank key value frames
    pub depth : length frames ≤ room

  hang :
      (side : Side) (m : Map) (a : Ptr) (c : Color) (k v : ℕ) (r : Tree) (fs : List Frame)
      → m.nodes n ≡ new_node key value black
      → Fresh (frame side a c k v r ∷ fs) leaf
      → IsSubtree m (frame side a c k v r ∷ fs) leaf
      → IsSubtree
          (set_parent n a (set_child side a n m))
          (frame side a c k v r ∷ fs)
          (lone_node black)
  hang side m a c k v r fs at fresh s =
      let d = fresh n in
      let e = fresh a in
      let one = hit_self n in
      let one_a = hit_self a in
      let d' = s.distinct a in
      record {
        root = s.root;
        around = (
          s.around.0,
          update_miss (set_child side a n m).nodes n a _ (omega arith)
              ∙ update_hit m.nodes a _
              ∙ ap (with_child side n) (s.around.1)
              ∙ with_inner side n _ _ _ c k v,
          IsTree-update (set_child side a n m).nodes n a _ r (omega arith)
              (IsTree-update m.nodes a a _ r (omega arith) (s.around.2)),
          IsAround-update (set_child side a n m).nodes n a _ fs (omega arith)
              (IsAround-update m.nodes a a _ fs (omega arith) (s.around.3)),
        );
        below = (
          nn,
          update_hit (set_child side a n m).nodes n _
              ∙ ap (with_parent a) (update_miss m.nodes a n _ (omega arith) ∙ at),
          tt,
          tt,
        );
        distinct = λ p. let f = fresh p in omega arith;
      }

  abbrev pub PlacedBy : Tree → ℕ → Option Map → Type 0
  PlacedBy whole room r = (m' : Map) × (r ≡ some m') × Placed whole room m'

  -- What the loop does at a node whose child on this side is next.
  abbrev step : (fuel : ℕ) → Side → Ptr → Map → Option Map
  step fuel side a m =
      if child side (m.nodes a) == null
      then some (set_parent n a (set_child side a n m))
      else place fuel (child side (m.nodes a)) n m

  module _ (m : Map) (ranked : IsRanked m.compare_func rank)
      (at : m.nodes n ≡ new_node key value black) where
    child_of_frame :
        (side : Side) (a : Ptr) (c : Color) (k v : ℕ) (r : Tree) (fs : List Frame) (u : Tree)
        → IsSubtree m (frame side a c k v r ∷ fs) u
        → child side (m.nodes a) ≡ top u
    child_of_frame side a c k v r fs u s =
        ap (child side) (s.around.1) ∙ child_inner side (up fs) (top u) (top r) c k v

    place-step :
        (fuel : ℕ) (p : Ptr) (i : ℕ)
        → (m.nodes p).key ≡ i
        → place (suc fuel) p n m ≡ step fuel (by_sign (m.compare_func key i) right left left) p m
    unfolding place
    place-step fuel p i is =
        ap (λ x. step fuel (by_sign (m.compare_func x.key (m.nodes p).key) right left left) p m) at
        ∙ ap (λ x. step fuel (by_sign (m.compare_func key x) right left left) p m) is

    -- The loop goes on at a node.
    enter :
        (fuel : ℕ) (side : Side) (a p : Ptr) (i : ℕ)
        → child side (m.nodes a) ≡ p
        → p ≢ 0
        → (m.nodes p).key ≡ i
        → step (suc fuel) side a m ≡ step fuel (by_sign (m.compare_func key i) right left left) p m
    unfolding place
    enter fuel side a p i e ne is =
        let np = nonzero_test p ne in
        let here : step (suc fuel) side a m ≡ place (suc fuel) p n m = rw (e, np) refl in
        here ∙ place-step fuel p i is

    choose :
        (P : Side → Type 0) (order : ℤ) (i : ℕ)
        → by_sign order (rank i < rank key) (rank key ≡ rank i) (rank key < rank i)
        → (rank key ≤ rank i → P left)
        → (rank i < rank key → P right)
        → P (by_sign order right left left)
    choose P (pos zero) i o on_left on_right =
        on_left (let e : rank key ≡ rank i = o in omega arith)
    choose P (pos (suc x)) i o on_left on_right = on_right o
    choose P (negsuc x) i o on_left on_right =
        on_left (let e : rank key < rank i = o in omega arith)

    more_room :
        (whole : Tree) (room room' : ℕ) (r : Option Map)
        → room ≤ room'
        → PlacedBy whole room r
        → PlacedBy whole room' r
    more_room whole room room' r le (m', e, placed) = (
      m',
      e,
      record {
        frames = placed.frames;
        subtree = placed.subtree;
        same = placed.same;
        splits = placed.splits;
        depth = let short = placed.depth in omega arith;
      },
    )

    step-PlacedBy :
        (fuel : ℕ) (side : Side) (a : Ptr) (c : Color) (k v : ℕ) (r : Tree) (fs : List Frame)
        (u : Tree)
        → size u ≤ fuel
        → Splits rank key value (frame side a c k v r ∷ fs)
        → IsSearch rank u
        → Fresh (frame side a c k v r ∷ fs) u
        → IsSubtree m (frame side a c k v r ∷ fs) u
        → PlacedBy
            (plug (frame side a c k v r ∷ fs) u)
            (suc (length fs) + size u)
            (step fuel side a m)
    unfolding place
    step-PlacedBy fuel side a c k v r fs leaf le sp sorted fresh s =
        let e = child_of_frame side a c k v r fs leaf s in
        (
          set_parent n a (set_child side a n m),
          rw e refl,
          record {
            frames = frame side a c k v r ∷ fs;
            subtree = hang side m a c k v r fs at fresh s;
            same = refl;
            splits = sp;
            depth = omega arith;
          },
        )
    step-PlacedBy zero side a c k v r fs (branch l p d i j t) le sp sorted fresh s =
        absurd (omega arith)
    step-PlacedBy (suc fuel) side a c k v r fs (branch l p d i j t) le sp sorted fresh s =
        let above = frame side a c k v r ∷ fs in
        let room = suc (length fs) + suc (size l + size t) in
        let e = child_of_frame side a c k v r fs (branch l p d i j t) s in
        let entered = enter fuel side a p i e (s.below.0) (ap (λ x. x.key) (s.below.1)) in
        let on_left = λ (o : rank key ≤ rank i).
          more_room (plug above (branch l p d i j t)) (suc (suc (length fs)) + size l) room _
            (omega arith)
            (step-PlacedBy fuel left p d i j t above l (omega arith)
              (Splits-left rank key value p d i j t above o sp) (sorted.2.0)
              (λ q. let f = fresh q in omega arith) (join-IsSubtree m left p d i j t above l s)) in
        let on_right = λ (o : rank i < rank key).
          more_room (plug above (branch l p d i j t)) (suc (suc (length fs)) + size t) room _
            (omega arith)
            (step-PlacedBy fuel right p d i j l above t (omega arith)
              (Splits-right rank key value p d i j l above o (sorted.0) sp) (sorted.2.1)
              (λ q. let f = fresh q in omega arith) (join-IsSubtree m right p d i j l above t s)) in
        let found =
          choose (λ x. PlacedBy (plug above (branch l p d i j t)) room (step fuel x p m))
            (m.compare_func key i) i (ranked key i) on_left on_right in
        (found.0, entered ∙ found.1, found.2)

    pub place-PlacedBy :
        (fuel : ℕ) (l : Tree) (p : Ptr) (d : Color) (i j : ℕ) (t : Tree)
        → size l + size t < fuel
        → IsSearch rank (branch l p d i j t)
        → Fresh [] (branch l p d i j t)
        → IsSubtree m [] (branch l p d i j t)
        → PlacedBy (branch l p d i j t) (size (branch l p d i j t)) (place fuel p n m)
    place-PlacedBy zero l p d i j t le sorted fresh s = absurd (omega arith)
    place-PlacedBy (suc fuel) l p d i j t le sorted fresh s =
        let whole = branch l p d i j t in
        let on_left = λ (o : rank key ≤ rank i).
          more_room whole (suc zero + size l) (size whole) _ (omega arith) (
            step-PlacedBy fuel left p d i j t [] l (omega arith)
              (Splits-left rank key value p d i j t [] o (Splits-nil rank key value)) (sorted.2.0)
              (λ q. let f = fresh q in omega arith) (join-IsSubtree m left p d i j t [] l s)) in
        let on_right = λ (o : rank i < rank key).
          more_room whole (suc zero + size t) (size whole) _ (omega arith) (
            step-PlacedBy fuel right p d i j l [] t (omega arith)
              (Splits-right rank key value p d i j l [] o (sorted.0) (Splits-nil rank key value))
              (sorted.2.1) (λ q. let f = fresh q in omega arith)
              (join-IsSubtree m right p d i j l [] t s)) in
        let found =
          choose (λ x. PlacedBy whole (size whole) (step fuel x p m)) (m.compare_func key i) i
            (ranked key i) on_left on_right in
        (found.0, place-step fuel p i (ap (λ x. x.key) (s.below.1)) ∙ found.1, found.2)
