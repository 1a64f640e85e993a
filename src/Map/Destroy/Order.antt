-- ===== src/Map/Destroy/Order.antt =====
-- The order in which core_rtl_map_destroy frees the nodes.
use mathlib.Core.List.{append_assoc}
use sandnix.Prelude.{
  ℕ, zero, suc, ◌+◌, ◌-◌, ◌*◌, ◌≤◌, ◌≡◌, ◌≢◌, refl, sym, ap, ◌∙◌, true, false, ◌==◌, some, List, [],
  ◌∷◌, ◌++◌, arith, subst,
}
use sandnix.Nodes.{Ptr, null}
use sandnix.Map.{Color, Side, left, right, Map, with_child, set_child}
use sandnix.Map.Destroy.{drop_leaf, destroy_from, destroy}
use sandnix.Map.Tree.{
  Tree, leaf, branch, top, size, hit, hit_self, count, IsTree-update, update_hit,
}
use sandnix.Map.Context.{
  Frame, frame, up, IsAround-update, IsSubtree, IsSubtree-join, join-IsSubtree,
}
use sandnix.Map.Rotate.Replace.{with_inner}

-- The nodes of a tree as they are freed, the last first.
abbrev pub freed_of : Tree → List Ptr
freed_of leaf = []
freed_of (branch l a c k v r) = a ∷ (freed_of r ++ freed_of l)

nonzero_test : (n : ℕ) → n ≢ 0 → (n == 0) ≡ false
nonzero_test n e = ground arith

-- A node that is not in a tree is not its root.
apart_root : (a : Ptr) (r : Tree) → a ≢ 0 → count a r ≡ 0 → (a == top r) ≡ false
apart_root a leaf ne e = ground arith
apart_root a (branch l p c k v r) ne e = differ (omega arith)
  where
    differ : hit a p ≡ 0 → (a == p) ≡ false
    differ x = ground arith

-- A node without children goes, and its parent's child is NULL.
module _ (m : Map) (a : Ptr) (c : Color) (k v : ℕ) where
  abbrev bare : Tree
  bare = branch leaf a c k v leaf

  cut :
      (side : Side) (g : Ptr) (c' : Color) (k' v' : ℕ) (r : Tree) (fs : List Frame)
      → IsSubtree m (frame side g c' k' v' r ∷ fs) bare
      → IsSubtree
          (record (set_child side g null m) { freed = a ∷ m.freed })
          (frame side g c' k' v' r ∷ fs)
          leaf
  cut side g c' k' v' r fs s =
      let d = s.distinct g in
      let one = hit_self g in
      record {
        root = s.root;
        around = (
          s.around.0,
          update_hit m.nodes g _
              ∙ ap (with_child side null) (s.around.1)
              ∙ with_inner side null _ _ _ c' k' v',
          IsTree-update m.nodes g g _ r (omega arith) (s.around.2),
          IsAround-update m.nodes g g _ fs (omega arith) (s.around.3),
        );
        below = tt;
        distinct = λ p. let e = s.distinct p in omega arith;
      }

  drop_leaf-cut :
      (side : Side) (g : Ptr) (c' : Color) (k' v' : ℕ) (r : Tree) (fs : List Frame)
      → IsSubtree m (frame side g c' k' v' r ∷ fs) bare
      → drop_leaf a m ≡ record (set_child side g null m) { freed = a ∷ m.freed }
  unfolding drop_leaf
  drop_leaf-cut left g c' k' v' r fs s =
      let at : (m.nodes a).parent ≡ g = ap (λ n. n.parent) (s.below.1) in
      let ng = nonzero_test g (s.around.0) in
      let here : (a == (m.nodes g).lchild) ≡ true =
        ap (λ n. a == n.lchild) (s.around.1) ∙ (let e : (a == a) ≡ true = ground arith in e) in
      rw (at, ng, here) refl
  drop_leaf-cut right g c' k' v' r fs s =
      let at : (m.nodes a).parent ≡ g = ap (λ n. n.parent) (s.below.1) in
      let ng = nonzero_test g (s.around.0) in
      let d = s.distinct a in
      let one = hit_self a in
      let there : (a == (m.nodes g).lchild) ≡ false =
        ap (λ n. a == n.lchild) (s.around.1) ∙ apart_root a r (s.below.0) (omega arith) in
      rw (at, ng, there) refl

-- The rounds of the loop.
module _ (m : Map) (fs : List Frame) (a : Ptr) (c : Color) (k v : ℕ) (fuel : ℕ) where
  round_bare :
      IsSubtree m fs (branch leaf a c k v leaf)
      → destroy_from (suc fuel) a m ≡ destroy_from fuel (up fs) (drop_leaf a m)
  unfolding destroy_from
  round_bare s = let na = nonzero_test a (s.below.0) in rw (na, s.below.1) refl

  round_right :
      (r : Tree)
      → top r ≢ 0
      → IsSubtree m fs (branch leaf a c k v r)
      → destroy_from (suc fuel) a m ≡ destroy_from fuel (top r) m
  unfolding destroy_from
  round_right r ne s =
      let na = nonzero_test a (s.below.0) in
      let nr = nonzero_test (top r) ne in rw (na, s.below.1, nr) refl

  round_left :
      (l r : Tree)
      → top l ≢ 0
      → IsSubtree m fs (branch l a c k v r)
      → destroy_from (suc fuel) a m ≡ destroy_from fuel (top l) m
  unfolding destroy_from
  round_left l r ne s =
      let na = nonzero_test a (s.below.0) in
      let nl = nonzero_test (top l) ne in rw (na, s.below.1, nl) refl

-- The loop gets from one node to another and frees nodes meanwhile.
abbrev Goes : (fuel rest : ℕ) (p q : Ptr) → Map → List Frame → Tree → List Ptr → Type 0
Goes fuel rest p q m fs t freed =
    (m' : Map) × ((destroy_from fuel p m ≡ destroy_from rest q m')
      × IsSubtree m' fs t
      × (m'.freed ≡ freed ++ m.freed))

-- A subtree with a parent goes in `2 * size - 1` rounds.
abbrev Down : Tree → Type 0
Down t =
    (f : Frame) (fs : List Frame) (m : Map) (fuel rest : ℕ)
    → fuel + 1 ≡ 2 * size t + rest
    → IsSubtree m (f ∷ fs) t
    → Goes fuel rest (top t) (up (f ∷ fs)) m (f ∷ fs) leaf (freed_of t)

module _ (a : Ptr) (c : Color) (k v : ℕ) (fs : List Frame) where
  clear_right :
      (m : Map) (r : Tree) (fuel rest : ℕ)
      → (top r ≢ 0 → Down r)
      → fuel ≡ 2 * size r + rest
      → IsSubtree m fs (branch leaf a c k v r)
      → Goes fuel rest a a m fs (branch leaf a c k v leaf) (freed_of r)
  clear_right m leaf fuel rest down e s = (m, (ap (λ n. destroy_from n a m) (omega arith), s, refl))
  clear_right m (branch l p d i j r) zero rest down e s = absurd (omega arith)
  clear_right m (branch l p d i j r) (suc fuel) rest down e s =
      let t = branch l p d i j r in
      let inner = join-IsSubtree m right a c k v leaf fs t s in
      let ne = inner.below.0 in
      let gone = down ne (frame right a c k v leaf) fs m fuel rest (omega arith) inner in
      (
        gone.0,
        (
          round_right m fs a c k v fuel t ne s ∙ gone.1.0,
          IsSubtree-join (gone.0) right a c k v leaf fs leaf (gone.1.1),
          gone.1.2,
        ),
      )

  clear_left :
      (m : Map) (l r : Tree) (fuel rest : ℕ)
      → (top l ≢ 0 → Down l)
      → fuel ≡ 2 * size l + rest
      → IsSubtree m fs (branch l a c k v r)
      → Goes fuel rest a a m fs (branch leaf a c k v r) (freed_of l)
  clear_left m leaf r fuel rest down e s =
      (m, (ap (λ n. destroy_from n a m) (omega arith), s, refl))
  clear_left m (branch l p d i j u) r zero rest down e s = absurd (omega arith)
  clear_left m (branch l p d i j u) r (suc fuel) rest down e s =
      let t = branch l p d i j u in
      let inner = join-IsSubtree m left a c k v r fs t s in
      let ne = inner.below.0 in
      let gone = down ne (frame left a c k v r) fs m fuel rest (omega arith) inner in
      (
        gone.0,
        (
          round_left m fs a c k v fuel t r ne s ∙ gone.1.0,
          IsSubtree-join (gone.0) left a c k v r fs leaf (gone.1.1),
          gone.1.2,
        ),
      )

  -- Both subtrees go, and the loop is back at the node.
  clear :
      (m : Map) (l r : Tree) (fuel rest : ℕ)
      → (top l ≢ 0 → Down l)
      → (top r ≢ 0 → Down r)
      → fuel ≡ 2 * size l + 2 * size r + rest
      → IsSubtree m fs (branch l a c k v r)
      → Goes fuel rest a a m fs (branch leaf a c k v leaf) (freed_of r ++ freed_of l)
  clear m l r fuel rest down_l down_r e s =
      let one = clear_left m l r fuel (2 * size r + rest) down_l (omega arith) s in
      let two = clear_right (one.0) r (2 * size r + rest) rest down_r refl (one.1.1) in
      (
        two.0,
        (
          one.1.0 ∙ two.1.0,
          two.1.1,
          two.1.2
              ∙ ap (λ es. freed_of r ++ es) (one.1.2)
              ∙ sym (append_assoc (freed_of r) (freed_of l) m.freed),
        ),
      )

freed_drop : (a : Ptr) (m : Map) → (drop_leaf a m).freed ≡ a ∷ m.freed
unfolding drop_leaf
freed_drop a m = refl

down : (t : Tree) → top t ≢ 0 → Down t
down leaf ne f fs m fuel rest e s = absurd (ne refl)
down (branch l a c k v r) ne (frame side g c' k' v' u) fs m fuel rest e s =
    let above = frame side g c' k' v' u ∷ fs in
    let bared = clear a c k v above m l r fuel (suc rest) (down l) (down r) (omega arith) s in
    let m1 = bared.0 in
    let gone = drop_leaf-cut m1 a c k v side g c' k' v' u fs (bared.1.1) in
    (
      drop_leaf a m1,
      (
        bared.1.0 ∙ round_bare m1 above a c k v rest (bared.1.1),
        subst (λ x. IsSubtree x above leaf) (sym gone)
            (cut m1 a c k v side g c' k' v' u fs (bared.1.1)),
        freed_drop a m1 ∙ ap (λ es. a ∷ es) (bared.1.2),
      ),
    )

stopped : (fuel : ℕ) (m : Map) → destroy_from (suc fuel) null m ≡ some m
unfolding destroy_from
stopped fuel m = refl

abbrev pub times : Ptr → List Ptr → ℕ
times p [] = 0
times p (q ∷ qs) = hit p q + times p qs

times-append : (p : Ptr) (qs rs : List Ptr) → times p (qs ++ rs) ≡ times p qs + times p rs
times-append p [] rs = omega arith
times-append p (q ∷ qs) rs = let e = times-append p qs rs in omega arith

times-freed_of : (p : Ptr) (t : Tree) → times p (freed_of t) ≡ count p t
times-freed_of p leaf = refl
times-freed_of p (branch l a c k v r) =
    let e = times-append p (freed_of r) (freed_of l) in
    let el = times-freed_of p l in let er = times-freed_of p r in omega arith

destroyed :
    (m : Map) (t : Tree) (fuel : ℕ)
    → IsSubtree m [] t
    → 2 * size t ≤ fuel
    → (m' : Map) × (destroy fuel m ≡ some m') × (m'.freed ≡ freed_of t ++ m.freed)
unfolding destroy
destroyed m leaf fuel s le = (m, rw s.root refl, refl)
destroyed m (branch l a c k v r) fuel s le =
    let root : (m.tree == null) ≡ false = ap (λ q. q == null) s.root ∙ nonzero_test a (s.below.0) in
    let rest = fuel - 2 * size (branch l a c k v r) in
    let bared = clear a c k v [] m l r fuel (suc (suc rest)) (down l) (down r) (omega arith) s in
    let m1 = bared.0 in
    let here : destroy_from fuel m.tree m ≡ some (drop_leaf a m1) =
      ap (λ q. destroy_from fuel q m) s.root
      ∙ bared.1.0
      ∙ round_bare m1 [] a c k v (suc rest) (bared.1.1)
      ∙ stopped rest (drop_leaf a m1) in
    (drop_leaf a m1, rw root here, freed_drop a m1 ∙ ap (λ es. a ∷ es) (bared.1.2))

-- With two rounds for each node, `core_rtl_map_destroy` of a tree ends; it frees the nodes of the
-- tree, a node behind all those below it, and every node one time more than before.
pub destroy-freed_of :
    (m : Map) (t : Tree) (fuel : ℕ)
    → IsSubtree m [] t
    → 2 * size t ≤ fuel
    → (m' : Map) × (destroy fuel m ≡ some m')
      × (m'.freed ≡ freed_of t ++ m.freed)
      × ((p : Ptr) → times p m'.freed ≡ count p t + times p m.freed)
destroy-freed_of m t fuel s le =
    let done = destroyed m t fuel s le in
    (
      done.0,
      done.1,
      done.2,
      λ p.
          ap (times p) (done.2)
          ∙ times-append p (freed_of t) m.freed
          ∙ ap (λ n. n + times p m.freed) (times-freed_of p t),
    )
