-- ===== src/Map/Walk/Next.antt =====
-- next_node in a tree.
use mathlib.Core.List.{append-nil, append_assoc}
use sandnix.Prelude.{
  ℕ, zero, suc, ◌≤◌, ◌<◌, ◌≡◌, ◌≢◌, refl, sym, ap, ◌∙◌, true, false, ◌==◌, some, List, [], ◌∷◌,
  ◌++◌, length, arith,
}
use sandnix.Nodes.{Ptr, null}
use sandnix.Map.{Color, left, right, Map}
use sandnix.Map.Walk.{last_child, climb, step_node, next_node}
use sandnix.Map.Tree.{Tree, leaf, branch, top, size, IsTree}
use sandnix.Map.Context.{Frame, frame, plug, IsSubtree, IsSubtree-join}
use sandnix.Map.Insert.TurnGrand.{nonzero_test, parent_of_hole}
use sandnix.Map.Insert.TurnParent.{apart_top}

-- The nodes from left to right, and those behind a hole.
abbrev pub addresses : Tree → List Ptr
addresses leaf = []
addresses (branch l a c k v r) = addresses l ++ a ∷ addresses r

abbrev pub addresses_behind : List Frame → List Ptr
addresses_behind [] = []
addresses_behind (frame left a c k v r ∷ fs) = a ∷ (addresses r ++ addresses_behind fs)
addresses_behind (frame right a c k v r ∷ fs) = addresses_behind fs

-- The first of them, or NULL.
abbrev pub first_or_null : List Ptr → Ptr
first_or_null [] = null
first_or_null (p ∷ ps) = p

abbrev addresses_before : List Frame → List Ptr
addresses_before [] = []
addresses_before (frame left a c k v r ∷ fs) = addresses_before fs
addresses_before (frame right a c k v r ∷ fs) = addresses_before fs ++ (addresses r ++ a ∷ [])

addresses-plug :
    (fs : List Frame) (t : Tree)
    → addresses (plug fs t) ≡ addresses_before fs ++ (addresses t ++ addresses_behind fs)
addresses-plug [] t = sym (append-nil (addresses t))
addresses-plug (frame left a c k v r ∷ fs) t =
    addresses-plug fs (branch t a c k v r)
    ∙ ap (λ ps. addresses_before fs ++ ps)
        (append_assoc (addresses t) (a ∷ addresses r) (addresses_behind fs))
addresses-plug (frame right a c k v r ∷ fs) t =
    addresses-plug fs (branch r a c k v t)
    ∙ ap (λ ps. addresses_before fs ++ ps)
        (append_assoc (addresses r) (a ∷ addresses t) (addresses_behind fs)
          ∙ sym (append_assoc (addresses r) (a ∷ []) (addresses t ++ addresses_behind fs)))
    ∙ sym (append_assoc (addresses_before fs) (addresses r ++ a ∷ []) _)

-- A round of the loop to the right.
pub last_child-here :
    (fuel : ℕ) (m : Map) (q : Ptr) (l : Tree) (a : Ptr) (c : Color) (k v : ℕ)
    → IsTree m.nodes q (branch l a c k v leaf)
    → last_child right (suc fuel) a m ≡ some a
unfolding last_child
last_child-here fuel m q l a c k v i = let na = nonzero_test a (i.0) in rw (na, i.1) refl

pub last_child-below :
    (fuel : ℕ) (m : Map) (q : Ptr) (l : Tree) (a : Ptr) (c : Color) (k v : ℕ) (r : Tree)
    → top r ≢ 0
    → IsTree m.nodes q (branch l a c k v r)
    → last_child right (suc fuel) a m ≡ last_child right fuel (top r) m
unfolding last_child
last_child-below fuel m q l a c k v r ne i =
    let na = nonzero_test a (i.0) in let nr = nonzero_test (top r) ne in rw (na, i.1, nr) refl

module _ (m : Map) where
  last_child-first :
      (fuel : ℕ) (q : Ptr) (t : Tree) (es : List Ptr)
      → top t ≢ 0
      → size t ≤ fuel
      → IsTree m.nodes q t
      → last_child left fuel (top t) m ≡ some (first_or_null (addresses t ++ es))
  unfolding last_child
  last_child-first fuel q leaf es ne le i = absurd (ne refl)
  last_child-first zero q (branch l a c k v r) es ne le i = absurd (omega arith)
  last_child-first (suc fuel) q (branch leaf a c k v r) es ne le i =
      let na = nonzero_test a ne in rw (na, i.1) refl
  last_child-first (suc fuel) q (branch (branch l p d x y u) a c k v r) es ne le i =
      let na = nonzero_test a ne in
      let np = nonzero_test p (i.2.0) in
      let rest =
        last_child-first fuel a (branch l p d x y u) (a ∷ (addresses r ++ es)) (i.2.0) (omega arith)
          (i.2) in
      rw (na, i.1, np)
        (rest
          ∙ ap (λ ps. some (first_or_null ps))
              (sym (append_assoc (addresses (branch l p d x y u)) (a ∷ addresses r) es)))

  -- The subtree is the left child above it, or is not.
  is_left :
      (g : Ptr) (c : Color) (k v : ℕ) (r : Tree) (fs : List Frame) (t : Tree)
      → IsSubtree m (frame left g c k v r ∷ fs) t
      → (top t == (m.nodes g).lchild) ≡ true
  is_left g c k v r fs t s =
      ap (λ n. top t == n.lchild) (s.around.1)
      ∙ (let e : (top t == top t) ≡ true = ground arith in e)

  is_right :
      (g : Ptr) (c : Color) (k v : ℕ) (r : Tree) (fs : List Frame) (t : Tree)
      → top t ≢ 0
      → IsSubtree m (frame right g c k v r ∷ fs) t
      → (top t == (m.nodes g).lchild) ≡ false
  is_right g c k v r fs t ne s =
      ap (λ n. top t == n.lchild) (s.around.1)
      ∙ apart_top t r ne (λ p. let d = s.distinct p in omega arith)

  climb-first :
      (fuel : ℕ) (fs : List Frame) (t : Tree)
      → top t ≢ 0
      → length fs < fuel
      → IsSubtree m fs t
      → climb left fuel (top t) m ≡ some (first_or_null (addresses_behind fs))
  unfolding climb
  climb-first zero fs t ne lt s = absurd (omega arith)
  climb-first (suc fuel) [] t ne lt s =
      let at = parent_of_hole m [] t ne s in let nt = nonzero_test (top t) ne in rw (nt, at) refl
  climb-first (suc fuel) (frame left g c k v r ∷ fs) t ne lt s =
      let at = parent_of_hole m (frame left g c k v r ∷ fs) t ne s in
      let nt = nonzero_test (top t) ne in
      let ng = nonzero_test g (s.around.0) in
      let here = is_left g c k v r fs t s in rw (nt, at, ng, here) refl
  climb-first (suc fuel) (frame right g c k v r ∷ fs) t ne lt s =
      let at = parent_of_hole m (frame right g c k v r ∷ fs) t ne s in
      let nt = nonzero_test (top t) ne in
      let ng = nonzero_test g (s.around.0) in
      let there = is_right g c k v r fs t ne s in
      let rest =
        climb-first fuel fs (branch r g c k v t) (s.around.0) (omega arith)
          (IsSubtree-join m right g c k v r fs t s) in
      rw (nt, at, ng, there) rest

  -- Of a node without a right child.
  up-first :
      (fuel : ℕ) (fs : List Frame) (l : Tree) (a : Ptr) (c : Color) (k v : ℕ)
      → length fs < fuel
      → IsSubtree m fs (branch l a c k v leaf)
      → step_node left fuel a m ≡ some (first_or_null (addresses_behind fs))
  unfolding step_node
  up-first fuel [] l a c k v lt s = let na = nonzero_test a (s.below.0) in rw (na, s.below.1) refl
  up-first fuel (frame left g c' k' v' r' ∷ fs) l a c k v lt s =
      let na = nonzero_test a (s.below.0) in
      let ng = nonzero_test g (s.around.0) in
      let here = is_left g c' k' v' r' fs (branch l a c k v leaf) s in
      rw (na, s.below.1, ng, here) refl
  up-first fuel (frame right g c' k' v' r' ∷ fs) l a c k v lt s =
      let na = nonzero_test a (s.below.0) in
      let ng = nonzero_test g (s.around.0) in
      let there = is_right g c' k' v' r' fs (branch l a c k v leaf) (s.below.0) s in
      rw (na, s.below.1, ng, there)
        (climb-first fuel (frame right g c' k' v' r' ∷ fs) (branch l a c k v leaf) (s.below.0) lt s)

  -- Of one with a right child.
  down-first :
      (fuel : ℕ) (fs : List Frame) (l : Tree) (a : Ptr) (c : Color) (k v : ℕ) (r : Tree)
      → top r ≢ 0
      → size r ≤ fuel
      → IsSubtree m fs (branch l a c k v r)
      → step_node left fuel a m ≡ some (first_or_null (addresses r ++ addresses_behind fs))
  unfolding step_node
  down-first fuel fs l a c k v r ne le s =
      let na = nonzero_test a (s.below.0) in
      let nr = nonzero_test (top r) ne in
      rw (na, s.below.1, nr) (last_child-first fuel a r (addresses_behind fs) ne le (s.below.3))

-- For a node anywhere in the tree, with fuel for its right subtree and for the nodes above it,
-- `next_node` returns the node behind it in the list of all nodes from left to right, or NULL where
-- it is the last.
pub next_node-first :
    (m : Map) (fuel : ℕ) (fs : List Frame) (l : Tree) (a : Ptr) (c : Color) (k v : ℕ) (r : Tree)
    → IsSubtree m fs (branch l a c k v r)
    → size r ≤ fuel
    → length fs < fuel
    → (next_node fuel a m ≡ some (first_or_null (addresses r ++ addresses_behind fs)))
      × ((before : List Ptr) × (addresses (plug fs (branch l a c k v r))
            ≡ before ++ a ∷ (addresses r ++ addresses_behind fs)))
unfolding next_node
next_node-first m fuel fs l a c k v r s le lt =
    (go r s le, (addresses_before fs ++ addresses l, split))
  where
    go :
        (r : Tree)
        → IsSubtree m fs (branch l a c k v r)
        → size r ≤ fuel
        → step_node left fuel a m ≡ some (first_or_null (addresses r ++ addresses_behind fs))
    go leaf s le = up-first m fuel fs l a c k v lt s
    go (branch l' p d x y u) s le =
        down-first m fuel fs l a c k v (branch l' p d x y u) (s.below.3.0) le s

    split :
        addresses (plug fs (branch l a c k v r))
        ≡ (addresses_before fs ++ addresses l) ++ a ∷ (addresses r ++ addresses_behind fs)
    split =
        addresses-plug fs (branch l a c k v r)
        ∙ ap (λ ps. addresses_before fs ++ ps)
            (append_assoc (addresses l) (a ∷ addresses r) (addresses_behind fs))
        ∙ sym (append_assoc (addresses_before fs) (addresses l) _)
