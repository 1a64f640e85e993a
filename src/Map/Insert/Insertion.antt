-- ===== src/Map/Insert/Insertion.antt =====
-- insert_node as a whole.
use sandnix.Prelude.{
  ℕ, ◌+◌, ◌≤◌, ◌<◌, ◌≡◌, ◌≢◌, ◌⊎◌, inl, inr, refl, sym, ap, ◌∙◌, false, ◌==◌, some, List, [], ◌∷◌,
  arith, subst,
}
use sandnix.Nodes.{Ptr, null}
use sandnix.Map.{Color, black, red, left, Map, set_node, set_color}
use sandnix.Map.Insert.{
  place, new_node, insert_below, insert_allocated, insert_node, root_black, fix_placed, paired,
}
use sandnix.Map.Tree.{Tree, leaf, branch, entries, size, hit, count, IsTree-update, update_hit}
use sandnix.Map.Context.{plug, IsSubtree}
use sandnix.Map.Balance.{IsRedBlack, IsBlackRoot, IsBalanced, Around-plug, root_IsBalanced}
use sandnix.Map.Recolor.{recolor-IsSubtree}
use sandnix.Map.Lookup.{IsRanked, IsSearch}
use sandnix.Map.Insert.Order.{insert_entry, entries-in_front, insert_entry-append, in_front, behind}
use sandnix.Map.Insert.TurnGrand.{nonzero_test}
use sandnix.Map.Insert.Fix.{fix_tree-Fixed}
use sandnix.Map.Insert.Place.{Placed, place-PlacedBy, lone_node, Fresh}

-- The map is a red-black tree with these entries.
abbrev pub Holds : List (ℕ × ℕ) → Map → Type 0
Holds es m = (t : Tree) × (IsSubtree m [] t × IsRedBlack t × (entries t ≡ es))

blackened :
    (m : Map) (n : ℕ) (t : Tree)
    → IsSubtree m [] t
    → IsBalanced n t
    → Holds (entries t) (set_color m.tree black m)
blackened m n leaf s b = (
  leaf,
  (record { root = s.root; around = tt; below = tt; distinct = s.distinct }, (tt, (n, b)), refl),
)
blackened m n (branch l a c k v r) s b =
    let recolored = recolor-IsSubtree m [] left l a c black k v r s in
    (
      branch l a black k v r,
      (
        subst (λ p. IsSubtree (set_color p black m) [] (branch l a black k v r)) (sym s.root)
            recolored,
        (refl, root_IsBalanced n l a c k v r b),
        refl,
      ),
    )

module _ (m : Map) (rank : ℕ → ℕ) (key value : ℕ) (n : Ptr) (nn : n ≢ 0)
    (ranked : IsRanked m.compare_func rank) where
  -- The new node stands between the entries that belong in front of it and those behind.
  entries-Placed :
      (whole : Tree) (room : ℕ) (m' : Map) (placed : Placed rank key value n nn whole room m')
      (c : Color)
      → entries (plug placed.frames (lone_node rank key value n nn c))
        ≡ insert_entry rank key value (entries whole)
  entries-Placed whole room m' placed c =
      let fs = placed.frames in
      entries-in_front fs (lone_node rank key value n nn c)
      ∙ sym (
          insert_entry-append rank key value (in_front fs) (behind fs) placed.splits.less
            placed.splits.not_less)
      ∙ ap (insert_entry rank key value) (sym (entries-in_front fs leaf) ∙ ap entries placed.same)

  insert_below-Holds :
      (fuel : ℕ) (l : Tree) (p : Ptr) (d : Color) (i j : ℕ) (t : Tree)
      → m.nodes n ≡ new_node key value black
      → size (branch l p d i j t) < fuel
      → IsRedBlack (branch l p d i j t)
      → IsSearch rank (branch l p d i j t)
      → Fresh rank key value n nn [] (branch l p d i j t)
      → IsSubtree m [] (branch l p d i j t)
      → (m' : Map) × (insert_below fuel n m ≡ some m')
        × Holds (insert_entry rank key value (entries (branch l p d i j t))) m'
  unfolding insert_below
  insert_below-Holds fuel l p d i j t at lt b sorted fresh s =
      let found =
        place-PlacedBy rank key value n nn m ranked at fuel l p d i j t (omega arith) sorted fresh
          s in
      let placed = found.2 in
      let node_red =
        recolor-IsSubtree (found.0) placed.frames left leaf n black red key value leaf
          placed.subtree in
      let around =
        Around-plug (b.1.0) placed.frames leaf
          (subst (IsBalanced (b.1.0)) (sym placed.same) (b.1.1))
          (subst IsBlackRoot (sym placed.same) (b.0)) in
      let fixed =
        fix_tree-Fixed fuel (around.0) placed.frames (lone_node rank key value n nn red) _
          (let short = placed.depth in omega arith) (around.1.1) (around.1.0, around.1.0, (tt, tt))
          refl nn node_red in
      let black_map = blackened (fixed.0) (fixed.1.4.0) (fixed.1.0) (fixed.1.2) (fixed.1.4.1) in
      let root : insert_below fuel n m ≡ fix_placed fuel n (place fuel p n m) =
        ap (λ q. fix_placed fuel n (place fuel q n m)) s.root in
      (
        set_color (fixed.0).tree black (fixed.0),
        (root ∙ ap (fix_placed fuel n) (found.1) ∙ ap root_black (fixed.1.1)),
        (
          black_map.0,
          (
            black_map.1.0,
            black_map.1.1,
            black_map.1.2 ∙ fixed.1.3 ∙ entries-Placed _ _ (found.0) placed red,
          ),
        ),
      )

-- A number that does not occur stays apart.
fresh_of :
    (n : Ptr) (t : Tree)
    → count n t ≡ 0
    → ((p : Ptr) → count p t ≤ 1)
    → (p : Ptr) → 0 + count p t + hit p n ≤ 1
fresh_of n t absent d p = elim (hit_cases p n) [
  | inl same ↦
      let x : count p t ≡ 0 = ap (λ q. count q t) same ∙ absent in let y = hit_le p n in omega arith
  | inr e ↦ let x = d p in omega arith
]
  where
    hit_cases : (p n : Ptr) → (p ≡ n) ⊎ (hit p n ≡ 0)
    hit_cases p n = ground arith

    hit_le : (p n : Ptr) → hit p n ≤ 1
    hit_le p n = ground arith

-- The entry of a new node is put into the right place, in a tree that is a tree again.
insert_allocated-Holds :
    (m : Map) (rank : ℕ → ℕ) (fuel key value : ℕ) (n : Ptr) (t : Tree)
    → IsRanked m.compare_func rank
    → n ≢ 0
    → m.nodes n ≡ new_node key value black
    → count n t ≡ 0
    → IsSubtree m [] t
    → IsRedBlack t
    → IsSearch rank t
    → size t < fuel
    → (m' : Map) × (insert_allocated fuel n m ≡ some (n, m'))
      × Holds (insert_entry rank key value (entries t)) m'
unfolding insert_allocated
insert_allocated-Holds m rank fuel key value n leaf ranked nn at fresh s b sorted lt = (
  record m { tree = n },
  rw s.root refl,
  (
    branch leaf n black key value leaf,
    (
      record {
        root = refl;
        around = tt;
        below = (nn, at, tt, tt);
        distinct = λ p. let x = fresh_of n leaf refl (λ q. omega arith) p in omega arith;
      },
      (refl, (1, (0, (refl, refl, refl)))),
      refl,
    ),
  ),
)
insert_allocated-Holds m rank fuel key value n (branch l p d i j t) ranked nn at fresh s b sorted
      lt =
    let r : (m.tree == null) ≡ false = ap (λ q. q == null) s.root ∙ nonzero_test p (s.below.0) in
    let below =
      insert_below-Holds m rank key value n nn ranked fuel l p d i j t at lt b sorted
        (fresh_of n (branch l p d i j t) fresh (λ q. let e = s.distinct q in omega arith)) s in
    (below.0, rw r (ap (paired n) (below.1)), below.2)

-- Where the heap supplies a node that is not in the tree, where the comparison orders the keys by a
-- rank and the nodes are a red-black search tree, and with fuel for the nodes, `insert_node`
-- returns that node, and the map is again a red-black tree, with the new entry in front of
-- the first one of no smaller rank and the other entries as they were.
pub insert_node-Holds :
    (m : Map) (rank : ℕ → ℕ) (fuel key value : ℕ) (n : Ptr) (supply : List Ptr) (t : Tree)
    → IsRanked m.compare_func rank
    → m.supply ≡ n ∷ supply
    → n ≢ 0
    → count n t ≡ 0
    → IsSubtree m [] t
    → IsRedBlack t
    → IsSearch rank t
    → size t < fuel
    → (m' : Map) × (insert_node fuel key value m ≡ some (n, m'))
      × Holds (insert_entry rank key value (entries t)) m'
unfolding insert_node
insert_node-Holds m rank fuel key value n supply t ranked given nn fresh s b sorted lt =
    let with_node = set_node n (new_node key value black) (record m { supply = supply }) in
    let same : IsSubtree with_node [] t = record {
      root = s.root;
      around = tt;
      below = IsTree-update m.nodes n null (new_node key value black) t fresh s.below;
      distinct = s.distinct;
    } in
    let done =
      insert_allocated-Holds with_node rank fuel key value n t ranked nn
        (update_hit m.nodes n (new_node key value black)) fresh same b sorted lt in
    (done.0, rw given (done.1), done.2)
