-- ===== src/Map/Tests.antt =====
-- Runs on a map of three nodes: the root at 10, its red children at 20 and 30; 40 is to be had.
use sandnix.Prelude.{
  List, ◌++◌, ℕ, zero, suc, inl, inr, ◌+◌, ◌-◌, ◌≤◌, ◌<◌, ◌≡◌, refl, ◌==◌, leb, some, [], ◌∷◌,
  arith, if◌then◌else◌, Bool-cases,
}
use sandnix.Nodes.{Ptr}
use sandnix.Compare.{pos, minus}
use sandnix.Map.{black, red, left, right, Node, Map, by_sign, get}
use sandnix.Map.Rotate.{rotate}
use sandnix.Map.Rotate.Shape.{rotate-IsSubtree, rotate-other}
use sandnix.Map.Insert.{insert_node}
use sandnix.Map.Insert.Found.{IsInserted, insert_node-IsInserted}
use sandnix.Map.Remove.{remove_node, set}
use sandnix.Map.Remove.Taken.{Taken, remove_node-Taken}
use sandnix.Map.Remove.Update.{IsStored, Assigned}
use sandnix.Map.Remove.Set.{HasFresh, set_refines, get-set}
use sandnix.Map.Height.{get_rounds}
use sandnix.Map.Destroy.{destroy}
use sandnix.Map.Destroy.Order.{destroy-freed_of, times}
use sandnix.Map.Tree.{Tree, leaf, branch, node, count, entries}
use sandnix.Map.Walk.{next_node}
use sandnix.Map.Walk.Next.{next_node-first}
use sandnix.Map.Context.{frame, join-IsSubtree, IsSubtree}
use sandnix.Map.Balance.{IsRedBlack}
use sandnix.Map.Lookup.{IsSearch, Misses, IsRanked}

abbrev nodes_of_three : Ptr → Node
nodes_of_three p =
    if p == 10
    then node left 0 20 30 black 5 50
    else if p == 20
    then node left 10 0 0 red 3 30
    else node left 10 0 0 red 8 80

abbrev three : Map
three = record {
  tree = 10;
  compare_func = minus;
  nodes = nodes_of_three;
  supply = 40 ∷ [];
  freed = [];
}

abbrev low : Tree
low = branch leaf 20 red 3 30 leaf

abbrev high : Tree
high = branch leaf 30 red 8 80 leaf

abbrev shape : Tree
shape = branch low 10 black 5 50 high

abbrev rank : ℕ → ℕ
rank k = k

minus-IsRanked : IsRanked minus rank
minus-IsRanked a b = elim (Bool-cases (leb b a)) [
  | inl e ↦ rw e (above (a - b) refl (ground arith))
  | inr e ↦ rw e (ground arith)
]
  where
    above : (n : ℕ) → a - b ≡ n → b ≤ a → by_sign (pos n) (b < a) (a ≡ b) (a < b)
    above zero e le = omega arith
    above (suc n) e le = omega arith

three-IsSubtree : IsSubtree three [] shape
three-IsSubtree = record {
  root = refl;
  around = tt;
  below = (omega arith, refl, (omega arith, refl, tt, tt), (omega arith, refl, tt, tt));
  distinct = λ p. ground arith;
}

abbrev raised : Tree
raised = branch (branch low 10 black 5 50 leaf) 30 red 8 80 leaf

rotate-IsSubtree_example :
    (m' : Map) × (rotate left 10 three ≡ some (30, m'))
    × IsSubtree m' [] raised
    × (entries raised ≡ entries shape)
rotate-IsSubtree_example =
    rotate-IsSubtree left [] 10 30 low leaf leaf black red 5 50 8 80 three three-IsSubtree

rotate-other_example :
    (m' : Map) × (rotate left 10 three ≡ some (30, m'))
    × ((m'' : Map) × (rotate right 30 m' ≡ some (10, m'')) × IsSubtree m'' [] shape)
rotate-other_example =
    rotate-other left [] 10 30 low leaf leaf black red 5 50 8 80 three three-IsSubtree

abbrev ordered : IsSearch rank shape
ordered = ((tt, omega arith, tt), (tt, omega arith, tt), ((tt, tt, (tt, tt)), (tt, tt, (tt, tt))))

abbrev colored : IsRedBlack shape
colored = (refl, (1, (0, (refl, (refl, refl, (tt, tt)), (refl, refl, (tt, tt))))))

abbrev new_key : Misses rank 4 (entries shape)
new_key = (refl, (refl, (refl, tt)))

insert_node-IsInserted_example :
    (m' : Map) × ((insert_node 4 4 44 three ≡ some (40, m')) × IsInserted three rank 4 44 shape m')
insert_node-IsInserted_example =
    insert_node-IsInserted three rank 4 4 44 40 [] shape minus-IsRanked refl (omega arith) refl
      three-IsSubtree colored ordered new_key (omega arith)

destroy-freed_of_example :
    (m' : Map) × (destroy 6 three ≡ some m')
    × (m'.freed ≡ 10 ∷ 30 ∷ 20 ∷ [])
    × ((p : Ptr) → times p m'.freed ≡ count p shape + 0)
destroy-freed_of_example = destroy-freed_of three shape 6 three-IsSubtree (omega arith)

next_node-first_example :
    (next_node 3 20 three ≡ some 10)
    × ((before : List Ptr) × ((20 ∷ 10 ∷ 30 ∷ []) ≡ before ++ 20 ∷ 10 ∷ 30 ∷ []))
next_node-first_example =
    next_node-first three 3 (frame left 10 black 5 50 high ∷ []) leaf 20 red 3 30 leaf
      (join-IsSubtree three left 10 black 5 50 high [] low three-IsSubtree) (omega arith)
      (omega arith)

-- The root has two children.
remove_node-Taken_example :
    (q : Ptr) × ((m' : Map) × ((remove_node 4 10 three ≡ some (q, m'))
        × Taken shape ((3, 30) ∷ (8, 80) ∷ []) q m'))
remove_node-Taken_example =
    remove_node-Taken three 4 [] low 10 black 5 50 high three-IsSubtree colored (omega arith)

abbrev three-IsStored : IsStored three rank shape
three-IsStored = record {
  nodes = three-IsSubtree;
  red_black = colored;
  ordered = ordered;
  ranked = minus-IsRanked;
}

abbrev three-HasFresh : HasFresh three shape
three-HasFresh = record {
  node = 40;
  rest = [];
  supply_is = refl;
  not_null = omega arith;
  fresh = refl;
}

set_refines_example : (m' : Map) × ((set 4 5 0 three ≡ some (50, m')) × Assigned rank 5 0 shape m')
set_refines_example = set_refines three rank 4 5 0 shape three-IsStored three-HasFresh (omega arith)

get-set_example :
    (ret : ℕ) × ((m' : Map) × ((set 5 4 44 three ≡ some (ret, m'))
        × ((key' : ℕ) → get 5 key' m' ≡ (if 4 == key' then some 44 else get 5 key' three))))
get-set_example = get-set three rank 5 4 44 shape three-IsStored three-HasFresh (omega arith)

get_rounds_example : get 5 8 three ≡ some 80
get_rounds_example =
    get_rounds three rank 2 8 shape minus-IsRanked three-IsSubtree colored ordered (omega arith)
