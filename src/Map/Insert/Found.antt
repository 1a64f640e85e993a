-- ===== src/Map/Insert/Found.antt =====
-- insert_node on a search tree, and what core_rtl_map_get finds afterwards.
use sandnix.Prelude.{
  ℕ, suc, ◌<◌, ◌≡◌, ◌≢◌, refl, sym, ap, ◌∙◌, ◌==◌, ltb, some, List, [], ◌∷◌, arith, subst, length,
  length-append, if◌then◌else◌, Bool-cases, inl, inr,
}
use sandnix.Nodes.{Ptr}
use sandnix.Map.{Map, get}
use sandnix.Map.Insert.{insert_node}
use sandnix.Map.Tree.{Tree, leaf, branch, entries, size, count}
use sandnix.Map.Context.{IsSubtree}
use sandnix.Map.Balance.{IsRedBlack}
use sandnix.Map.Lookup.{IsRanked, IsSearch, Misses, value_in, get-value_in}
use sandnix.Map.Insert.Order.{insert_entry}
use sandnix.Map.Insert.Compare.{insert_node-compare_func}
use sandnix.Map.Insert.Insertion.{insert_node-Holds}
use sandnix.Map.Insert.Sorted.{
  IsSorted, IsSearch-IsSorted, IsSorted-IsSearch, insert_entry-IsSorted, value_in-insert_entry,
}

pub length-entries : (t : Tree) → length (entries t) ≡ size t
length-entries leaf = refl
length-entries (branch l a c k v r) =
    let e = length-append (entries l) ((k, v) ∷ entries r) in
    let el = length-entries l in let er = length-entries r in omega arith

length-insert_entry :
    (rank : ℕ → ℕ) (key value : ℕ) (es : List (ℕ × ℕ))
    → length (insert_entry rank key value es) ≡ suc (length es)
length-insert_entry rank key value [] = refl
length-insert_entry rank key value ((k, v) ∷ es) = elim (Bool-cases (ltb (rank k) (rank key))) [
  | inl e ↦ rw e (ap suc (length-insert_entry rank key value es))
  | inr e ↦ rw e refl
]

-- What the map is after an insertion.
pub record IsInserted (m : Map) (rank : ℕ → ℕ) (key value : ℕ) (t : Tree) (m' : Map) : Type 0 where
  pub tree : Tree
  pub nodes : IsSubtree m' [] tree
  pub red_black : IsRedBlack tree
  pub ordered : IsSearch rank tree
  pub list : entries tree ≡ insert_entry rank key value (entries t)
  pub compare : m'.compare_func ≡ m.compare_func

-- Where the heap supplies a node that is not in the tree, where the comparison orders the keys by a
-- rank, where the nodes are a red-black search tree in which no key has the rank of the new
-- one, and with fuel for the nodes, `insert_node` returns the supplied node, and the map is again a
-- red-black search tree with the same comparison; its entries are the new one, in front of
-- the first of a greater rank, and the others as they were.
pub insert_node-IsInserted :
    (m : Map) (rank : ℕ → ℕ) (fuel key value : ℕ) (n : Ptr) (supply : List Ptr) (t : Tree)
    → IsRanked m.compare_func rank
    → m.supply ≡ n ∷ supply
    → n ≢ 0
    → count n t ≡ 0
    → IsSubtree m [] t
    → IsRedBlack t
    → IsSearch rank t
    → Misses rank key (entries t)
    → size t < fuel
    → (m' : Map) × ((insert_node fuel key value m ≡ some (n, m'))
        × IsInserted m rank key value t m')
insert_node-IsInserted m rank fuel key value n supply t ranked given nn fresh s b sorted absent lt =
    let done =
      insert_node-Holds m rank fuel key value n supply t ranked given nn fresh s b sorted lt in
    let held = done.2 in
    (
      done.0,
      (
        done.1,
        record {
          tree = held.0;
          nodes = held.1.0;
          red_black = held.1.1;
          ordered = IsSorted-IsSearch rank (held.0) (
              subst (IsSorted rank) (sym (held.1.2)) (
                insert_entry-IsSorted rank key value (entries t) absent
                  (IsSearch-IsSorted rank t sorted)));
          list = held.1.2;
          compare = insert_node-compare_func fuel key value n supply n m (done.0) given (done.1);
        },
      ),
    )

-- Where the heap supplies a node that is not in the tree, where the comparison orders the keys by a
-- rank, where the nodes are a red-black search tree in which no key has the rank of the new
-- one, and with fuel for one node more than there are: `insert_node` succeeds, and then
-- `core_rtl_map_get` returns the new value for a key of the rank of the new one, and for every
-- other key what it returned before.
get-insert_node :
    (m : Map) (rank : ℕ → ℕ) (fuel key value : ℕ) (n : Ptr) (supply : List Ptr) (t : Tree)
    → IsRanked m.compare_func rank
    → m.supply ≡ n ∷ supply
    → n ≢ 0
    → count n t ≡ 0
    → IsSubtree m [] t
    → IsRedBlack t
    → IsSearch rank t
    → Misses rank key (entries t)
    → suc (size t) < fuel
    → (m' : Map) × ((insert_node fuel key value m ≡ some (n, m'))
        × ((key' : ℕ)
            → get fuel key' m' ≡ (if rank key == rank key' then some value else get fuel key' m)))
get-insert_node m rank fuel key value n supply t ranked given nn fresh s b sorted absent lt =
    let done =
      insert_node-IsInserted m rank fuel key value n supply t ranked given nn fresh s b sorted
        absent (omega arith) in
    let now = done.1.1 in
    let room : size now.tree < fuel =
      let e = length-entries now.tree in
      let f = ap length now.list ∙ length-insert_entry rank key value (entries t) in
      let g = length-entries t in omega arith in
    (
      done.0,
      (
        done.1.0,
        λ key'.
            get-value_in (done.0) rank fuel key' now.tree
              (subst (λ f. IsRanked f rank) (sym now.compare) ranked) now.nodes.root now.nodes.below
              now.ordered room
            ∙ ap some (
                ap (value_in rank key') now.list
                ∙ value_in-insert_entry rank key value key' (entries t) absent)
            ∙ over key'
                (sym (get-value_in m rank fuel key' t ranked s.root s.below sorted (omega arith))),
      ),
    )
  where
    over :
        (key' : ℕ)
        → some (value_in rank key' (entries t)) ≡ get fuel key' m
        → some (if rank key == rank key' then value else value_in rank key' (entries t))
          ≡ (if rank key == rank key' then some value else get fuel key' m)
    over key' e = elim (Bool-cases (rank key == rank key')) [ inl h ↦ rw h refl | inr h ↦ rw h e ]
