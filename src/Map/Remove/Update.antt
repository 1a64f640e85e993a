-- ===== src/Map/Remove/Update.antt =====
-- core_rtl_map_set on a key that is in the map: the value is replaced, or the node removed.
use sandnix.Prelude.{
  ℕ, ◌<◌, ◌≡◌, refl, sym, ap, ◌∙◌, subst, true, false, ◌==◌, some, List, [], ◌∷◌, ◌++◌,
}
use sandnix.Nodes.{Ptr}
use sandnix.Map.{Color, black, red, Side, left, right, Node, Map, set_node}
use sandnix.Map.Remove.{set_found, removed}
use sandnix.Map.Recolor.{renode-IsSubtree}
use sandnix.Map.Tree.{Tree, branch, join, entries, size}
use sandnix.Map.Context.{Frame, frame, plug, IsSubtree, IsSubtree-plug, plug-IsSubtree}
use sandnix.Map.Balance.{IsBalanced, IsBlackRoot, IsRedBlack}
use sandnix.Map.Lookup.{IsRanked, IsSearch, value_in, value_in-append}
use sandnix.Map.Insert.Order.{in_front, behind, entries-in_front}
use sandnix.Map.Insert.Sorted.{
  AllBelow, IsSorted, IsSearch-IsSorted, IsSorted-IsSearch, append-IsSorted,
}
use sandnix.Map.Insert.TurnGrand.{nonzero_test}
use sandnix.Map.Remove.Taken.{between, remove_node-Taken}
use sandnix.Map.Remove.Pick.{IsBalanced-renode}
use sandnix.Map.Remove.Kept.{remove_node-compare_func}
use sandnix.Map.Remove.Entries.{
  set_entry, set_result, AllBelow-Misses, has_entry-append, remove_entry-append, put_entry-append,
  here,
}
use sandnix.Map.Remove.Values.{set_entry-IsSorted}

-- The map is a red-black search tree, in the order of the rank.
pub record IsStored (m : Map) (rank : ℕ → ℕ) (t : Tree) : Type 0 where
  pub nodes : IsSubtree m [] t
  pub red_black : IsRedBlack t
  pub ordered : IsSearch rank t
  pub ranked : IsRanked m.compare_func rank

-- What a call of core_rtl_map_set that returns with a map makes of the entries.
pub record Assigned (rank : ℕ → ℕ) (key value : ℕ) (t : Tree) (m' : Map) : Type 0 where
  pub tree : Tree
  pub stored : IsStored m' rank tree
  pub list : entries tree ≡ set_entry rank key value (entries t)

-- A subtree with the same colours.
SameColors : Tree → Tree → Type 0
SameColors t u = ((n : ℕ) → IsBalanced n t → IsBalanced n u) × (IsBlackRoot t → IsBlackRoot u)

SameColors-join :
    (side : Side) (a : Ptr) (c : Color) (k v : ℕ) (r t u : Tree)
    → SameColors t u
    → SameColors (join side t a c k v r) (join side u a c k v r)
unfolding SameColors
SameColors-join left a black k v r t u s =
    ((λ n b. (b.0, (b.1.0, s.0 (b.0) (b.1.1), b.1.2))), λ d. d)
SameColors-join right a black k v r t u s =
    ((λ n b. (b.0, (b.1.0, b.1.1, s.0 (b.0) (b.1.2)))), λ d. d)
SameColors-join left a red k v r t u s = ((λ n b. (s.0 n (b.0), b.1, (s.1 (b.2.0), b.2.1))), λ d. d)
SameColors-join right a red k v r t u s =
    ((λ n b. (b.0, s.0 n (b.1), (b.2.0, s.1 (b.2.1)))), λ d. d)

SameColors-plug :
    (fs : List Frame) (t u : Tree) → SameColors t u → SameColors (plug fs t) (plug fs u)
SameColors-plug [] t u s = s
SameColors-plug (frame side a c k v r ∷ fs) t u s =
    SameColors-plug fs (join side t a c k v r) (join side u a c k v r)
      (SameColors-join side a c k v r t u s)

module _ (m : Map) (rank : ℕ → ℕ) (fuel key value : ℕ) (fs : List Frame) (l : Tree) (p : Ptr)
    (c : Color) (k v : ℕ) (r : Tree) where
  abbrev old_tree : Tree
  old_tree = plug fs (branch l p c k v r)

  abbrev entries_before : List (ℕ × ℕ)
  entries_before = in_front fs ++ entries l

  abbrev entries_behind : List (ℕ × ℕ)
  entries_behind = entries r ++ behind fs

  split :
      (v : ℕ) → entries (plug fs (branch l p c k v r)) ≡ entries_before ++ (k, v) ∷ entries_behind
  split v =
      entries-in_front fs (branch l p c k v r)
      ∙ between (in_front fs) (entries l) ((k, v) ∷ entries r) (behind fs)

  below_key : IsSearch rank old_tree → AllBelow rank (rank k) entries_before
  below_key s =
      (append-IsSorted rank entries_before k v entries_behind
        (subst (IsSorted rank) (split v) (IsSearch-IsSorted rank old_tree s))).1

  ordered_now :
      (t : Tree)
      → IsSearch rank old_tree
      → entries t ≡ set_entry rank key value (entries old_tree)
      → IsSearch rank t
  ordered_now t s e = IsSorted-IsSearch rank t (
      subst (IsSorted rank) (sym e)
        (set_entry-IsSorted rank key value (entries old_tree) (IsSearch-IsSorted rank old_tree s)))

  -- The old value is returned.
  old_result :
      IsSearch rank old_tree → rank k ≡ rank key → set_result rank key value (entries old_tree) ≡ v
  old_result s same =
      let found : value_in rank key ((k, v) ∷ entries_behind) ≡ v =
        rw (here rank key k v same) refl in
      ap (set_result rank key value) (split v)
      ∙ rw (has_entry-append rank key k v same entries_before entries_behind) (
          value_in-append rank key entries_before ((k, v) ∷ entries_behind)
            (AllBelow-Misses rank key k v same entries_before (below_key s))
          ∙ found)

  module _ (stored : IsStored m rank old_tree) (same : rank k ≡ rank key) where
    site : IsSubtree m fs (branch l p c k v r)
    site = plug-IsSubtree m fs (branch l p c k v r) stored.nodes

    value_read : (m.nodes p).value ≡ set_result rank key value (entries old_tree)
    value_read = ap (λ n. n.value) (site.below.1) ∙ sym (old_result stored.ordered same)

    pub update-Assigned :
        (value == 0) ≡ false
        → (m' : Map) × ((set_found fuel key value p m
              ≡ some (set_result rank key value (entries old_tree), m'))
            × Assigned rank key value old_tree m')
    unfolding set_found SameColors
    update-Assigned e =
        let np = nonzero_test p (site.below.0) in
        let t' = plug fs (branch l p c k value r) in
        let n' = record (m.nodes p) { value = value } in
        let m' = set_node p n' m in
        let made =
          renode-IsSubtree m fs left l p c c k v k value r n'
            (ap {A = Node} (λ n. record n { value = value }) (site.below.1)) site in
        let colors =
          SameColors-plug fs (branch l p c k v r) (branch l p c k value r)
            ((λ n b. IsBalanced-renode n l p c k v k value r b), λ d. d) in
        let list : entries t' ≡ set_entry rank key value (entries old_tree) =
          split value
          ∙ sym (
              ap (set_entry rank key value) (split v)
              ∙ rw e (
                  put_entry-append rank key k v same value entries_before entries_behind
                    (below_key stored.ordered))) in
        let rb = stored.red_black in
        (
          m',
          (
            rw (e, np) (ap (λ ret. some (ret, m')) value_read),
            record {
              tree = t';
              stored = record {
                nodes = IsSubtree-plug m' fs (branch l p c k value r) made;
                red_black = (colors.1 (rb.0), (rb.1.0, colors.0 (rb.1.0) (rb.1.1)));
                ordered = ordered_now t' stored.ordered list;
                ranked = stored.ranked;
              };
              list = list;
            },
          ),
        )

    pub remove-Assigned :
        (value == 0) ≡ true
        → size old_tree < fuel
        → (m' : Map) × ((set_found fuel key value p m
              ≡ some (set_result rank key value (entries old_tree), m'))
            × Assigned rank key value old_tree m')
    unfolding set_found
    remove-Assigned e lt =
        let np = nonzero_test p (site.below.0) in
        let taken = remove_node-Taken m fuel fs l p c k v r site stored.red_black lt in
        let m' = taken.1.0 in
        let d = taken.1.1.1 in
        let now = record m' { freed = taken.0 ∷ m'.freed } in
        let list : entries d.tree ≡ set_entry rank key value (entries old_tree) =
          d.list
          ∙ sym (
              ap (set_entry rank key value) (split v)
              ∙ rw e (
                  remove_entry-append rank key k v same entries_before entries_behind (
                    AllBelow-Misses rank key k v same entries_before
                      (below_key stored.ordered)))) in
        (
          now,
          (
            rw (e, np)
                (ap (removed (m.nodes p).value) (taken.1.1.0)
                  ∙ ap (λ ret. some (ret, now)) value_read),
            record {
              tree = d.tree;
              stored = record {
                nodes = record {
                  root = d.whole.root;
                  around = tt;
                  below = d.whole.below;
                  distinct = d.whole.distinct;
                };
                red_black = d.red_black;
                ordered = ordered_now d.tree stored.ordered list;
                ranked =
                    subst (λ f. IsRanked f rank)
                      (sym (remove_node-compare_func fuel p (taken.0) m m' (taken.1.1.0)))
                      stored.ranked;
              };
              list = list;
            },
          ),
        )
