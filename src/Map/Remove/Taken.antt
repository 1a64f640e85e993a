-- ===== src/Map/Remove/Taken.antt =====
-- remove_node on a node anywhere in the tree.
use mathlib.Core.List.{append-nil, append_assoc}
use sandnix.Prelude.{
  ℕ, suc, ◌+◌, ◌≤◌, ◌<◌, ◌≡◌, ◌≢◌, refl, sym, ap, ◌∙◌, some, List, [], ◌∷◌, ◌++◌, arith, length,
  length-append, ◌⊎◌, inl, inr,
}
use sandnix.Nodes.{Ptr}
use sandnix.Map.{Color, left, Map}
use sandnix.Map.Remove.{pick, swap_items, unlink, remove_node}
use sandnix.Map.Tree.{Tree, leaf, branch, top, entries, size, hit, count}
use sandnix.Map.Context.{Frame, frame, plug, count_in, IsSubtree}
use sandnix.Map.Balance.{IsRedBlack, Around, Around-plug}
use sandnix.Map.Insert.Order.{in_front, behind, entries-in_front}
use sandnix.Map.Insert.TurnGrand.{nonzero_test}
use sandnix.Map.Remove.Unlink.{heir, unlink-Rebalanced}
use sandnix.Map.Remove.Last.{plug-append, count-plug, length_size, Last, last_of}
use sandnix.Map.Remove.Pick.{above_last, swap_items-IsSubtree, swap_items-Around}

-- The map is a red-black tree without one of the nodes, and with these entries.
pub record Taken (old : Tree) (es : List (ℕ × ℕ)) (q : Ptr) (m : Map) : Type 0 where
  pub tree : Tree
  pub whole : IsSubtree m [] tree
  pub red_black : IsRedBlack tree
  pub list : entries tree ≡ es
  pub nodes : (x : Ptr) → count x tree + hit x q ≡ count x old

entries-heir : (l r : Tree) → (l ≡ leaf) ⊎ (r ≡ leaf) → entries (heir l r) ≡ entries l ++ entries r
entries-heir leaf r one = refl
entries-heir (branch l a c k v u) r (inl e) = absurd (no_leaf (ap size e))
  where
    no_leaf : suc (size l + size u) ≡ 0 → ⊥
    no_leaf e = omega arith
entries-heir (branch l a c k v u) r (inr e) =
    sym (append-nil (entries (branch l a c k v u)))
    ∙ ap (λ r. entries (branch l a c k v u) ++ entries r) (sym e)

count-heir-leaf :
    (x : Ptr) (l r : Tree) → (l ≡ leaf) ⊎ (r ≡ leaf) → count x (heir l r) ≡ count x l + count x r
count-heir-leaf x leaf r one = omega arith
count-heir-leaf x (branch l a c k v u) r (inl e) = absurd (no_leaf (ap size e))
  where
    no_leaf : suc (size l + size u) ≡ 0 → ⊥
    no_leaf e = omega arith
count-heir-leaf x (branch l a c k v u) r (inr e) = let f = ap (count x) e in omega arith

pub between : (xs ls rs ys : List (ℕ × ℕ)) → xs ++ ((ls ++ rs) ++ ys) ≡ (xs ++ ls) ++ (rs ++ ys)
between xs ls rs ys =
    ap (λ es. xs ++ es) (append_assoc ls rs ys) ∙ sym (append_assoc xs ls (rs ++ ys))

module _ (m : Map) (fuel : ℕ) (fs : List Frame) (l : Tree) (p : Ptr) (c : Color) (k v : ℕ)
    (r : Tree) where
  abbrev pub whole_tree : Tree
  whole_tree = plug fs (branch l p c k v r)

  -- The entries but that of the node.
  abbrev pub others : List (ℕ × ℕ)
  others = (in_front fs ++ entries l) ++ (entries r ++ behind fs)

  room_above : size whole_tree < fuel → suc (suc (length fs)) ≤ fuel
  room_above lt = let e = length_size fs (branch l p c k v r) in omega arith

  around : IsRedBlack whole_tree → Around fs (branch l p c k v r)
  around rb = Around-plug (rb.1.0) fs (branch l p c k v r) (rb.1.1) (rb.0)

  single-Taken :
      IsSubtree m fs (branch l p c k v r)
      → IsRedBlack whole_tree
      → (l ≡ leaf) ⊎ (r ≡ leaf)
      → size whole_tree < fuel
      → (m' : Map) × ((unlink fuel (some (p, m)) ≡ some (p, m')) × Taken whole_tree others p m')
  single-Taken s rb one lt =
      let last = unlink-Rebalanced fuel m p k v c fs l r s (around rb) one (room_above lt) in
      let done = last.1.1 in
      (
        last.0,
        (
          last.1.0,
          record {
            tree = done.shape;
            whole = done.whole;
            red_black = done.red_black;
            list =
                done.same.list
                ∙ entries-in_front fs (heir l r)
                ∙ ap (λ es. in_front fs ++ (es ++ behind fs)) (entries-heir l r one)
                ∙ between (in_front fs) (entries l) (entries r) (behind fs);
            nodes = λ x.
                let a = done.same.nodes x in
                let b = count-plug x fs (heir l r) in
                let d = count-plug x fs (branch l p c k v r) in
                let e = count-heir-leaf x l r one in omega arith;
          },
        ),
      )

  module _ (d : Last l) where
    count-above_last :
        (x : Ptr)
        → count_in x (above_last m fs l p c k v r d) + count x d.inner + hit x d.at
          ≡ count_in x fs + count x l + hit x p + count x r
    count-above_last x =
        let gs = d.frames in
        let hole = branch d.inner d.at d.color d.key d.value leaf in
        let a = count-plug x (above_last m fs l p c k v r d) hole in
        let b = ap (count x) (plug-append (frame left p c d.key d.value r ∷ fs) gs hole) in
        let e = count-plug x fs (branch (plug gs hole) p c d.key d.value r) in
        let f = ap (count x) d.shape in omega arith

    entries-last :
        (h : Tree)
        → entries h ≡ entries d.inner
        → entries (plug d.frames h) ++ (d.key, d.value) ∷ entries r ≡ entries l ++ entries r
    entries-last h e =
        ap (λ es. es ++ (d.key, d.value) ∷ entries r)
          (entries-in_front d.frames h ∙ ap (λ es. f ++ (es ++ behind d.frames)) e ∙ no_more a)
        ∙ append_assoc f a ((d.key, d.value) ∷ entries r)
        ∙ ap (λ es. f ++ es) (sym (append_assoc a ((d.key, d.value) ∷ []) (entries r)))
        ∙ sym (append_assoc f (a ++ (d.key, d.value) ∷ []) (entries r))
        ∙ ap (λ es. es ++ entries r)
            (sym (no_more (a ++ (d.key, d.value) ∷ []))
              ∙ sym (entries-in_front d.frames (branch d.inner d.at d.color d.key d.value leaf))
              ∙ ap entries (sym d.shape))
      where
        f : List (ℕ × ℕ)
        f = in_front d.frames

        a : List (ℕ × ℕ)
        a = entries d.inner

        no_more :
            (es : List (ℕ × ℕ))
            → in_front d.frames ++ (es ++ behind d.frames) ≡ in_front d.frames ++ es
        no_more es =
            ap (λ bs. in_front d.frames ++ (es ++ bs)) d.nothing_behind
            ∙ ap (λ es. in_front d.frames ++ es) (append-nil es)

    entries-above_last :
        (h : Tree)
        → entries h ≡ entries d.inner
        → entries (plug (above_last m fs l p c k v r d) h) ≡ others
    entries-above_last h e =
        ap entries (plug-append (frame left p c d.key d.value r ∷ fs) d.frames h)
        ∙ entries-in_front fs (branch (plug d.frames h) p c d.key d.value r)
        ∙ ap (λ es. in_front fs ++ (es ++ behind fs)) (entries-last h e)
        ∙ between (in_front fs) (entries l) (entries r) (behind fs)

    length-above_last : length (above_last m fs l p c k v r d) ≡ length d.frames + suc (length fs)
    length-above_last = length-append d.frames (frame left p c d.key d.value r ∷ fs)

    -- With two children, the last node on the left is taken.
    double-Taken :
        IsSubtree m fs (branch l p c k v r)
        → IsRedBlack whole_tree
        → top r ≢ 0
        → size whole_tree < fuel
        → (m' : Map) × ((unlink fuel (some (d.at, swap_items p d.at m)) ≡ some (d.at, m'))
            × Taken whole_tree others d.at m')
    double-Taken s rb ne lt =
        let high = above_last m fs l p c k v r d in
        let h = heir d.inner leaf in
        let last =
          unlink-Rebalanced fuel (swap_items p d.at m) d.at k v d.color high d.inner leaf
            (swap_items-IsSubtree m fs l p c k v r d s)
            (swap_items-Around m fs l p c k v r d (around rb)) (inr refl) room in
        let done = last.1.1 in
        (
          last.0,
          (
            last.1.0,
            record {
              tree = done.shape;
              whole = done.whole;
              red_black = done.red_black;
              list =
                  done.same.list
                  ∙ entries-above_last h
                      (entries-heir d.inner leaf (inr refl) ∙ append-nil (entries d.inner));
              nodes = λ x.
                  let a = done.same.nodes x in
                  let b = count-plug x high h in
                  let e = count-above_last x in
                  let f = count-heir-leaf x d.inner leaf (inr refl) in
                  let g = count-plug x fs (branch l p c k v r) in omega arith;
            },
          ),
        )
      where
        has_node : (r : Tree) → top r ≢ 0 → 1 ≤ size r
        has_node leaf ne = absurd (ne refl)
        has_node (branch l a c k v r) ne = omega arith

        room : suc (suc (length (above_last m fs l p c k v r d))) ≤ fuel
        room =
            let a = length_size d.frames (branch d.inner d.at d.color d.key d.value leaf) in
            let b = ap size d.shape in
            let e = length_size fs (branch l p c k v r) in
            let f = length-above_last in let g = has_node r ne in omega arith

-- On a node anywhere in a red-black tree, and with fuel for the nodes, remove_node returns a node to
-- be freed; the map is again a red-black tree, of the former nodes without that one, and its
-- entries are the former ones in their order, without that of the node it was given.
pub remove_node-Taken :
    (m : Map) (fuel : ℕ) (fs : List Frame) (l : Tree) (p : Ptr) (c : Color) (k v : ℕ) (r : Tree)
    → IsSubtree m fs (branch l p c k v r)
    → IsRedBlack (plug fs (branch l p c k v r))
    → size (plug fs (branch l p c k v r)) < fuel
    → (q : Ptr) × ((m' : Map) × ((remove_node fuel p m ≡ some (q, m'))
          × Taken
              (plug fs (branch l p c k v r))
              ((in_front fs ++ entries l) ++ (entries r ++ behind fs))
              q
              m'))
unfolding remove_node pick
remove_node-Taken m fuel fs leaf p c k v r s rb lt =
    let last = single-Taken m fuel fs leaf p c k v r s rb (inl refl) lt in
    (p, (last.0, (rw (s.below.1) (last.1.0), last.1.1)))
remove_node-Taken m fuel fs (branch x a e i j y) p c k v leaf s rb lt =
    let na = nonzero_test a (s.below.2.0) in
    let last = single-Taken m fuel fs (branch x a e i j y) p c k v leaf s rb (inr refl) lt in
    (p, (last.0, (rw (s.below.1, na) (last.1.0), last.1.1)))
remove_node-Taken m fuel fs (branch x a e i j y) p c k v (branch x' a' e' i' j' y') s rb lt =
    let l = branch x a e i j y in
    let r = branch x' a' e' i' j' y' in
    let na = nonzero_test a (s.below.2.0) in
    let na' = nonzero_test a' (s.below.3.0) in
    let size_l : size l ≤ fuel = let f = length_size fs (branch l p c k v r) in omega arith in
    let found = last_of fuel m p l (s.below.2.0) size_l (s.below.2) in
    let d = found.0 in
    let last = double-Taken m fuel fs l p c k v r d s rb (s.below.3.0) lt in
    (d.at, (last.0, (rw (s.below.1, na, na', found.1) (last.1.0), last.1.1)))
