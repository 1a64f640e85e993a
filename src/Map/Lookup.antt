-- ===== src/Map/Lookup.antt =====
-- core_rtl_map_get on a search tree.
use sandnix.Prelude.{
  ℕ, zero, suc, ◌≤◌, ◌<◌, ◌≡◌, ◌≢◌, refl, sym, ap, ◌∙◌, true, false, ◌==◌, some, List, [], ◌∷◌,
  ◌++◌, if◌then◌else◌, arith,
}
use sandnix.Nodes.{Ptr, null}
use sandnix.Compare.{ℤ, pos, negsuc}
use sandnix.Map.{Map, by_sign, find_node, get_node, get, value_of}
use sandnix.Map.Tree.{Tree, leaf, branch, top, entries, size, IsTree}

-- A comparison orders the keys by a rank.
abbrev pub IsRanked : (ℕ → ℕ → ℤ) → (ℕ → ℕ) → Type 0
IsRanked compare rank =
    (a b : ℕ) → by_sign (compare a b) (rank b < rank a) (rank a ≡ rank b) (rank a < rank b)

-- The first value whose key has the rank, or NULL.
abbrev pub value_in : (ℕ → ℕ) → (key : ℕ) → List (ℕ × ℕ) → ℕ
value_in rank key [] = 0
value_in rank key ((k, v) ∷ es) = if rank k == rank key then v else value_in rank key es

abbrev pub Below : (ℕ → ℕ) → ℕ → Tree → Type 0
Below rank b leaf = Unit {0}
Below rank b (branch l a c k v r) = Below rank b l × (rank k < b) × Below rank b r

abbrev pub Above : (ℕ → ℕ) → ℕ → Tree → Type 0
Above rank b leaf = Unit {0}
Above rank b (branch l a c k v r) = Above rank b l × (b < rank k) × Above rank b r

-- Smaller ranks on the left, greater ones on the right.
abbrev pub IsSearch : (ℕ → ℕ) → Tree → Type 0
IsSearch rank leaf = Unit {0}
IsSearch rank (branch l a c k v r) =
    Below rank (rank k) l × Above rank (rank k) r × (IsSearch rank l × IsSearch rank r)

-- No path down has more nodes.
abbrev pub IsWithin : ℕ → Tree → Type 0
IsWithin n leaf = Unit {0}
IsWithin zero (branch l a c k v r) = ⊥
IsWithin (suc n) (branch l a c k v r) = IsWithin n l × IsWithin n r

size-IsWithin : (n : ℕ) (t : Tree) → size t ≤ n → IsWithin n t
size-IsWithin n leaf le = tt
size-IsWithin zero (branch l a c k v r) le = absurd (omega arith)
size-IsWithin (suc n) (branch l a c k v r) le =
    (size-IsWithin n l (omega arith), size-IsWithin n r (omega arith))

abbrev pub Misses : (ℕ → ℕ) → ℕ → List (ℕ × ℕ) → Type 0
Misses rank key [] = Unit {0}
Misses rank key ((k, v) ∷ es) = ((rank k == rank key) ≡ false) × Misses rank key es

module _ (rank : ℕ → ℕ) (key : ℕ) where
  pub Misses-append :
      (xs ys : List (ℕ × ℕ)) → Misses rank key xs → Misses rank key ys → Misses rank key (xs ++ ys)
  Misses-append [] ys d e = e
  Misses-append ((k, v) ∷ xs) ys d e = (d.0, Misses-append xs ys (d.1) e)

  -- Entries that miss the key on either side do not count.
  pub value_in-append :
      (xs ys : List (ℕ × ℕ))
      → Misses rank key xs
      → value_in rank key (xs ++ ys) ≡ value_in rank key ys
  value_in-append [] ys d = refl
  value_in-append ((k, v) ∷ xs) ys d = rw (d.0) (value_in-append xs ys (d.1))

  value_in-Misses : (xs : List (ℕ × ℕ)) → Misses rank key xs → value_in rank key xs ≡ 0
  value_in-Misses [] d = refl
  value_in-Misses ((k, v) ∷ xs) d = rw (d.0) (value_in-Misses xs (d.1))

  append-value_in :
      (xs ys : List (ℕ × ℕ))
      → Misses rank key ys
      → value_in rank key (xs ++ ys) ≡ value_in rank key xs
  append-value_in [] ys d = value_in-Misses ys d
  append-value_in ((k, v) ∷ xs) ys d =
      ap (λ w. if rank k == rank key then v else w) (append-value_in xs ys d)

  pub Below-Misses :
      (b : ℕ) (t : Tree) → b ≤ rank key → Below rank b t → Misses rank key (entries t)
  Below-Misses b leaf le s = tt
  Below-Misses b (branch l a c k v r) le s =
      let lt = s.1 in
      Misses-append (entries l) _ (Below-Misses b l le (s.0))
        (ground arith, Below-Misses b r le (s.2))

  pub Above-Misses :
      (b : ℕ) (t : Tree) → rank key ≤ b → Above rank b t → Misses rank key (entries t)
  Above-Misses b leaf le s = tt
  Above-Misses b (branch l a c k v r) le s =
      let lt = s.1 in
      Misses-append (entries l) _ (Above-Misses b l le (s.0))
        (ground arith, Above-Misses b r le (s.2))

  found : (k v : ℕ) (es : List (ℕ × ℕ)) → rank key ≡ rank k → value_in rank key ((k, v) ∷ es) ≡ v
  found k v es e = let x : (rank k == rank key) ≡ true = ground arith in rw x refl

  passed :
      (k v : ℕ) (es : List (ℕ × ℕ))
      → rank key ≢ rank k
      → value_in rank key ((k, v) ∷ es) ≡ value_in rank key es
  passed k v es e = let x : (rank k == rank key) ≡ false = ground arith in rw x refl

  module _ (m : Map) (ranked : IsRanked m.compare_func rank) where
    -- A round, for each result of the comparison.
    round :
        (order : ℤ) (fuel k v : ℕ) (p : Ptr) (l r : Tree)
        → by_sign order (rank k < rank key) (rank key ≡ rank k) (rank key < rank k)
        → (m.nodes p).value ≡ v
        → (p == null) ≡ false
        → (m.nodes p).lchild ≡ top l
        → (m.nodes p).rchild ≡ top r
        → Below rank (rank k) l
        → Above rank (rank k) r
        → value_of m (find_node fuel (top l) key m) ≡ some (value_in rank key (entries l))
        → value_of m (find_node fuel (top r) key m) ≡ some (value_in rank key (entries r))
        → value_of m (
            by_sign order
              (find_node fuel (by_sign order (m.nodes p).rchild null (m.nodes p).lchild) key m)
              (some p)
              (find_node fuel (by_sign order (m.nodes p).rchild null (m.nodes p).lchild) key m))
          ≡ some (value_in rank key (entries l ++ (k, v) ∷ entries r))
    round (pos zero) fuel k v p l r e val nn el er bl ar in_l in_r = rw nn (
        ap some (
          val
          ∙ sym (found k v (entries r) e)
          ∙ sym (value_in-append (entries l) _ (Below-Misses (rank k) l (omega arith) bl))))
    round (pos (suc i)) fuel k v p l r e val nn el er bl ar in_l in_r =
        ap (λ x. value_of m (find_node fuel x key m)) er
        ∙ in_r
        ∙ ap some (
            sym (passed k v (entries r) (omega arith))
            ∙ sym (value_in-append (entries l) _ (Below-Misses (rank k) l (omega arith) bl)))
    round (negsuc i) fuel k v p l r e val nn el er bl ar in_l in_r =
        let lt : rank key < rank k = e in
        ap (λ x. value_of m (find_node fuel x key m)) el
        ∙ in_l
        ∙ ap some (
            sym (
              append-value_in (entries l) _
                (ground arith, Above-Misses (rank k) r (omega arith) ar)))

    find_node-value_in :
        (fuel q : ℕ) (t : Tree)
        → IsWithin fuel t
        → IsTree m.nodes q t
        → IsSearch rank t
        → value_of m (find_node (suc fuel) (top t) key m) ≡ some (value_in rank key (entries t))
    unfolding find_node
    find_node-value_in fuel q leaf lt i s = refl
    find_node-value_in zero q (branch l a c k v r) lt i s = absurd lt
    find_node-value_in (suc fuel) q (branch l a c k v r) lt i s =
        let nn : (a == null) ≡ false = let ne = i.0 in ground arith in
        let at = i.1 in
        rw (nn, ap (λ x. x.key) at)
          (round (m.compare_func key k) (suc fuel) k v a l r (ranked key k) (ap (λ x. x.value) at)
            nn (ap (λ x. x.lchild) at) (ap (λ x. x.rchild) at) (s.0) (s.1)
            (find_node-value_in fuel a l (lt.0) (i.2) (s.2.0))
            (find_node-value_in fuel a r (lt.1) (i.3) (s.2.1)))

-- The same for a tree of so many levels.
pub get-within :
    (m : Map) (rank : ℕ → ℕ) (fuel key : ℕ) (t : Tree)
    → IsRanked m.compare_func rank
    → m.tree ≡ top t
    → IsTree m.nodes null t
    → IsSearch rank t
    → IsWithin fuel t
    → get (suc fuel) key m ≡ some (value_in rank key (entries t))
unfolding get get_node
get-within m rank fuel key t ranked root i s lt =
    ap (λ x. value_of m (find_node (suc fuel) x key m)) root
    ∙ find_node-value_in rank key m ranked fuel null t lt i s

-- On a search tree, where the comparison orders the keys by a rank, and with fuel for its nodes,
-- `core_rtl_map_get` returns the value of the entry whose key has the rank of the key it gets, or
-- NULL where there is none.
pub get-value_in :
    (m : Map) (rank : ℕ → ℕ) (fuel key : ℕ) (t : Tree)
    → IsRanked m.compare_func rank
    → m.tree ≡ top t
    → IsTree m.nodes null t
    → IsSearch rank t
    → size t < fuel
    → get fuel key m ≡ some (value_in rank key (entries t))
get-value_in m rank zero key t ranked root i s lt = absurd (omega arith)
get-value_in m rank (suc fuel) key t ranked root i s lt =
    get-within m rank fuel key t ranked root i s (size-IsWithin fuel t (omega arith))
