-- ===== src/LinkedList/Inserted.antt =====
-- What an insertion is to leave: statements about `core_rtl_list_insert_before` and `_after`.
use sandnix.Prelude.{
  ℕ, ◌≡◌, ◌≢◌, refl, false, Option, some, List, [], ◌∷◌, ◌++◌, map, arith, ◌==◌, if◌then◌else◌,
}
use sandnix.Nodes.{Ptr, null, Store}
use sandnix.LinkedList.{Result}
use sandnix.LinkedList.Ring
use sandnix.LinkedList.Ring.{Ring, IsList, first, last, has, ◌∉◌, Distinct, update_ne, update_self}

-- The nodes outside `ps` are the same in both stores.
pub record SameOutside (ps : List Ptr) (s t : Store) : Type 0 where
  pub live : (q : Ptr) → q ∉ ps → t.live q ≡ s.live q
  pub prev : (q : Ptr) → q ∉ ps → t.prev q ≡ s.prev q
  pub next : (q : Ptr) → q ∉ ps → t.next q ≡ s.next q
  pub item : (q : Ptr) → q ∉ ps → t.item q ≡ s.item q

-- `r` returns `node` and the list with `node`, holding `v`, between `xs` and `ys`; it takes one
-- pointer from the heap and changes no other node.
pub record IsInserted (s : Store) (xs ys : List Ptr) (node : Ptr) (v : ℕ) (rest : List Ptr)
    (r : Option (Result × Store)) : Type 0 where
  pub after : Store
  pub returns : r ≡ some ((node, first (xs ++ node ∷ ys) null), after)
  pub list :
      IsList after
        (first (xs ++ node ∷ ys) null)
        (xs ++ node ∷ ys)
        (map s.item xs ++ v ∷ map s.item ys)
  pub supply : after.supply ≡ rest
  pub outside : SameOutside (xs ++ node ∷ ys) s after

pub first_before :
    (xs : List Ptr) (pos : Ptr) (ys : List Ptr) (node : Ptr)
    → Distinct (xs ++ pos ∷ ys)
    → (if pos == first (xs ++ pos ∷ ys) null then node else first (xs ++ pos ∷ ys) null)
      ≡ first (xs ++ node ∷ pos ∷ ys) null
first_before [] pos ys node d = ground arith
first_before (x ∷ xs) pos ys node d =
    let ne = Ring.not-has-middle xs pos ys x (d.0) in
    let other : (pos == x) ≡ false = ground arith in rw other

pub first_after :
    (xs : List Ptr) (pos : Ptr) (ys : List Ptr) (node : Ptr)
    → first (xs ++ pos ∷ ys) null ≡ first ((xs ++ pos ∷ []) ++ node ∷ ys) null
first_after [] pos ys node = refl
first_after (x ∷ xs) pos ys node = refl

-- The heap returns `node`, which is no node yet.
pub record Gives (s : Store) (node : Ptr) (rest : List Ptr) : Type 0 where
  pub supply : s.supply ≡ node ∷ rest
  pub ne : node ≢ null
  pub unused : s.live node ≡ false
