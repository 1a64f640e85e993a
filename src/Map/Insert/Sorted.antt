-- ===== src/Map/Insert/Sorted.antt =====
-- Search trees by their entries, and a new entry among them.
use sandnix.Prelude.{
  ℕ, ◌≤◌, ◌<◌, ◌≡◌, ◌⊎◌, refl, true, false, ◌==◌, ltb, List, [], ◌∷◌, ◌++◌, arith, if◌then◌else◌,
  Bool-cases, inl, inr,
}
use sandnix.Map.Tree.{Tree, leaf, branch, entries}
use sandnix.Map.Lookup.{Below, Above, IsSearch, Misses, value_in}
use sandnix.Map.Insert.Order.{insert_entry}

module _ (rank : ℕ → ℕ) where
  abbrev pub AllBelow : ℕ → List (ℕ × ℕ) → Type 0
  AllBelow b [] = Unit {0}
  AllBelow b ((k, v) ∷ es) = (rank k < b) × AllBelow b es

  abbrev pub AllAbove : ℕ → List (ℕ × ℕ) → Type 0
  AllAbove b [] = Unit {0}
  AllAbove b ((k, v) ∷ es) = (b < rank k) × AllAbove b es

  abbrev pub IsSorted : List (ℕ × ℕ) → Type 0
  IsSorted [] = Unit {0}
  IsSorted ((k, v) ∷ es) = AllAbove (rank k) es × IsSorted es

  AllAbove-append :
      (b : ℕ) (xs ys : List (ℕ × ℕ)) → AllAbove b xs → AllAbove b ys → AllAbove b (xs ++ ys)
  AllAbove-append b [] ys d e = e
  AllAbove-append b ((k, v) ∷ xs) ys d e = (d.0, AllAbove-append b xs ys (d.1) e)

  AllBelow-append :
      (b : ℕ) (xs ys : List (ℕ × ℕ)) → AllBelow b xs → AllBelow b ys → AllBelow b (xs ++ ys)
  AllBelow-append b [] ys d e = e
  AllBelow-append b ((k, v) ∷ xs) ys d e = (d.0, AllBelow-append b xs ys (d.1) e)

  append-AllAbove :
      (b : ℕ) (xs ys : List (ℕ × ℕ)) → AllAbove b (xs ++ ys) → AllAbove b xs × AllAbove b ys
  append-AllAbove b [] ys d = (tt, d)
  append-AllAbove b ((k, v) ∷ xs) ys d =
      let rest = append-AllAbove b xs ys (d.1) in ((d.0, rest.0), rest.1)

  append-AllBelow :
      (b : ℕ) (xs ys : List (ℕ × ℕ)) → AllBelow b (xs ++ ys) → AllBelow b xs × AllBelow b ys
  append-AllBelow b [] ys d = (tt, d)
  append-AllBelow b ((k, v) ∷ xs) ys d =
      let rest = append-AllBelow b xs ys (d.1) in ((d.0, rest.0), rest.1)

  pub AllAbove-weaken : (b c : ℕ) (es : List (ℕ × ℕ)) → c ≤ b → AllAbove b es → AllAbove c es
  AllAbove-weaken b c [] le d = tt
  AllAbove-weaken b c ((k, v) ∷ es) le d =
      let lt = d.0 in (omega arith, AllAbove-weaken b c es le (d.1))

  -- Two sorted lists around an entry.
  IsSorted-append :
      (xs : List (ℕ × ℕ)) (k v : ℕ) (ys : List (ℕ × ℕ))
      → IsSorted xs
      → AllBelow (rank k) xs
      → AllAbove (rank k) ys
      → IsSorted ys
      → IsSorted (xs ++ (k, v) ∷ ys)
  IsSorted-append [] k v ys sx bx ay sy = (ay, sy)
  IsSorted-append ((i, j) ∷ xs) k v ys sx bx ay sy =
      let lt = bx.0 in
      (
        AllAbove-append (rank i) xs _ (sx.0)
            (lt, AllAbove-weaken (rank k) (rank i) ys (omega arith) ay),
        IsSorted-append xs k v ys (sx.1) (bx.1) ay sy,
      )

  pub append-IsSorted :
      (xs : List (ℕ × ℕ)) (k v : ℕ) (ys : List (ℕ × ℕ))
      → IsSorted (xs ++ (k, v) ∷ ys)
      → IsSorted xs × AllBelow (rank k) xs × (AllAbove (rank k) ys × IsSorted ys)
  append-IsSorted [] k v ys s = (tt, tt, s)
  append-IsSorted ((i, j) ∷ xs) k v ys s =
      let rest = append-IsSorted xs k v ys (s.1) in
      let around = append-AllAbove (rank i) xs _ (s.0) in
      ((around.0, rest.0), (around.1.0, rest.1), rest.2)

  Below-AllBelow : (b : ℕ) (t : Tree) → Below rank b t → AllBelow b (entries t)
  Below-AllBelow b leaf d = tt
  Below-AllBelow b (branch l a c k v r) d =
      AllBelow-append b (entries l) _ (Below-AllBelow b l (d.0)) (d.1, Below-AllBelow b r (d.2))

  Above-AllAbove : (b : ℕ) (t : Tree) → Above rank b t → AllAbove b (entries t)
  Above-AllAbove b leaf d = tt
  Above-AllAbove b (branch l a c k v r) d =
      AllAbove-append b (entries l) _ (Above-AllAbove b l (d.0)) (d.1, Above-AllAbove b r (d.2))

  AllBelow-Below : (b : ℕ) (t : Tree) → AllBelow b (entries t) → Below rank b t
  AllBelow-Below b leaf d = tt
  AllBelow-Below b (branch l a c k v r) d =
      let parts = append-AllBelow b (entries l) _ d in
      (AllBelow-Below b l (parts.0), parts.1.0, AllBelow-Below b r (parts.1.1))

  AllAbove-Above : (b : ℕ) (t : Tree) → AllAbove b (entries t) → Above rank b t
  AllAbove-Above b leaf d = tt
  AllAbove-Above b (branch l a c k v r) d =
      let parts = append-AllAbove b (entries l) _ d in
      (AllAbove-Above b l (parts.0), parts.1.0, AllAbove-Above b r (parts.1.1))

  pub IsSearch-IsSorted : (t : Tree) → IsSearch rank t → IsSorted (entries t)
  IsSearch-IsSorted leaf s = tt
  IsSearch-IsSorted (branch l a c k v r) s =
      IsSorted-append (entries l) k v (entries r) (IsSearch-IsSorted l (s.2.0))
        (Below-AllBelow (rank k) l (s.0)) (Above-AllAbove (rank k) r (s.1))
        (IsSearch-IsSorted r (s.2.1))

  pub IsSorted-IsSearch : (t : Tree) → IsSorted (entries t) → IsSearch rank t
  IsSorted-IsSearch leaf s = tt
  IsSorted-IsSearch (branch l a c k v r) s =
      let parts = append-IsSorted (entries l) k v (entries r) s in
      (
        AllBelow-Below (rank k) l (parts.1),
        AllAbove-Above (rank k) r (parts.2.0),
        (IsSorted-IsSearch l (parts.0), IsSorted-IsSearch r (parts.2.1)),
      )

  -- A new entry, whose rank is not there yet.
  insert_entry-AllAbove :
      (b key value : ℕ) (es : List (ℕ × ℕ))
      → b < rank key
      → AllAbove b es
      → AllAbove b (insert_entry rank key value es)
  insert_entry-AllAbove b key value [] lt d = (lt, tt)
  insert_entry-AllAbove b key value ((k, v) ∷ es) lt d =
      elim (Bool-cases (ltb (rank k) (rank key))) [
        | inl e ↦ rw e (d.0, insert_entry-AllAbove b key value es lt (d.1))
        | inr e ↦ rw e (lt, d)
      ]

  pub insert_entry-IsSorted :
      (key value : ℕ) (es : List (ℕ × ℕ))
      → Misses rank key es
      → IsSorted es
      → IsSorted (insert_entry rank key value es)
  insert_entry-IsSorted key value [] d s = (tt, tt)
  insert_entry-IsSorted key value ((k, v) ∷ es) d s = elim (Bool-cases (ltb (rank k) (rank key))) [
    | inl e ↦ rw e (
      insert_entry-AllAbove (rank k) key value es (ground arith) (s.0),
      insert_entry-IsSorted key value es (d.1) (s.1),
    )
    | inr e ↦
        let lt : rank key < rank k = let x = d.0 in ground arith in
        rw e ((lt, AllAbove-weaken (rank k) (rank key) es (omega arith) (s.0)), s)
  ]

  -- The new entry is found, and the others as before.
  pub value_in-insert_entry :
      (key value key' : ℕ) (es : List (ℕ × ℕ))
      → Misses rank key es
      → value_in rank key' (insert_entry rank key value es)
        ≡ (if rank key == rank key' then value else value_in rank key' es)
  value_in-insert_entry key value key' [] d = refl
  value_in-insert_entry key value key' ((k, v) ∷ es) d =
      let rest = value_in-insert_entry key value key' es (d.1) in
      elim (Bool-cases (ltb (rank k) (rank key))) [
        | inl e ↦ rw e (passed (ground arith) rest (Bool-cases (rank k == rank key')))
        | inr e ↦ rw e refl
      ]
    where
      passed :
          rank k < rank key
          → value_in rank key' (insert_entry rank key value es)
            ≡ (if rank key == rank key' then value else value_in rank key' es)
          → ((rank k == rank key') ≡ true) ⊎ ((rank k == rank key') ≡ false)
          → (if rank k == rank key' then v else value_in rank key' (insert_entry rank key value es))
            ≡ (if rank key == rank key'
                then value
                else if rank k == rank key'
                then v
                else value_in rank key' es)
      passed lt rest (inl e) =
          let no_match : (rank key == rank key') ≡ false = ground arith in rw (e, no_match) refl
      passed lt rest (inr e) = rw e rest
