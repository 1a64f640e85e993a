-- ===== src/Map/Remove/Entries.antt =====
-- What core_rtl_map_set means for the sorted list of the entries.
use sandnix.Prelude.{
  ℕ, suc, ◌≤◌, ◌≡◌, refl, ap, Bool, true, false, ◌==◌, ltb, List, [], ◌∷◌, ◌++◌, arith, length,
  if◌then◌else◌, Bool-cases, inl, inr,
}
use sandnix.Map.Lookup.{Misses, value_in}
use sandnix.Map.Insert.Order.{insert_entry}
use sandnix.Map.Insert.Sorted.{AllBelow}

module _ (rank : ℕ → ℕ) (key : ℕ) where
  abbrev pub remove_entry : List (ℕ × ℕ) → List (ℕ × ℕ)
  remove_entry [] = []
  remove_entry ((k, v) ∷ es) = if rank k == rank key then es else (k, v) ∷ remove_entry es

  -- In front of the first greater one, or in place of the entry whose key is the same.
  abbrev pub put_entry : (value : ℕ) → List (ℕ × ℕ) → List (ℕ × ℕ)
  put_entry value [] = (key, value) ∷ []
  put_entry value ((k, v) ∷ es) =
      if ltb (rank k) (rank key)
      then (k, v) ∷ put_entry value es
      else if rank k == rank key
      then (k, value) ∷ es
      else (key, value) ∷ (k, v) ∷ es

  abbrev pub set_entry : (value : ℕ) → List (ℕ × ℕ) → List (ℕ × ℕ)
  set_entry value es = if value == 0 then remove_entry es else put_entry value es

  abbrev pub has_entry : List (ℕ × ℕ) → Bool
  has_entry [] = false
  has_entry ((k, v) ∷ es) = if rank k == rank key then true else has_entry es

  -- The value that is returned: the old one, or the one entered.
  abbrev pub set_result : (value : ℕ) → List (ℕ × ℕ) → ℕ
  set_result value es = if has_entry es then value_in rank key es else value

  pub has_entry-Misses : (es : List (ℕ × ℕ)) → Misses rank key es → has_entry es ≡ false
  has_entry-Misses [] d = refl
  has_entry-Misses ((k, v) ∷ es) d = rw (d.0) (has_entry-Misses es (d.1))

  pub remove_entry-Misses : (es : List (ℕ × ℕ)) → Misses rank key es → remove_entry es ≡ es
  remove_entry-Misses [] d = refl
  remove_entry-Misses ((k, v) ∷ es) d =
      rw (d.0) (ap (λ es. (k, v) ∷ es) (remove_entry-Misses es (d.1)))

  pub put_entry-Misses :
      (value : ℕ) (es : List (ℕ × ℕ))
      → Misses rank key es
      → put_entry value es ≡ insert_entry rank key value es
  put_entry-Misses value [] d = refl
  put_entry-Misses value ((k, v) ∷ es) d = rw (d.0) (
      ap (λ rest. if ltb (rank k) (rank key) then (k, v) ∷ rest else (key, value) ∷ (k, v) ∷ es)
        (put_entry-Misses value es (d.1)))

  module _ (k v : ℕ) (same : rank k ≡ rank key) where
    pub here : (rank k == rank key) ≡ true
    here = ground arith

    pub AllBelow-Misses : (xs : List (ℕ × ℕ)) → AllBelow rank (rank k) xs → Misses rank key xs
    AllBelow-Misses [] d = tt
    AllBelow-Misses ((i, j) ∷ xs) d = let lt = d.0 in (ground arith, AllBelow-Misses xs (d.1))

    pub has_entry-append : (xs ys : List (ℕ × ℕ)) → has_entry (xs ++ (k, v) ∷ ys) ≡ true
    has_entry-append [] ys = rw here refl
    has_entry-append ((i, j) ∷ xs) ys = elim (Bool-cases (rank i == rank key)) [
      | inl e ↦ rw e refl
      | inr e ↦ rw e (has_entry-append xs ys)
    ]

    pub remove_entry-append :
        (xs ys : List (ℕ × ℕ)) → Misses rank key xs → remove_entry (xs ++ (k, v) ∷ ys) ≡ xs ++ ys
    remove_entry-append [] ys d = rw here refl
    remove_entry-append ((i, j) ∷ xs) ys d =
        rw (d.0) (ap (λ es. (i, j) ∷ es) (remove_entry-append xs ys (d.1)))

    pub put_entry-append :
        (value : ℕ) (xs ys : List (ℕ × ℕ))
        → AllBelow rank (rank k) xs
        → put_entry value (xs ++ (k, v) ∷ ys) ≡ xs ++ (k, value) ∷ ys
    put_entry-append value [] ys d =
        let e : ltb (rank k) (rank key) ≡ false = ground arith in rw (e, here) refl
    put_entry-append value ((i, j) ∷ xs) ys d =
        let lt = d.0 in
        let e : ltb (rank i) (rank key) ≡ true = ground arith in
        rw e (ap (λ es. (i, j) ∷ es) (put_entry-append value xs ys (d.1)))

  pub length-set_entry :
      (value : ℕ) (es : List (ℕ × ℕ)) → length (set_entry value es) ≤ suc (length es)
  length-set_entry value es = elim (Bool-cases (value == 0)) [
    | inl e ↦ rw e (let x = length-remove_entry es in omega arith)
    | inr e ↦ rw e (length-put_entry es)
  ]
    where
      length-remove_entry : (es : List (ℕ × ℕ)) → length (remove_entry es) ≤ length es
      length-remove_entry [] = omega arith
      length-remove_entry ((k, v) ∷ es) =
          let x = length-remove_entry es in
          elim (Bool-cases (rank k == rank key)) [
            | inl e ↦ rw e (omega arith)
            | inr e ↦ rw e (omega arith)
          ]

      length-put_entry : (es : List (ℕ × ℕ)) → length (put_entry value es) ≤ suc (length es)
      length-put_entry [] = omega arith
      length-put_entry ((k, v) ∷ es) =
          let x = length-put_entry es in
          elim (Bool-cases (ltb (rank k) (rank key))) [
            | inl e ↦ rw e (omega arith)
            | inr e ↦ elim (Bool-cases (rank k == rank key)) [
              | inl f ↦ rw (e, f) (omega arith)
              | inr f ↦ rw (e, f) (omega arith)
            ]
          ]
