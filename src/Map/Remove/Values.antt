-- ===== src/Map/Remove/Values.antt =====
-- The entries after core_rtl_map_set are sorted, and hold the new value and the other ones.
use sandnix.Prelude.{
  ℕ, ◌≤◌, ◌<◌, ◌≡◌, refl, ap, ◌∙◌, true, false, ◌==◌, ltb, List, [], ◌∷◌, arith, if◌then◌else◌,
  Bool-cases, inl, inr,
}
use sandnix.Map.Lookup.{value_in}
use sandnix.Map.Insert.Sorted.{AllAbove, AllAbove-weaken, IsSorted}
use sandnix.Map.Remove.Entries.{remove_entry, put_entry, set_entry}

module _ (rank : ℕ → ℕ) (key : ℕ) where
  remove_entry-AllAbove :
      (b : ℕ) (es : List (ℕ × ℕ)) → AllAbove rank b es → AllAbove rank b (remove_entry rank key es)
  remove_entry-AllAbove b [] d = tt
  remove_entry-AllAbove b ((k, v) ∷ es) d = elim (Bool-cases (rank k == rank key)) [
    | inl e ↦ rw e (d.1)
    | inr e ↦ rw e (d.0, remove_entry-AllAbove b es (d.1))
  ]

  remove_entry-IsSorted :
      (es : List (ℕ × ℕ)) → IsSorted rank es → IsSorted rank (remove_entry rank key es)
  remove_entry-IsSorted [] s = tt
  remove_entry-IsSorted ((k, v) ∷ es) s = elim (Bool-cases (rank k == rank key)) [
    | inl e ↦ rw e (s.1)
    | inr e ↦ rw e (remove_entry-AllAbove (rank k) es (s.0), remove_entry-IsSorted es (s.1))
  ]

  put_entry-AllAbove :
      (b value : ℕ) (es : List (ℕ × ℕ))
      → b < rank key
      → AllAbove rank b es
      → AllAbove rank b (put_entry rank key value es)
  put_entry-AllAbove b value [] lt d = (lt, tt)
  put_entry-AllAbove b value ((k, v) ∷ es) lt d = elim (Bool-cases (ltb (rank k) (rank key))) [
    | inl e ↦ rw e (d.0, put_entry-AllAbove b value es lt (d.1))
    | inr e ↦ elim (Bool-cases (rank k == rank key)) [
      | inl f ↦ rw (e, f) d
      | inr f ↦ rw (e, f) (lt, d)
    ]
  ]

  put_entry-IsSorted :
      (value : ℕ) (es : List (ℕ × ℕ))
      → IsSorted rank es
      → IsSorted rank (put_entry rank key value es)
  put_entry-IsSorted value [] s = (tt, tt)
  put_entry-IsSorted value ((k, v) ∷ es) s = elim (Bool-cases (ltb (rank k) (rank key))) [
    | inl e ↦ rw e (
      put_entry-AllAbove (rank k) value es (ground arith) (s.0),
      put_entry-IsSorted value es (s.1),
    )
    | inr e ↦ elim (Bool-cases (rank k == rank key)) [
      | inl f ↦ rw (e, f) s
      | inr f ↦
          let lt : rank key < rank k = ground arith in
          rw (e, f) ((lt, AllAbove-weaken rank (rank k) (rank key) es (omega arith) (s.0)), s)
    ]
  ]

  pub set_entry-IsSorted :
      (value : ℕ) (es : List (ℕ × ℕ))
      → IsSorted rank es
      → IsSorted rank (set_entry rank key value es)
  set_entry-IsSorted value es s = elim (Bool-cases (value == 0)) [
    | inl e ↦ rw e (remove_entry-IsSorted es s)
    | inr e ↦ rw e (put_entry-IsSorted value es s)
  ]

  module _ (key' : ℕ) where
    AllAbove-value_in :
        (b : ℕ) (es : List (ℕ × ℕ)) → rank key' ≤ b → AllAbove rank b es → value_in rank key' es ≡ 0
    AllAbove-value_in b [] le d = refl
    AllAbove-value_in b ((k, v) ∷ es) le d =
        let lt = d.0 in
        let e : (rank k == rank key') ≡ false = ground arith in
        rw e (AllAbove-value_in b es le (d.1))

    value_in-remove_entry :
        (es : List (ℕ × ℕ))
        → IsSorted rank es
        → value_in rank key' (remove_entry rank key es)
          ≡ (if rank key == rank key' then 0 else value_in rank key' es)
    value_in-remove_entry [] s = elim (Bool-cases (rank key == rank key')) [
      | inl e ↦ rw e refl
      | inr e ↦ rw e refl
    ]
    value_in-remove_entry ((k, v) ∷ es) s =
        let rest = value_in-remove_entry es (s.1) in
        elim (Bool-cases (rank k == rank key)) [
          | inl e ↦ elim (Bool-cases (rank key == rank key')) [
            | inl f ↦ rw (e, f) (AllAbove-value_in (rank k) es (ground arith) (s.0))
            | inr f ↦ let g : (rank k == rank key') ≡ false = ground arith in rw (e, f, g) refl
          ]
          | inr e ↦ elim (Bool-cases (rank key == rank key')) [
            | inl f ↦
                let g : (rank k == rank key') ≡ false = ground arith in
                rw (e, f, g) (rest ∙ rw f refl)
            | inr f ↦ rw (e, f) (ap (λ w. if rank k == rank key' then v else w) (rest ∙ rw f refl))
          ]
        ]

    value_in-put_entry :
        (value : ℕ) (es : List (ℕ × ℕ))
        → value_in rank key' (put_entry rank key value es)
          ≡ (if rank key == rank key' then value else value_in rank key' es)
    value_in-put_entry value [] = refl
    value_in-put_entry value ((k, v) ∷ es) =
        let rest = value_in-put_entry value es in
        elim (Bool-cases (ltb (rank k) (rank key))) [
          | inl e ↦ elim (Bool-cases (rank key == rank key')) [
            | inl f ↦
                let g : (rank k == rank key') ≡ false = ground arith in
                rw (e, f, g) (rest ∙ rw f refl)
            | inr f ↦ rw (e, f) (ap (λ w. if rank k == rank key' then v else w) (rest ∙ rw f refl))
          ]
          | inr e ↦ elim (Bool-cases (rank k == rank key)) [
            | inl f ↦ elim (Bool-cases (rank key == rank key')) [
              | inl h ↦ let g : (rank k == rank key') ≡ true = ground arith in rw (e, f, g, h) refl
              | inr h ↦ let g : (rank k == rank key') ≡ false = ground arith in rw (e, f, g, h) refl
            ]
            | inr f ↦ rw (e, f) refl
          ]
        ]

    pub value_in-set_entry :
        (value : ℕ) (es : List (ℕ × ℕ))
        → IsSorted rank es
        → value_in rank key' (set_entry rank key value es)
          ≡ (if rank key == rank key' then value else value_in rank key' es)
    value_in-set_entry value es s = elim (Bool-cases (value == 0)) [
      | inl e ↦
          let z : 0 ≡ value = ground arith in
          rw e (
            value_in-remove_entry es s
            ∙ ap (λ w. if rank key == rank key' then w else value_in rank key' es) z)
      | inr e ↦ rw e (value_in-put_entry value es)
    ]
