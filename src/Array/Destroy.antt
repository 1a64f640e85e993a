-- ===== src/Array/Destroy.antt =====
-- `core_rtl_array_destroy` looks at the block with index `i / scale` in round `i`.
use native.Mathlib.Nat.{div-eq_of_lt}
use sandnix.Prelude.{
  ℕ, zero, suc, ◌+◌, ◌-◌, ◌/◌, ◌≤◌, ◌≡◌, refl, Bool, none, some, List, [], ◌∷◌, ◌++◌, arith, length,
  get_elem?,
}
use sandnix.Array.{
  Block, Array, Event, freed_items, freed_block, freed_table, read_freed, destroy_items,
  destroy_loop, array_destroy,
}
use sandnix.Array.Inv.{IsValid}
use sandnix.Array.Free.{rounds}

module _ (a : Array) (v : IsValid a) (has_destroyer : Bool) where
  -- A round that looks at a freed block.
  freed_round :
      (left : ℕ) (b : Block)
      → get_elem? a.blocks 0 ≡ some (some b)
      → 1 / a.scale ≡ 0
      → destroy_loop a has_destroyer (suc left) 1 (0 ∷ []) ≡ some (read_freed 0 ∷ [])
  unfolding destroy_loop
  freed_round left b e first = rw first (rw e (rw first refl))

  first_round :
      (left : ℕ) (b : Block) (events : List Event)
      → get_elem? a.blocks 0 ≡ some (some b)
      → 0 / a.scale ≡ 0
      → destroy_loop a has_destroyer left 1 (0 ∷ []) ≡ some events
      → destroy_loop a has_destroyer (suc left) 0 []
        ≡ some (destroy_items has_destroyer b.items ++ freed_items 0 ∷ freed_block 0 ∷ events)
  unfolding destroy_loop
  first_round left b events e zeroth next = rw zeroth (rw e (rw zeroth (rw next refl)))

  -- With two blocks or more of two items or more, the first of them allocated,
  -- `core_rtl_array_destroy` destroys the items of that block and frees them and the block in
  -- round 0, and then reads the freed block in round 1.
  pub array_destroy_reads_freed :
      (b : Block)
      → get_elem? a.blocks 0 ≡ some (some b)
      → 2 ≤ length a.blocks
      → 2 ≤ a.scale
      → array_destroy a has_destroyer
        ≡ some (
            destroy_items has_destroyer b.items
            ++ freed_items 0 ∷ freed_block 0 ∷ read_freed 0 ∷ [])
  unfolding array_destroy
  array_destroy_reads_freed b e many wide =
      let (n, len) = count in
      rw (rounds a v, len)
        (first_round (suc n) b (read_freed 0 ∷ []) e (div-eq_of_lt (omega arith))
          (freed_round n b e (div-eq_of_lt (omega arith))))
    where
      count : (n : ℕ) × (length a.blocks ≡ suc (suc n))
      count = (length a.blocks - 2, omega arith)

  skip_rounds :
      (left i : ℕ)
      → get_elem? a.blocks 0 ≡ some none
      → i + left ≤ a.scale
      → destroy_loop a has_destroyer left i [] ≡ some (freed_table ∷ [])
  unfolding destroy_loop
  skip_rounds zero i e h = refl
  skip_rounds (suc left) i e h =
      let first : i / a.scale ≡ 0 = div-eq_of_lt (omega arith) in
      rw first (rw e (skip_rounds left (i + 1) e (omega arith)))

  -- On a table of at most `scale` blocks, the first of them not allocated, `core_rtl_array_destroy`
  -- frees the table alone: no item is destroyed and no other block is freed.
  array_destroy_leaks :
      get_elem? a.blocks 0 ≡ some none
      → length a.blocks ≤ a.scale
      → array_destroy a has_destroyer ≡ some (freed_table ∷ [])
  unfolding array_destroy
  array_destroy_leaks e h = rw (rounds a v) (skip_rounds (length a.blocks) 0 e (omega arith))
