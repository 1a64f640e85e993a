-- ===== src/Array/Set.antt =====
-- `core_rtl_array_set` against `core_rtl_array_get`.
use native.Mathlib.Decide.{ℕ_discrete}
use sandnix.Prelude.{
  ap, ◌∙◌, ℕ, zero, suc, ◌+◌, ◌-◌, ◌%◌, ◌^◌, ◌<◌, ◌≡◌, ◌≢◌, refl, sym, Option, none, some, arith,
  ◌==◌, if◌then◌else◌, length, get_elem?, set, length-set, get_elem?-set_self, get_elem?-set_ne,
}
use sandnix.Array.{Block, Array, slot_item, put_block, set_item}
use sandnix.Array.Inv.{
  IsSlot, count_used, count_used-set, count_used-le, in_use-le-count_used, lt_of_get_elem?,
  get_elem?-count_used,
}

-- The outcome of storing `value` as item `j` of the block `b`, which has index `k`.
pub record IsStored (a : Array) (k j : ℕ) (b : Block) (value : ℕ) (r : Option (ℕ × Array))
    : Type 0 where
  pub slot : Option Block
  pub returns : r ≡ some (value, put_block a k slot)
  pub is_slot : IsSlot a.scale slot
  pub self : slot_item slot j ≡ some value
  pub other : (i : ℕ) → i < a.scale → i ≢ j → slot_item slot i ≡ get_elem? b.items i

module _ (a : Array) (k j : ℕ) (b : Block) (small : a.scale < 2 ^ 32)
    (full : length b.items ≡ a.scale) (counted : b.ref ≡ count_used b.items) {old : ℕ}
    (at_j : get_elem? b.items j ≡ some old) where
  set_item_value : (v : ℕ) → IsStored a k j b (suc v) (set_item a k j b (suc v))
  unfolding set_item
  set_item_value v =
      let items = set b.items j (suc v) in
      let same = length-set b.items j (suc v) in
      let counts = count_used-set b.items j (suc v) at_j in
      let bound = count_used-le items in
      let here = in_use-le-count_used b.items j at_j in
      rw at_j (record {
        slot =
            some (record { ref = if old == 0 then (b.ref + 1) % 2 ^ 32 else b.ref; items = items });
        returns = ground arith;
        is_slot = record {
          full = omega (arith, same);
          counted = ground (arith, counts, bound, same);
          used = ground (arith, counts, bound, same, here);
        };
        self = get_elem?-set_self b.items j (suc v) (lt_of_get_elem? b.items j at_j);
        other = λ i h ne. get_elem?-set_ne b.items (suc v) (λ e. ne (sym e));
      })

  set_item_unused : 0 < b.ref → old ≡ 0 → IsStored a k j b 0 (set_item a k j b 0)
  unfolding set_item
  set_item_unused live unused = rw at_j (record {
    slot = some b;
    returns = ground arith;
    is_slot = record { full = full; counted = counted; used = live };
    self = rw at_j (ap some unused);
    other = λ i h ne. refl;
  })

  set_item_last : old ≢ 0 → b.ref ≡ 1 → IsStored a k j b 0 (set_item a k j b 0)
  unfolding set_item
  set_item_last used one =
      let items = set b.items j 0 in
      let empty : count_used items ≡ 0 = ground (arith, count_used-set b.items j 0 at_j) in
      rw at_j (record {
        slot = none;
        returns = ground arith;
        is_slot = tt;
        self = refl;
        other = λ i h ne. sym (
            sym (get_elem?-set_ne b.items 0 (λ e. ne (sym e)))
            ∙ get_elem?-count_used items i empty (omega (arith, length-set b.items j 0)));
      })

  set_item_drop :
      old ≢ 0 → b.ref ≢ 1 → 0 < b.ref → b.ref < 2 ^ 32 → IsStored a k j b 0 (set_item a k j b 0)
  unfolding set_item
  set_item_drop used more live fits =
      let items = set b.items j 0 in
      let same = length-set b.items j 0 in
      let counts = count_used-set b.items j 0 at_j in
      rw at_j (record {
        slot = some (record { ref = (b.ref + 2 ^ 32 - 1) % 2 ^ 32; items = items });
        returns = ground arith;
        is_slot = record {
          full = omega (arith, same);
          counted = ground (arith, counts);
          used = ground arith;
        };
        self = get_elem?-set_self b.items j 0 (lt_of_get_elem? b.items j at_j);
        other = λ i h ne. get_elem?-set_ne b.items 0 (λ e. ne (sym e));
      })

  set_item_null : 0 < b.ref → IsStored a k j b 0 (set_item a k j b 0)
  set_item_null live = elim (ℕ_discrete old 0) [
    | yes unused ↦ set_item_unused live unused
    | no used ↦ elim (ℕ_discrete b.ref 1) [
      | yes one ↦ set_item_last used one
      | no more ↦ set_item_drop used more live (omega (arith, count_used-le b.items))
    ]
  ]

  pub set_item-IsStored :
      (value : ℕ) → (value ≡ 0 → 0 < b.ref) → IsStored a k j b value (set_item a k j b value)
  set_item-IsStored zero live = set_item_null (live refl)
  set_item-IsStored (suc v) live = set_item_value v
