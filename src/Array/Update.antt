-- ===== src/Array/Update.antt =====
-- `core_rtl_array_set` on a well-formed array, at an index below its size.
use native.Mathlib.Decide.{ℕ_discrete, dec_le}
use native.Mathlib.Nat.{mod-add-div, div-lt_iff_lt-mul, mod-lt, mul-le-mul_right}
use sandnix.Prelude.{
  ℕ, ◌+◌, ◌*◌, ◌/◌, ◌%◌, ◌^◌, ◌≤◌, ◌<◌, ◌≡◌, ◌≢◌, refl, sym, ap₂, ◌∙◌, true, false, Option, none,
  some, arith, ◌==◌, leb, length, get_elem?, replicate, length-replicate, length-set,
  get_elem?-set_self, get_elem?-set_ne,
}
use sandnix.Array.{Block, Array, slot_item, put_block, set_item, fresh_block, array_get, array_set}
use sandnix.Array.Inv.{
  AllSlots-get, AllSlots-set, IsValid, count_used-replicate, get_elem?-count_used, get_elem?-lt,
}
use sandnix.Array.Set.{IsStored, set_item-IsStored}

-- `r` returns `value`, and an array that is well-formed and differs from `a` at `index` alone.
pub record IsUpdate (a : Array) (index value : ℕ) (r : Option (ℕ × Array)) : Type 0 where
  pub after : Array
  pub returns : r ≡ some (value, after)
  pub valid : IsValid after
  pub size : after.size ≡ a.size
  pub self : array_get after index ≡ some value
  pub other : (j : ℕ) → j ≢ index → array_get after j ≡ array_get a j

pub array_get_beyond : (a : Array) (j : ℕ) → a.size ≤ j → array_get a j ≡ some 0
unfolding array_get
array_get_beyond a j h = let out : leb a.size j ≡ true = ground arith in rw out

module _ (a : Array) (v : IsValid a) (index : ℕ) (inside : index < a.size) where
  pub block_lt : index / a.scale < length a.blocks
  block_lt = (div-lt_iff_lt-mul v.scale_pos).1 (rw v.size at inside)

  pub array_get_slot :
      (c : Option Block)
      → get_elem? a.blocks (index / a.scale) ≡ some c
      → array_get a index ≡ slot_item c (index % a.scale)
  unfolding array_get
  array_get_slot c e = let present : leb a.size index ≡ false = ground arith in rw (present, e)

  item_ne : (j : ℕ) → j ≢ index → j / a.scale ≡ index / a.scale → j % a.scale ≢ index % a.scale
  item_ne j ne e f =
      ne
        (sym (mod-add-div j a.scale) ∙ ap₂ (λ r q. r + a.scale * q) f e ∙ mod-add-div index a.scale)

-- Putting a block in the place of `c`, where only the item of `index` may change.
module _ (a : Array) (v : IsValid a) (index : ℕ) (inside : index < a.size) {c : Option Block}
    (before : get_elem? a.blocks (index / a.scale) ≡ some c) {value : ℕ} {b : Block}
    {r : Option (ℕ × Array)}
    (same : (i : ℕ) → i < a.scale → get_elem? b.items i ≡ slot_item c i) where
  IsStored-IsUpdate :
      IsStored a (index / a.scale) (index % a.scale) b value r → IsUpdate a index value r
  IsStored-IsUpdate st = record {
    after = after;
    returns = st.returns;
    valid = valid;
    size = refl;
    self = array_get_slot after valid index inside st.slot at_k ∙ st.self;
    other = other;
  }
    where
      after : Array
      after = put_block a (index / a.scale) st.slot

      at_k : get_elem? after.blocks (index / a.scale) ≡ some st.slot
      at_k = get_elem?-set_self a.blocks (index / a.scale) st.slot (block_lt a v index inside)

      valid : IsValid after
      valid = record {
        scale_pos = v.scale_pos;
        size = rw length-set v.size;
        small = v.small;
        slots = AllSlots-set a.scale a.blocks (index / a.scale) st.slot v.slots st.is_slot;
      }

      near :
          (j : ℕ)
          → j ≢ index
          → j < a.size
          → j / a.scale ≡ index / a.scale
          → array_get after j ≡ array_get a j
      near j ne h e =
          array_get_slot after valid j h st.slot (rw e at_k)
          ∙ st.other (j % a.scale) (mod-lt j v.scale_pos) (item_ne a v index inside j ne e)
          ∙ same (j % a.scale) (mod-lt j v.scale_pos)
          ∙ sym (array_get_slot a v j h c (rw e before))

      far : (j : ℕ) → j < a.size → j / a.scale ≢ index / a.scale → array_get after j ≡ array_get a j
      far j h ne =
          let (d, e) = get_elem?-lt a.blocks (j / a.scale) (block_lt a v j h) in
          array_get_slot after valid j h d (get_elem?-set_ne a.blocks st.slot (λ p. ne (sym p)) ∙ e)
          ∙ sym (array_get_slot a v j h d e)

      other : (j : ℕ) → j ≢ index → array_get after j ≡ array_get a j
      other j ne = elim (dec_le a.size j) [
        | yes beyond ↦ array_get_beyond after j beyond ∙ sym (array_get_beyond a j beyond)
        | no below ↦ elim (ℕ_discrete (j / a.scale) (index / a.scale)) [
          | yes e ↦ near j ne (omega arith) e
          | no d ↦ far j (omega arith) d
        ]
      ]

pub scale_lt : (a : Array) → IsValid a → (index : ℕ) → index < a.size → a.scale < 2 ^ 32
scale_lt a v index inside =
    let some_block : 1 ≤ length a.blocks = omega (arith, block_lt a v index inside) in
    let fits = mul-le-mul_right a.scale some_block in omega (arith, fits, v.size, v.small)

fresh_null : (scale i : ℕ) → i < scale → get_elem? (fresh_block scale).items i ≡ slot_item none i
fresh_null scale i h =
    get_elem?-count_used (replicate scale 0) i (count_used-replicate scale)
      (rw (length-replicate {A = ℕ} scale 0) h)

-- Storing into the block `c` of the table, or into a new one where `c` is none.
module _ (a : Array) (v : IsValid a) (index : ℕ) (inside : index < a.size) (value : ℕ) where
  set_item-at :
      (b : Block)
      → get_elem? a.blocks (index / a.scale) ≡ some (some b)
      → IsStored a
          (index / a.scale)
          (index % a.scale)
          b
          value
          (set_item a (index / a.scale) (index % a.scale) b value)
  set_item-at b e =
      let ok = AllSlots-get a.scale a.blocks (index / a.scale) v.slots e in
      let j_lt = mod-lt index v.scale_pos in
      let (_, at_j) = get_elem?-lt b.items (index % a.scale) (rw ok.full j_lt) in
      set_item-IsStored a (index / a.scale) (index % a.scale) b (scale_lt a v index inside) ok.full
        ok.counted at_j value (λ _. ok.used)

  set_item-fresh_block :
      value ≢ 0
      → IsStored a
          (index / a.scale)
          (index % a.scale)
          (fresh_block a.scale)
          value
          (set_item a (index / a.scale) (index % a.scale) (fresh_block a.scale) value)
  set_item-fresh_block ne =
      let full = length-replicate a.scale 0 in
      let (_, at_j) =
        get_elem?-lt (replicate a.scale 0) (index % a.scale) (rw full (mod-lt index v.scale_pos)) in
      set_item-IsStored a (index / a.scale) (index % a.scale) (fresh_block a.scale)
        (scale_lt a v index inside) full (sym (count_used-replicate a.scale)) at_j value
        (λ e. absurd (ne e))

  unchanged :
      get_elem? a.blocks (index / a.scale) ≡ some none
      → value ≡ 0
      → IsUpdate a index value (some (0, a))
  unchanged e zero_value = record {
    after = a;
    returns = rw zero_value;
    valid = v;
    size = refl;
    self = rw zero_value (array_get_slot a v index inside none e);
    other = λ j ne. refl;
  }

  -- With memory for a new block, `core_rtl_array_set` returns the value, leaves the array
  -- well-formed, and changes what `core_rtl_array_get` returns at that index alone.
  pub array_set-IsUpdate :
      IsUpdate a index value
        (array_set a index value (record { has_block = true; has_items = true }))
  unfolding array_set
  array_set-IsUpdate = go (c.0) (c.1)
    where
      c : (s : Option Block) × (get_elem? a.blocks (index / a.scale) ≡ some s)
      c = get_elem?-lt a.blocks (index / a.scale) (block_lt a v index inside)

      go :
          (s : Option Block)
          → get_elem? a.blocks (index / a.scale) ≡ some s
          → IsUpdate a index value
              (array_set a index value (record { has_block = true; has_items = true }))
      go (some b) e = rw e (IsStored-IsUpdate a v index inside e (λ i h. refl) (set_item-at b e))
      go none e = rw e (elim (ℕ_discrete value 0) [
        | yes z ↦ let t : (value == 0) ≡ true = ground arith in rw t (unchanged e z)
        | no ne ↦
            let f : (value == 0) ≡ false = ground arith in
            rw f
              (IsStored-IsUpdate a v index inside e (fresh_null a.scale) (set_item-fresh_block ne))
      ])
