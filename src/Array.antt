-- ===== src/Array.antt =====
-- sandnix/kernel/core/rtl/container/array/array.c: an array of pointers whose items live in
-- blocks that are allocated when one of their items is set.
-- A pointer value is a number, with NULL as 0. `none` as the result of a computation is undefined
-- behaviour: a read outside the block table or a block, a free of NULL. `size_t` and `u32` have 32
-- bits, `bool` has 8.
pub mod Inv
pub mod Set
pub mod Update
pub mod Search
pub mod Init
pub mod Free
pub mod Destroy
mod Tests
use sandnix.Prelude.{
  ℕ, zero, suc, ◌+◌, ◌-◌, ◌*◌, ◌/◌, ◌%◌, ◌^◌, Bool, true, false, Option, none, some, List, [], ◌∷◌,
  ◌==◌, ◌||◌, ◌++◌, ltb, leb, if◌then◌else◌, get_elem?, set, replicate,
}
use sandnix.Prelude.Partial.{◌>>=◌}

-- `array_blk_t`
pub record Block : Type 0 where
  pub ref : ℕ
  pub items : List ℕ

-- `array_t`, without its heap.
pub record Array : Type 0 where
  pub size : ℕ
  pub scale : ℕ
  pub blocks : List (Option Block)

-- Whether the two allocations of `core_rtl_array_set` get their memory.
pub record Memory : Type 0 where
  pub has_block : Bool
  pub has_items : Bool

abbrev pub u32 : ℕ → ℕ
u32 n = n % 2 ^ 32

-- `while (n != 0) { count++; n >>= 1; }`, at most 32 rounds for a `u32`.
pub bit_count : ℕ → ℕ → ℕ → ℕ
bit_count zero n count = count
bit_count (suc fuel) n count =
    let rest = bit_count fuel (n / 2) (count + 1) in if n == 0 then count else rest

-- The exponent of `size`: `num - (1 << count) > 0` is an unsigned comparison.
pub size_bits : ℕ → ℕ
size_bits num =
    let count = bit_count 32 num 0 in
    if u32 (num + 2 ^ 32 - u32 (2 ^ count)) == 0 then count else count + 1

-- `none` in the pair is ENOMEM; the flag says whether the block table gets its memory.
pub array_init : ℕ → Bool → Option Array
array_init num has_table =
    let bits = size_bits num in
    let size = 2 ^ bits in
    let scale = 2 ^ (bits / 2) in
    if has_table
    then some (record { size = size; scale = scale; blocks = replicate (size / scale) none })
    else none

-- `*((*p_p_blk)->p_p_items + j)`, and NULL where there is no block.
abbrev pub slot_item : Option Block → ℕ → Option ℕ
slot_item none j = some 0
slot_item (some b) j = get_elem? b.items j

pub array_get : Array → ℕ → Option ℕ
array_get a index =
    if leb a.size index
    then some 0
    else do block ← get_elem? a.blocks (index / a.scale); slot_item block (index % a.scale)

abbrev pub put_block : Array → ℕ → Option Block → Array
put_block a k b = record a { blocks = set a.blocks k b }

-- The second half of `core_rtl_array_set`, at the block with index `k` and its item `j`.
pub set_item : Array → (k j : ℕ) → Block → ℕ → Option (ℕ × Array)
set_item a k j b value = do
  old ← get_elem? b.items j
  let ref = u32 (b.ref + 2 ^ 32 - 1)
  let more = if old == 0 then u32 (b.ref + 1) else b.ref
  if value == 0
      then if old == 0
        then some (0, put_block a k (some b))
        else if ref == 0
        then some (0, put_block a k none)
        else some (0, put_block a k (some (record { ref = ref; items = set b.items j 0 })))
      else some (value, put_block a k (some (record { ref = more; items = set b.items j value })))

abbrev pub fresh_block : ℕ → Block
fresh_block scale = record { ref = 0; items = replicate scale 0 }

-- The returned pointer and the new array. When the items of a new block get no memory, the code
-- frees the NULL that it was given.
pub array_set : Array → ℕ → ℕ → Memory → Option (ℕ × Array)
array_set a index value m = do
  let k = index / a.scale
  let j = index % a.scale
  block ← get_elem? a.blocks k
  elim block [
    | some b ↦ set_item a k j b value
    | none ↦
        if value == 0
        then some (0, a)
        else if m.has_block
        then if m.has_items then set_item a k j (fresh_block a.scale) value else none
        else some (0, a)
  ]

pub array_used : Array → ℕ → Option Bool
array_used a index = do
  block ← get_elem? a.blocks (index / a.scale)
  elim block [
    | none ↦ some false
    | some b ↦ (do
      item ← get_elem? b.items (index % a.scale)
      some (if item == 0 then false else true))
  ]

pub array_size : Array → ℕ
array_size a = u32 a.size

-- The first item from `j` on, of the next `left` ones, that is not NULL.
pub find_used : List ℕ → ℕ → ℕ → Option (Option ℕ)
find_used items zero j = some none
find_used items (suc left) j =
    let rest = find_used items left (j + 1) in
    do item ← get_elem? items j; if item == 0 then rest else some (some j)

-- The first item from `j` on, of the next `left` ones, that is NULL.
pub find_free : List ℕ → ℕ → ℕ → Option (Option ℕ)
find_free items zero j = some none
find_free items (suc left) j =
    let rest = find_free items left (j + 1) in
    do item ← get_elem? items j; if item == 0 then some (some j) else rest

-- The outer loop of `core_rtl_array_get_used_index` at block `i`, with `left` rounds left.
pub used_loop : Array → ℕ → ℕ → ℕ → Option (Option ℕ)
used_loop a begin zero i = some none
used_loop a begin (suc left) i =
    let rest = used_loop a begin left (i + 1) in
    do
      block ← get_elem? a.blocks i
      elim block [
        | none ↦ rest
        | some b ↦
            let from = if ltb (begin / a.scale) i then 0 else begin % a.scale in
            (do
              found ← find_used b.items (a.scale - from) from
              elim found [ none ↦ rest | some j ↦ some (some (u32 (i * a.scale + j))) ])
      ]

-- `some i` is true with `i` through `ret`, `none` is false.
pub get_used_index : Array → ℕ → Option (Option ℕ)
get_used_index a begin =
    let first = begin / a.scale in used_loop a begin (a.size / a.scale - first) first

-- The outer loop of `core_rtl_array_get_free_index`. What it returns is a Boolean, for which a number
-- is cut to 8 bits, and the value stored through `p_ret`, if one is.
pub free_loop : Array → ℕ → ℕ → Option (Bool × Option ℕ)
free_loop a zero i = some (false, none)
free_loop a (suc left) i =
    let rest = free_loop a left (i + 1) in
    do
      block ← get_elem? a.blocks (i / a.scale)
      elim block [
        | none ↦ some (if u32 (i * a.scale) % 2 ^ 8 == 0 then false else true, none)
        | some b ↦
            if ltb b.ref a.scale
            then (do
              found ← find_free b.items a.scale 0
              elim found [ none ↦ rest | some j ↦ some (true, some (u32 (i * a.scale + j))) ])
            else rest
      ]

pub get_free_index : Array → Option (Bool × Option ℕ)
get_free_index a = free_loop a (a.size / a.scale) 0

pub free_num_loop : Array → ℕ → ℕ → ℕ → Option ℕ
free_num_loop a zero i ret = some ret
free_num_loop a (suc left) i ret = do
  block ← get_elem? a.blocks (i / a.scale)
  let free : ℕ = elim block [ none ↦ a.scale | some b ↦ a.scale + 2 ^ 32 - b.ref ]
  free_num_loop a left (i + 1) (u32 (ret + free))

pub get_free_index_num : Array → Option ℕ
get_free_index_num a = free_num_loop a (a.size / a.scale) 0 0

-- What `core_rtl_array_destroy` does, in order: calls of the destroyer, and frees of the items of
-- a block, of a block and of the block table. Where it reads a block that is freed, the list ends.
pub data Event : Type 0 where
  destroyed : ℕ → Event
  freed_items freed_block : ℕ → Event
  freed_table : Event
  read_freed : ℕ → Event

abbrev pub has_freed : ℕ → List ℕ → Bool
has_freed k [] = false
has_freed k (x ∷ xs) = k == x || has_freed k xs

-- The inner loop: the calls for the items of one block.
pub destroy_items : Bool → List ℕ → List Event
destroy_items has_destroyer [] = []
destroy_items has_destroyer (x ∷ xs) =
    let rest = destroy_items has_destroyer xs in
    if x == 0 then rest else if has_destroyer then destroyed x ∷ rest else rest

-- The outer loop at round `i`; `freed` holds the blocks that are freed by now.
pub destroy_loop : Array → Bool → (left i : ℕ) → (freed : List ℕ) → Option (List Event)
destroy_loop a has_destroyer zero i freed = some (freed_table ∷ [])
destroy_loop a has_destroyer (suc left) i freed =
    let k = i / a.scale in
    let skip = destroy_loop a has_destroyer left (i + 1) freed in
    let rest = destroy_loop a has_destroyer left (i + 1) (k ∷ freed) in
    do
      block ← get_elem? a.blocks k
      elim block [
        | none ↦ skip
        | some b ↦ if has_freed k freed then some (read_freed k ∷ []) else (do
          events ← rest
          some (destroy_items has_destroyer b.items ++ (freed_items k ∷ freed_block k ∷ events)))
      ]

pub array_destroy : Array → Bool → Option (List Event)
array_destroy a has_destroyer = destroy_loop a has_destroyer (a.size / a.scale) 0 []
