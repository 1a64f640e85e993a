-- ===== src/Array/Free.antt =====
-- `core_rtl_array_get_free_index` and `core_rtl_array_get_free_index_num`. Both look at the block
-- with index `i / scale` in round `i`.
use native.Mathlib.Decide.{ℕ_discrete}
use native.Mathlib.Nat.{div-eq_of_lt, mul-le-mul_right, mul-le-mul_left, mul-div_left}
use sandnix.Prelude.{
  ℕ, zero, suc, ◌+◌, ◌-◌, ◌*◌, ◌/◌, ◌%◌, ◌^◌, ◌≤◌, ◌<◌, ◌≡◌, ◌≢◌, refl, sym, ap, ◌∙◌, subst, true,
  false, Option, none, some, List, [], ◌∷◌, arith, ltb, length, get_elem?,
}
use sandnix.Array.{
  Block, Array, slot_item, array_get, find_free, free_loop, get_free_index, free_num_loop,
  get_free_index_num,
}
use sandnix.Array.Inv.{
  IsSlot, AllSlots-get, IsValid, get_elem?-lt, lt_of_get_elem?, count_used, count_used-le,
}
use sandnix.Array.Update.{scale_lt}
use sandnix.Array.Search.{array_get_at}

pub rounds : (a : Array) → IsValid a → a.size / a.scale ≡ length a.blocks
rounds a v = rw v.size (mul-div_left (length a.blocks) v.scale_pos)

abbrev FindsFree : List ℕ → ℕ → ℕ → ℕ → Type 0
FindsFree xs left j k =
    (n : ℕ) × (find_free xs left j ≡ some (some n))
    × (n ≤ k)
    × (get_elem? xs n ≡ some 0)
    × ((m : ℕ) → j ≤ m → m < n → get_elem? xs m ≢ some 0)

-- The first NULL among the items from `j` on, where there is one.
find_free_lem :
    (xs : List ℕ) (left j : ℕ)
    → j + left ≡ length xs
    → (k : ℕ) → j ≤ k
    → k < length xs
    → get_elem? xs k ≡ some 0
    → FindsFree xs left j k
unfolding find_free
find_free_lem xs zero j e k h l null = absurd (omega arith)
find_free_lem xs (suc left) j e k h l null =
    let (x, at_j) = get_elem?-lt xs j (omega arith) in
    go x at_j (λ next. find_free_lem xs left (j + 1) (omega arith) k next l null)
  where
    go :
        (x : ℕ)
        → get_elem? xs j ≡ some x
        → (j + 1 ≤ k → FindsFree xs left (j + 1) k)
        → FindsFree xs (suc left) j k
    go zero at_j rest = (j, rw at_j, h, at_j, λ m p q. absurd (omega arith))
    go (suc x) at_j rest =
        let ne : j ≢ k = λ same. cc (subst (λ i. get_elem? xs i ≡ some 0) (sym same) null) in
        let (n, found, le, at_n, first) = rest (omega arith) in
        (
          n,
          rw at_j (ground (arith, found)),
          le,
          at_n,
          λ m p q. elim (ℕ_discrete m j) [
            | yes same ↦ rw (same, at_j) (λ bad. cc)
            | no other ↦ first m (omega arith) q
          ],
        )

-- A block with fewer items in use than it has holds a NULL.
has_free :
    (xs : List ℕ)
    → count_used xs < length xs
    → (k : ℕ) × (k < length xs) × (get_elem? xs k ≡ some 0)
has_free [] h = elim h [ ]
has_free (zero ∷ xs) h = (0, omega arith, refl)
has_free (suc x ∷ xs) h = let (k, l, e) = has_free xs (ground arith) in (suc k, omega arith, e)

module _ (a : Array) (v : IsValid a) where
  more : {c : Option Block} → get_elem? a.blocks 0 ≡ some c → (n : ℕ) × (length a.blocks ≡ suc n)
  more e = (length a.blocks - 1, omega (arith, lt_of_get_elem? a.blocks 0 e))

  size_pos : {c : Option Block} → get_elem? a.blocks 0 ≡ some c → 0 < a.size
  size_pos e =
      omega (arith, v.size, v.scale_pos, mul-le-mul_right a.scale (lt_of_get_elem? a.blocks 0 e))

  index_zero :
      {c : Option Block}
      → get_elem? a.blocks 0 ≡ some c
      → (j : ℕ) → j < a.scale
      → array_get a j ≡ slot_item c j
  index_zero {c} e j h =
      ap (array_get a) (omega arith) ∙ array_get_at a v 0 j c e (lt_of_get_elem? a.blocks 0 e) h

  -- While the first block of the table is not allocated, `core_rtl_array_get_free_index` returns
  -- false and stores no index, though index 0 reads NULL.
  pub get_free_index_misses :
      get_elem? a.blocks 0 ≡ some none
      → (get_free_index a ≡ some (false, none)) × (array_get a 0 ≡ some 0) × (0 < a.size)
  unfolding get_free_index free_loop
  get_free_index_misses e =
      let first : 0 / a.scale ≡ 0 = div-eq_of_lt v.scale_pos in
      let (n, len) = more e in
      let zero_index : 0 * a.scale % 2 ^ 32 % 2 ^ 8 ≡ 0 = omega arith in
      (
        rw (rounds a v, len) (rw first (rw e (rw zero_index))),
        index_zero e 0 v.scale_pos,
        size_pos e,
      )

  -- While the first block is allocated and not full, `core_rtl_array_get_free_index` returns true
  -- and the first index that reads NULL.
  pub get_free_index_first :
      (b : Block)
      → get_elem? a.blocks 0 ≡ some (some b)
      → b.ref < a.scale
      → (n : ℕ) × (get_free_index a ≡ some (true, some n))
        × (array_get a n ≡ some 0)
        × ((m : ℕ) → m < n → array_get a m ≢ some 0)
  unfolding get_free_index free_loop
  get_free_index_first b e h =
      let first : 0 / a.scale ≡ 0 = div-eq_of_lt v.scale_pos in
      let (n, len) = more e in
      let ok = AllSlots-get a.scale a.blocks 0 v.slots e in
      let (k, k_lt, k_null) = has_free b.items (omega (arith, ok.full, ok.counted)) in
      let (i, found, le, null, least) =
        find_free_lem b.items a.scale 0 (omega (arith, ok.full)) k (omega arith) k_lt k_null in
      let i_lt : i < a.scale = omega (arith, ok.full) in
      let room : ltb b.ref a.scale ≡ true = ground arith in
      let fits : (0 * a.scale + i) % 2 ^ 32 ≡ i =
        omega (arith, i_lt, scale_lt a v 0 (size_pos e)) in
      (
        i,
        rw (rounds a v, len) (rw first (rw e (rw (room, found) (rw fits)))),
        index_zero e i i_lt ∙ null,
        λ m lt. rw (index_zero e m (omega arith)) (least m (omega arith) lt),
      )

-- The free indexes of one block.
abbrev pub free_items : ℕ → Option Block → ℕ
free_items scale none = scale
free_items scale (some b) = scale - b.ref

module _ (a : Array) (v : IsValid a) (c : Option Block) (e : get_elem? a.blocks 0 ≡ some c) where
  -- What the code adds in a round that looks at the block `d`.
  abbrev added : Option Block → ℕ
  added d = elim d [ none ↦ a.scale | some b ↦ a.scale + 2 ^ 32 - b.ref ]

  ref_le : (b : Block) → IsSlot a.scale (some b) → b.ref ≤ a.scale
  ref_le b ok = omega (arith, ok.full, ok.counted, count_used-le b.items)

  -- What one round adds, modulo 2^32.
  round : (ret : ℕ) → (ret + added c) % 2 ^ 32 ≡ (ret + free_items a.scale c) % 2 ^ 32
  round ret = go c (AllSlots-get a.scale a.blocks 0 v.slots e)
    where
      go :
          (d : Option Block)
          → IsSlot a.scale d
          → (ret + added d) % 2 ^ 32 ≡ (ret + free_items a.scale d) % 2 ^ 32
      go none ok = refl
      go (some b) ok = omega (arith, ref_le b ok)

  -- While `i / scale` is 0, each round adds the free indexes of the first block.
  free_num_loop_lem :
      (left i ret : ℕ)
      → i + left ≤ a.scale
      → ret < 2 ^ 32
      → free_num_loop a left i ret ≡ some ((ret + left * free_items a.scale c) % 2 ^ 32)
  unfolding free_num_loop
  free_num_loop_lem zero i ret h r = ap some (omega arith)
  free_num_loop_lem (suc left) i ret h r =
      let first : i / a.scale ≡ 0 = div-eq_of_lt (omega arith) in
      rw first (
        rw e (
          free_num_loop_lem left (i + 1) ((ret + added c) % 2 ^ 32) (omega arith) (omega arith)
          ∙ ap some (omega (arith, round ret))))

  free_items_le : free_items a.scale c ≤ a.scale
  free_items_le = go c
    where
      go : (d : Option Block) → free_items a.scale d ≤ a.scale
      go none = omega arith
      go (some b) = omega arith

-- On a table of at most `scale` blocks `core_rtl_array_get_free_index_num` returns the free indexes
-- of the first block, times the number of blocks.
get_free_index_num_first :
    (a : Array) (c : Option Block)
    → IsValid a
    → get_elem? a.blocks 0 ≡ some c
    → length a.blocks ≤ a.scale
    → get_free_index_num a ≡ some (length a.blocks * free_items a.scale c)
unfolding get_free_index_num
get_free_index_num_first a c v e h =
    let bound = mul-le-mul_left (length a.blocks) (free_items_le a v c e) in
    rw (rounds a v) (
      free_num_loop_lem a v c e (length a.blocks) 0 0 (omega arith) (omega arith)
      ∙ ap some (omega (arith, bound, v.size, v.small)))
