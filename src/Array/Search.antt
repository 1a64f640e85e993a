-- ===== src/Array/Search.antt =====
-- `core_rtl_array_get_used_index` finds the first index in use.
use native.Mathlib.Decide.{dec_lt}
use native.Mathlib.Nat.{
  mod-add-div', mod-lt, mul-le-mul_right, mul-add-div_right, mul-add-mod_self_right, div-eq_of_lt,
  mod-eq_of_lt, mul-div_left,
}
use mathlib.Core.Option
use sandnix.Prelude.{
  ℕ, zero, suc, ◌+◌, ◌-◌, ◌*◌, ◌/◌, ◌%◌, ◌^◌, ◌≤◌, ◌<◌, ◌≡◌, refl, ap, ◌∙◌, subst, Option, none,
  some, List, arith, ltb, if◌then◌else◌, length, get_elem?,
}
use sandnix.Array.{Block, Array, slot_item, array_get, find_used, used_loop, get_used_index}
use sandnix.Array.Inv.{AllSlots-get, IsValid, get_elem?-lt}
use sandnix.Array.Update.{array_get_slot}

-- `r` is the first index from `lo` below `hi` at which `f` reads a value other than NULL.
abbrev pub FirstUsed : (ℕ → Option ℕ) → ℕ → ℕ → Option ℕ → Type 0
FirstUsed f lo hi none = (i : ℕ) → lo ≤ i → i < hi → f i ≡ some 0
FirstUsed f lo hi (some i) =
    (lo ≤ i)
    × (i < hi)
    × ((x : ℕ) × (f i ≡ some (suc x)))
    × ((j : ℕ) → lo ≤ j → j < i → f j ≡ some 0)

module _ (f : ℕ → Option ℕ) where
  FirstUsed-skip :
      (lo mid hi : ℕ) (r : Option ℕ)
      → FirstUsed f lo mid none
      → lo ≤ mid
      → FirstUsed f mid hi r
      → FirstUsed f lo hi r
  FirstUsed-skip lo mid hi none before le after =
      λ i h k. elim (dec_lt i mid) [ yes p ↦ before i h p | no p ↦ after i (omega arith) k ]
  FirstUsed-skip lo mid hi (some n) before le (ge, lt, used, null) = (
    omega arith,
    lt,
    used,
    λ j h k. elim (dec_lt j mid) [ yes p ↦ before j h p | no p ↦ null j (omega arith) k ],
  )

  FirstUsed-extend :
      (lo mid hi i : ℕ) → FirstUsed f lo mid (some i) → mid ≤ hi → FirstUsed f lo hi (some i)
  FirstUsed-extend lo mid hi i (ge, lt, used, null) le = (ge, omega arith, used, null)

abbrev Finds : List ℕ → ℕ → ℕ → Type 0
Finds xs left j =
    (r : Option ℕ) × (find_used xs left j ≡ some r) × FirstUsed (get_elem? xs) j (j + left) r

-- One item that is NULL, in front of a search that goes on behind it.
find_used-null :
    (xs : List ℕ) (left j : ℕ)
    → get_elem? xs j ≡ some 0
    → Finds xs left (j + 1)
    → Finds xs (suc left) j
unfolding find_used
find_used-null xs left j e (r, q, first) = (
  r,
  rw e q,
  FirstUsed-skip (get_elem? xs) j (j + 1) (j + suc left) r (λ i p l. rw (one i p l) e) (omega arith)
      (subst (λ hi. FirstUsed (get_elem? xs) (j + 1) hi r) (omega arith) first),
)
  where
    one : (i : ℕ) → j ≤ i → i < j + 1 → i ≡ j
    one i p l = omega arith

-- The search in a block.
find_used_lem : (xs : List ℕ) (left j : ℕ) → j + left ≤ length xs → Finds xs left j
unfolding find_used
find_used_lem xs zero j h = (none, refl, λ i p q. absurd (omega arith))
find_used_lem xs (suc left) j h =
    let (x, e) = get_elem?-lt xs j (omega arith) in
    go x e (find_used_lem xs left (j + 1) (omega arith))
  where
    go : (x : ℕ) → get_elem? xs j ≡ some x → Finds xs left (j + 1) → Finds xs (suc left) j
    go zero e rest = find_used-null xs left j e rest
    go (suc x) e rest =
        (some j, ground arith, (omega arith, omega arith, (x, e), λ i p q. absurd (omega arith)))

module _ (a : Array) (v : IsValid a) where
  at_div : (i j : ℕ) → j < a.scale → (i * a.scale + j) / a.scale ≡ i
  at_div i j k = omega (arith, mul-add-div_right {m = a.scale} v.scale_pos i j, div-eq_of_lt k)

  at_mod : (i j : ℕ) → j < a.scale → (i * a.scale + j) % a.scale ≡ j
  at_mod i j k = omega (arith, mul-add-mod_self_right i a.scale j, mod-eq_of_lt k)

  at_lt : (i j : ℕ) → i < length a.blocks → j < a.scale → i * a.scale + j < a.size
  at_lt i j h k = omega (arith, mul-le-mul_right a.scale h, v.size)

  -- An index below the size is item `j` of a block `i`.
  pub array_get_at :
      (i j : ℕ) (c : Option Block)
      → get_elem? a.blocks i ≡ some c
      → i < length a.blocks
      → j < a.scale
      → array_get a (i * a.scale + j) ≡ slot_item c j
  array_get_at i j c e h k =
      array_get_slot a v (i * a.scale + j) (at_lt i j h k) c (rw (at_div i j k) e)
      ∙ ap (slot_item c) (at_mod i j k)

  null_at :
      (i from to : ℕ) (c : Option Block)
      → get_elem? a.blocks i ≡ some c
      → i < length a.blocks
      → to ≤ a.scale
      → ((j : ℕ) → from ≤ j → j < to → slot_item c j ≡ some 0)
      → (n : ℕ) → i * a.scale + from ≤ n
      → n < i * a.scale + to
      → array_get a n ≡ some 0
  null_at i from to c e h le null n p q =
      let (j, n_eq) = split in
      rw n_eq (array_get_at i j c e h (omega arith) ∙ null j (omega arith) (omega arith))
    where
      split : (j : ℕ) × (n ≡ i * a.scale + j)
      split = (n - i * a.scale, omega arith)

  -- What a search of block `i` from item `from` says of the array.
  in_block :
      (i from : ℕ) (c : Option Block) (r : Option ℕ)
      → get_elem? a.blocks i ≡ some c
      → i < length a.blocks
      → FirstUsed (slot_item c) from a.scale r
      → FirstUsed
          (array_get a)
          (i * a.scale + from)
          (suc i * a.scale)
          (Option.map (λ j. i * a.scale + j) r)
  in_block i from c none e h first =
      λ n p q. null_at i from a.scale c e h (omega arith) first n p (omega arith)
  in_block i from c (some j) e h (ge, lt, (x, used), null) = (
    omega arith,
    omega arith,
    (x, array_get_at i j c e h lt ∙ used),
    λ n p q. null_at i from j c e h (omega arith) null n p q,
  )

  -- The item that the search of block `i` begins with.
  abbrev from_item : ℕ → ℕ → ℕ
  from_item begin i = if ltb (begin / a.scale) i then 0 else begin % a.scale

  abbrev Found : ℕ → ℕ → ℕ → ℕ → Type 0
  Found begin left i lo =
      (r : Option ℕ) × (used_loop a begin left i ≡ some r) × FirstUsed (array_get a) lo a.size r

  module _ (begin left i : ℕ) (h : i < length a.blocks)
      (rest : Found begin left (i + 1) (suc i * a.scale)) where
    from_lt : (from_item begin i) < a.scale
    from_lt = ground (arith, mod-lt begin v.scale_pos)

    passed :
        FirstUsed (array_get a) (i * a.scale + (from_item begin i)) (suc i * a.scale) none
        → FirstUsed (array_get a) (i * a.scale + (from_item begin i)) a.size (rest.0)
    passed none_here =
        FirstUsed-skip (array_get a) (i * a.scale + (from_item begin i)) (suc i * a.scale) a.size
          (rest.0) none_here (omega (arith, from_lt)) (rest.2)

    size_le : suc i * a.scale ≤ a.size
    size_le = rw v.size (mul-le-mul_right a.scale h)

    used_step :
        (c : Option Block)
        → get_elem? a.blocks i ≡ some c
        → Found begin (suc left) i (i * a.scale + (from_item begin i))
    unfolding used_loop
    used_step none e = (
      rest.0,
      rw e (rest.1),
      passed (in_block i (from_item begin i) none none e h (λ j p q. refl)),
    )
    used_step (some b) e = go (found.0) (found.1) (found.2)
      where
        full : length b.items ≡ a.scale
        full = (AllSlots-get a.scale a.blocks i v.slots e).full

        found : Finds b.items (a.scale - (from_item begin i)) (from_item begin i)
        found =
            find_used_lem b.items (a.scale - (from_item begin i)) (from_item begin i)
              (omega (arith, full, from_lt))

        go :
            (r : Option ℕ)
            → find_used b.items (a.scale - (from_item begin i)) (from_item begin i) ≡ some r
            → FirstUsed
                (get_elem? b.items)
                (from_item begin i)
                ((from_item begin i) + (a.scale - (from_item begin i)))
                r
            → Found begin (suc left) i (i * a.scale + (from_item begin i))
        go none q first =
            let first' =
              subst (λ hi. FirstUsed (get_elem? b.items) (from_item begin i) hi none)
                (omega (arith, from_lt)) first in
            (
              rest.0,
              rw (e, q) (rest.1),
              passed (in_block i (from_item begin i) (some b) none e h first'),
            )
        go (some j) q first =
            let same : from_item begin i + (a.scale - from_item begin i) ≡ a.scale =
              omega (arith, from_lt) in
            let first' =
              subst (λ hi. FirstUsed (get_elem? b.items) (from_item begin i) hi (some j)) same
                first in
            let here = in_block i (from_item begin i) (some b) (some j) e h first' in
            let lt = here.1 in
            let small : i * a.scale + j < 2 ^ 32 = omega (arith, lt, size_le, v.small) in
            (
              some (i * a.scale + j),
              rw (e, q) (ap (λ n. some (some n)) (mod-eq_of_lt small)),
              FirstUsed-extend (array_get a) (i * a.scale + (from_item begin i)) (suc i * a.scale)
                  a.size (i * a.scale + j) here size_le,
            )

  -- One round in front of the rest, from the index `lo` on.
  used_round :
      (begin left i lo : ℕ)
      → i < length a.blocks
      → i * a.scale + from_item begin i ≡ lo
      → Found begin left (i + 1) ((i + 1) * a.scale)
      → Found begin (suc left) i lo
  used_round begin left i lo h start rest =
      let (c, e) = get_elem?-lt a.blocks i h in
      let next : i + 1 ≡ suc i = omega arith in
      let rest' : Found begin left (i + 1) (suc i * a.scale) =
        subst (λ n. Found begin left (i + 1) (n * a.scale)) next rest in
      subst (Found begin (suc left) i) start (used_step begin left i h rest' c e)

  -- The rounds behind the first.
  later :
      (begin left i : ℕ)
      → begin / a.scale < i
      → i + left ≡ length a.blocks
      → Found begin left i (i * a.scale)
  unfolding used_loop
  later begin zero i past end =
      (none, refl, λ n p q. absurd (omega (arith, v.size, ap (λ (k : ℕ). k * a.scale) end)))
  later begin (suc left) i past end =
      used_round begin left i (i * a.scale) (omega arith) (ground arith)
        (later begin left (i + 1) (omega arith) (omega arith))

  -- `core_rtl_array_get_used_index` reads inside the array only, and finds the first index from
  -- `begin` on at which `core_rtl_array_get` is not NULL; it returns false when there is none.
  pub get_used_index-FirstUsed :
      (begin : ℕ)
      → (r : Option ℕ) × (get_used_index a begin ≡ some r) × FirstUsed (array_get a) begin a.size r
  unfolding get_used_index
  get_used_index-FirstUsed begin = rw blocks_eq (elim (dec_lt first (length a.blocks)) [
    | yes inside ↦ from_first inside
    | no past ↦
        let over : length a.blocks * a.scale ≤ first * a.scale =
          mul-le-mul_right a.scale (omega arith) in
        let none_left : length a.blocks - first ≡ 0 = omega arith in
        rw none_left
          (none, unfold used_loop in refl, λ n p q. absurd (omega (arith, over, v.size, whole)))
  ])
    where
      first : ℕ
      first = begin / a.scale

      whole : begin % a.scale + first * a.scale ≡ begin
      whole = mod-add-div' begin a.scale

      blocks_eq : a.size / a.scale ≡ length a.blocks
      blocks_eq = rw v.size (mul-div_left (length a.blocks) v.scale_pos)

      start : first * a.scale + from_item begin first ≡ begin
      start = ground (arith, whole)

      from_first : first < length a.blocks → Found begin (length a.blocks - first) first begin
      from_first inside =
          let (left, left_eq) = left_of inside in
          rw left_eq (
            used_round begin left first begin inside start
              (later begin left (first + 1) (omega arith) (omega arith)))
        where
          left_of : first < length a.blocks → (left : ℕ) × (length a.blocks - first ≡ suc left)
          left_of h = (length a.blocks - first - 1, omega arith)
