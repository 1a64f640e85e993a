-- ===== src/Array/Init.antt =====
-- `core_rtl_array_init`.
use native.Mathlib.Nat.{pow-suc, one-le-pow, pow-le-pow_right, mul-div_left}
use sandnix.Prelude.{
  ℕ, zero, suc, ◌+◌, ◌-◌, ◌*◌, ◌/◌, ◌^◌, ◌≤◌, ◌<◌, ◌≡◌, refl, ◌∙◌, true, none, some, arith, ◌==◌,
  replicate, length-replicate, Option, get_elem?, Bool-cases, inl, inr, ap,
}
use sandnix.Array.{Array, bit_count, size_bits, array_init, array_get, Block}
use sandnix.Array.Inv.{AllSlots, IsValid}
use sandnix.Array.Update.{array_get_beyond, array_get_slot, block_lt}
use native.Mathlib.Decide.{dec_le}

pow_add : (m n : ℕ) → 2 ^ (m + n) ≡ 2 ^ m * 2 ^ n
pow_add m zero = let e : m + 0 ≡ m = omega arith in rw e (omega arith)
pow_add m (suc n) =
    let e : m + suc n ≡ suc (m + n) = omega arith in
    rw e (
      rw (pow-suc 2 (m + n))
        (rw (pow-suc 2 n) (omega (arith, ap (λ (t : ℕ). t * 2) (pow_add m n)))))

-- The loop counts the bits of a number below `2 ^ k`, and ends by its test.
bit_count_lem :
    (fuel k n count : ℕ)
    → n < 2 ^ k
    → k < fuel
    → (b : ℕ) × (bit_count fuel n count ≡ count + b) × (b ≤ k) × (n < 2 ^ b)
unfolding bit_count
bit_count_lem zero k n count h f = elim f [ ]
bit_count_lem (suc fuel) zero n count h f = (0, ground arith, omega arith, h)
bit_count_lem (suc fuel) (suc k) n count h f = elim (Bool-cases (n == 0)) [
  | inl done ↦ (0, rw done (omega arith), omega arith, ground arith)
  | inr more ↦
      let h' : n < 2 ^ k * 2 = rw pow-suc at h in
      let (b, e, le, lt) = bit_count_lem fuel k (n / 2) (count + 1) (omega arith) (omega arith) in
      (suc b, rw more (omega (arith, e)), omega arith, rw (pow-suc 2 b) (omega arith))
]

AllSlots-replicate : (scale n : ℕ) → AllSlots scale (replicate n none)
AllSlots-replicate scale zero = tt
AllSlots-replicate scale (suc n) = (tt, AllSlots-replicate scale n)

-- `num - (1 << count) > 0` holds for every `num`, so the exponent is one more than the bits.
size_bits_lem :
    (num : ℕ) → num < 2 ^ 30 → (b : ℕ) × (size_bits num ≡ suc b) × (b ≤ 30) × (num < 2 ^ b)
unfolding size_bits
size_bits_lem num h =
    let (b, e, le, lt) = bit_count_lem 32 30 num 0 h (omega arith) in
    let e' : bit_count 32 num 0 ≡ b = omega (arith, e) in
    let small : 2 ^ b ≤ 2 ^ 30 = pow-le-pow_right (omega arith) le in
    (b, rw e' (ground arith), le, lt)

-- The array of `core_rtl_array_init` with the size `2 ^ bits`.
abbrev table : ℕ → Array
table bits = record {
  size = 2 ^ bits;
  scale = 2 ^ (bits / 2);
  blocks = replicate (2 ^ bits / 2 ^ (bits / 2)) none;
}

table-IsValid : (bits : ℕ) → bits < 32 → IsValid (table bits)
table-IsValid bits h =
    let pos : 0 < 2 ^ (bits / 2) = one-le-pow (bits / 2) 2 (omega arith) in
    let split : 2 ^ bits ≡ 2 ^ (bits - bits / 2) * 2 ^ (bits / 2) =
      ap (λ n. 2 ^ n) (omega arith) ∙ pow_add (bits - bits / 2) (bits / 2) in
    let quotient : 2 ^ bits / 2 ^ (bits / 2) ≡ 2 ^ (bits - bits / 2) =
      rw split (mul-div_left (2 ^ (bits - bits / 2)) pos) in
    let most : 2 ^ bits ≤ 2 ^ 31 = pow-le-pow_right (omega arith) {j = 31} (omega arith) in
    record {
      scale_pos = pos;
      size = rw length-replicate (rw quotient split);
      small = omega arith;
      slots = AllSlots-replicate (2 ^ (bits / 2)) (2 ^ bits / 2 ^ (bits / 2));
    }

array_get-replicate :
    (n k : ℕ) → k < n → get_elem? {A = Option Block} (replicate n none) k ≡ some none
array_get-replicate zero k h = elim h [ ]
array_get-replicate (suc n) zero h = refl
array_get-replicate (suc n) (suc k) h = array_get-replicate n k (omega arith)

table_null : (bits i : ℕ) → bits < 32 → array_get (table bits) i ≡ some 0
table_null bits i h = elim (dec_le (2 ^ bits) i) [
  | yes p ↦ array_get_beyond (table bits) i p
  | no p ↦
      let v = table-IsValid bits h in
      let below : i < 2 ^ bits = omega arith in
      array_get_slot (table bits) v i below none
        (array_get-replicate _ _ (rw length-replicate at (block_lt (table bits) v i below)))
]

-- For fewer than 2^30 items `core_rtl_array_init` makes a well-formed array with room for more
-- than twice as many, where every index reads NULL.
pub array_init-IsValid :
    (num : ℕ)
    → num < 2 ^ 30
    → (a : Array) × (array_init num true ≡ some a)
      × IsValid a
      × (2 * num < a.size)
      × ((i : ℕ) → array_get a i ≡ some 0)
unfolding array_init
array_init-IsValid num h =
    let (b, e, le, lt) = size_bits_lem num h in
    let room : 2 * num < 2 ^ size_bits num = rw e (rw pow-suc (omega arith)) in
    (
      table (size_bits num),
      refl,
      table-IsValid (size_bits num) (rw e (omega arith)),
      room,
      λ i. table_null (size_bits num) i (rw e (omega arith)),
    )
