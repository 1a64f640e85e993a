-- ===== src/Copy/Fill.antt =====
-- `core_rtl_memset`.
use native.Mathlib.Nat.{mod-add-div', add-mul-mod_self_right, mod-mod_of_dvd, dvd_of_mod-eq-zero}
use sandnix.Prelude.{
  ℕ, ◌+◌, ◌*◌, ◌/◌, ◌%◌, ◌^◌, ◌≤◌, ◌<◌, ◌≡◌, refl, sym, ap, ◌∙◌, ◌==◌, inl, inr, arith, ltb, leb,
  if◌then◌else◌, Bool-cases, ◌-◌,
}
use sandnix.Bytes.{Bytes, filled, sets, setsq}
use sandnix.Bytes.Filled.{filled_none, filled-up, sets_lem, setsq_lem}
use sandnix.Copy.{Filling, Fill, fill_align, fill_units, fill_stage, memset}

-- How many bytes lie in front of the next multiple of 8.
abbrev pub gap : ℕ → ℕ
gap dest = if dest % 8 == 0 then 0 else 8 - dest % 8

-- How many bytes are set: the size wraps round where it is less than the gap.
abbrev pub reach : (dest size : ℕ) → ℕ
reach dest size = if ltb size (gap dest) then size + 2 ^ 32 else size

abbrev pub FillsUnits : ℕ → Fill → Type 0
FillsUnits width fill = (n d v : ℕ) (m : Bytes) → fill n d v m ≡ filled d (n * width) v m

module _ (d v n : ℕ) (m : Bytes) where
  -- The first `done` bytes are set.
  record Fills (f : Filling) : Type 0 where
    done : ℕ
    dest : f.dest ≡ (d + done) % 2 ^ 32
    size : done + f.size ≡ n
    memory : f.memory ≡ filled d done v m

  fill_units-Fills :
      (width : ℕ) (fill : Fill)
      → FillsUnits width fill
      → (f : Filling) → Fills f
      → Fills (fill_units width fill v f)
  unfolding fill_units
  fill_units-Fills width fill units f c = elim (Bool-cases (leb width f.size)) [
    | inl e ↦
        let le : f.size / width * width ≤ f.size = omega (arith, mod-add-div' f.size width) in
        rw e (record {
          done = c.done + f.size / width * width;
          dest = omega (arith, c.dest);
          size = omega (arith, c.size);
          memory =
              units (f.size / width) f.dest v f.memory
              ∙ rw (c.dest, c.memory) (filled-up d c.done (f.size / width * width) v m);
        })
    | inr e ↦ rw e c
  ]

  fill_units-dest :
      (width : ℕ)
      → 2 ^ 32 % width ≡ 0
      → (fill : Fill) (f : Filling) → (fill_units width fill v f).dest % width ≡ f.dest % width
  unfolding fill_units
  fill_units-dest width whole fill f = elim (Bool-cases (leb width f.size)) [
    | inl e ↦ rw e (
        mod-mod_of_dvd width (f.dest + f.size / width * width) (dvd_of_mod-eq-zero width whole)
        ∙ add-mul-mod_self_right f.dest (f.size / width) width)
    | inr e ↦ rw e
  ]

  -- A later alignment finds the pointer aligned.
  fill_align-aligned : (width : ℕ) (f : Filling) → f.dest % width ≡ 0 → fill_align width d v f ≡ f
  unfolding fill_align
  fill_align-aligned width f e = rw e

  fill_stage-Fills :
      (width : ℕ) (fill : Fill)
      → FillsUnits width fill
      → (f : Filling) → f.dest % width ≡ 0
      → Fills f
      → Fills (fill_stage width fill d v f)
  fill_stage-Fills width fill units f e c =
      rw (fill_align-aligned width f e) (fill_units-Fills width fill units f c)

  fill_stage-dest :
      (width : ℕ)
      → 2 ^ 32 % width ≡ 0
      → (fill : Fill) (f : Filling) → f.dest % width ≡ 0
      → (fill_stage width fill d v f).dest % width ≡ 0
  fill_stage-dest width whole fill f e =
      rw (fill_align-aligned width f e) (fill_units-dest width whole fill f ∙ e)

  fill_rest :
      (f : Filling)
      → Fills f
      → (if leb 1 f.size then sets 1 f.size f.dest v f.memory else f.memory) ≡ filled d n v m
  fill_rest f c = elim (Bool-cases (leb 1 f.size)) [
    | inl e ↦
        let step : filled f.dest (f.size * 1) v f.memory ≡ filled d (c.done + f.size * 1) v m =
          rw (c.dest, c.memory) (filled-up d c.done (f.size * 1) v m) in
        rw e (
          sets_lem 1 f.size f.dest v f.memory
          ∙ step
          ∙ ap (λ k. filled d k v m) (omega (arith, c.size)))
    | inr e ↦
        let empty : f.size ≡ 0 = ground arith in
        rw e (c.memory ∙ ap (λ k. filled d k v m) (omega (arith, c.size)))
  ]

module _ (d v size : ℕ) (m : Bytes) (start : d < 2 ^ 32) (fits : size < 2 ^ 32) where
  abbrev begin : Filling
  begin = record { dest = d; size = size; memory = m }

  fill_align-first :
      Fills d v (reach d size) m (fill_align 8 d v begin) × ((fill_align 8 d v begin).dest % 8 ≡ 0)
  unfolding fill_align
  fill_align-first = elim (Bool-cases (d % 8 == 0)) [
    | inl e ↦ rw e (
      record {
        done = 0;
        dest = omega arith;
        size = ground arith;
        memory = sym (filled_none d v m);
      },
      ground arith,
    )
    | inr e ↦
        let one : (8 - d % 8) * 1 ≡ 8 - d % 8 = omega arith in
        rw e (
          record {
            done = 8 - d % 8;
            dest = refl;
            size = ground arith;
            memory = sets_lem 1 (8 - d % 8) d v m ∙ ap (λ k. filled d k v m) one;
          },
          omega arith,
        )
  ]

-- On addresses modulo 2^32, for an address and a size below 2^32, `core_rtl_memset` sets `size`
-- bytes from `dest` on and changes nothing else where the region reaches to the next multiple of 8.
-- Where a region on an unaligned address is shorter, it sets `size` + 2^32 bytes, which is the whole
-- memory.
pub memset-filled :
    (dest value size : ℕ) (m : Bytes)
    → dest < 2 ^ 32
    → size < 2 ^ 32
    → memset dest value size m ≡ filled dest (reach dest size) value m
unfolding memset
memset-filled d v size m start fits =
    let n = reach d size in
    let (filling, aligned) = fill_align-first d v size m start fits in
    let f8 = fill_units 8 setsq v (fill_align 8 d v (begin d v size m start fits)) in
    let at8 = fill_units-Fills d v n m 8 setsq setsq_lem _ filling in
    let end8 =
      fill_units-dest d v n m 8 (omega arith) setsq (fill_align 8 d v (begin d v size m start fits))
      ∙ aligned in
    let end4 = fill_stage-dest d v n m 4 (omega arith) (sets 4) f8 (omega (arith, end8)) in
    fill_rest d v n m _ (
      fill_stage-Fills d v n m 2 (sets 2) (sets_lem 2) _ (omega (arith, end4))
        (fill_stage-Fills d v n m 4 (sets 4) (sets_lem 4) f8 (omega (arith, end8)) at8))
