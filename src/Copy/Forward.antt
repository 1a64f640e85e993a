-- ===== src/Copy/Forward.antt =====
-- `core_rtl_memcpy` copies the region, where it may be copied upwards.
use native.Mathlib.Nat.{mod-add-div'}
use sandnix.Prelude.{
  ℕ, ◌+◌, ◌*◌, ◌/◌, ◌%◌, ◌≤◌, ◌<◌, ◌≡◌, sym, ap, ◌∙◌, ◌&&◌, ◌==◌, inl, inr, arith, ltb, leb,
  Bool-cases, ◌-◌,
}
use sandnix.Bytes.{Bytes, moved, movs, movsq}
use sandnix.Bytes.Moved.{
  IsForward, IsForward-less, IsForward-more, moved_none, moved-up, movs_lem, movsq_lem,
}
use sandnix.Copy.{Regs, Move, advance, copy_units, copy_stage, copy_rest, memcpy}

-- A move of units is a move of the region.
abbrev pub IsUpward : ℕ → Move → Type 0
IsUpward width move =
    (n d s : ℕ) (m : Bytes) → IsForward d s (n * width) → move n d s m ≡ moved d s (n * width) m

module _ (d s n : ℕ) (m : Bytes) (f : IsForward d s n) where
  -- The first `done` bytes are copied.
  record Copies (r : Regs) : Type 0 where
    done : ℕ
    dest : r.dest ≡ d + done
    source : r.source ≡ s + done
    size : done + r.size ≡ n
    memory : r.memory ≡ moved d s done m

  forward : (r : Regs) (c : Copies r) (len : ℕ) → len ≤ r.size → IsForward r.dest r.source len
  forward r c len le =
      rw (c.dest, c.source) (IsForward-more d s c.done len n (omega (arith, c.size)) f)

  advance-Copies :
      (r : Regs) (c : Copies r) (len : ℕ) (memory : Bytes)
      → len ≤ r.size
      → memory ≡ moved r.dest r.source len r.memory
      → Copies (advance len memory r)
  advance-Copies r c len memory le e = record {
    done = c.done + len;
    dest = omega (arith, c.dest);
    source = omega (arith, c.source);
    size = omega (arith, c.size);
    memory =
        e
        ∙ rw (c.dest, c.source, c.memory)
            (moved-up d s c.done len m
              (IsForward-less d s (c.done + len) n (omega (arith, c.size)) f));
  }

  copy_units-Copies :
      (width : ℕ) (move : Move)
      → IsUpward width move
      → (r : Regs) → Copies r
      → Copies (copy_units width move r)
  unfolding copy_units
  copy_units-Copies width move up r c = elim (Bool-cases (leb width r.size)) [
    | inl e ↦
        let le : r.size / width * width ≤ r.size = omega (arith, mod-add-div' r.size width) in
        rw e (
          advance-Copies r c (r.size / width * width) _ le
            (up (r.size / width) r.dest r.source r.memory (forward r c _ le)))
    | inr e ↦ rw e c
  ]

  copy_stage-Copies :
      (width : ℕ) (move : Move)
      → 0 < width
      → IsUpward width move
      → (r : Regs) → Copies r
      → Copies (copy_stage width move r)
  unfolding copy_stage
  copy_stage-Copies width move pos up r c =
      elim (Bool-cases (r.dest % width == r.source % width && ltb width r.size)) [
        | inl e ↦
            let len = width - r.dest % width in
            let more : width < r.size = ground arith in
            let le : width - r.dest % width ≤ r.size = omega arith in
            let one : (width - r.dest % width) * 1 ≡ width - r.dest % width = omega arith in
            rw e (
              copy_units-Copies width move up _ (
                advance-Copies r c (width - r.dest % width) _ le (
                  movs_lem 1 (width - r.dest % width) r.dest r.source r.memory
                    (rw one (forward r c _ le))
                  ∙ ap (λ k. moved r.dest r.source k r.memory) one)))
        | inr e ↦ rw e c
      ]

  copy_rest_lem : (r : Regs) → Copies r → copy_rest r ≡ moved d s n m
  unfolding copy_rest
  copy_rest_lem r c = elim (Bool-cases (leb 1 r.size)) [
    | inl e ↦
        let one : r.size * 1 ≡ r.size = omega arith in
        let all = advance-Copies r c r.size _ (omega arith) (
          movs_lem 1 r.size r.dest r.source r.memory (rw one (forward r c _ (omega arith)))
          ∙ ap (λ k. moved r.dest r.source k r.memory) one) in
        rw e (all.memory ∙ ap (λ k. moved d s k m) (omega (arith, c.size)))
    | inr e ↦
        let empty : r.size ≡ 0 = ground arith in
        rw e (c.memory ∙ ap (λ k. moved d s k m) (omega (arith, c.size)))
  ]

-- Where the destination is not above the source, or the regions do not overlap,
-- `core_rtl_memcpy` leaves in the destination what was in the source, and changes nothing else.
pub memcpy-moved :
    (dest source size : ℕ) (m : Bytes)
    → IsForward dest source size
    → memcpy dest source size m ≡ moved dest source size m
unfolding memcpy
memcpy-moved d s n m f = copy_rest_lem d s n m f _ (
    copy_stage-Copies d s n m f 2 (movs 2) (omega arith) (movs_lem 2) _ (
      copy_stage-Copies d s n m f 4 (movs 4) (omega arith) (movs_lem 4) _ (
        copy_stage-Copies d s n m f 8 movsq (omega arith) movsq_lem _ (record {
          done = 0;
          dest = omega arith;
          source = omega arith;
          size = omega arith;
          memory = sym (moved_none d s m);
        }))))
