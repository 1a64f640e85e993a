-- ===== src/Copy/Backward.antt =====
-- `core_rtl_memmove` moves the region, whether or not source and destination overlap.
use native.Mathlib.Nat.{mod-add-div', mod-lt}
use sandnix.Prelude.{
  ℕ, ◌+◌, ◌*◌, ◌/◌, ◌%◌, ◌≤◌, ◌<◌, ◌≡◌, refl, sym, ap, ◌∙◌, ◌&&◌, ◌==◌, inl, inr, arith, ltb, leb,
  Bool-cases, ◌-◌,
}
use sandnix.Bytes.{Bytes, moved, movs_back, movsq_back}
use sandnix.Bytes.Moved.{
  moved_none, moved_same, moved_ap, moved-down, movs_back_lem, movsq_back_lem,
}
use sandnix.Copy.{Regs, Move, retreat, back_units, back_align, back_stage, back_rest, memmove}
use sandnix.Copy.Forward.{memcpy-moved}

-- A move of units is a move of the region.
abbrev pub IsDownward : ℕ → Move → Type 0
IsDownward width move = (n d s : ℕ) (m : Bytes) → s ≤ d → move n d s m ≡ moved d s (n * width) m

module _ (d s n : ℕ) (m : Bytes) (le : s ≤ d) where
  -- The bytes behind the first `r.size` are moved.
  record Moves (r : Regs) : Type 0 where
    done : ℕ
    dest : r.dest ≡ d + r.size
    source : r.source ≡ s + r.size
    size : r.size + done ≡ n
    memory : r.memory ≡ moved (d + r.size) (s + r.size) done m

  retreat-Moves :
      (r : Regs) (c : Moves r) (width : ℕ) (move : Move) (count : ℕ)
      → IsDownward width move
      → count * width ≤ r.size
      → Moves (retreat (count * width) move count r)
  retreat-Moves r c width move count down fits = record {
    done = count * width + c.done;
    dest = omega (arith, c.dest);
    source = omega (arith, c.source);
    size = omega (arith, c.size);
    memory =
        let to : r.dest - count * width ≡ d + (r.size - count * width) = omega (arith, c.dest) in
        let from : r.source - count * width ≡ s + (r.size - count * width) =
          omega (arith, c.source) in
        let to' : d + r.size ≡ d + (r.size - count * width) + count * width = omega arith in
        let from' : s + r.size ≡ s + (r.size - count * width) + count * width = omega arith in
        rw (to, from)
          (down count _ _ r.memory (omega arith)
            ∙ ap (moved _ _ (count * width)) (c.memory ∙ moved_ap m to' from' refl)
            ∙ moved-down (d + (r.size - count * width)) (s + (r.size - count * width))
                (count * width) c.done m (omega arith));
  }

  back_units-Moves :
      (width : ℕ) (move : Move)
      → IsDownward width move
      → (r : Regs) → Moves r
      → Moves (back_units width move r)
  unfolding back_units
  back_units-Moves width move down r c = elim (Bool-cases (leb width r.size)) [
    | inl e ↦ rw e (
        retreat-Moves r c width move (r.size / width) down
          (omega (arith, mod-add-div' r.size width)))
    | inr e ↦ rw e c
  ]

  back_align-Moves :
      (width : ℕ) → (r : Regs) → r.dest % width ≤ r.size → Moves r → Moves (back_align width r)
  unfolding back_align
  back_align-Moves width r fits c = elim (Bool-cases (ltb 0 (r.dest % width))) [
    | inl e ↦
        let one : r.dest % width * 1 ≡ r.dest % width = omega arith in
        rw e (
          rw one at
            (retreat-Moves r c 1 (movs_back 1) (r.dest % width) (movs_back_lem 1) (omega arith)))
    | inr e ↦ rw e c
  ]

  back_stage-Moves :
      (width : ℕ) (move : Move)
      → 0 < width
      → IsDownward width move
      → (r : Regs) → Moves r
      → Moves (back_stage width move r)
  unfolding back_stage
  back_stage-Moves width move pos down r c =
      elim (Bool-cases (r.dest % width == r.source % width && ltb width r.size)) [
        | inl e ↦
            let more : width < r.size = ground arith in
            rw e (
              back_units-Moves width move down _
                (back_align-Moves width r (omega (arith, mod-lt r.dest pos)) c))
        | inr e ↦ rw e c
      ]

  back_rest_lem : (r : Regs) → Moves r → back_rest r ≡ moved d s n m
  unfolding back_rest
  back_rest_lem r c = elim (Bool-cases (leb 1 r.size)) [
    | inl e ↦
        let one : r.size * 1 ≡ r.size = omega arith in
        let all =
          rw one at (retreat-Moves r c 1 (movs_back 1) r.size (movs_back_lem 1) (omega arith)) in
        rw e (all.memory ∙ moved_ap m (omega arith) (omega arith) (omega (arith, c.size)))
    | inr e ↦
        let empty : r.size ≡ 0 = ground arith in
        rw e (c.memory ∙ moved_ap m (omega arith) (omega arith) (omega (arith, c.size)))
  ]

-- `core_rtl_memmove` leaves in the destination what was in the source, and changes nothing else,
-- whether or not the regions overlap.
pub memmove-moved :
    (dest source size : ℕ) (m : Bytes) → memmove dest source size m ≡ moved dest source size m
unfolding memmove
memmove-moved d s n m = elim (Bool-cases (ltb d s)) [
  | inl below ↦ rw below (memcpy-moved d s n m (inl (ground arith)))
  | inr above ↦ elim (Bool-cases (ltb s d)) [
    | inl e ↦
        let le : s ≤ d = ground arith in
        rw above (
          rw e (
            back_rest_lem d s n m le _ (
              back_stage-Moves d s n m le 2 (movs_back 2) (omega arith) (movs_back_lem 2) _ (
                back_stage-Moves d s n m le 4 (movs_back 4) (omega arith) (movs_back_lem 4) _ (
                  back_stage-Moves d s n m le 8 movsq_back (omega arith) movsq_back_lem _ (record {
                    done = 0;
                    dest = refl;
                    source = refl;
                    size = omega arith;
                    memory = sym (moved_none (d + n) (s + n) m);
                  }))))))
    | inr e ↦ let same : d ≡ s = ground arith in rw above (rw e (rw same (sym (moved_same s n m))))
  ]
]
