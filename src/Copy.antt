-- ===== src/Copy.antt =====
-- core/rtl/string/string.c: core_rtl_memcpy, core_rtl_memmove and core_rtl_memset, on the string
-- instructions of Bytes.antt. `size_t` has 32 bits.
pub mod Forward
pub mod Backward
pub mod Fill
mod Tests
use sandnix.Prelude.{
  ℕ, zero, suc, ◌+◌, ◌-◌, ◌*◌, ◌/◌, ◌%◌, ◌^◌, Bool, ◌&&◌, ◌==◌, ltb, leb, not, if◌then◌else◌,
}
use sandnix.Bytes.{Bytes, movs, movs_back, movsq, movsq_back, sets, setsq}

-- The local variables `p_dest`, `p_src` and `size`, and the memory.
pub record Regs : Type 0 where
  pub dest : ℕ
  pub source : ℕ
  pub size : ℕ
  pub memory : Bytes

-- The instruction for units of 8, 4 and 2 bytes.
abbrev pub Move : Type 0
Move = (count dest source : ℕ) → Bytes → Bytes

-- Some bytes upwards, and the pointers behind them.
abbrev pub advance : ℕ → Bytes → Regs → Regs
advance len memory r = record {
  dest = r.dest + len;
  source = r.source + len;
  size = r.size - len;
  memory = memory;
}

-- "Copy 8 bytes each time", if there are as many.
pub copy_units : (width : ℕ) → Move → Regs → Regs
copy_units width move r =
    if leb width r.size
    then advance (r.size / width * width) (move (r.size / width) r.dest r.source r.memory) r
    else r

-- "Align the address", then copy units. The two pointers have the same remainder.
pub copy_stage : (width : ℕ) → Move → Regs → Regs
copy_stage width move r =
    let len = width - r.dest % width in
    if r.dest % width == r.source % width && ltb width r.size
    then copy_units width move (advance len (movs 1 len r.dest r.source r.memory) r)
    else r

-- "if(size >= 1)"
pub copy_rest : Regs → Bytes
copy_rest r = if leb 1 r.size then movs 1 r.size r.dest r.source r.memory else r.memory

pub memcpy : (dest source size : ℕ) → Bytes → Bytes
memcpy dest source size m = copy_rest (
    copy_stage 2 (movs 2) (
      copy_stage 4 (movs 4)
        (copy_stage 8 movsq (record { dest = dest; source = source; size = size; memory = m }))))

-- Some bytes downwards: the pointers go back in front of them.
abbrev pub retreat : ℕ → Move → ℕ → Regs → Regs
retreat len move count r = record {
  dest = r.dest - len;
  source = r.source - len;
  size = r.size - len;
  memory = move count (r.dest - len) (r.source - len) r.memory;
}

pub back_units : (width : ℕ) → Move → Regs → Regs
back_units width move r =
    if leb width r.size then retreat (r.size / width * width) move (r.size / width) r else r

pub back_align : (width : ℕ) → Regs → Regs
back_align width r =
    let len = r.dest % width in if ltb 0 len then retreat len (movs_back 1) len r else r

pub back_stage : (width : ℕ) → Move → Regs → Regs
back_stage width move r =
    if r.dest % width == r.source % width && ltb width r.size
    then back_units width move (back_align width r)
    else r

pub back_rest : Regs → Bytes
back_rest r =
    if leb 1 r.size
    then movs_back 1 r.size (r.dest - r.size) (r.source - r.size) r.memory
    else r.memory

pub memmove : (dest source size : ℕ) → Bytes → Bytes
memmove dest source size m =
    if ltb dest source
    then memcpy dest source size m
    else if ltb source dest
    then back_rest (
        back_stage 2 (movs_back 2) (
          back_stage 4 (movs_back 4) (
            back_stage 8 movsq_back
              (record { dest = dest + size; source = source + size; size = size; memory = m }))))
    else m

-- The pointer, the size and the memory while a region is set. The pointer and the size have 32
-- bits.
pub record Filling : Type 0 where
  pub dest : ℕ
  pub size : ℕ
  pub memory : Bytes

abbrev pub Fill : Type 0
Fill = (count dest value : ℕ) → Bytes → Bytes

-- The bytes up to the next multiple of `width`: the test looks at `p_dest`, the length at `dest`,
-- and the size wraps round.
pub fill_align : (width start value : ℕ) → Filling → Filling
fill_align width start value f =
    let len = width - start % width in
    if not (f.dest % width == 0)
    then record {
      dest = (f.dest + len) % 2 ^ 32;
      size = (f.size + 2 ^ 32 - len) % 2 ^ 32;
      memory = sets 1 len f.dest value f.memory;
    }
    else f

pub fill_units : (width : ℕ) → Fill → (value : ℕ) → Filling → Filling
fill_units width fill value f =
    let len = f.size / width * width in
    if leb width f.size
    then record {
      dest = (f.dest + len) % 2 ^ 32;
      size = f.size - len;
      memory = fill (f.size / width) f.dest value f.memory;
    }
    else f

abbrev pub fill_stage : (width : ℕ) → Fill → (start value : ℕ) → Filling → Filling
fill_stage width fill start value f = fill_units width fill value (fill_align width start value f)

pub memset : (dest value size : ℕ) → Bytes → Bytes
memset dest value size m =
    let f = fill_stage 2 (sets 2) dest value (
      fill_stage 4 (sets 4) dest value
        (fill_stage 8 setsq dest value (record { dest = dest; size = size; memory = m }))) in
    if leb 1 f.size then sets 1 f.size f.dest value f.memory else f.memory
