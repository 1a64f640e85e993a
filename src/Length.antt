-- ===== src/Length.antt =====
-- core/rtl/string/string.c: core_rtl_strlen on the memory of Bytes.antt, where a longword has 32
-- bits and is little-endian.
pub mod ZeroTest
pub mod Scan
mod Tests
use sandnix.Prelude.{
  ℕ, zero, suc, ◌+◌, ◌-◌, ◌*◌, ◌/◌, ◌%◌, ◌^◌, Bool, ◌==◌, Option, none, some, if◌then◌else◌,
}
use sandnix.Bytes.{Bytes}
use sandnix.Words.{and_bits}
use sandnix.Compare.{longword}

-- `((longword - lomagic) & ~longword & himagic) != 0`, less the comparison.
pub zero_test : ℕ → ℕ
zero_test w =
    and_bits 32 (and_bits 32 ((w + 2 ^ 32 - 16843009) % 2 ^ 32) (2 ^ 32 - 1 - w)) 2155905152

-- The loop over longwords, on fuel; the result is the address of the NUL.
pub scan_longwords : (fuel p : ℕ) → Bytes → Option ℕ
scan_longwords zero p m = none
scan_longwords (suc fuel) p m =
    let rest = scan_longwords fuel (p + 4) m in
    if zero_test (longword m p) == 0
    then rest
    else if m p == 0
    then some p
    else if m (p + 1) == 0
    then some (p + 1)
    else if m (p + 2) == 0
    then some (p + 2)
    else if m (p + 3) == 0
    then some (p + 3)
    else rest

-- "Do this until CHAR_PTR is aligned on a longword boundary": `left` rounds at most, then the loop
-- over longwords.
pub scan_head : (left fuel p : ℕ) → Bytes → Option ℕ
scan_head zero fuel p m = scan_longwords fuel p m
scan_head (suc left) fuel p m =
    let rest = scan_head left fuel (p + 1) m in
    if p % 4 == 0 then scan_longwords fuel p m else if m p == 0 then some p else rest

-- Fewer than four bytes stand in front of a longword boundary.
pub strlen : (fuel str : ℕ) → Bytes → Option ℕ
strlen fuel str m = elim (scan_head 4 fuel str m) [ none ↦ none | some p ↦ some (p - str) ]
