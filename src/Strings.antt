-- ===== src/Strings.antt =====
-- core/rtl/string/string.c: core_rtl_memccpy, core_rtl_strncpy, core_rtl_strpbrk,
-- core_rtl_strspn and core_rtl_strstr on the memory of Bytes.antt.
-- NULL is 0. The loops that end at a NUL run on fuel, with `none` at its end.
pub mod Bounded
pub mod Find
mod Tests
use sandnix.Prelude.{ℕ, zero, suc, ◌+◌, Bool, true, false, ◌==◌, Option, none, some, if◌then◌else◌}
use sandnix.Bytes.{Bytes}

abbrev pub put : ℕ → ℕ → Bytes → Bytes
put p value m q = if q == p then value else m q

-- The returned pointer, which is one into the source, and the memory.
pub memccpy : (size dest source ch : ℕ) → Bytes → ℕ × Bytes
memccpy zero dest source ch m = (0, m)
memccpy (suc n) dest source ch m =
    let written = put dest (m source) m in
    let rest = memccpy n (dest + 1) (source + 1) ch written in
    if written source == ch then (source + 1, written) else rest

-- The loop of `core_rtl_strncpy`. What follows it clears a pointer and no character.
pub strncpy : (len dest source : ℕ) → Bytes → Bytes
strncpy zero dest source m = m
strncpy (suc n) dest source m =
    let written = put dest (m source) m in
    let rest = strncpy n (dest + 1) (source + 1) written in
    if written source == 0 then written else rest

-- The inner loop of `core_rtl_strpbrk`: whether `ch` is one of the characters at `p`.
pub accepts : (fuel ch p : ℕ) → Bytes → Option Bool
accepts zero ch p m = none
accepts (suc fuel) ch p m =
    let rest = accepts fuel ch (p + 1) m in
    if m p == 0 then some false else if ch == m p then some true else rest

pub strpbrk : (fuel inner p accept : ℕ) → Bytes → Option ℕ
strpbrk zero inner p accept m = none
strpbrk (suc fuel) inner p accept m =
    let rest = strpbrk fuel inner (p + 1) accept m in
    if m p == 0 then some 0 else elim (accepts inner (m p) accept m) [
      | none ↦ none
      | some found ↦ if found then some p else rest
    ]

-- Both pointers move on together.
pub strspn : (fuel p accept ret : ℕ) → Bytes → Option ℕ
strspn zero p accept ret m = none
strspn (suc fuel) p accept ret m =
    let rest = strspn fuel (p + 1) (accept + 1) (ret + 1) m in
    if m p == 0 then some ret else if m p == m accept then rest else some ret

-- The inner loop of `core_rtl_strstr`: whether the string at `q` is a prefix of the one at `p`.
pub starts_with : (fuel p q : ℕ) → Bytes → Option Bool
starts_with zero p q m = none
starts_with (suc fuel) p q m =
    let rest = starts_with fuel (p + 1) (q + 1) m in
    if m q == 0 then some true else if m p == m q then rest else some false

pub strstr : (fuel inner p q : ℕ) → Bytes → Option ℕ
strstr zero inner p q m = none
strstr (suc fuel) inner p q m =
    let rest = strstr fuel inner (p + 1) q m in
    if m p == 0
    then some 0
    else if m p == m q
    then elim (starts_with inner p q m) [
      | none ↦ none
      | some found ↦ if found then some p else rest
    ]
    else rest
