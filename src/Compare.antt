-- ===== src/Compare.antt =====
-- core/rtl/string/string.c: core_rtl_memcmp, core_rtl_strncmp and core_rtl_strcmp on the memory
-- of Bytes.antt. `size_t` and `longword_t` have 32 bits; a longword is little-endian.
pub mod Memcmp
pub mod Strcmp
mod Tests
use sandnix.Prelude.{
  ℕ, zero, suc, ◌+◌, ◌-◌, ◌*◌, ◌/◌, ◌%◌, ◌^◌, Bool, ◌||◌, ◌==◌, Option, none, some, ltb, leb, not,
  if◌then◌else◌,
}
use sandnix.Prelude.Partial.{◌>>=◌}
use sandnix.Bytes.{Bytes}

-- The loops that return the first difference of two bytes, as a `u8`, that is not 0.
pub compare_bytes : (size p q : ℕ) → Bytes → Option ℕ
compare_bytes zero p q m = none
compare_bytes (suc n) p q m =
    let rest = compare_bytes n (p + 1) (q + 1) m in
    let ret = (m p + 256 - m q) % 256 in if ret == 0 then rest else some ret

abbrev pub longword : Bytes → ℕ → ℕ
longword m p = m p + 256 * m (p + 1) + 65536 * m (p + 1 + 1) + 16777216 * m (p + 1 + 1 + 1)

-- The end of a loop: a returned difference, or the pointers behind it.
pub data Outcome : Type 0 where
  returned : ℕ → Outcome
  behind : (p q : ℕ) → Outcome

-- The loop over longwords, on fuel. The search in a longword that differs uses the counter `n` of
-- the loop.
pub compare_longwords : (fuel n len p q : ℕ) → Bytes → Option Outcome
compare_longwords zero n len p q m = none
compare_longwords (suc fuel) n len p q m =
    let rest = λ (n : ℕ). compare_longwords fuel n len (p + 4) (q + 4) m in
    if ltb n len
    then if longword m p == longword m q
      then rest (n + 4)
      else elim (compare_bytes 4 p q m) [ none ↦ rest (4 + 4) | some ret ↦ some (returned ret) ]
    else some (behind p q)

abbrev pub or_zero : Option ℕ → ℕ
or_zero none = 0
or_zero (some ret) = ret

-- The part behind the first bytes: longwords, then the last bytes.
pub compare_rest : (size p q : ℕ) → Bytes → Option ℕ
compare_rest size p q m = do
  outcome ← compare_longwords (size / 4 + 1) 0 (size / 4 * 4) p q m
  elim outcome [
    | returned ret ↦ some ret
    | behind p' q' ↦ some (or_zero (compare_bytes (size % 4) p' q' m))
  ]

-- `none` is an end of the fuel.
pub memcmp : (p q size : ℕ) → Bytes → Option ℕ
memcmp p q size m =
    let len = p % 4 in
    if ltb size 8 || not (p % 4 == q % 4)
    then some (or_zero (compare_bytes size p q m))
    else elim (compare_bytes len p q m) [
      | some ret ↦ some ret
      | none ↦ compare_rest (size - len) (p + len) (q + len) m
    ]

-- An `int`: `negsuc n` is `- (n + 1)`.
pub data ℤ : Type 0 where
  pos negsuc : ℕ → ℤ

abbrev pub minus : ℕ → ℕ → ℤ
minus a b = if leb b a then pos (a - b) else negsuc (b - a - 1)

pub strncmp : (len p q : ℕ) → Bytes → ℤ
strncmp zero p q m = pos 0
strncmp (suc len) p q m =
    let rest = strncmp len (p + 1) (q + 1) m in
    if not (m p == m q) || m p == 0 then minus (m p) (m q) else rest

pub strcmp : (p q : ℕ) → Bytes → ℤ
strcmp p q m = strncmp 4294967295 p q m
