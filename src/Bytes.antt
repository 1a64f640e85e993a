-- ===== src/Bytes.antt =====
-- Memory as bytes, and the string instructions of hal/rtl/string/x86/string.h on it.
-- A copy has addresses without an end, so its regions do not wrap round. Setting a region has
-- addresses modulo 2^32.
pub mod Moved
pub mod Filled
use sandnix.Prelude.{ℕ, zero, suc, ◌+◌, ◌-◌, ◌*◌, ◌%◌, ◌^◌, Bool, ◌&&◌, ltb, leb, if◌then◌else◌}

abbrev pub Bytes : Type 0
Bytes = ℕ → ℕ

-- Whether `p` is one of the `size` addresses from `from` on.
abbrev pub inside : (from size p : ℕ) → Bool
inside from size p = leb from p && ltb p (from + size)

-- The bytes from `source` on are read, then they are written to `dest`.
abbrev pub moved : (dest source size : ℕ) → Bytes → Bytes
moved dest source size m p = if inside dest size p then m (source + (p - dest)) else m p

-- How far `p` lies behind `dest`, modulo 2^32.
abbrev pub behind : (dest p : ℕ) → ℕ
behind dest p = (p + 2 ^ 32 - dest % 2 ^ 32) % 2 ^ 32

-- `size` bytes from `dest` on, round the end of the memory where they reach it.
abbrev pub filled : (dest size value : ℕ) → Bytes → Bytes
filled dest size value m p = if ltb (behind dest p) size then value else m p

-- `rep movs` with the direction flag clear: `count` units of `width` bytes, one after another.
pub movs : (width count dest source : ℕ) → Bytes → Bytes
movs width zero dest source m = m
movs width (suc n) dest source m =
    movs width n (dest + width) (source + width) (moved dest source width m)

-- `rep movs` with the direction flag set, from the last unit to the first.
pub movs_back : (width count dest source : ℕ) → Bytes → Bytes
movs_back width zero dest source m = m
movs_back width (suc n) dest source m =
    movs_back width n dest source (moved (dest + n * width) (source + n * width) width m)

-- `rep stos` of units whose bytes are all `value`.
pub sets : (width count dest value : ℕ) → Bytes → Bytes
sets width zero dest value m = m
sets width (suc n) dest value m =
    sets width n ((dest + width) % 2 ^ 32) value (filled dest width value m)

-- `hal_rtl_string_movsq` and its kin move and set two units of four bytes for each of eight.
pub movsq : (count dest source : ℕ) → Bytes → Bytes
movsq count dest source m = movs 4 (count * 2) dest source m

pub movsq_back : (count dest source : ℕ) → Bytes → Bytes
movsq_back count dest source m = movs_back 4 (count * 2) dest source m

pub setsq : (count dest value : ℕ) → Bytes → Bytes
setsq count dest value m = sets 4 (count * 2) dest value m
