-- ===== src/Digits.antt =====
-- core/rtl/string/string.c: core_rtl_itoa, core_rtl_htoa and core_rtl_otoa on the memory of
-- Bytes.antt. The three differ in the base and in the characters of the digits.
pub mod Reverse
pub mod Write
pub mod Print
mod Tests
use sandnix.Prelude.{
  ℕ, zero, suc, ◌+◌, ◌-◌, ◌*◌, ◌/◌, ◌%◌, Bool, ◌==◌, Option, none, some, ltb, if◌then◌else◌,
}
use sandnix.Prelude.Partial.{◌>>=◌}
use sandnix.Bytes.{Bytes}
use sandnix.Math.{div64, mod64}

abbrev pub store : ℕ → ℕ → Bytes → Bytes
store p value m q = if q == p then value else m q

-- The operations of one of the routines: the digit's character, and the rest of the number.
pub record Radix : Type 0 where
  pub char : ℕ → ℕ
  pub rest : ℕ → ℕ

abbrev pub decimal : Radix
decimal = record { char = λ n. mod64 n 10 + 48; rest = λ n. div64 n 10 }

abbrev pub hex_char : Bool → ℕ → ℕ
hex_char capital t = if ltb t 10 then t + 48 else if capital then t - 10 + 65 else t - 10 + 97

abbrev pub hexadecimal : Bool → Radix
hexadecimal capital = record { char = λ n. hex_char capital (n % 16); rest = λ n. n / 16 }

abbrev pub octal : Radix
octal = record { char = λ n. n % 8 + 48; rest = λ n. n / 8 }

-- The loop that writes the digits, the last one first, on fuel: the pointer `p` behind them.
pub write_digits : Radix → (fuel n p : ℕ) → Bytes → Option (ℕ × Bytes)
write_digits r zero n p m = none
write_digits r (suc fuel) n p m =
    let next = write_digits r fuel (r.rest n) (p + 1) (store p (r.char n) m) in
    if n == 0 then some (p, m) else next

-- The loop that swaps the characters at `p1` and `p2` while `p2 > p1`, on fuel.
pub swap_chars : (fuel p1 p2 : ℕ) → Bytes → Option Bytes
swap_chars zero p1 p2 m = none
swap_chars (suc fuel) p1 p2 m =
    let next = swap_chars fuel (p1 + 1) (p2 - 1) (store p2 (m p1) (store p1 (m p2) m)) in
    if ltb p1 p2 then next else some m

-- A number of 64 bits has at most 64 digits.
pub to_string : Radix → (buf num : ℕ) → Bytes → Option Bytes
to_string r buf num m = if num == 0 then some (store (buf + 1) 0 (store buf 48 m)) else (do
  (p, written) ← write_digits r 65 num buf m
  reversed ← swap_chars 65 buf (p - 1) written
  some (store p 0 reversed))

pub itoa : (buf num : ℕ) → Bytes → Option Bytes
itoa buf num m = to_string decimal buf num m

pub htoa : (buf num : ℕ) → Bool → Bytes → Option Bytes
htoa buf num capital m = to_string (hexadecimal capital) buf num m

pub otoa : (buf num : ℕ) → Bytes → Option Bytes
otoa buf num m = to_string octal buf num m
