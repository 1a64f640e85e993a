-- ===== src/Digits/Print.antt =====
-- What `core_rtl_itoa`, `core_rtl_htoa` and `core_rtl_otoa` leave in the buffer.
use native.Mathlib.Nat.{pow-zero, div-one, zero-mod, one-le-pow}
use sandnix.Prelude.{
  ℕ, zero, suc, ◌+◌, ◌-◌, ◌/◌, ◌%◌, ◌^◌, ◌≤◌, ◌<◌, ◌≡◌, ◌≢◌, refl, sym, ap, Bool, true, false, ◌&&◌,
  ◌==◌, ◌⊎◌, Option, some, leb, Bool-cases, inl, inr, arith,
}
use sandnix.Bytes.{Bytes}
use sandnix.Digits.{
  store, Radix, decimal, hexadecimal, octal, hex_char, write_digits, to_string, itoa, htoa, otoa,
}
use sandnix.Digits.Reverse.{mirrored, swap_chars-mirrored}
use sandnix.Digits.Write.{IsRadix, IsWritten, write_digits-IsWritten}
use sandnix.Math.Division.{div64-mod64}

-- `result` holds at `buf` the digits of `num` in the base, the highest first and none in excess,
-- then a NUL; the rest of the memory is that of `m`.
pub record IsNumeral (base : ℕ) (digit : ℕ → ℕ) (buf num : ℕ) (m : Bytes) (result : Option Bytes)
    : Type 0 where
  pub len : ℕ
  pub after : Bytes
  pub returns : result ≡ some after
  pub some_digit : 0 < len
  pub chars : (i : ℕ) → i < len → after (buf + (len - 1 - i)) ≡ digit (num / base ^ i % base)
  pub upper : num < base ^ len
  pub lower : (len ≡ 1) ⊎ (base ^ (len - 1) ≤ num)
  pub ended : after (buf + len) ≡ 0
  pub outside : (q : ℕ) → (q < buf) ⊎ (buf + len < q) → after q ≡ m q

module _ (base : ℕ) (digit : ℕ → ℕ) (r : Radix) (ok : IsRadix base digit r) (buf num : ℕ)
    (m : Bytes) where
  -- A number other than 0: its digits are mirrored, then ended.
  IsNumeral-mirrored :
      num ≢ 0
      → (w : IsWritten base digit r ok 64 num buf m (write_digits r 65 num buf m))
      → to_string r buf num m
        ≡ some (store (buf + w.len) 0 (mirrored buf (buf + w.len - 1) w.after))
      → IsNumeral base digit buf num m (to_string r buf num m)
  IsNumeral-mirrored ne w e = record {
    len = w.len;
    after = store (buf + w.len) 0 (mirrored buf (buf + w.len - 1) w.after);
    returns = e;
    some_digit = some_digit w.len w.upper;
    chars = λ i lt.
        let q = buf + (w.len - 1 - i) in
        let not_end : (buf + (w.len - 1 - i) == buf + w.len) ≡ false = ground arith in
        let within : (leb buf (buf + (w.len - 1 - i))
              && leb (buf + (w.len - 1 - i)) (buf + w.len - 1))
            ≡ true =
          ground arith in
        let image : buf + (buf + w.len - 1) - (buf + (w.len - 1 - i)) ≡ buf + i = omega arith in
        rw not_end (rw within (rw image (w.chars i lt)));
    upper = w.upper;
    lower = elim (w.lower) [
      | inl e ↦ absurd (omega (arith, some_digit w.len w.upper))
      | inr le ↦ inr le
    ];
    ended = let same : (buf + w.len == buf + w.len) ≡ true = ground arith in rw same refl;
    outside = λ q o. outside q o;
  }
    where
      some_digit : (len : ℕ) → num < base ^ len → 0 < len
      some_digit zero lt = let lt' : num < 1 = rw pow-zero at lt in absurd (omega arith)
      some_digit (suc len) lt = omega arith

      outside :
          (q : ℕ)
          → (q < buf) ⊎ (buf + w.len < q)
          → store (buf + w.len) 0 (mirrored buf (buf + w.len - 1) w.after) q ≡ m q
      outside q o =
          let pos = some_digit w.len w.upper in
          let not_end : (q == buf + w.len) ≡ false = ground arith in
          let out : (leb buf q && leb q (buf + w.len - 1)) ≡ false = ground arith in
          rw not_end
            (rw out (w.outside q (elim o [ inl lt ↦ inl lt | inr lt ↦ inr (omega arith) ])))

  IsNumeral-zero :
      num ≡ 0 → IsNumeral base digit buf num m (some (store (buf + 1) 0 (store buf 48 m)))
  IsNumeral-zero e = record {
    len = 1;
    after = store (buf + 1) 0 (store buf 48 m);
    returns = refl;
    some_digit = omega arith;
    chars = chars;
    upper = omega (arith, e, one-le-pow 1 base (omega (arith, ok.base_pos)));
    lower = inl refl;
    ended = let same : (buf + 1 == buf + 1) ≡ true = ground arith in rw same refl;
    outside = outside;
  }
    where
      chars :
          (i : ℕ)
          → i < 1
          → store (buf + 1) 0 (store buf 48 m) (buf + (1 - 1 - i)) ≡ digit (num / base ^ i % base)
      chars zero lt =
          let here : buf + (1 - 1 - 0) ≡ buf = omega arith in
          let not_end : (buf == buf + 1) ≡ false = ground arith in
          let same : (buf == buf) ≡ true = ground arith in
          let last : num / base ^ 0 % base ≡ 0 =
            rw (pow-zero base) (rw (div-one num) (rw e (zero-mod base))) in
          rw here (rw not_end (rw same (rw last (sym ok.null))))
      chars (suc i) lt = absurd (omega arith)

      outside : (q : ℕ) → (q < buf) ⊎ (buf + 1 < q) → store (buf + 1) 0 (store buf 48 m) q ≡ m q
      outside q o =
          let not_end : (q == buf + 1) ≡ false = ground arith in
          let not_first : (q == buf) ≡ false = ground arith in rw not_end (rw not_first refl)

  to_string-IsNumeral : num < 2 ^ 64 → IsNumeral base digit buf num m (to_string r buf num m)
  unfolding to_string
  to_string-IsNumeral fits = elim (Bool-cases (num == 0)) [
    | inl e ↦ rw e (IsNumeral-zero (ground arith))
    | inr e ↦
        let w =
          write_digits-IsWritten base digit r ok 65 64 num buf m (omega arith) (omega arith) fits in
        IsNumeral-mirrored (ground arith) w (
          rw e (
            rw (w.returns) (
              rw
                (swap_chars-mirrored 65 buf (buf + w.len - 1) w.after (omega arith)
                  (omega (arith, w.bound)))
                refl)))
  ]

decimal-IsRadix : IsRadix 10 (λ t. t + 48) decimal
decimal-IsRadix = record {
  base_pos = omega arith;
  rest = λ n lt. (div64-mod64 n 10 lt (omega arith)).0;
  char = λ n lt. ap (λ t. t + 48) ((div64-mod64 n 10 lt (omega arith)).1);
  null = refl;
}

hexadecimal-IsRadix : (capital : Bool) → IsRadix 16 (hex_char capital) (hexadecimal capital)
hexadecimal-IsRadix capital = record {
  base_pos = omega arith;
  rest = λ n lt. refl;
  char = λ n lt. refl;
  null = refl;
}

octal-IsRadix : IsRadix 8 (λ t. t + 48) octal
octal-IsRadix = record {
  base_pos = omega arith;
  rest = λ n lt. refl;
  char = λ n lt. refl;
  null = refl;
}

-- For a number of 64 bits the fuel is enough, and `core_rtl_itoa` writes its decimal digits, the
-- highest first and no leading zero, and a NUL; it changes nothing else.
pub itoa-IsNumeral :
    (buf num : ℕ) (m : Bytes) → num < 2 ^ 64 → IsNumeral 10 (λ t. t + 48) buf num m (itoa buf num m)
unfolding itoa
itoa-IsNumeral buf num m fits =
    to_string-IsNumeral 10 (λ t. t + 48) decimal decimal-IsRadix buf num m fits

-- For a number of 64 bits the fuel is enough, and `core_rtl_htoa` writes its hexadecimal digits, with
-- capital letters or small ones as asked for, the highest first and no leading zero, and a NUL; it
-- changes nothing else.
htoa-IsNumeral :
    (buf num : ℕ) (capital : Bool) (m : Bytes)
    → num < 2 ^ 64
    → IsNumeral 16 (hex_char capital) buf num m (htoa buf num capital m)
unfolding htoa
htoa-IsNumeral buf num capital m fits =
    to_string-IsNumeral 16 (hex_char capital) (hexadecimal capital) (hexadecimal-IsRadix capital)
      buf num m fits

-- For a number of 64 bits the fuel is enough, and `core_rtl_otoa` writes its octal digits, the
-- highest first and no leading zero, and a NUL; it changes nothing else.
otoa-IsNumeral :
    (buf num : ℕ) (m : Bytes) → num < 2 ^ 64 → IsNumeral 8 (λ t. t + 48) buf num m (otoa buf num m)
unfolding otoa
otoa-IsNumeral buf num m fits =
    to_string-IsNumeral 8 (λ t. t + 48) octal octal-IsRadix buf num m fits
