-- ===== src/Strings/Bounded.antt =====
-- `core_rtl_memccpy` and `core_rtl_strncpy` copy up to a character or a number of bytes.
use sandnix.Prelude.{
  ℕ, zero, suc, ◌+◌, ◌-◌, ◌≤◌, ◌<◌, ◌≡◌, refl, sym, ap, ap₂, ◌∙◌, true, false, ◌==◌, ◌⊎◌,
  if◌then◌else◌, Bool-cases, inl, inr, arith, fun_ext,
}
use sandnix.Bytes.{Bytes, inside, moved}
use sandnix.Bytes.Moved.{IsForward, IsForward-more, IsForward-less, moved_none, moved-up}
use sandnix.Strings.{put, memccpy, strncpy}

-- How many bytes are copied: up to the first that is `ch`, and `size` at most.
abbrev pub up_to : (size source ch : ℕ) → Bytes → ℕ
up_to zero source ch m = 0
up_to (suc n) source ch m = if m source == ch then 1 else suc (up_to n (source + 1) ch m)

put-moved : (d s : ℕ) (m : Bytes) → put d (m s) m ≡ moved d s 1 m
put-moved d s m = fun_ext (λ q. elim (Bool-cases (q == d)) [
  | inl e ↦
      let here : inside d 1 q ≡ true = ground arith in
      let image : s + (q - d) ≡ s = ground arith in rw e (rw here (rw image refl))
  | inr e ↦ let away : inside d 1 q ≡ false = ground arith in rw e (rw away refl)
])

put_same : (d s : ℕ) (m : Bytes) → put d (m s) m s ≡ m s
put_same d s m = elim (Bool-cases (s == d)) [ inl e ↦ rw e refl | inr e ↦ rw e refl ]

pub up_to-le : (n s ch : ℕ) (m : Bytes) → up_to n s ch m ≤ n
up_to-le zero s ch m = omega arith
up_to-le (suc n) s ch m = ground (arith, up_to-le n (s + 1) ch m)

up_to-put :
    (n s ch d v : ℕ) (m : Bytes) → (d < s) ⊎ (s + n ≤ d) → up_to n s ch (put d v m) ≡ up_to n s ch m
up_to-put zero s ch d v m o = refl
up_to-put (suc n) s ch d v m o =
    let other : (s == d) ≡ false = ground arith in
    rw other
      (ap (λ k. if m s == ch then 1 else suc k) (up_to-put n (s + 1) ch d v m (ground arith)))

-- Where the source may be copied upwards, `core_rtl_strncpy` copies the characters of the source up
-- to its NUL, or `len` of them, and changes nothing else.
pub strncpy-moved :
    (len dest source : ℕ) (m : Bytes)
    → IsForward dest source len
    → strncpy len dest source m ≡ moved dest source (up_to len source 0 m) m
unfolding strncpy
strncpy-moved zero d s m f = sym (moved_none d s m)
strncpy-moved (suc n) d s m f = elim (Bool-cases (m s == 0)) [
  | inl e ↦ rw (put_same d s m) (rw e (put-moved d s m))
  | inr e ↦
      let further : IsForward (d + 1) (s + 1) n = IsForward-more d s 1 n (suc n) (omega arith) f in
      let rest = strncpy-moved n (d + 1) (s + 1) (put d (m s) m) further in
      let count : up_to n (s + 1) 0 (put d (m s) m) ≡ up_to n (s + 1) 0 m =
        up_to-put n (s + 1) 0 d (m s) m (ground arith) in
      let fits : IsForward d s (1 + up_to n (s + 1) 0 m) =
        IsForward-less d s (1 + up_to n (s + 1) 0 m) (suc n) (omega (arith, up_to-le n (s + 1) 0 m))
          f in
      rw (put_same d s m) (
        rw e (
          rest
          ∙ ap (λ k. moved (d + 1) (s + 1) k (put d (m s) m)) count
          ∙ ap (moved (d + 1) (s + 1) (up_to n (s + 1) 0 m)) (put-moved d s m)
          ∙ moved-up d s 1 (up_to n (s + 1) 0 m) m fits
          ∙ ap (λ k. moved d s k m) (omega arith)))
]

-- What `core_rtl_memccpy` is to return.
abbrev pub behind_char : (size source ch : ℕ) → Bytes → ℕ
behind_char zero source ch m = 0
behind_char (suc n) source ch m =
    if m source == ch then source + 1 else behind_char n (source + 1) ch m

behind_char-put :
    (n s ch d v : ℕ) (m : Bytes)
    → (d < s) ⊎ (s + n ≤ d)
    → behind_char n s ch (put d v m) ≡ behind_char n s ch m
behind_char-put zero s ch d v m o = refl
behind_char-put (suc n) s ch d v m o =
    let other : (s == d) ≡ false = ground arith in
    rw other
      (ap (λ k. if m s == ch then s + 1 else k) (behind_char-put n (s + 1) ch d v m (ground arith)))

-- Where the source may be copied upwards, `core_rtl_memccpy` copies the bytes of the source up to
-- the first that is `ch`, or `size` of them, and changes nothing else; it returns the address
-- behind that byte in the source, or NULL where there is none.
memccpy-moved :
    (size dest source ch : ℕ) (m : Bytes)
    → IsForward dest source size
    → memccpy size dest source ch m
      ≡ (behind_char size source ch m, moved dest source (up_to size source ch m) m)
unfolding memccpy
memccpy-moved zero d s ch m f = ap (λ t. (0, t)) (sym (moved_none d s m))
memccpy-moved (suc n) d s ch m f = elim (Bool-cases (m s == ch)) [
  | inl e ↦ rw (put_same d s m) (rw e (ap (λ t. (s + 1, t)) (put-moved d s m)))
  | inr e ↦
      let further : IsForward (d + 1) (s + 1) n = IsForward-more d s 1 n (suc n) (omega arith) f in
      let rest = memccpy-moved n (d + 1) (s + 1) ch (put d (m s) m) further in
      let count : up_to n (s + 1) ch (put d (m s) m) ≡ up_to n (s + 1) ch m =
        up_to-put n (s + 1) ch d (m s) m (ground arith) in
      let result = behind_char-put n (s + 1) ch d (m s) m (ground arith) in
      let fits : IsForward d s (1 + up_to n (s + 1) ch m) =
        IsForward-less d s (1 + up_to n (s + 1) ch m) (suc n)
          (omega (arith, up_to-le n (s + 1) ch m)) f in
      rw (put_same d s m) (
        rw e (
          rest
          ∙ ap₂ (λ a k. (a, moved (d + 1) (s + 1) k (put d (m s) m))) result count
          ∙ ap (λ t. (behind_char n (s + 1) ch m, t))
              (ap (moved (d + 1) (s + 1) (up_to n (s + 1) ch m)) (put-moved d s m)
                ∙ moved-up d s 1 (up_to n (s + 1) ch m) m fits
                ∙ ap (λ k. moved d s k m) (omega arith))))
]
