-- ===== src/Kparam/Value.antt =====
-- hal_kparam_get_value on a parameter that is there.
use sandnix.Prelude.{
  ℕ, ◌+◌, ◌-◌, ◌*◌, ◌≤◌, ◌<◌, ◌≡◌, ◌≢◌, ap, ◌∙◌, false, ◌==◌, ltb, ◌⊎◌, inl, inr, some, List, [],
  ◌∷◌, arith, length, if◌then◌else◌, Bool-cases,
}
use sandnix.Bytes.{Bytes, inside, moved}
use sandnix.Bytes.Moved.{IsForward}
use sandnix.Compare.Strcmp.{IsString}
use sandnix.Strings.{strncpy}
use sandnix.Strings.Bounded.{up_to, up_to-le, strncpy-moved}
use sandnix.Length.{strlen}
use sandnix.Compare.Memcmp.{AllBytes}
use sandnix.Length.Scan.{strlen-length}
use sandnix.Kparam.{eoverflow, esuccess, get_value}
use sandnix.Kparam.Round.{apart_copy}

-- The same characters in another memory.
IsString-agree :
    (m m' : Bytes) (p : ℕ) (xs : List ℕ)
    → ((q : ℕ) → p ≤ q → q ≤ p + length xs → m' q ≡ m q)
    → IsString m p xs
    → IsString m' p xs
IsString-agree m m' p [] same s = same p (omega arith) (omega arith) ∙ s
IsString-agree m m' p (x ∷ xs) same s = (
  same p (omega arith) (omega arith) ∙ s.0,
  s.1,
  IsString-agree m m' (p + 1) xs (λ q a b. same q (omega arith) (omega arith)) (s.2),
)

moved-AllBytes : (d s n : ℕ) (m : Bytes) → AllBytes m → AllBytes (moved d s n m)
moved-AllBytes d s n m bytes q = elim (Bool-cases (inside d n q)) [
  | inl e ↦ rw e (bytes (s + (q - d)))
  | inr e ↦ rw e (bytes q)
]

-- For a parameter whose value is a string, a buffer apart from it, and fuel for a quarter of the
-- characters and the NUL: hal_kparam_get_value copies the value up to its NUL, or `size` characters
-- of it, to the buffer and changes nothing else; it reports an overflow where `size` is not enough
-- for the characters and the NUL, and success otherwise.
pub get_value-moved :
    (m : Bytes) (fuel p buf size : ℕ) (xs : List ℕ)
    → AllBytes m
    → IsString m p xs
    → p ≢ 0
    → ((p + size ≤ buf) × (p + length xs < buf)) ⊎ (buf + size ≤ p)
    → length xs < 4 * fuel
    → get_value fuel p buf size m
      ≡ some (
        if ltb size (length xs + 1) then eoverflow else esuccess,
        moved buf p (up_to size p 0 m) m,
      )
unfolding get_value
get_value-moved m fuel p buf size xs bytes s ne apart lt =
    let n = up_to size p 0 m in
    let np : (p == 0) ≡ false = ground arith in
    let copied = strncpy-moved size buf p m (forward apart) in
    let small = up_to-le size p 0 m in
    let still : IsString (moved buf p n m) p xs =
      IsString-agree m (moved buf p n m) p xs
        (λ q a b. apart_copy buf p n q m (away q small a b apart)) s in
    let len = strlen-length (moved buf p n m) fuel p xs (moved-AllBytes buf p n m bytes) still lt in
    let read : strlen fuel p (strncpy size buf p m) ≡ some (length xs) =
      ap (strlen fuel p) copied ∙ len in
    rw (np, read)
      (ap (λ m'. some (if ltb size (length xs + 1) then eoverflow else esuccess, m')) copied)
  where
    forward : ((p + size ≤ buf) × (p + length xs < buf)) ⊎ (buf + size ≤ p) → IsForward buf p size
    forward (inl e) = inr (e.0)
    forward (inr e) = inl (omega arith)

    away :
        {n : ℕ} (q : ℕ)
        → n ≤ size
        → p ≤ q
        → q ≤ p + length xs
        → ((p + size ≤ buf) × (p + length xs < buf)) ⊎ (buf + size ≤ p)
        → (q < buf) ⊎ (buf + n ≤ q)
    away q small a b (inl e) = let f = e.1 in inl (omega arith)
    away q small a b (inr e) = inr (omega arith)
