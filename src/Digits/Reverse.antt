-- ===== src/Digits/Reverse.antt =====
-- The loop that swaps characters reverses a region in place.
use sandnix.Prelude.{
  ℕ, zero, suc, ◌+◌, ◌-◌, ◌≤◌, ◌<◌, ◌≡◌, refl, sym, ap, ◌∙◌, true, false, ◌&&◌, ◌==◌, some, ltb,
  leb, if◌then◌else◌, Bool-cases, inl, inr, arith, fun_ext,
}
use sandnix.Bytes.{Bytes}
use sandnix.Digits.{store, swap_chars}

-- The region from `lo` to `hi`, both included, back to front.
abbrev pub mirrored : (lo hi : ℕ) → Bytes → Bytes
mirrored lo hi m q = if leb lo q && leb q hi then m (lo + hi - q) else m q

swap_step :
    (lo hi : ℕ) (m : Bytes)
    → lo < hi
    → mirrored (lo + 1) (hi - 1) (store hi (m lo) (store lo (m hi) m)) ≡ mirrored lo hi m
swap_step lo hi m lt = fun_ext (λ q. at q)
  where
    at :
        (q : ℕ)
        → mirrored (lo + 1) (hi - 1) (store hi (m lo) (store lo (m hi) m)) q ≡ mirrored lo hi m q
    at q = elim (Bool-cases (leb (lo + 1) q && leb q (hi - 1))) [
      | inl e ↦
          let whole : (leb lo q && leb q hi) ≡ true = ground arith in
          let image : lo + 1 + (hi - 1) - q ≡ lo + hi - q = ground arith in
          let not_hi : (lo + hi - q == hi) ≡ false = ground arith in
          let not_lo : (lo + hi - q == lo) ≡ false = ground arith in
          rw e (rw image (rw (not_hi, not_lo, whole) refl))
      | inr e ↦ elim (Bool-cases (q == hi)) [
        | inl at_hi ↦
            let whole : (leb lo q && leb q hi) ≡ true = ground arith in
            let image : lo + hi - q ≡ lo = ground arith in
            rw e (rw at_hi (rw whole (rw image refl)))
        | inr not_hi ↦ elim (Bool-cases (q == lo)) [
          | inl at_lo ↦
              let whole : (leb lo q && leb q hi) ≡ true = ground arith in
              let image : lo + hi - q ≡ hi = ground arith in
              rw e (rw not_hi (rw at_lo (rw whole (rw image refl))))
          | inr not_lo ↦
              let whole : (leb lo q && leb q hi) ≡ false = ground arith in
              rw e (rw not_hi (rw not_lo (rw whole refl)))
        ]
      ]
    ]

mirrored_one : (lo hi : ℕ) (m : Bytes) → hi ≤ lo → mirrored lo hi m ≡ m
mirrored_one lo hi m le = fun_ext (λ q. elim (Bool-cases (leb lo q && leb q hi)) [
  | inl e ↦ let same : lo + hi - q ≡ q = ground arith in rw e (rw same refl)
  | inr e ↦ rw e refl
])

-- On fuel for its rounds, the loop mirrors the region.
pub swap_chars-mirrored :
    (fuel lo hi : ℕ) (m : Bytes)
    → 0 < fuel
    → hi < lo + fuel
    → swap_chars fuel lo hi m ≡ some (mirrored lo hi m)
unfolding swap_chars
swap_chars-mirrored zero lo hi m pos lt = absurd (omega arith)
swap_chars-mirrored (suc fuel) lo hi m pos lt = elim (Bool-cases (ltb lo hi)) [
  | inl e ↦ rw e (
      swap_chars-mirrored fuel (lo + 1) (hi - 1) _ (ground arith) (ground arith)
      ∙ ap some (swap_step lo hi m (ground arith)))
  | inr e ↦ rw e (ap some (sym (mirrored_one lo hi m (ground arith))))
]
