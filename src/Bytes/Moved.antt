-- ===== src/Bytes/Moved.antt =====
-- The string instructions move a region as a whole where they run in the right direction.
use sandnix.Prelude.{
  ℕ, zero, suc, ◌+◌, ◌-◌, ◌*◌, ◌≤◌, ◌≡◌, sym, ap, ◌∙◌, true, false, ◌⊎◌, inl, inr, arith,
  Bool-cases, fun_ext, subst,
}
use sandnix.Bytes.{Bytes, inside, moved, movs, movs_back, movsq, movsq_back}

-- Bytes may be moved upwards through the addresses.
abbrev pub IsForward : (dest source size : ℕ) → Type 0
IsForward dest source size = (dest ≤ source) ⊎ (source + size ≤ dest)

pub moved_none : (d s : ℕ) (m : Bytes) → moved d s 0 m ≡ m
moved_none d s m = fun_ext (λ p. ground arith)

-- The same region, written in another way.
pub moved_ap :
    {d d' s s' n n' : ℕ} (m : Bytes) → d ≡ d' → s ≡ s' → n ≡ n' → moved d s n m ≡ moved d' s' n' m
moved_ap m e f g = rw (e, f, g)

pub moved_same : (d n : ℕ) (m : Bytes) → moved d d n m ≡ m
moved_same d n m = fun_ext (λ p. elim (Bool-cases (inside d n p)) [
  | inl e ↦ let here : d + (p - d) ≡ p = ground arith in rw e (rw here)
  | inr e ↦ rw e
])

-- Two regions that follow each other, the lower one first.
pub moved-up :
    (d s a b : ℕ) (m : Bytes)
    → IsForward d s (a + b)
    → moved (d + a) (s + a) b (moved d s a m) ≡ moved d s (a + b) m
moved-up d s a b m f = fun_ext (λ p. at p)
  where
    at : (p : ℕ) → moved (d + a) (s + a) b (moved d s a m) p ≡ moved d s (a + b) m p
    at p = elim (Bool-cases (inside (d + a) b p)) [
      | inl e ↦
          let q : s + a + (p - (d + a)) ≡ s + (p - d) = ground arith in
          let out : inside d a (s + (p - d)) ≡ false = ground arith in
          let whole : inside d (a + b) p ≡ true = ground arith in rw e (rw q (rw out (rw whole)))
      | inr e ↦ let same : inside d (a + b) p ≡ inside d a p = ground arith in rw e (rw same)
    ]

-- Two regions that follow each other, the upper one first.
pub moved-down :
    (d s a b : ℕ) (m : Bytes)
    → s ≤ d
    → moved d s a (moved (d + a) (s + a) b m) ≡ moved d s (a + b) m
moved-down d s a b m le = fun_ext (λ p. at p)
  where
    at : (p : ℕ) → moved d s a (moved (d + a) (s + a) b m) p ≡ moved d s (a + b) m p
    at p = elim (Bool-cases (inside d a p)) [
      | inl e ↦
          let out : inside (d + a) b (s + (p - d)) ≡ false = ground arith in
          let whole : inside d (a + b) p ≡ true = ground arith in rw e (rw out (rw whole))
      | inr e ↦ elim (Bool-cases (inside (d + a) b p)) [
        | inl upper ↦
            let q : s + a + (p - (d + a)) ≡ s + (p - d) = ground arith in
            let whole : inside d (a + b) p ≡ true = ground arith in
            rw e (rw upper (rw q (rw whole)))
        | inr outside ↦
            let whole : inside d (a + b) p ≡ false = ground arith in rw e (rw outside (rw whole))
      ]
    ]

pub IsForward-less : (d s b c : ℕ) → b ≤ c → IsForward d s c → IsForward d s b
IsForward-less d s b c le (inl e) = inl e
IsForward-less d s b c le (inr e) = inr (omega arith)

pub IsForward-more : (d s a b c : ℕ) → a + b ≤ c → IsForward d s c → IsForward (d + a) (s + a) b
IsForward-more d s a b c le (inl e) = inl (omega arith)
IsForward-more d s a b c le (inr e) = inr (omega arith)

pub movs_lem :
    (w n d s : ℕ) (m : Bytes) → IsForward d s (n * w) → movs w n d s m ≡ moved d s (n * w) m
unfolding movs
movs_lem w zero d s m f = sym (moved_none d s m) ∙ ap (λ k. moved d s k m) (omega arith)
movs_lem w (suc n) d s m f =
    movs_lem w n (d + w) (s + w) (moved d s w m)
      (IsForward-more d s w (n * w) (suc n * w) (omega arith) f)
    ∙ moved-up d s w (n * w) m (subst (IsForward d s) (omega arith) f)
    ∙ ap (λ k. moved d s k m) (omega arith)

pub movs_back_lem : (w n d s : ℕ) (m : Bytes) → s ≤ d → movs_back w n d s m ≡ moved d s (n * w) m
unfolding movs_back
movs_back_lem w zero d s m le = sym (moved_none d s m) ∙ ap (λ k. moved d s k m) (omega arith)
movs_back_lem w (suc n) d s m le =
    movs_back_lem w n d s (moved (d + n * w) (s + n * w) w m) le
    ∙ moved-down d s (n * w) w m le
    ∙ ap (λ k. moved d s k m) (omega arith)

pub movsq_lem :
    (n d s : ℕ) (m : Bytes) → IsForward d s (n * 8) → movsq n d s m ≡ moved d s (n * 8) m
unfolding movsq
movsq_lem n d s m f =
    movs_lem 4 (n * 2) d s m (subst (IsForward d s) (omega arith) f)
    ∙ ap (λ k. moved d s k m) (omega arith)

pub movsq_back_lem : (n d s : ℕ) (m : Bytes) → s ≤ d → movsq_back n d s m ≡ moved d s (n * 8) m
unfolding movsq_back
movsq_back_lem n d s m le = movs_back_lem 4 (n * 2) d s m le ∙ ap (λ k. moved d s k m) (omega arith)
