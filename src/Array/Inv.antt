-- ===== src/Array/Inv.antt =====
-- What a well-formed array is: every block has `scale` items, and its reference count is the
-- number of them in use.
use sandnix.Prelude.{
  subst, ap, ℕ, zero, suc, ◌+◌, ◌*◌, ◌^◌, ◌≤◌, ◌<◌, ◌≡◌, refl, Option, none, some, List, [], ◌∷◌,
  arith, ◌==◌, if◌then◌else◌, length, get_elem?, set, replicate,
}
use sandnix.Array.{Block, Array}

abbrev pub in_use : ℕ → ℕ
in_use v = if v == 0 then 0 else 1

abbrev pub count_used : List ℕ → ℕ
count_used [] = 0
count_used (x ∷ xs) = in_use x + count_used xs

pub record IsBlock (scale : ℕ) (b : Block) : Type 0 where
  pub full : length b.items ≡ scale
  pub counted : b.ref ≡ count_used b.items
  pub used : 0 < b.ref

abbrev pub IsSlot : ℕ → Option Block → Type 0
IsSlot scale none = Unit {0}
IsSlot scale (some b) = IsBlock scale b

abbrev pub AllSlots : ℕ → List (Option Block) → Type 0
AllSlots scale [] = Unit {0}
AllSlots scale (b ∷ bs) = IsSlot scale b × AllSlots scale bs

pub record IsValid (a : Array) : Type 0 where
  pub scale_pos : 0 < a.scale
  pub size : a.size ≡ length a.blocks * a.scale
  pub small : a.size < 2 ^ 32
  pub slots : AllSlots a.scale a.blocks

pub AllSlots-get :
    (scale : ℕ) (bs : List (Option Block)) (k : ℕ) {b : Option Block}
    → AllSlots scale bs
    → get_elem? bs k ≡ some b
    → IsSlot scale b
AllSlots-get scale [] k v e = absurd (cc)
AllSlots-get scale (c ∷ bs) zero v e = subst (IsSlot scale) (cc) (v.0)
AllSlots-get scale (c ∷ bs) (suc k) v e = AllSlots-get scale bs k (v.1) e

pub AllSlots-set :
    (scale : ℕ) (bs : List (Option Block)) (k : ℕ) (b : Option Block)
    → AllSlots scale bs
    → IsSlot scale b
    → AllSlots scale (set bs k b)
AllSlots-set scale [] k b v s = tt
AllSlots-set scale (c ∷ bs) zero b v s = (s, v.1)
AllSlots-set scale (c ∷ bs) (suc k) b v s = (v.0, AllSlots-set scale bs k b (v.1) s)

pub count_used-set :
    (xs : List ℕ) (j : ℕ) {old : ℕ} (v : ℕ)
    → get_elem? xs j ≡ some old
    → count_used (set xs j v) + in_use old ≡ count_used xs + in_use v
count_used-set [] j v e = absurd (cc)
count_used-set (x ∷ xs) zero v e = ground arith
count_used-set (x ∷ xs) (suc j) v e = omega (arith, count_used-set xs j v e)

pub in_use-le-count_used :
    (xs : List ℕ) (j : ℕ) {v : ℕ} → get_elem? xs j ≡ some v → in_use v ≤ count_used xs
in_use-le-count_used [] j e = absurd (cc)
in_use-le-count_used (x ∷ xs) zero e = ground arith
in_use-le-count_used (x ∷ xs) (suc j) e = omega (arith, in_use-le-count_used xs j e)

pub count_used-replicate : (n : ℕ) → count_used (replicate n 0) ≡ 0
count_used-replicate zero = refl
count_used-replicate (suc n) = omega (arith, count_used-replicate n)

pub count_used-le : (xs : List ℕ) → count_used xs ≤ length xs
count_used-le [] = omega arith
count_used-le (x ∷ xs) = ground (arith, count_used-le xs)

pub get_elem?-lt {ℓ} :
    {A : Type ℓ} (xs : List A) (i : ℕ) → i < length xs → (a : A) × (get_elem? xs i ≡ some a)
get_elem?-lt [] i h = elim h [ ]
get_elem?-lt (x ∷ xs) zero h = (x, refl)
get_elem?-lt (x ∷ xs) (suc i) h = get_elem?-lt xs i (omega arith)

pub lt_of_get_elem? {ℓ} :
    {A : Type ℓ} (xs : List A) (i : ℕ) {a : A} → get_elem? xs i ≡ some a → i < length xs
lt_of_get_elem? [] i e = absurd (cc)
lt_of_get_elem? (x ∷ xs) zero e = omega arith
lt_of_get_elem? (x ∷ xs) (suc i) e = omega (arith, lt_of_get_elem? xs i e)

pub get_elem?-count_used :
    (xs : List ℕ) (i : ℕ) → count_used xs ≡ 0 → i < length xs → get_elem? xs i ≡ some 0
get_elem?-count_used [] i e h = elim h [ ]
get_elem?-count_used (x ∷ xs) zero e h = ap some (ground arith)
get_elem?-count_used (x ∷ xs) (suc i) e h = get_elem?-count_used xs i (omega arith) (omega arith)
