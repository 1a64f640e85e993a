-- ===== src/Map/Balance.antt =====
-- The colours of a red-black tree, and of one with a hole.
use sandnix.Prelude.{ℕ, suc, ◌≡◌, refl, subst, List, [], ◌∷◌}
use sandnix.Nodes.{Ptr}
use sandnix.Map.{Color, black, red, Side, left, right}
use sandnix.Map.Tree.{Tree, leaf, branch, join}
use sandnix.Map.Context.{Frame, frame, plug}

abbrev pub IsBlackRoot : Tree → Type 0
IsBlackRoot leaf = Unit {0}
IsBlackRoot (branch l a c k v r) = c ≡ black

abbrev pub IsRedRoot : Tree → Type 0
IsRedRoot leaf = ⊥
IsRedRoot (branch l a c k v r) = c ≡ red

-- Every path from the root down has `n` black nodes, and a red node has no red child.
abbrev pub IsBalanced : ℕ → Tree → Type 0
IsBalanced n leaf = n ≡ 0
IsBalanced n (branch l a black k v r) =
    (n' : ℕ) × ((n ≡ suc n') × IsBalanced n' l × IsBalanced n' r)
IsBalanced n (branch l a red k v r) =
    IsBalanced n l × IsBalanced n r × (IsBlackRoot l × IsBlackRoot r)

-- A red-black tree.
abbrev pub IsRedBlack : Tree → Type 0
IsRedBlack t = IsBlackRoot t × ((n : ℕ) × IsBalanced n t)

-- A hole for a subtree with `n` black nodes on every path, whose root may be red below a red one.
abbrev pub IsFramed : ℕ → List Frame → Type 0
IsFramed n [] = Unit {0}
IsFramed n (frame side a black k v r ∷ fs) = IsBalanced n r × IsFramed (suc n) fs
IsFramed n (frame side a red k v r ∷ []) = ⊥
IsFramed n (frame side a red k v r ∷ (frame side' b red i j u ∷ fs)) = ⊥
IsFramed n (frame side a red k v r ∷ (frame side' b black i j u ∷ fs)) =
    IsBalanced n r × IsBlackRoot r × (IsBalanced n u × IsFramed (suc n) fs)

-- A red parent has a black sibling beside it and a black node above it.
pub below_red :
    (n : ℕ) (side side' : Side) (a b : Ptr) (c : Color) (k v i j : ℕ) (r u : Tree) (fs : List Frame)
    → IsFramed n (frame side a red k v r ∷ (frame side' b c i j u ∷ fs))
    → IsBalanced n r × IsBlackRoot r × (IsBalanced n u × IsFramed (suc n) fs)
below_red n side side' a b black k v i j r u fs f = f
below_red n side side' a b red k v i j r u fs f = absurd f

module _ (n : ℕ) (a : Ptr) (k v : ℕ) where
  pub black-IsBalanced :
      (side : Side) (t r : Tree)
      → IsBalanced n t
      → IsBalanced n r
      → IsBalanced (suc n) (join side t a black k v r)
  black-IsBalanced left t r x y = (n, (refl, x, y))
  black-IsBalanced right t r x y = (n, (refl, y, x))

  pub red-IsBalanced :
      (side : Side) (t r : Tree)
      → IsBalanced n t
      → IsBalanced n r
      → IsBlackRoot t
      → IsBlackRoot r
      → IsBalanced n (join side t a red k v r)
  red-IsBalanced left t r x y p q = (x, y, (p, q))
  red-IsBalanced right t r x y p q = (y, x, (q, p))

  pub IsBalanced-red :
      (side : Side) (t r : Tree)
      → IsBalanced n (join side t a red k v r)
      → IsBalanced n t × IsBalanced n r × (IsBlackRoot t × IsBlackRoot r)
  IsBalanced-red left t r x = x
  IsBalanced-red right t r x = (x.1, x.0, (x.2.1, x.2.0))

pub IsBlackRoot-join :
    (side : Side) (t : Tree) (a : Ptr) (c : Color) (k v : ℕ) (r : Tree)
    → c ≡ black
    → IsBlackRoot (join side t a c k v r)
IsBlackRoot-join left t a c k v r e = e
IsBlackRoot-join right t a c k v r e = e

-- A red root may turn black.
pub root_IsBalanced :
    (n : ℕ) (l : Tree) (a : Ptr) (c : Color) (k v : ℕ) (r : Tree)
    → IsBalanced n (branch l a c k v r)
    → (n' : ℕ) × IsBalanced n' (branch l a black k v r)
root_IsBalanced n l a black k v r b = (n, b)
root_IsBalanced n l a red k v r b = (suc n, (n, (refl, b.0, b.1)))

pub IsRedRoot-join :
    (side : Side) (t : Tree) (a : Ptr) (k v : ℕ) (r : Tree) → IsRedRoot (join side t a red k v r)
IsRedRoot-join left t a k v r = refl
IsRedRoot-join right t a k v r = refl

join-IsBlackRoot :
    (side : Side) (t : Tree) (a : Ptr) (c : Color) (k v : ℕ) (r : Tree)
    → IsBlackRoot (join side t a c k v r)
    → c ≡ black
join-IsBlackRoot left t a c k v r e = e
join-IsBlackRoot right t a c k v r e = e

-- A subtree with a black root fills the hole.
pub plug-IsBalanced :
    (n : ℕ) (fs : List Frame) (t : Tree)
    → IsFramed n fs
    → IsBalanced n t
    → IsBlackRoot t
    → (n' : ℕ) × IsBalanced n' (plug fs t)
plug-IsBalanced n [] t f b d = (n, b)
plug-IsBalanced n (frame side a black k v r ∷ fs) t f b d =
    plug-IsBalanced (suc n) fs (join side t a black k v r) (f.1)
      (black-IsBalanced n a k v side t r b (f.0)) (IsBlackRoot-join side t a black k v r refl)
plug-IsBalanced n (frame side a red k v r ∷ []) t f b d = absurd f
plug-IsBalanced n (frame side a red k v r ∷ (frame side' p red i j u ∷ fs)) t f b d = absurd f
plug-IsBalanced n (frame side a red k v r ∷ (frame side' p black i j u ∷ fs)) t f b d =
    let low = join side t a red k v r in
    plug-IsBalanced (suc n) fs (join side' low p black i j u) (f.2.1)
      (black-IsBalanced n p i j side' low u (red-IsBalanced n a k v side t r b (f.0) d (f.1))
        (f.2.0))
      (IsBlackRoot-join side' low p black i j u refl)

-- The root of the whole tree is that of the last frame, or of the subtree.
plug-IsBlackRoot :
    (n : ℕ) (fs : List Frame) (t : Tree) → IsFramed n fs → IsBlackRoot t → IsBlackRoot (plug fs t)
plug-IsBlackRoot n [] t f d = d
plug-IsBlackRoot n (frame side a black k v r ∷ fs) t f d =
    plug-IsBlackRoot (suc n) fs (join side t a black k v r) (f.1)
      (IsBlackRoot-join side t a black k v r refl)
plug-IsBlackRoot n (frame side a red k v r ∷ []) t f d = absurd f
plug-IsBlackRoot n (frame side a red k v r ∷ (frame side' p red i j u ∷ fs)) t f d = absurd f
plug-IsBlackRoot n (frame side a red k v r ∷ (frame side' p black i j u ∷ fs)) t f d =
    plug-IsBlackRoot (suc n) fs (join side' (join side t a red k v r) p black i j u) (f.2.1)
      (IsBlackRoot-join side' (join side t a red k v r) p black i j u refl)

pub plug-IsRedBlack :
    (n : ℕ) (fs : List Frame) (t : Tree)
    → IsFramed n fs
    → IsBalanced n t
    → IsBlackRoot t
    → IsRedBlack (plug fs t)
plug-IsRedBlack n fs t f b d = (plug-IsBlackRoot n fs t f d, plug-IsBalanced n fs t f b d)

-- What stands above a node of a colour with `n` black nodes on the paths below it.
abbrev pub IsAbove : ℕ → Color → List Frame → Type 0
IsAbove n black fs = IsFramed (suc n) fs
IsAbove n red [] = ⊥
IsAbove n red (frame side b red i j u ∷ fs) = ⊥
IsAbove n red (frame side b black i j u ∷ fs) = IsBalanced n u × IsFramed (suc n) fs

-- A node over two subtrees with black roots.
pub node-IsRedBlack :
    (n : ℕ) (c : Color) (fs : List Frame) (side : Side) (t : Tree) (a : Ptr) (k v : ℕ) (r : Tree)
    → IsAbove n c fs
    → IsBalanced n t
    → IsBalanced n r
    → IsBlackRoot t
    → IsBlackRoot r
    → IsRedBlack (plug fs (join side t a c k v r))
node-IsRedBlack n black fs side t a k v r f bt br dt dr =
    plug-IsRedBlack (suc n) fs (join side t a black k v r) f
      (black-IsBalanced n a k v side t r bt br) (IsBlackRoot-join side t a black k v r refl)
node-IsRedBlack n red [] side t a k v r f bt br dt dr = absurd f
node-IsRedBlack n red (frame side' b red i j u ∷ fs) side t a k v r f bt br dt dr = absurd f
node-IsRedBlack n red (frame side' b black i j u ∷ fs) side t a k v r f bt br dt dr =
    let low = join side t a red k v r in
    plug-IsRedBlack (suc n) fs (join side' low b black i j u) (f.1)
      (black-IsBalanced n b i j side' low u (red-IsBalanced n a k v side t r bt br dt dr) (f.0))
      (IsBlackRoot-join side' low b black i j u refl)

-- Below a red node the root of a subtree is black.
abbrev pub FitsBelow : List Frame → Tree → Type 0
FitsBelow [] t = IsBlackRoot t
FitsBelow (frame side a black k v r ∷ fs) t = Unit {0}
FitsBelow (frame side a red k v r ∷ fs) t = IsBlackRoot t

-- What is around a subtree of a red-black tree.
abbrev pub Around : List Frame → Tree → Type 0
Around fs t = (n : ℕ) × (IsBalanced n t × IsFramed n fs × FitsBelow fs t)

pub Around-join :
    (side : Side) (a : Ptr) (c : Color) (k v : ℕ) (r : Tree) (fs : List Frame) (t : Tree)
    → Around fs (join side t a c k v r)
    → Around (frame side a c k v r ∷ fs) t
Around-join left a black k v r fs t (n, (b, f, d)) =
    let e = b.1.0 in (b.0, (b.1.1, (b.1.2, subst (λ i. IsFramed i fs) e f), tt))
Around-join right a black k v r fs t (n, (b, f, d)) =
    let e = b.1.0 in (b.0, (b.1.2, (b.1.1, subst (λ i. IsFramed i fs) e f), tt))
Around-join side a red k v r [] t (n, (b, f, d)) =
    absurd (no_red (join-IsBlackRoot side t a red k v r d))
  where
    no_red : red ≡ black → ⊥
    no_red e = cc
Around-join side a red k v r (frame side' p red i j u ∷ fs) t (n, (b, f, d)) =
    absurd (no_red (join-IsBlackRoot side t a red k v r d))
  where
    no_red : red ≡ black → ⊥
    no_red e = cc
Around-join side a red k v r (frame side' p black i j u ∷ fs) t (n, (b, f, d)) =
    let parts = IsBalanced-red n a k v side t r b in
    (n, (parts.0, (parts.1, parts.2.1, f), parts.2.0))

pub Around-plug :
    (n : ℕ) (fs : List Frame) (t : Tree)
    → IsBalanced n (plug fs t)
    → IsBlackRoot (plug fs t)
    → Around fs t
Around-plug n [] t b d = (n, (b, tt, d))
Around-plug n (frame side a c k v r ∷ fs) t b d =
    Around-join side a c k v r fs t (Around-plug n fs (join side t a c k v r) b d)
