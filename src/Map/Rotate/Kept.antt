-- ===== src/Map/Rotate/Kept.antt =====
-- A rotation leaves the comparison of the map as it is.
use sandnix.Prelude.{ℕ, ◌≡◌, Bool, true, false, ◌==◌, ◌||◌, Option, none, some, if◌then◌else◌}
use sandnix.Nodes.{Ptr, null}
use sandnix.Compare.{ℤ}
use sandnix.Map.{Side, other, Map, child, set_parent}
use sandnix.Map.Rotate.{rotate, rotate_to, replace, hand_over}

-- A property of both branches.
pub branches :
    {A : Type 0} (P : A → Type 0) (b : Bool) (x y : A) → P x → P y → P (if b then x else y)
branches P true x y px py = px
branches P false x y px py = py

module _ (f : ℕ → ℕ → ℤ) where
  abbrev pub Kept : Map → Type 0
  Kept m = m.compare_func ≡ f

  -- A map that is returned has this comparison.
  abbrev pub KeptNode : Option (Ptr × Map) → Type 0
  KeptNode none = Unit {0}
  KeptNode (some (q, m)) = Kept m

  replace-Kept : (q p p' : Ptr) (m : Map) → Kept m → Kept (replace q p p' m)
  unfolding replace
  replace-Kept q p p' m k =
      branches Kept (q == null) _ _ k (branches Kept (p == (m.nodes q).lchild) _ _ k k)

  hand_over-Kept : (side : Side) (p q : Ptr) (m : Map) → Kept m → Kept (hand_over side p q m)
  unfolding hand_over
  hand_over-Kept side p q m k = branches Kept (q == null) _ _ k k

  rotate_to-Kept : (side : Side) (p p' q : Ptr) (m : Map) → Kept m → Kept (rotate_to side p p' q m)
  unfolding rotate_to
  rotate_to-Kept side p p' q m k =
      hand_over-Kept side p _ (replace q p p' (set_parent p' q m))
        (replace-Kept q p p' (set_parent p' q m) k)

  pub rotate-Kept : (side : Side) (p : Ptr) (m : Map) → Kept m → KeptNode (rotate side p m)
  unfolding rotate
  rotate-Kept side p m k =
      branches KeptNode (p == null || child (other side) (m.nodes p) == null) none
        (some (
          child (other side) (m.nodes p),
          rotate_to side p (child (other side) (m.nodes p)) (m.nodes p).parent m,
        ))
        tt (rotate_to-Kept side p (child (other side) (m.nodes p)) (m.nodes p).parent m k)
