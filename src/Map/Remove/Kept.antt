-- ===== src/Map/Remove/Kept.antt =====
-- remove_node leaves the comparison of the map as it is.
use sandnix.Prelude.{
  ℕ, zero, suc, ◌≡◌, refl, subst, ◌==◌, ◌&&◌, ◌||◌, not, Option, none, some, if◌then◌else◌,
}
use sandnix.Nodes.{Ptr, null}
use sandnix.Compare.{ℤ}
use sandnix.Map.{black, red, Side, right, other, Map, child, is_red, set_color}
use sandnix.Map.Rotate.{rotate}
use sandnix.Map.Rotate.Kept.{branches, Kept, KeptNode, rotate-Kept}
use sandnix.Map.Walk.{last_child}
use sandnix.Map.Remove.{
  Round, is_red_at, blacken, leave_painted, turn_up, turn_parent, turn_again, fix_sibling,
  fix_black, fix_again, fix_side, fix_below, rebalance_round, next_round, remove_rebalance, pick,
  swapped, relink, unlink_red, unlink_root, unlink_black, with_node, unlink, remove_node,
  only_child,
}

module _ (f : ℕ → ℕ → ℤ) where
  abbrev KeptRound : Round → Type 0
  KeptRound none = Unit {0}
  KeptRound (some (q, m)) = Kept f m

  abbrev KeptMap : Option Map → Type 0
  KeptMap none = Unit {0}
  KeptMap (some m) = Kept f m

  blacken-Kept : (p : Ptr) (m : Map) → Kept f m → Kept f (blacken p m)
  blacken-Kept p m k = branches (Kept f) (p == null) _ _ k k

  leave_painted-KeptRound :
      (s g : Ptr) (r : Option (Ptr × Map)) → KeptNode f r → KeptRound (leave_painted s g r)
  leave_painted-KeptRound s g none k = tt
  leave_painted-KeptRound s g (some (q, m)) k =
      let colored = set_color s (m.nodes g).color m in
      blacken-Kept (colored.nodes s).rchild (blacken (colored.nodes s).lchild colored)
        (blacken-Kept (colored.nodes s).lchild colored k)

  turn_up-KeptRound :
      (side : Side) (p g s : Ptr) (m : Map) → Kept f m → KeptRound (turn_up side p g s m)
  unfolding turn_up
  turn_up-KeptRound side p g s m k =
      branches KeptRound (not (is_red_at s m) && is_red_at (child (other side) (m.nodes s)) m) _ _
        (leave_painted-KeptRound s g (rotate side g m) (rotate-Kept f side g m k)) k

  turn_parent-KeptRound :
      (side : Side) (p g : Ptr) (m : Map) → Kept f m → KeptRound (turn_parent side p g m)
  unfolding turn_parent
  turn_parent-KeptRound side p g m k =
      branches KeptRound (child (other side) (m.nodes g) == null) _ _ tt
        (turn_up-KeptRound side p g (child (other side) (m.nodes g)) m k)

  turn_again-KeptRound :
      (side : Side) (p g : Ptr) (r : Option (Ptr × Map))
      → KeptNode f r
      → KeptRound (turn_again side p g r)
  turn_again-KeptRound side p g none k = tt
  turn_again-KeptRound side p g (some (q, m)) k = turn_parent-KeptRound side p g m k

  fix_sibling-KeptRound :
      (side : Side) (p g s near far : Ptr) (m : Map)
      → Kept f m
      → KeptRound (fix_sibling side p g s near far m)
  unfolding fix_sibling
  fix_sibling-KeptRound side p g s near far m k =
      branches KeptRound (not (is_red_at s m) && not (is_red_at near m) && not (is_red_at far m)) _
        _ k
        (branches KeptRound (not (is_red_at s m) && is_red_at near m) _ _
          (turn_again-KeptRound side p g
            (rotate (other side) s (set_color near black (set_color s red m)))
            (rotate-Kept f (other side) s (set_color near black (set_color s red m)) k))
          (turn_up-KeptRound side p g s m k))

  fix_black-KeptRound :
      (side : Side) (p g : Ptr) (m : Map) → Kept f m → KeptRound (fix_black side p g m)
  unfolding fix_black
  fix_black-KeptRound side p g m k =
      branches KeptRound (child (other side) (m.nodes g) == null) _ _ tt
        (fix_sibling-KeptRound side p g (child (other side) (m.nodes g)) _ _ m k)

  fix_again-KeptRound :
      (side : Side) (p g : Ptr) (r : Option (Ptr × Map))
      → KeptNode f r
      → KeptRound (fix_again side p g r)
  fix_again-KeptRound side p g none k = tt
  fix_again-KeptRound side p g (some (q, m)) k = fix_black-KeptRound side p g m k

  fix_side-KeptRound :
      (side : Side) (p g s : Ptr) (m : Map) → Kept f m → KeptRound (fix_side side p g s m)
  unfolding fix_side
  fix_side-KeptRound side p g s m k = branches KeptRound (s == null) _ _ tt (
      branches KeptRound (is_red_at s m) _ _
        (fix_again-KeptRound side p g (rotate side g (set_color g red (set_color s black m)))
          (rotate-Kept f side g (set_color g red (set_color s black m)) k))
        (fix_black-KeptRound side p g m k))

  fix_below-KeptRound : (p g : Ptr) (m : Map) → Kept f m → KeptRound (fix_below p g m)
  unfolding fix_below
  fix_below-KeptRound p g m k =
      branches KeptRound (g == null) _ _ tt (fix_side-KeptRound _ p g _ m k)

  rebalance_round-KeptRound : (p g : Ptr) (m : Map) → Kept f m → KeptRound (rebalance_round p g m)
  unfolding rebalance_round
  rebalance_round-KeptRound p g m k =
      branches KeptRound (is_red_at p m) _ _ k
        (branches KeptRound (p == m.tree) _ _ k (fix_below-KeptRound p _ m k))

  next_round-KeptMap :
      (next : Ptr → Ptr → Map → Option Map) (r : Round)
      → ((p q : Ptr) (m : Map) → Kept f m → KeptMap (next p q m))
      → KeptRound r
      → KeptMap (next_round next r)
  next_round-KeptMap next none kn k = tt
  next_round-KeptMap next (some (none, m)) kn k = k
  next_round-KeptMap next (some (some (p, q), m)) kn k = kn p q m k

  remove_rebalance-KeptMap :
      (fuel : ℕ) (p g : Ptr) (m : Map) → Kept f m → KeptMap (remove_rebalance fuel p g m)
  unfolding remove_rebalance
  remove_rebalance-KeptMap zero p g m k = tt
  remove_rebalance-KeptMap (suc fuel) p g m k =
      next_round-KeptMap (λ p q m. remove_rebalance fuel p q m) (rebalance_round p g m)
        (λ p q m h. remove_rebalance-KeptMap fuel p q m h) (rebalance_round-KeptRound p g m k)

  relink-Kept : (g p q : Ptr) (m : Map) → Kept f m → Kept f (relink g p q m)
  relink-Kept g p q m k = branches (Kept f) (q == null) _ _ k k

  unlink_red-KeptMap : (p : Ptr) (m : Map) → Kept f m → KeptMap (unlink_red p m)
  unfolding unlink_red
  unlink_red-KeptMap p m k =
      branches KeptMap ((m.nodes p).parent == null) _ _ tt
        (relink-Kept (m.nodes p).parent p (m.nodes p).lchild m k)

  unlink_root-Kept : (p : Ptr) (m : Map) → Kept f m → Kept f (unlink_root p m)
  unlink_root-Kept p m k = branches (Kept f) (only_child (m.nodes p) == null) _ _ k k

  unlink_black-KeptMap : (fuel : ℕ) (p : Ptr) (m : Map) → Kept f m → KeptMap (unlink_black fuel p m)
  unfolding unlink_black
  unlink_black-KeptMap fuel p m k = branches KeptMap (p == m.tree) _ _ (unlink_root-Kept p m k) (
      branches KeptMap ((m.nodes p).parent == null) _ _ tt (
        remove_rebalance-KeptMap fuel _ _ (relink (m.nodes p).parent p (only_child (m.nodes p)) m)
          (relink-Kept (m.nodes p).parent p (only_child (m.nodes p)) m k)))

  with_node-KeptNode : (p : Ptr) (r : Option Map) → KeptMap r → KeptNode f (with_node p r)
  with_node-KeptNode p none k = tt
  with_node-KeptNode p (some m) k = k

  unlink-KeptNode : (fuel : ℕ) (r : Option (Ptr × Map)) → KeptNode f r → KeptNode f (unlink fuel r)
  unlink-KeptNode fuel none k = tt
  unlink-KeptNode fuel (some (p, m)) k =
      with_node-KeptNode p
        (if is_red (m.nodes p).color then unlink_red p m else unlink_black fuel p m)
        (branches KeptMap (is_red (m.nodes p).color) _ _ (unlink_red-KeptMap p m k)
          (unlink_black-KeptMap fuel p m k))

  swapped-KeptNode : (p : Ptr) (m : Map) (r : Option Ptr) → Kept f m → KeptNode f (swapped p m r)
  swapped-KeptNode p m none k = tt
  swapped-KeptNode p m (some q) k = k

  pick-KeptNode : (fuel : ℕ) (p : Ptr) (m : Map) → Kept f m → KeptNode f (pick fuel p m)
  unfolding pick
  pick-KeptNode fuel p m k =
      branches (KeptNode f) ((m.nodes p).lchild == null || (m.nodes p).rchild == null) _ _ k
        (swapped-KeptNode p m (last_child right fuel (m.nodes p).lchild m) k)

-- The map that is returned has the comparison that there was.
pub remove_node-compare_func :
    (fuel : ℕ) (p q : Ptr) (m m' : Map)
    → remove_node fuel p m ≡ some (q, m')
    → m'.compare_func ≡ m.compare_func
unfolding remove_node
remove_node-compare_func fuel p q m m' e = subst (KeptNode m.compare_func) e (
    unlink-KeptNode m.compare_func fuel (pick fuel p m)
      (pick-KeptNode m.compare_func fuel p m refl))
