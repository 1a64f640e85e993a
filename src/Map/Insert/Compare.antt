-- ===== src/Map/Insert/Compare.antt =====
-- insert_node and the comparison of the map.
use sandnix.Prelude.{
  ℕ, zero, suc, ◌≡◌, ◌∙◌, refl, subst, ◌==◌, ◌&&◌, ◌||◌, not, Option, none, some, List, ◌∷◌,
}
use sandnix.Nodes.{Ptr, null}
use sandnix.Compare.{ℤ}
use sandnix.Map.{
  black, red, Side, left, right, other, Map, child, set_node, set_color, is_red, by_sign,
}
use sandnix.Map.Rotate.{rotate}
use sandnix.Map.Rotate.Kept.{branches, Kept, KeptNode, rotate-Kept}
use sandnix.Map.Insert.{
  leave, turn_next, fix_next, fix_placed, place, turn_above, turn_grand, turn_parent, fix_red,
  fix_below, fix_round, fix_tree, root_black, insert_below, insert_allocated, insert_node, paired,
  new_node,
}

module _ (f : ℕ → ℕ → ℤ) where
  -- A map that is returned has this comparison.
  abbrev KeptMap : Option Map → Type 0
  KeptMap none = Unit {0}
  KeptMap (some m) = Kept f m

  abbrev KeptNext : Option (Option Ptr × Map) → Type 0
  KeptNext none = Unit {0}
  KeptNext (some (q, m)) = Kept f m

  leave-KeptNext : (r : Option (Ptr × Map)) → KeptNode f r → KeptNext (leave r)
  leave-KeptNext none k = tt
  leave-KeptNext (some (q, m)) k = k

  turn_above-KeptNext :
      (side : Side) (p u g : Ptr) (m : Map) → Kept f m → KeptNext (turn_above side p u g m)
  unfolding turn_above
  turn_above-KeptNext side p u g m k = branches KeptNext (u == null || g == null) _ _ k (
      leave-KeptNext (rotate (other side) g (set_color g red (set_color u black m)))
        (rotate-Kept f (other side) g (set_color g red (set_color u black m)) k))

  turn_grand-KeptNext :
      (side : Side) (p : Ptr) (m : Map) → Kept f m → KeptNext (turn_grand side p m)
  unfolding turn_grand
  turn_grand-KeptNext side p m k =
      turn_above-KeptNext side p (m.nodes p).parent (m.nodes (m.nodes p).parent).parent m k

  turn_next-KeptNext :
      (side : Side) (p : Ptr) (r : Option (Ptr × Map))
      → KeptNode f r
      → KeptNext (turn_next side p r)
  turn_next-KeptNext side p none k = tt
  turn_next-KeptNext side p (some (q, m)) k = turn_grand-KeptNext side p m k

  turn_parent-KeptNext :
      (side : Side) (p u : Ptr) (m : Map) → Kept f m → KeptNext (turn_parent side p u m)
  unfolding turn_parent
  turn_parent-KeptNext side p u m k =
      branches KeptNext (p == child (other side) (m.nodes u)) _ _
        (turn_next-KeptNext side u (rotate side u m) (rotate-Kept f side u m k))
        (turn_grand-KeptNext side p m k)

  fix_red-KeptNext :
      (side : Side) (p u g y : Ptr) (m : Map) → Kept f m → KeptNext (fix_red side p u g y m)
  unfolding fix_red
  fix_red-KeptNext side p u g y m k =
      branches KeptNext (not (y == null) && is_red (m.nodes y).color) _ _ k
        (turn_parent-KeptNext side p u m k)

  fix_below-KeptNext : (p u g : Ptr) (m : Map) → Kept f m → KeptNext (fix_below p u g m)
  unfolding fix_below
  fix_below-KeptNext p u g m k =
      branches KeptNext (g == null) _ _ tt (fix_red-KeptNext _ p u g _ m k)

  fix_round-KeptNext : (p : Ptr) (m : Map) → Kept f m → KeptNext (fix_round p m)
  unfolding fix_round
  fix_round-KeptNext p m k =
      branches KeptNext
        ((m.nodes p).parent == null || not (is_red (m.nodes (m.nodes p).parent).color)) _ _ k
        (fix_below-KeptNext p (m.nodes p).parent _ m k)

  fix_next-KeptMap :
      (next : Ptr → Map → Option Map) (r : Option (Option Ptr × Map))
      → ((p : Ptr) (m : Map) → Kept f m → KeptMap (next p m))
      → KeptNext r
      → KeptMap (fix_next next r)
  fix_next-KeptMap next none kn k = tt
  fix_next-KeptMap next (some (none, m)) kn k = k
  fix_next-KeptMap next (some (some p, m)) kn k = kn p m k

  fix_tree-KeptMap : (fuel : ℕ) (p : Ptr) (m : Map) → Kept f m → KeptMap (fix_tree fuel p m)
  unfolding fix_tree
  fix_tree-KeptMap zero p m k = tt
  fix_tree-KeptMap (suc fuel) p m k =
      fix_next-KeptMap (λ q n. fix_tree fuel q n) (fix_round p m)
        (λ q n h. fix_tree-KeptMap fuel q n h) (fix_round-KeptNext p m k)

  place-KeptMap : (fuel : ℕ) (q p : Ptr) (m : Map) → Kept f m → KeptMap (place fuel q p m)
  unfolding place
  place-KeptMap zero q p m k = tt
  place-KeptMap (suc fuel) q p m k =
      branches KeptMap
        (child (by_sign (m.compare_func (m.nodes p).key (m.nodes q).key) right left left)
            (m.nodes q)
          == null)
        _ _ k (place-KeptMap fuel _ p m k)

  root_black-KeptMap : (r : Option Map) → KeptMap r → KeptMap (root_black r)
  root_black-KeptMap none k = tt
  root_black-KeptMap (some m) k = k

  fix_placed-KeptMap :
      (fuel : ℕ) (p : Ptr) (r : Option Map) → KeptMap r → KeptMap (fix_placed fuel p r)
  fix_placed-KeptMap fuel p none k = tt
  fix_placed-KeptMap fuel p (some m) k =
      root_black-KeptMap (fix_tree fuel p (set_color p red m))
        (fix_tree-KeptMap fuel p (set_color p red m) k)

  paired-KeptNode : (p : Ptr) (r : Option Map) → KeptMap r → KeptNode f (paired p r)
  paired-KeptNode p none k = tt
  paired-KeptNode p (some m) k = k

  insert_allocated-KeptNode :
      (fuel : ℕ) (p : Ptr) (m : Map) → Kept f m → KeptNode f (insert_allocated fuel p m)
  unfolding insert_allocated insert_below
  insert_allocated-KeptNode fuel p m k = branches (KeptNode f) (m.tree == null) _ _ k (
      paired-KeptNode p (insert_below fuel p m)
        (fix_placed-KeptMap fuel p (place fuel m.tree p m) (place-KeptMap fuel m.tree p m k)))

-- The map that is returned has the comparison that there was.
pub insert_allocated-compare_func :
    (fuel : ℕ) (p q : Ptr) (m m' : Map)
    → insert_allocated fuel p m ≡ some (q, m')
    → m'.compare_func ≡ m.compare_func
insert_allocated-compare_func fuel p q m m' e =
    subst (KeptNode m.compare_func) e (insert_allocated-KeptNode m.compare_func fuel p m refl)

pub insert_node-compare_func :
    (fuel key value : ℕ) (n : Ptr) (supply : List Ptr) (q : Ptr) (m m' : Map)
    → m.supply ≡ n ∷ supply
    → insert_node fuel key value m ≡ some (q, m')
    → m'.compare_func ≡ m.compare_func
unfolding insert_node
insert_node-compare_func fuel key value n supply q m m' given e =
    insert_allocated-compare_func fuel n q
      (set_node n (new_node key value black) (record m { supply = supply })) m' (here ∙ e)
  where
    here :
        insert_allocated fuel n
          (set_node n (new_node key value black) (record m { supply = supply }))
        ≡ insert_node fuel key value m
    here = rw given refl
