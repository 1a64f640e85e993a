-- ===== src/Map/Insert.antt =====
-- core/rtl/container/map/map.c: insert_node. A branch of the source and its mirror image are one
-- branch here, with the side on which the parent of the node stands.
pub mod TurnGrand
pub mod TurnParent
pub mod Fix
pub mod Order
pub mod Place
pub mod Insertion
pub mod Sorted
pub mod Compare
pub mod Found
use sandnix.Prelude.{
  ℕ, zero, suc, Bool, true, false, ◌==◌, ◌&&◌, ◌||◌, not, Option, none, some, List, [], ◌∷◌,
  if◌then◌else◌,
}
use sandnix.Nodes.{Ptr, null}
use sandnix.Map.{
  Color, black, red, Side, left, right, other, Node, Map, is_red, child, set_node, set_parent,
  set_child, set_color, by_sign,
}
use sandnix.Map.Rotate.{rotate}

-- "Find where to insert the node", on fuel.
pub place : (fuel : ℕ) → (p_insert_node p_node : Ptr) → Map → Option Map
place zero p_insert_node p_node m = none
place (suc fuel) p_insert_node p_node m =
    let at = m.nodes p_insert_node in
    let side = by_sign (m.compare_func (m.nodes p_node).key at.key) right left left in
    let rest = place fuel (child side at) p_node m in
    if child side at == null
    then some (set_parent p_node p_insert_node (set_child side p_insert_node p_node m))
    else rest

-- Case 1: the two children of the grandparent turn black, and the loop goes on with it.
abbrev pub push_up : (up grand p_y : Ptr) → Map → Map
push_up up grand p_y m = set_color grand red (set_color p_y black (set_color up black m))

-- `break` behind a rotation.
abbrev pub leave : Option (Ptr × Map) → Option (Option Ptr × Map)
leave none = none
leave (some (q, m)) = some (none, m)

-- Case 2 and its guard; where that fails the loop goes on with the same node.
pub turn_above : Side → (p_z up grand : Ptr) → Map → Option (Option Ptr × Map)
turn_above side p_z up grand m =
    if up == null || grand == null
    then some (some p_z, m)
    else leave (rotate (other side) grand (set_color grand red (set_color up black m)))

pub turn_grand : Side → (p_z : Ptr) → Map → Option (Option Ptr × Map)
turn_grand side p_z m =
    turn_above side p_z (m.nodes p_z).parent (m.nodes (m.nodes p_z).parent).parent m

abbrev pub turn_next : Side → Ptr → Option (Ptr × Map) → Option (Option Ptr × Map)
turn_next side p_z none = none
turn_next side p_z (some (q, m)) = turn_grand side p_z m

-- Case 3, which goes on with the parent, and case 2.
pub turn_parent : Side → (p_z up : Ptr) → Map → Option (Option Ptr × Map)
turn_parent side p_z up m =
    if p_z == child (other side) (m.nodes up)
    then turn_next side up (rotate side up m)
    else turn_grand side p_z m

-- A red parent, on a side of the grandparent.
pub fix_red : Side → (p_z up grand p_y : Ptr) → Map → Option (Option Ptr × Map)
fix_red side p_z up grand p_y m =
    if not (p_y == null) && is_red (m.nodes p_y).color
    then some (some grand, push_up up grand p_y m)
    else turn_parent side p_z up m

pub fix_below : (p_z up grand : Ptr) → Map → Option (Option Ptr × Map)
fix_below p_z up grand m =
    let side = if up == (m.nodes grand).lchild then left else right in
    if grand == null then none else fix_red side p_z up grand (child (other side) (m.nodes grand)) m

-- A round of the loop: where it goes on, if it does.
pub fix_round : (p_z : Ptr) → Map → Option (Option Ptr × Map)
fix_round p_z m =
    let up = (m.nodes p_z).parent in
    if up == null || not (is_red (m.nodes up).color)
    then some (none, m)
    else fix_below p_z up (m.nodes up).parent m

abbrev pub fix_next : (Ptr → Map → Option Map) → Option (Option Ptr × Map) → Option Map
fix_next next none = none
fix_next next (some (none, m)) = some m
fix_next next (some (some p_z, m)) = next p_z m

pub fix_tree : (fuel : ℕ) (p_z : Ptr) → Map → Option Map
fix_tree zero p_z m = none
fix_tree (suc fuel) p_z m = fix_next (λ p m. fix_tree fuel p m) (fix_round p_z m)

abbrev pub new_node : (key value : ℕ) → Color → Node
new_node key value c = record {
  parent = null;
  lchild = null;
  rchild = null;
  color = c;
  key = key;
  value = value;
}

abbrev pub root_black : Option Map → Option Map
root_black none = none
root_black (some m) = some (set_color m.tree black m)

abbrev pub fix_placed : (fuel : ℕ) (p_node : Ptr) → Option Map → Option Map
fix_placed fuel p_node none = none
fix_placed fuel p_node (some m) = root_black (fix_tree fuel p_node (set_color p_node red m))

-- Below the root: the node is placed red, and the tree is fixed.
pub insert_below : (fuel : ℕ) (p_node : Ptr) → Map → Option Map
insert_below fuel p_node m = fix_placed fuel p_node (place fuel m.tree p_node m)

abbrev pub paired : Ptr → Option Map → Option (Ptr × Map)
paired p none = none
paired p (some m) = some (p, m)

-- `core_mm_heap_alloc` returns NULL when `supply` runs out.
-- The new node is in place; `p_map->p_tree == NULL` is tested.
pub insert_allocated : (fuel : ℕ) (p_node : Ptr) → Map → Option (Ptr × Map)
insert_allocated fuel p_node m =
    if m.tree == null
    then some (p_node, record m { tree = p_node })
    else paired p_node (insert_below fuel p_node m)

-- `core_mm_heap_alloc` returns NULL when `supply` runs out.
pub insert_node : (fuel key value : ℕ) → Map → Option (Ptr × Map)
insert_node fuel key value m = allocated m.supply
  where
    allocated : List Ptr → Option (Ptr × Map)
    allocated [] = some (null, m)
    allocated (p_node ∷ supply) =
        insert_allocated fuel p_node
          (set_node p_node (new_node key value black) (record m { supply = supply }))
