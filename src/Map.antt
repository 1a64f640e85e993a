-- ===== src/Map.antt =====
-- The ordered map of sandnix/kernel/core/rtl/container/map: its red-black tree in memory.
-- A pointer is a number, NULL is 0; a key and a value are the pointers that the map keeps, and NULL
-- is a value of 0. `none` is an access through NULL or a loop that runs out of fuel. Of the heap of
-- core/mm/heap, `supply` holds the pointers that `core_mm_heap_alloc` is going to return (NULL when
-- they run out), and `freed` those that `core_mm_heap_free` has got, the last first.
pub mod Rotate
pub mod Walk
pub mod Insert
pub mod Remove
pub mod Destroy
pub mod Tree
pub mod Lookup
pub mod Context
pub mod Recolor
pub mod Balance
pub mod Height
mod Tests
use sandnix.Prelude.{
  ℕ, zero, suc, Bool, true, false, ◌==◌, ◌&&◌, not, Option, none, some, List, [], ◌∷◌,
  if◌then◌else◌,
}
use sandnix.Nodes.{Ptr, null, update}
use sandnix.Compare.{ℤ, pos, negsuc}

pub data Color : Type 0 where
  black : Color
  red : Color

pub data Side : Type 0 where
  left : Side
  right : Side

abbrev pub other : Side → Side
other left = right
other right = left

pub record Node : Type 0 where
  pub parent : Ptr
  pub lchild : Ptr
  pub rchild : Ptr
  pub color : Color
  pub key : ℕ
  pub value : ℕ

pub record Map : Type 0 where
  pub tree : Ptr
  pub compare_func : ℕ → ℕ → ℤ
  pub nodes : Ptr → Node
  pub supply : List Ptr
  pub freed : List Ptr

abbrev pub is_red : Color → Bool
is_red black = false
is_red red = true

abbrev pub child : Side → Node → Ptr
child left n = n.lchild
child right n = n.rchild

abbrev pub with_child : Side → Ptr → Node → Node
with_child left v n = record n { lchild = v }
with_child right v n = record n { rchild = v }

abbrev pub with_parent : Ptr → Node → Node
with_parent v n = record n { parent = v }

abbrev pub set_node : Ptr → Node → Map → Map
set_node p n m = record m { nodes = update m.nodes p n }

abbrev pub set_parent : (p v : Ptr) → Map → Map
set_parent p v m = set_node p (with_parent v (m.nodes p)) m

abbrev pub set_child : Side → (p v : Ptr) → Map → Map
set_child side p v m = set_node p (with_child side v (m.nodes p)) m

abbrev pub set_color : Ptr → Color → Map → Map
set_color p c m = set_node p (record (m.nodes p) { color = c }) m

pub init : (ℕ → ℕ → ℤ) → (supply freed : List Ptr) → (Ptr → Node) → Map
init compare supply freed nodes = record {
  tree = null;
  compare_func = compare;
  nodes = nodes;
  supply = supply;
  freed = freed;
}

-- `> 0`, `== 0` and otherwise, of what a comparison returns.
abbrev pub by_sign {ℓ} : {A : Type ℓ} → ℤ → A → A → A → A
by_sign (pos zero) above same below = same
by_sign (pos (suc n)) above same below = above
by_sign (negsuc n) above same below = below

-- The loop of `get_node`, on fuel.
pub find_node : (fuel : ℕ) (p : Ptr) (key : ℕ) → Map → Option Ptr
find_node zero p key m = none
find_node (suc fuel) p key m =
    let n = m.nodes p in
    let order = m.compare_func key n.key in
    let rest = find_node fuel (by_sign order n.rchild null n.lchild) key m in
    if p == null then some null else by_sign order rest (some p) rest

pub get_node : (fuel key : ℕ) → Map → Option Ptr
get_node fuel key m = find_node fuel m.tree key m

abbrev pub value_of : Map → Option Ptr → Option ℕ
value_of m none = none
value_of m (some p) = some (if p == null then 0 else (m.nodes p).value)

pub get : (fuel key : ℕ) → Map → Option ℕ
get fuel key m = value_of m (get_node fuel key m)

-- `core_rtl_map_search`; its callback gets the key and the value of a node.
pub search_from : (fuel : ℕ) (p : Ptr) → (ℕ → ℕ → ℤ) → Map → Option ℕ
search_from zero p search_func m = none
search_from (suc fuel) p search_func m =
    let n = m.nodes p in
    let order = search_func n.key n.value in
    let rest = search_from fuel (by_sign order n.rchild null n.lchild) search_func m in
    if p == null then some 0 else by_sign order rest (some n.key) rest

pub search : (fuel : ℕ) → (ℕ → ℕ → ℤ) → Map → Option ℕ
search fuel search_func m = search_from fuel m.tree search_func m
