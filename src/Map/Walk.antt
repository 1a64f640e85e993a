-- ===== src/Map/Walk.antt =====
-- core/rtl/container/map/map.c: core_rtl_map_next and core_rtl_map_prev. They are one another's
-- mirror image, and `left` is the first: its keys go upwards. Loops are on fuel.
pub mod Next
use sandnix.Prelude.{ℕ, zero, suc, Bool, true, false, ◌==◌, Option, none, some, if◌then◌else◌}
use sandnix.Nodes.{Ptr, null}
use sandnix.Map.{Side, left, right, other, Map, child, get_node}

-- `for(; p_node->p_lchild != NULL; p_node = p_node->p_lchild);`
pub last_child : Side → (fuel : ℕ) → Ptr → Map → Option Ptr
last_child side zero p m = none
last_child side (suc fuel) p m =
    let rest = last_child side fuel (child side (m.nodes p)) m in
    if p == null then none else if child side (m.nodes p) == null then some p else rest

-- Up to the first node that is a child on `side`.
pub climb : Side → (fuel : ℕ) → Ptr → Map → Option Ptr
climb side zero p m = none
climb side (suc fuel) p m =
    let up = (m.nodes p).parent in
    let rest = climb side fuel up m in
    if p == null
    then none
    else if up == null
    then some null
    else if p == child side (m.nodes up)
    then some up
    else rest

pub step_node : Side → (fuel : ℕ) → Ptr → Map → Option Ptr
step_node side fuel p m =
    let n = m.nodes p in
    if p == null
    then none
    else if not_null (child (other side) n)
    then last_child side fuel (child (other side) n) m
    else if n.parent == null
    then some null
    else if p == child side (m.nodes n.parent)
    then some n.parent
    else climb side fuel p m
  where
    not_null : Ptr → Bool
    not_null q = if q == null then false else true

pub next_node : (fuel : ℕ) → Ptr → Map → Option Ptr
next_node fuel p m = step_node left fuel p m

pub prev_node : (fuel : ℕ) → Ptr → Map → Option Ptr
prev_node fuel p m = step_node right fuel p m

abbrev key_of : Map → Option Ptr → Option ℕ
key_of m none = none
key_of m (some p) = some (if p == null then 0 else (m.nodes p).key)

-- Of NULL the first key, of a key in the map the one behind it.
pub step_key : Side → (fuel key : ℕ) → Map → Option ℕ
step_key side fuel key m =
    if key == null
    then if m.tree == null then some 0 else key_of m (last_child side fuel m.tree m)
    else key_of m (from (get_node fuel key m))
  where
    from : Option Ptr → Option Ptr
    from none = none
    from (some p) = if p == null then some null else step_node side fuel p m

pub next : (fuel key : ℕ) → Map → Option ℕ
next fuel key m = step_key left fuel key m

pub prev : (fuel key : ℕ) → Map → Option ℕ
prev fuel key m = step_key right fuel key m
