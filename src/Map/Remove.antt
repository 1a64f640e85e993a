-- ===== src/Map/Remove.antt =====
-- core/rtl/container/map/map.c: remove_node, remove_rebalance and core_rtl_map_set. A branch of
-- the source and its mirror image are one branch here, with the side of the node.
pub mod Same
pub mod Paint
pub mod Sibling
pub mod Near
pub mod Hole
pub mod Black
pub mod Cases
pub mod Beside
pub mod Below
pub mod Loop
pub mod Adopt
pub mod Unlink
pub mod Last
pub mod Pick
pub mod Taken
pub mod Entries
pub mod Values
pub mod Locate
pub mod Kept
pub mod Update
pub mod Set
use sandnix.Prelude.{
  ℕ, zero, suc, Bool, false, ◌==◌, ◌&&◌, ◌||◌, not, Option, none, some, ◌∷◌, if◌then◌else◌,
}
use sandnix.Nodes.{Ptr, null}
use sandnix.Map.{
  black, red, Side, left, right, other, Node, Map, is_red, child, set_node, set_parent, set_child,
  set_color, get_node,
}
use sandnix.Map.Rotate.{rotate}
use sandnix.Map.Walk.{last_child}
use sandnix.Map.Insert.{insert_node}

-- The macro `color`.
abbrev pub is_red_at : Ptr → Map → Bool
is_red_at p m = if p == null then false else is_red (m.nodes p).color

abbrev pub blacken : Ptr → Map → Map
blacken p m = if p == null then m else set_color p black m

-- How a round ends: the loop is left, or goes on with a node and its parent.
abbrev pub Round : Type 0
Round = Option (Option (Ptr × Ptr) × Map)

-- The end of case 4: the sibling has the colour of the parent, and its children are black.
abbrev pub paint : (p_sibling p_parent : Ptr) → Map → Map
paint p_sibling p_parent m =
    let colored = set_color p_sibling (m.nodes p_parent).color m in
    blacken (colored.nodes p_sibling).rchild (blacken (colored.nodes p_sibling).lchild colored)

abbrev pub leave_painted : (p_sibling p_parent : Ptr) → Option (Ptr × Map) → Round
leave_painted p_sibling p_parent none = none
leave_painted p_sibling p_parent (some (q, m)) = some (none, paint p_sibling p_parent m)

-- Case 4, and what is left when it does not apply: another round with the same node.
pub turn_up : Side → (p_node p_parent p_sibling : Ptr) → Map → Round
turn_up side p_node p_parent p_sibling m =
    if not (is_red_at p_sibling m) && is_red_at (child (other side) (m.nodes p_sibling)) m
    then leave_painted p_sibling p_parent (rotate side p_parent m)
    else some (some (p_node, p_parent), m)

-- The sibling is read again behind a rotation; NULL has no colour to read.
pub turn_parent : Side → (p_node p_parent : Ptr) → Map → Round
turn_parent side p_node p_parent m =
    let p_sibling = child (other side) (m.nodes p_parent) in
    if p_sibling == null then none else turn_up side p_node p_parent p_sibling m

abbrev pub turn_again : Side → (p_node p_parent : Ptr) → Option (Ptr × Map) → Round
turn_again side p_node p_parent none = none
turn_again side p_node p_parent (some (q, m)) = turn_parent side p_node p_parent m

-- Cases 2 and 3, with the children of the sibling.
pub fix_sibling : Side → (p_node p_parent p_sibling near far : Ptr) → Map → Round
fix_sibling side p_node p_parent p_sibling near far m =
    if not (is_red_at p_sibling m) && not (is_red_at near m) && not (is_red_at far m)
    then some (some (p_parent, p_parent), set_color p_sibling red m)
    else if not (is_red_at p_sibling m) && is_red_at near m
    then turn_again side p_node p_parent
        (rotate (other side) p_sibling (set_color near black (set_color p_sibling red m)))
    else turn_up side p_node p_parent p_sibling m

pub fix_black : Side → (p_node p_parent : Ptr) → Map → Round
fix_black side p_node p_parent m =
    let p_sibling = child (other side) (m.nodes p_parent) in
    let near = child side (m.nodes p_sibling) in
    let far = child (other side) (m.nodes p_sibling) in
    if p_sibling == null then none else fix_sibling side p_node p_parent p_sibling near far m

abbrev pub fix_again : Side → (p_node p_parent : Ptr) → Option (Ptr × Map) → Round
fix_again side p_node p_parent none = none
fix_again side p_node p_parent (some (q, m)) = fix_black side p_node p_parent m

-- Case 1 and the others.
pub fix_side : Side → (p_node p_parent p_sibling : Ptr) → Map → Round
fix_side side p_node p_parent p_sibling m =
    if p_sibling == null
    then none
    else if is_red_at p_sibling m
    then fix_again side p_node p_parent
        (rotate side p_parent (set_color p_parent red (set_color p_sibling black m)))
    else fix_black side p_node p_parent m

pub fix_below : (p_node p_parent : Ptr) → Map → Round
fix_below p_node p_parent m =
    let side = if (m.nodes p_parent).lchild == p_node then left else right in
    if p_parent == null
    then none
    else fix_side side p_node p_parent (child (other side) (m.nodes p_parent)) m

pub rebalance_round : (p_node p_parent : Ptr) → Map → Round
rebalance_round p_node p_parent m =
    let up = if p_node == null then p_parent else (m.nodes p_node).parent in
    if is_red_at p_node m
    then some (none, set_color p_node black m)
    else if p_node == m.tree
    then some (none, m)
    else fix_below p_node up m

abbrev pub next_round : ((p_node p_parent : Ptr) → Map → Option Map) → Round → Option Map
next_round next none = none
next_round next (some (none, m)) = some m
next_round next (some (some (p_node, p_parent), m)) = next p_node p_parent m

pub remove_rebalance : (fuel : ℕ) (p_node p_parent : Ptr) → Map → Option Map
remove_rebalance zero p_node p_parent m = none
remove_rebalance (suc fuel) p_node p_parent m =
    next_round (λ p q m. remove_rebalance fuel p q m) (rebalance_round p_node p_parent m)

-- The keys and the values of two nodes change places.
abbrev pub swap_items : (p q : Ptr) → Map → Map
swap_items p q m =
    let a = m.nodes p in
    let b = m.nodes q in
    set_node q (record b { key = a.key; value = a.value })
      (set_node p (record a { key = b.key; value = b.value }) m)

abbrev pub swapped : (p_node : Ptr) → Map → Option Ptr → Option (Ptr × Map)
swapped p_node m none = none
swapped p_node m (some q) = some (q, swap_items p_node q m)

-- The node that is going to be removed: with two children, the last one of its left subtree, which
-- gets the key and the value of the node and gives it its own.
pub pick : (fuel : ℕ) (p_node : Ptr) → Map → Option (Ptr × Map)
pick fuel p_node m =
    let n = m.nodes p_node in
    if n.lchild == null || n.rchild == null
    then some (p_node, m)
    else swapped p_node m (last_child right fuel n.lchild m)

-- What the parent has instead of the node.
abbrev pub relink : (parent p_node p_new : Ptr) → Map → Map
relink parent p_node p_new m =
    let side = if (m.nodes parent).lchild == p_node then left else right in
    let linked = set_child side parent p_new m in
    if p_new == null then linked else set_parent p_new parent linked

pub unlink_red : Ptr → Map → Option Map
unlink_red p m =
    let n = m.nodes p in if n.parent == null then none else some (relink n.parent p n.lchild m)

abbrev pub only_child : Node → Ptr
only_child n = if n.lchild == null then n.rchild else n.lchild

abbrev pub unlink_root : Ptr → Map → Map
unlink_root p m =
    let heir = only_child (m.nodes p) in
    let m = record m { tree = heir } in
    if heir == null then m else set_color heir black (set_parent heir null m)

pub unlink_black : (fuel : ℕ) → Ptr → Map → Option Map
unlink_black fuel p m =
    let n = m.nodes p in
    let heir = only_child n in
    if p == m.tree
    then some (unlink_root p m)
    else if n.parent == null
    then none
    else remove_rebalance fuel heir n.parent (relink n.parent p heir m)

abbrev pub with_node : Ptr → Option Map → Option (Ptr × Map)
with_node p none = none
with_node p (some m) = some (p, m)

abbrev pub unlink : (fuel : ℕ) → Option (Ptr × Map) → Option (Ptr × Map)
unlink fuel none = none
unlink fuel (some (p, m)) =
    with_node p (if is_red (m.nodes p).color then unlink_red p m else unlink_black fuel p m)

-- The result is the node to be freed.
pub remove_node : (fuel : ℕ) (p_node : Ptr) → Map → Option (Ptr × Map)
remove_node fuel p_node m = unlink fuel (pick fuel p_node m)

abbrev pub removed : ℕ → Option (Ptr × Map) → Option (ℕ × Map)
removed ret none = none
removed ret (some (p, m)) = some (ret, record m { freed = p ∷ m.freed })

abbrev pub inserted : ℕ → Option (Ptr × Map) → Option (ℕ × Map)
inserted value none = none
inserted value (some (p, m)) = some (if p == null then 0 else value, m)

-- A key that is not in the map is entered, one that is gets the value, or is removed by NULL; the
-- result is the value of the source.
pub set_found : (fuel key value : ℕ) (p_node : Ptr) → Map → Option (ℕ × Map)
set_found fuel key value p_node m =
    let old = (m.nodes p_node).value in
    if value == 0
    then if p_node == null then some (0, m) else removed old (remove_node fuel p_node m)
    else if p_node == null
    then inserted value (insert_node fuel key value m)
    else some (old, set_node p_node (record (m.nodes p_node) { value = value }) m)

abbrev pub with_found : (fuel key value : ℕ) → Map → Option Ptr → Option (ℕ × Map)
with_found fuel key value m none = none
with_found fuel key value m (some p) = set_found fuel key value p m

pub set : (fuel key value : ℕ) → Map → Option (ℕ × Map)
set fuel key value m = with_found fuel key value m (get_node fuel key m)
