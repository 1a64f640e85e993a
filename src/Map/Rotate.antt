-- ===== src/Map/Rotate.antt =====
-- core/rtl/container/map/map.c: l_rotate and r_rotate. They are one another's mirror image, and
-- `rotate left` is the first: the right child of the node takes its place, and the node becomes the
-- left child.
pub mod Replace
pub mod Turn
pub mod Kept
pub mod Shape
use sandnix.Prelude.{ℕ, Bool, true, false, ◌==◌, Option, none, some, if◌then◌else◌, ◌||◌}
use sandnix.Nodes.{Ptr, null}
use sandnix.Map.{Side, left, right, other, Node, Map, child, set_parent, set_child}

-- What pointed to `p_node` points to `p_new_parent`: the tree, or a child of the parent.
pub replace : (parent p_node p_new_parent : Ptr) → Map → Map
replace parent p_node p_new_parent m =
    if parent == null
    then record m { tree = p_new_parent }
    else if p_node == (m.nodes parent).lchild
    then set_child left parent p_new_parent m
    else set_child right parent p_new_parent m

-- The inner child of `p_new_parent` goes to `p_node`.
pub hand_over : Side → (p_node p_inner : Ptr) → Map → Map
hand_over side p_node p_inner m =
    let moved = set_child (other side) p_node p_inner m in
    if p_inner == null then moved else set_parent p_inner p_node moved

pub rotate_to : Side → (p_node p_new_parent parent : Ptr) → Map → Map
rotate_to side p_node p_new_parent parent m =
    let raised = replace parent p_node p_new_parent (set_parent p_new_parent parent m) in
    let handed = hand_over side p_node (child side (raised.nodes p_new_parent)) raised in
    set_parent p_node p_new_parent (set_child side p_new_parent p_node handed)

-- The result is the node that took the place, as in the source.
pub rotate : Side → Ptr → Map → Option (Ptr × Map)
rotate side p_node m =
    let p_new_parent = child (other side) (m.nodes p_node) in
    if p_node == null || p_new_parent == null
    then none
    else some (p_new_parent, rotate_to side p_node p_new_parent (m.nodes p_node).parent m)

pub l_rotate : Ptr → Map → Option (Ptr × Map)
l_rotate p_node m = rotate left p_node m

pub r_rotate : Ptr → Map → Option (Ptr × Map)
r_rotate p_node m = rotate right p_node m
