-- ===== src/Map/Destroy.antt =====
-- core/rtl/container/map/map.c: core_rtl_map_destroy. The two callbacks destroy what they are given
-- and are not modelled; `freed` says which nodes are destroyed, and in which order.
pub mod Order
use sandnix.Prelude.{
  ℕ, zero, suc, Bool, true, false, ◌==◌, Option, none, some, List, [], ◌∷◌, if◌then◌else◌,
}
use sandnix.Nodes.{Ptr, null}
use sandnix.Map.{Side, left, right, Node, Map, set_child}

-- A node without children is taken off its parent and freed.
pub drop_leaf : Ptr → Map → Map
drop_leaf p m =
    let up = (m.nodes p).parent in
    let cut =
      if up == null
      then m
      else if p == (m.nodes up).lchild
      then set_child left up null m
      else set_child right up null m in
    record cut { freed = p ∷ m.freed }

pub destroy_from : (fuel : ℕ) → Ptr → Map → Option Map
destroy_from zero p m = none
destroy_from (suc fuel) p m =
    let n = m.nodes p in
    let leaf = if n.lchild == null then n.rchild == null else false in
    let rest =
      destroy_from fuel
        (if n.lchild == null then if n.rchild == null then n.parent else n.rchild else n.lchild)
        (if leaf then drop_leaf p m else m) in
    if p == null then some m else rest

pub destroy : (fuel : ℕ) → Map → Option Map
destroy fuel m = if m.tree == null then some m else destroy_from fuel m.tree m
