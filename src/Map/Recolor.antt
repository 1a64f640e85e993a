-- ===== src/Map/Recolor.antt =====
-- A node of a tree gets another colour.
use sandnix.Prelude.{ℕ, ◌≡◌, sym, ap, ◌∙◌, List, ◌∷◌, ◌++◌, arith, subst}
use sandnix.Nodes.{Ptr}
use sandnix.Map.{Color, Side, left, right, Node, Map, set_node, set_color}
use sandnix.Map.Tree.{Tree, top, join, node, entries, IsTree-update, update_hit, hit_self}
use sandnix.Map.Context.{
  Frame, up, top_of, IsAround, IsAround-update, IsSubtree, IsTree-join, join-IsTree, top-join,
  count-join,
}

recolored :
    (side : Side) (q t u : Ptr) (c c' : Color) (k v : ℕ) (n : Node)
    → n ≡ node side q t u c k v
    → record n { color = c' } ≡ node side q t u c' k v
recolored left q t u c c' k v n e = ap {A = Node} (λ n. record n { color = c' }) e
recolored right q t u c c' k v n e = ap {A = Node} (λ n. record n { color = c' }) e

-- The node of a branch gets another content.
pub renode-IsSubtree :
    (m : Map) (fs : List Frame) (side : Side) (t : Tree) (a : Ptr) (c c' : Color) (k v k' v' : ℕ)
    (r : Tree) (n : Node)
    → n ≡ node side (up fs) (top t) (top r) c' k' v'
    → IsSubtree m fs (join side t a c k v r)
    → IsSubtree (set_node a n m) fs (join side t a c' k' v' r)
renode-IsSubtree m fs side t a c c' k v k' v' r n is s =
    let b = IsTree-join side m.nodes (up fs) t a c k v r s.below in
    let at = top-join side t a c k v r in
    let at' = top-join side t a c' k' v' r in
    let d = s.distinct a in
    let e = count-join side a t a c k v r in
    let one = hit_self a in
    record {
      root = s.root ∙ ap (top_of fs) (at ∙ sym at');
      around =
          IsAround-update m.nodes a _ _ fs (omega arith)
            (subst (IsAround m.nodes fs) (at ∙ sym at') s.around);
      below =
          join-IsTree side _ (up fs) t a c' k' v' r (b.0) (update_hit m.nodes a _ ∙ is)
            (IsTree-update m.nodes a a _ t (omega arith) (b.2))
            (IsTree-update m.nodes a a _ r (omega arith) (b.3));
      distinct = λ p.
          let f = s.distinct p in
          let g = count-join side p t a c k v r in
          let h = count-join side p t a c' k' v' r in omega arith;
    }

pub recolor-IsSubtree :
    (m : Map) (fs : List Frame) (side : Side) (t : Tree) (a : Ptr) (c c' : Color) (k v : ℕ)
    (r : Tree)
    → IsSubtree m fs (join side t a c k v r)
    → IsSubtree (set_color a c' m) fs (join side t a c' k v r)
recolor-IsSubtree m fs side t a c c' k v r s =
    let b = IsTree-join side m.nodes (up fs) t a c k v r s.below in
    renode-IsSubtree m fs side t a c c' k v k v r (record (m.nodes a) { color = c' })
      (recolored side (up fs) (top t) (top r) c c' k v (m.nodes a) (b.1)) s

-- The entries of a branch are those of its subtrees and its own, whatever the colour.
pub entries-join :
    (side : Side) (t u : Tree) (a : Ptr) (c c' : Color) (k v : ℕ) (r : Tree)
    → entries t ≡ entries u
    → entries (join side t a c k v r) ≡ entries (join side u a c' k v r)
entries-join left t u a c c' k v r e = ap (λ es. es ++ (k, v) ∷ entries r) e
entries-join right t u a c c' k v r e = ap (λ es. entries r ++ (k, v) ∷ es) e
