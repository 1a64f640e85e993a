-- ===== src/Map/Context.antt =====
-- A subtree of a map and what stands around it.
use sandnix.Prelude.{ℕ, ◌+◌, ◌≤◌, ◌≡◌, ◌≢◌, refl, sym, ap, ◌∙◌, List, [], ◌∷◌, ◌++◌, arith, subst}
use sandnix.Nodes.{Ptr, null, update}
use sandnix.Map.{Color, Side, left, right, other, Node, Map}
use sandnix.Map.Tree.{
  Tree, top, join, node, entries, hit, count, IsTree, IsTree-update, update_miss,
}

-- A node one of whose children, that on a side, is left out.
pub data Frame : Type 0 where
  frame : Side → Ptr → Color → (key value : ℕ) → Tree → Frame

-- The nodes above a subtree, the lowest first.
abbrev pub up : List Frame → Ptr
up [] = null
up (frame side a c k v r ∷ fs) = a

abbrev pub plug : List Frame → Tree → Tree
plug [] t = t
plug (frame side a c k v r ∷ fs) t = plug fs (join side t a c k v r)

abbrev pub top_of : List Frame → Ptr → Ptr
top_of [] p = p
top_of (frame side a c k v r ∷ fs) p = top_of fs a

abbrev pub count_in : Ptr → List Frame → ℕ
count_in p [] = 0
count_in p (frame side a c k v r ∷ fs) = hit p a + count p r + count_in p fs

-- The nodes above a subtree whose root is `p`.
abbrev pub IsAround : (Ptr → Node) → List Frame → Ptr → Type 0
IsAround h [] p = Unit {0}
IsAround h (frame side a c k v r ∷ fs) p =
    (a ≢ 0) × (h a ≡ node side (up fs) p (top r) c k v) × IsTree h a r × IsAround h fs a

-- The nodes of the map are a tree, and `t` is the subtree below the frames.
pub record IsSubtree (m : Map) (fs : List Frame) (t : Tree) : Type 0 where
  pub root : m.tree ≡ top_of fs (top t)
  pub around : IsAround m.nodes fs (top t)
  pub below : IsTree m.nodes (up fs) t
  pub distinct : (p : Ptr) → count_in p fs + count p t ≤ 1

pub IsAround-update :
    (h : Ptr → Node) (p q : Ptr) (n : Node) (fs : List Frame)
    → count_in p fs ≡ 0
    → IsAround h fs q
    → IsAround (update h p n) fs q
IsAround-update h p q n [] e s = tt
IsAround-update h p q n (frame side a c k v r ∷ fs) e s = (
  s.0,
  update_miss h p a n (omega arith) ∙ s.1,
  IsTree-update h p a n r (omega arith) (s.2),
  IsAround-update h p a n fs (omega arith) (s.3),
)

-- A branch whose node and subtrees are in place.
pub join-IsTree :
    (side : Side) (h : Ptr → Node) (q : Ptr) (t : Tree) (a : Ptr) (c : Color) (k v : ℕ) (u : Tree)
    → a ≢ 0
    → h a ≡ node side q (top t) (top u) c k v
    → IsTree h a t
    → IsTree h a u
    → IsTree h q (join side t a c k v u)
join-IsTree left h q t a c k v u ne e i j = (ne, e, i, j)
join-IsTree right h q t a c k v u ne e i j = (ne, e, j, i)

pub IsTree-join :
    (side : Side) (h : Ptr → Node) (q : Ptr) (t : Tree) (a : Ptr) (c : Color) (k v : ℕ) (u : Tree)
    → IsTree h q (join side t a c k v u)
    → (a ≢ 0) × (h a ≡ node side q (top t) (top u) c k v) × IsTree h a t × IsTree h a u
IsTree-join left h q t a c k v u i = i
IsTree-join right h q t a c k v u i = (i.0, i.1, i.3, i.2)

pub top-join :
    (side : Side) (t : Tree) (a : Ptr) (c : Color) (k v : ℕ) (u : Tree)
    → top (join side t a c k v u) ≡ a
top-join left t a c k v u = refl
top-join right t a c k v u = refl

pub count-join :
    (side : Side) (p : Ptr) (t : Tree) (a : Ptr) (c : Color) (k v : ℕ) (u : Tree)
    → count p (join side t a c k v u) ≡ count p t + hit p a + count p u
count-join left p t a c k v u = refl
count-join right p t a c k v u = omega arith

-- The subtree grows by the node above it.
pub IsSubtree-join :
    (m : Map) (side : Side) (a : Ptr) (c : Color) (k v : ℕ) (r : Tree) (fs : List Frame) (t : Tree)
    → IsSubtree m (frame side a c k v r ∷ fs) t
    → IsSubtree m fs (join side t a c k v r)
IsSubtree-join m side a c k v r fs t s = record {
  root = s.root ∙ ap (top_of fs) (sym (top-join side t a c k v r));
  around = subst (IsAround m.nodes fs) (sym (top-join side t a c k v r)) (s.around.3);
  below =
      join-IsTree side m.nodes (up fs) t a c k v r (s.around.0) (s.around.1) (s.below) (s.around.2);
  distinct = λ p. let d = s.distinct p in let e = count-join side p t a c k v r in omega arith;
}

pub IsSubtree-plug :
    (m : Map) (fs : List Frame) (t : Tree) → IsSubtree m fs t → IsSubtree m [] (plug fs t)
IsSubtree-plug m [] t s = s
IsSubtree-plug m (frame side a c k v r ∷ fs) t s =
    IsSubtree-plug m fs (join side t a c k v r) (IsSubtree-join m side a c k v r fs t s)

-- And the other way round.
pub join-IsSubtree :
    (m : Map) (side : Side) (a : Ptr) (c : Color) (k v : ℕ) (r : Tree) (fs : List Frame) (t : Tree)
    → IsSubtree m fs (join side t a c k v r)
    → IsSubtree m (frame side a c k v r ∷ fs) t
join-IsSubtree m side a c k v r fs t s =
    let b = IsTree-join side m.nodes (up fs) t a c k v r s.below in
    record {
      root = s.root ∙ ap (top_of fs) (top-join side t a c k v r);
      around = (b.0, b.1, b.3, subst (IsAround m.nodes fs) (top-join side t a c k v r) s.around);
      below = b.2;
      distinct = λ p. let d = s.distinct p in let e = count-join side p t a c k v r in omega arith;
    }

pub plug-IsSubtree :
    (m : Map) (fs : List Frame) (t : Tree) → IsSubtree m [] (plug fs t) → IsSubtree m fs t
plug-IsSubtree m [] t s = s
plug-IsSubtree m (frame side a c k v r ∷ fs) t s =
    join-IsSubtree m side a c k v r fs t (plug-IsSubtree m fs (join side t a c k v r) s)

-- Seen from the other child.
pub join_flip :
    (side : Side) (t : Tree) (a : Ptr) (c : Color) (k v : ℕ) (u : Tree)
    → join (other side) u a c k v t ≡ join side t a c k v u
join_flip left t a c k v u = refl
join_flip right t a c k v u = refl

-- A subtree with the same entries leaves those of the map as they are.
pub entries-plug :
    (fs : List Frame) (t u : Tree)
    → entries t ≡ entries u
    → entries (plug fs t) ≡ entries (plug fs u)
entries-plug [] t u e = e
entries-plug (frame left a c k v r ∷ fs) t u e =
    entries-plug fs _ _ (ap (λ es. es ++ (k, v) ∷ entries r) e)
entries-plug (frame right a c k v r ∷ fs) t u e =
    entries-plug fs _ _ (ap (λ es. entries r ++ (k, v) ∷ es) e)
