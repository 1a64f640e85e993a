-- ===== src/Map/Rotate/Replace.antt =====
-- `replace` puts another root into the hole of the frames.
use sandnix.Prelude.{
  ℕ, ◌+◌, ◌≤◌, ◌≡◌, ◌≢◌, ◌⊎◌, inl, inr, refl, sym, ap, ◌∙◌, true, false, ◌==◌, List, [], ◌∷◌, arith,
  subst,
}
use sandnix.Nodes.{Ptr, null, update}
use sandnix.Map.{Color, Side, left, right, Node, Map, with_child, set_child}
use sandnix.Map.Rotate.{replace}
use sandnix.Map.Tree.{
  Tree, leaf, branch, top, node, hit, count, IsTree, IsTree-update, update_miss, update_hit,
  hit_self, hit_ne,
}
use sandnix.Map.Context.{Frame, frame, up, top_of, count_in, IsAround, IsAround-update}

-- The node above the frames' hole is all that `replace` may change.
abbrev pub Touched : List Frame → (h h' : Ptr → Node) → Type 0
Touched fs h h' = (h' ≡ h) ⊎ ((n : Node) × (h' ≡ update h (up fs) n) × (1 ≤ count_in (up fs) fs))

pub Touched-IsTree :
    (fs : List Frame) (h h' : Ptr → Node) (q : Ptr) (t : Tree)
    → Touched fs h h'
    → ((p : Ptr) → count_in p fs + count p t ≤ 1)
    → IsTree h q t
    → IsTree h' q t
Touched-IsTree fs h h' q t (inl e) d i = subst (λ f. IsTree f q t) (sym e) i
Touched-IsTree fs h h' q t (inr u) d i =
    let e = d (up fs) in
    let one = u.2 in
    subst (λ f. IsTree f q t) (sym (u.1)) (IsTree-update h (up fs) q (u.0) t (omega arith) i)

pub Touched-node :
    (fs : List Frame) (h h' : Ptr → Node) (a : Ptr)
    → Touched fs h h'
    → ((p : Ptr) → count_in p fs + hit p a ≤ 1)
    → h' a ≡ h a
Touched-node fs h h' a (inl e) d = ap (λ f. f a) e
Touched-node fs h h' a (inr u) d =
    let e = d (up fs) in
    let one = u.2 in ap (λ f. f a) (u.1) ∙ update_miss h (up fs) a (u.0) (omega arith)

pub with_inner :
    (side : Side) (v q t u : Ptr) (c : Color) (k i : ℕ)
    → with_child side v (node side q t u c k i) ≡ node side q v u c k i
with_inner left v q t u c k i = refl
with_inner right v q t u c k i = refl

-- The hole gets another root.
module _ (a b : Ptr) (ne : a ≢ 0) where
  abbrev pub IsReplaced : List Frame → Map → Map → Type 0
  IsReplaced fs m m' =
      (m'.tree ≡ top_of fs b) × IsAround m'.nodes fs b × Touched fs m.nodes m'.nodes

  IsReplaced-at :
      (side : Side) (g : Ptr) (c : Color) (k v : ℕ) (r : Tree) (fs : List Frame) (m : Map)
      → ((p : Ptr) → count_in p (frame side g c k v r ∷ fs) ≤ 1)
      → m.tree ≡ top_of fs g
      → IsAround m.nodes (frame side g c k v r ∷ fs) a
      → IsReplaced (frame side g c k v r ∷ fs) m (set_child side g b m)
  IsReplaced-at side g c k v r fs m d root s =
      let one = hit_self g in
      let e = d g in
      (
        root,
        (
          s.0,
          update_hit m.nodes g _ ∙ ap (with_child side b) (s.1) ∙ with_inner side b _ _ _ c k v,
          IsTree-update m.nodes g g _ r (omega arith) (s.2),
          IsAround-update m.nodes g g _ fs (omega arith) (s.3),
        ),
        inr (_, refl, omega arith),
      )

  pub replace-IsReplaced :
      (fs : List Frame) (m : Map)
      → ((p : Ptr) → count_in p fs + hit p a ≤ 1)
      → m.tree ≡ top_of fs a
      → IsAround m.nodes fs a
      → IsReplaced fs m (replace (up fs) a b m)
  unfolding replace
  replace-IsReplaced [] m d root s = (refl, tt, inl refl)
  replace-IsReplaced (frame left g c k v r ∷ fs) m d root s =
      let nn : (g == null) ≡ false = let x = s.0 in ground arith in
      let l : (a == (m.nodes g).lchild) ≡ true =
        let x : (a == a) ≡ true = ground arith in ap (λ n. a == n.lchild) (s.1) ∙ x in
      let e : replace g a b m ≡ set_child left g b m = rw (replace, nn, l) refl in
      subst (IsReplaced (frame left g c k v r ∷ fs) m) (sym e)
        (IsReplaced-at left g c k v r fs m (λ p. let e = d p in omega arith) root s)
  replace-IsReplaced (frame right g c k v r ∷ fs) m d root s =
      let nn : (g == null) ≡ false = let x = s.0 in ground arith in
      let l : (a == (m.nodes g).lchild) ≡ false =
        ap (λ n. a == n.lchild) (s.1) ∙ apart r (d (top r)) in
      let e : replace g a b m ≡ set_child right g b m = rw (replace, nn, l) refl in
      subst (IsReplaced (frame right g c k v r ∷ fs) m) (sym e)
        (IsReplaced-at right g c k v r fs m (λ p. let e = d p in omega arith) root s)
    where
      apart :
          (r : Tree)
          → count_in (top r) (frame right g c k v r ∷ fs) + hit (top r) a ≤ 1
          → (a == top r) ≡ false
      apart leaf e = ground arith
      apart (branch l p c k v r) e = let one = hit_self p in hit_ne p a (omega arith)
