-- ===== src/Map/Remove/Locate.antt =====
-- The node that get_node finds.
use sandnix.Prelude.{
  ℕ, zero, suc, ◌<◌, ◌≡◌, ◌≢◌, refl, sym, ap, ◌∙◌, subst, Option, some, List, [], ◌∷◌, ◌++◌, arith,
  ◌⊎◌, inl, inr,
}
use sandnix.Nodes.{Ptr, null}
use sandnix.Compare.{ℤ, pos, negsuc}
use sandnix.Map.{Color, left, right, Map, by_sign, find_node}
use sandnix.Map.Tree.{Tree, leaf, branch, top, entries, size, IsTree}
use sandnix.Map.Context.{Frame, frame, plug, IsSubtree}
use sandnix.Map.Lookup.{
  IsRanked, IsSearch, Below, Above, Misses, Misses-append, Below-Misses, Above-Misses,
}
use sandnix.Map.Insert.TurnGrand.{nonzero_test}
use sandnix.Map.Remove.Last.{plug-append}

-- The node with a key of the rank, and where it stands.
pub record Site (rank : ℕ → ℕ) (key : ℕ) (t : Tree) (p : Ptr) : Type 0 where
  pub frames : List Frame
  pub inner : Tree
  pub color : Color
  pub key_there : ℕ
  pub value_there : ℕ
  pub outer : Tree
  pub shape : t ≡ plug frames (branch inner p color key_there value_there outer)
  pub there : p ≢ 0
  pub same : rank key_there ≡ rank key

abbrev pub Located : (ℕ → ℕ) → ℕ → Tree → Option Ptr → Type 0
Located rank key t r =
    ((r ≡ some null) × Misses rank key (entries t))
    ⊎ ((p : Ptr) × ((r ≡ some p) × Site rank key t p))

module _ (rank : ℕ → ℕ) (key : ℕ) where
  -- A site in a subtree is one in the tree.
  Site-plug :
      (f : Frame) (t : Tree) (p : Ptr) → Site rank key t p → Site rank key (plug (f ∷ []) t) p
  Site-plug (frame side a c k v r) t p s = record {
    frames = s.frames ++ frame side a c k v r ∷ [];
    inner = s.inner;
    color = s.color;
    key_there = s.key_there;
    value_there = s.value_there;
    outer = s.outer;
    shape =
        ap (plug (frame side a c k v r ∷ [])) s.shape
        ∙ sym (
            plug-append (frame side a c k v r ∷ []) s.frames
              (branch s.inner p s.color s.key_there s.value_there s.outer));
    there = s.there;
    same = s.same;
  }

  module _ (m : Map) (ranked : IsRanked m.compare_func rank) where
    round :
        (order : ℤ) (fuel k v : ℕ) (p : Ptr) (c : Color) (l r : Tree)
        → by_sign order (rank k < rank key) (rank key ≡ rank k) (rank key < rank k)
        → p ≢ 0
        → (m.nodes p).lchild ≡ top l
        → (m.nodes p).rchild ≡ top r
        → Below rank (rank k) l
        → Above rank (rank k) r
        → Located rank key l (find_node fuel (top l) key m)
        → Located rank key r (find_node fuel (top r) key m)
        → Located rank key (branch l p c k v r) (
            by_sign order
              (find_node fuel (by_sign order (m.nodes p).rchild null (m.nodes p).lchild) key m)
              (some p)
              (find_node fuel (by_sign order (m.nodes p).rchild null (m.nodes p).lchild) key m))
    round (pos zero) fuel k v p c l r e ne el er bl ar in_l in_r = inr (
      p,
      (
        refl,
        record {
          frames = [];
          inner = l;
          color = c;
          key_there = k;
          value_there = v;
          outer = r;
          shape = refl;
          there = ne;
          same = sym e;
        },
      ),
    )
    round (pos (suc i)) fuel k v p c l r e ne el er bl ar in_l in_r =
        subst (λ x. Located rank key (branch l p c k v r) (find_node fuel x key m)) (sym er)
          (elim in_r [
            | inl d ↦ inl (
              d.0,
              Misses-append rank key (entries l) ((k, v) ∷ entries r)
                  (Below-Misses rank key (rank k) l (omega arith) bl) (ground arith, d.1),
            )
            | inr s ↦ inr (s.0, (s.1.0, Site-plug (frame right p c k v l) r (s.0) (s.1.1)))
          ])
    round (negsuc i) fuel k v p c l r e ne el er bl ar in_l in_r =
        let lt : rank key < rank k = e in
        subst (λ x. Located rank key (branch l p c k v r) (find_node fuel x key m)) (sym el)
          (elim in_l [
            | inl d ↦ inl (
              d.0,
              Misses-append rank key (entries l) ((k, v) ∷ entries r) (d.1)
                  (ground arith, Above-Misses rank key (rank k) r (omega arith) ar),
            )
            | inr s ↦ inr (s.0, (s.1.0, Site-plug (frame left p c k v r) l (s.0) (s.1.1)))
          ])

    find_node-Located :
        (fuel q : ℕ) (t : Tree)
        → size t < fuel
        → IsTree m.nodes q t
        → IsSearch rank t
        → Located rank key t (find_node fuel (top t) key m)
    unfolding find_node
    find_node-Located zero q t lt i s = absurd (omega arith)
    find_node-Located (suc fuel) q leaf lt i s = inl (refl, tt)
    find_node-Located (suc fuel) q (branch l a c k v r) lt i s =
        let nn = nonzero_test a (i.0) in
        let at = i.1 in
        rw (nn, ap (λ x. x.key) at)
          (round (m.compare_func key k) fuel k v a c l r (ranked key k) (i.0)
            (ap (λ x. x.lchild) at) (ap (λ x. x.rchild) at) (s.0) (s.1)
            (find_node-Located fuel a l (omega arith) (i.2) (s.2.0))
            (find_node-Located fuel a r (omega arith) (i.3) (s.2.1)))

pub find_node-from_root :
    (m : Map) (rank : ℕ → ℕ) (fuel key : ℕ) (t : Tree)
    → IsRanked m.compare_func rank
    → IsSubtree m [] t
    → IsSearch rank t
    → size t < fuel
    → Located rank key t (find_node fuel m.tree key m)
find_node-from_root m rank fuel key t ranked s sorted lt =
    subst (λ x. Located rank key t (find_node fuel x key m)) (sym s.root)
      (find_node-Located rank key m ranked fuel null t lt s.below sorted)
