-- ===== src/Map/Remove/Unlink.antt =====
-- A node with one child at most is taken out of the tree.
use sandnix.Prelude.{
  ℕ, suc, ◌+◌, ◌≤◌, ◌≡◌, refl, sym, ap, ◌∙◌, subst, true, ◌==◌, some, List, [], ◌∷◌, arith, ◌⊎◌,
  inl, inr, length, if◌then◌else◌,
}
use sandnix.Nodes.{Ptr, null}
use sandnix.Map.{Color, black, red, Side, left, Map, set_color, set_parent}
use sandnix.Map.Remove.{relink, unlink, unlink_red, unlink_black, only_child}
use sandnix.Map.Tree.{Tree, leaf, branch, top, node, count, IsTree}
use sandnix.Map.Context.{Frame, frame, plug, IsSubtree, IsSubtree-plug}
use sandnix.Map.Recolor.{recolor-IsSubtree}
use sandnix.Map.Balance.{
  IsBalanced, IsBlackRoot, IsFramed, Around, plug-IsRedBlack, root_IsBalanced,
}
use sandnix.Map.Insert.TurnGrand.{nonzero_test}
use sandnix.Map.Remove.Same.{IsSame-refl, IsSame-blackened}
use sandnix.Map.Remove.Sibling.{Rebalanced}
use sandnix.Map.Remove.Hole.{IsShort, cost}
use sandnix.Map.Remove.Loop.{root_apart, remove_rebalance-Rebalanced}
use sandnix.Map.Remove.Adopt.{set_parent-IsSubtree, relink-IsSubtree}

-- The subtree that is left of two, one of which is empty.
abbrev pub heir : (l r : Tree) → Tree
heir leaf r = r
heir (branch l a c k v u) r = branch l a c k v u

only_child-heir :
    (l r : Tree) (a q : Ptr) (c : Color) (k v : ℕ) (h : Ptr → _)
    → IsTree h a l
    → only_child (node left q (top l) (top r) c k v) ≡ top (heir l r)
only_child-heir leaf r a q c k v h i = refl
only_child-heir (branch l b d i j u) r a q c k v h t = let nb = nonzero_test b (t.0) in rw nb refl

heir-IsTree :
    (l r : Tree) (h : Ptr → _) (q : Ptr) → IsTree h q l → IsTree h q r → IsTree h q (heir l r)
heir-IsTree leaf r h q i j = j
heir-IsTree (branch l a c k v u) r h q i j = i

heir-IsBalanced : (n : ℕ) (l r : Tree) → IsBalanced n l → IsBalanced n r → IsBalanced n (heir l r)
heir-IsBalanced n leaf r b d = d
heir-IsBalanced n (branch l a c k v u) r b d = b

count-heir : (p : Ptr) (l r : Tree) → count p (heir l r) ≤ count p l + count p r
count-heir p leaf r = omega arith
count-heir p (branch l a c k v u) r = omega arith

IsBalanced-IsShort : (n : ℕ) (t : Tree) → IsBalanced n t → IsShort n t
IsBalanced-IsShort n leaf b = b
IsBalanced-IsShort n (branch l a black k v r) b = b
IsBalanced-IsShort n (branch l a red k v r) b = (n, (refl, b.0, b.1))

no_black_nodes : (t : Tree) → IsBalanced 0 t → IsBlackRoot t → t ≡ leaf
no_black_nodes leaf b d = refl
no_black_nodes (branch l a black k v r) b d = absurd (no_node (b.0) (b.1.0))
  where
    no_node : (n : ℕ) → 0 ≡ suc n → ⊥
    no_node n e = omega arith
no_black_nodes (branch l a red k v r) b d = cc

-- A red node with an empty subtree has two of them.
red_no_children :
    (n : ℕ) (l r : Tree)
    → (l ≡ leaf) ⊎ (r ≡ leaf)
    → IsBalanced n l
    → IsBalanced n r
    → IsBlackRoot l
    → IsBlackRoot r
    → (l ≡ leaf) × (r ≡ leaf) × (n ≡ 0)
red_no_children n l r (inl e) bl br dl dr =
    let z : n ≡ 0 = subst (IsBalanced n) e bl in
    (e, no_black_nodes r (subst (λ n. IsBalanced n r) z br) dr, z)
red_no_children n l r (inr e) bl br dl dr =
    let z : n ≡ 0 = subst (IsBalanced n) e br in
    (no_black_nodes l (subst (λ n. IsBalanced n l) z bl) dl, e, z)

module _ (fuel : ℕ) (m : Map) (p : Ptr) (i j : ℕ) where
  abbrev Unlinked : Tree → Type 0
  Unlinked t = (m' : Map) × ((unlink fuel (some (p, m)) ≡ some (p, m')) × Rebalanced t m')

  -- A red node leaves nothing behind.
  unlink_red_leaf :
      (n : ℕ) (side : Side) (g : Ptr) (c : Color) (k v : ℕ) (u : Tree) (fs : List Frame)
      → IsSubtree m (frame side g c k v u ∷ fs) (branch leaf p red i j leaf)
      → IsFramed n (frame side g c k v u ∷ fs)
      → n ≡ 0
      → Unlinked (plug (frame side g c k v u ∷ fs) leaf)
  unfolding unlink_red
  unlink_red_leaf n side g c k v u fs s f z =
      let high = frame side g c k v u ∷ fs in
      let m' = relink g p null m in
      let b = s.below in
      let ng = nonzero_test g (s.around.0) in
      let made = relink-IsSubtree m side g c k v u fs _ leaf s (b.0) tt (λ q. omega arith) in
      (
        m',
        (
          rw (b.1, ng) refl,
          record {
            shape = plug high leaf;
            whole = IsSubtree-plug m' high leaf made;
            same = IsSame-refl (plug high leaf);
            red_black = plug-IsRedBlack n high leaf f z tt;
          },
        ),
      )

  -- A black node below another one: the loop makes up for it.
  unlink_black_below :
      (n : ℕ) (side : Side) (g : Ptr) (c : Color) (k v : ℕ) (u : Tree) (fs : List Frame)
      (l r : Tree)
      → IsSubtree m (frame side g c k v u ∷ fs) (branch l p black i j r)
      → IsFramed (suc n) (frame side g c k v u ∷ fs)
      → IsBalanced n l
      → IsBalanced n r
      → suc (suc (suc (length fs))) ≤ fuel
      → Unlinked (plug (frame side g c k v u ∷ fs) (heir l r))
  unfolding unlink_black
  unlink_black_below n side g c k v u fs l r s f bl br le =
      let high = frame side g c k v u ∷ fs in
      let h = heir l r in
      let b = s.below in
      let ng = nonzero_test g (s.around.0) in
      let only = only_child-heir l r p g black i j m.nodes (b.2) in
      let apart = root_apart m side g c k v u fs (branch l p black i j r) s in
      let made =
        relink-IsSubtree m side g c k v u fs (branch l p black i j r) h s (b.0)
          (heir-IsTree l r m.nodes p (b.2) (b.3)) (λ q. let x = count-heir q l r in omega arith) in
      let last =
        remove_rebalance-Rebalanced fuel n (relink g p (top h) m) high h g made f
          (IsBalanced-IsShort n h (heir-IsBalanced n l r bl br)) (λ e. refl) (cost_le h le) in
      (last.0, (rw (b.1, apart, ng, only, last.1.0) refl, last.1.1))
    where
      cost_le :
          (h : Tree)
          → suc (suc (suc (length fs))) ≤ fuel
          → cost (frame side g c k v u ∷ fs) h ≤ fuel
      cost_le leaf le = le
      cost_le (branch l a black k v r) le = le
      cost_le (branch l a red k v r) le = omega arith

  -- The black root.
  unlink_black_root :
      (n : ℕ) (l r : Tree)
      → IsSubtree m [] (branch l p black i j r)
      → IsBalanced n l
      → IsBalanced n r
      → Unlinked (heir l r)
  unfolding unlink_black
  unlink_black_root n l r s bl br =
      let b = s.below in
      let only = only_child-heir l r p null black i j m.nodes (b.2) in
      let same : (p == m.tree) ≡ true = rw (s.root) (ground arith) in
      (
        new_root (top (heir l r)),
        (
          rw (b.1, same, only) refl,
          rooted (heir l r) (heir-IsTree l r m.nodes p (b.2) (b.3))
              (λ q. let x = count-heir q l r in let y = s.distinct q in omega arith)
              (heir-IsBalanced n l r bl br),
        ),
      )
    where
      new_root : Ptr → Map
      new_root q =
          let m = record m { tree = q } in
          if q == null then m else set_color q black (set_parent q null m)

      rooted :
          (h : Tree)
          → IsTree m.nodes p h
          → ((q : Ptr) → count q h ≤ 1)
          → IsBalanced n h
          → Rebalanced h (new_root (top h))
      rooted leaf t d b = record {
        shape = leaf;
        whole = record {
          root = refl;
          around = tt;
          below = tt;
          distinct = λ q. let x = d q in omega arith;
        };
        same = IsSame-refl leaf;
        red_black = (tt, (n, b));
      }
      rooted (branch x a c k v y) t d b =
          let na = nonzero_test a (t.0) in
          let m' = record m { tree = a } in
          let made = recolor-IsSubtree (set_parent a null m') [] left x a c black k v y (
            set_parent-IsSubtree m' [] p x a c k v y (record {
              root = refl;
              around = tt;
              below = t;
              distinct = λ q. let x = d q in omega arith;
            })) in
          rw na (record {
            shape = branch x a black k v y;
            whole = made;
            same = IsSame-blackened (branch x a c k v y);
            red_black = (refl, root_IsBalanced n x a c k v y b);
          })

  -- The node leaves its place to the subtree it had, and the map is a red-black tree again.
  pub unlink-Rebalanced :
      (d : Color) (fs : List Frame) (l r : Tree)
      → IsSubtree m fs (branch l p d i j r)
      → Around fs (branch l p d i j r)
      → (l ≡ leaf) ⊎ (r ≡ leaf)
      → suc (suc (length fs)) ≤ fuel
      → Unlinked (plug fs (heir l r))
  unlink-Rebalanced black [] l r s (n, (b, f, e)) one le =
      unlink_black_root (b.0) l r s (b.1.1) (b.1.2)
  unlink-Rebalanced red [] l r s (n, (b, f, e)) one le = cc
  unlink-Rebalanced black (frame side g c k v u ∷ fs) l r s (n, (b, f, e)) one le =
      unlink_black_below (b.0) side g c k v u fs l r s
        (subst (λ n. IsFramed n (frame side g c k v u ∷ fs)) (b.1.0) f) (b.1.1) (b.1.2) le
  unlink-Rebalanced red (frame side g c k v u ∷ fs) l r s (n, (b, f, e)) one le =
      let high = frame side g c k v u ∷ fs in
      let none_left = red_no_children n l r one (b.0) (b.1) (b.2.0) (b.2.1) in
      let is_leaf : heir l r ≡ leaf = ap (λ l. heir l r) (none_left.0) ∙ none_left.1 in
      let bare =
        subst (λ r. IsSubtree m high (branch leaf p red i j r)) (none_left.1)
          (subst (λ l. IsSubtree m high (branch l p red i j r)) (none_left.0) s) in
      subst (λ t. Unlinked (plug high t)) (sym is_leaf)
        (unlink_red_leaf n side g c k v u fs bare f (none_left.2))
