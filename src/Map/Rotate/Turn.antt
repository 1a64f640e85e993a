-- ===== src/Map/Rotate/Turn.antt =====
-- What a rotation does with the parts of a subtree.
use sandnix.Prelude.{
  ℕ, ◌+◌, ◌≤◌, ◌≡◌, ◌≢◌, inl, inr, refl, sym, ap, ◌∙◌, true, false, ◌==◌, some, List, arith, subst,
  Bool-cases,
}
use sandnix.Nodes.{Ptr, null, update}
use sandnix.Map.{
  Color, Side, left, right, other, Node, Map, child, with_child, with_parent, set_node, set_parent,
}
use sandnix.Map.Rotate.{rotate, rotate_to, replace, hand_over}
use sandnix.Map.Tree.{
  Tree, leaf, branch, top, join, node, hit, count, count-top, IsTree, IsTree-update, update_miss,
  update_hit, hit_self,
}
use sandnix.Map.Context.{
  Frame, up, top_of, count_in, IsAround, IsAround-update, IsSubtree, IsTree-join, join-IsTree,
  top-join, count-join,
}
use sandnix.Map.Rotate.Replace.{Touched-IsTree, Touched-node, replace-IsReplaced}

-- A tree whose root gets another parent.
pub reparent-IsTree :
    (h : Ptr → Node) (p q : Ptr) (t : Tree)
    → top t ≢ 0
    → count (top t) t ≤ 1
    → IsTree h p t
    → IsTree (update h (top t) (with_parent q (h (top t)))) q t
reparent-IsTree h p q leaf ne le i = absurd (ne refl)
reparent-IsTree h p q (branch l a c k v r) ne le i =
    let x = hit_self a in
    (
      i.0,
      update_hit h a _ ∙ ap (with_parent q) (i.1),
      IsTree-update h a a _ l (omega arith) (i.2),
      IsTree-update h a a _ r (omega arith) (i.3),
    )

is_zero : (n : ℕ) → (n == 0) ≡ true → n ≡ 0
is_zero n e = ground arith

is_nonzero : (n : ℕ) → (n == 0) ≡ false → n ≢ 0
is_nonzero n e = ground arith

nonzero_test : (n : ℕ) → n ≢ 0 → (n == 0) ≡ false
nonzero_test n e = ground arith

top-leaf : (h : Ptr → Node) (p q : Ptr) (t : Tree) → top t ≡ 0 → IsTree h p t → IsTree h q t
top-leaf h p q leaf e i = tt
top-leaf h p q (branch l a c k v r) e i = absurd (i.0 e)

module _ (fs : List Frame) (a b : Ptr) (x y z : Tree) where
  -- What a rotation takes apart: the frames, two nodes and three subtrees.
  record Parts (m : Map) (hole : Ptr) (at_a at_b : Node) (above_y : Ptr) : Type 0 where
    pub root : m.tree ≡ top_of fs hole
    pub around : IsAround m.nodes fs hole
    pub node_a : m.nodes a ≡ at_a
    pub node_b : m.nodes b ≡ at_b
    pub in_x : IsTree m.nodes a x
    pub in_y : IsTree m.nodes above_y y
    pub in_z : IsTree m.nodes b z

  abbrev Apart : Type 0
  Apart = (p : Ptr) → count_in p fs + count p x + hit p a + count p y + hit p b + count p z ≤ 1

  module _ (d : Apart) where
    set_a :
        (m : Map) (hole : Ptr) (at_a at_b n : Node) (q : Ptr)
        → Parts m hole at_a at_b q
        → Parts (set_node a n m) hole n at_b q
    set_a m hole at_a at_b n q s =
        let e = d a in
        let one = hit_self a in
        record {
          root = s.root;
          around = IsAround-update m.nodes a hole n fs (omega arith) s.around;
          node_a = update_hit m.nodes a n;
          node_b = update_miss m.nodes a b n (omega arith) ∙ s.node_b;
          in_x = IsTree-update m.nodes a a n x (omega arith) s.in_x;
          in_y = IsTree-update m.nodes a q n y (omega arith) s.in_y;
          in_z = IsTree-update m.nodes a b n z (omega arith) s.in_z;
        }

    set_b :
        (m : Map) (hole : Ptr) (at_a at_b n : Node) (q : Ptr)
        → Parts m hole at_a at_b q
        → Parts (set_node b n m) hole at_a n q
    set_b m hole at_a at_b n q s =
        let e = d b in
        let one = hit_self b in
        record {
          root = s.root;
          around = IsAround-update m.nodes b hole n fs (omega arith) s.around;
          node_a = update_miss m.nodes b a n (omega arith) ∙ s.node_a;
          node_b = update_hit m.nodes b n;
          in_x = IsTree-update m.nodes b a n x (omega arith) s.in_x;
          in_y = IsTree-update m.nodes b q n y (omega arith) s.in_y;
          in_z = IsTree-update m.nodes b b n z (omega arith) s.in_z;
        }

    set_y :
        (m : Map) (hole : Ptr) (at_a at_b : Node) (q : Ptr)
        → top y ≢ 0
        → Parts m hole at_a at_b q
        → Parts (set_parent (top y) a m) hole at_a at_b a
    set_y m hole at_a at_b q ne s =
        let e = d (top y) in
        let one = count-top y ne in
        record {
          root = s.root;
          around = IsAround-update m.nodes (top y) hole _ fs (omega arith) s.around;
          node_a = update_miss m.nodes (top y) a _ (omega arith) ∙ s.node_a;
          node_b = update_miss m.nodes (top y) b _ (omega arith) ∙ s.node_b;
          in_x = IsTree-update m.nodes (top y) a _ x (omega arith) s.in_x;
          in_y = reparent-IsTree m.nodes q a y ne (omega arith) s.in_y;
          in_z = IsTree-update m.nodes (top y) b _ z (omega arith) s.in_z;
        }

    -- Another root in the hole.
    put_b :
        (m : Map) (at_a at_b : Node) (q : Ptr)
        → a ≢ 0
        → Parts m a at_a at_b q
        → Parts (replace (up fs) a b m) b at_a at_b q
    put_b m at_a at_b q ne s =
        let r = replace-IsReplaced a b ne fs m (λ p. let e = d p in omega arith) s.root s.around in
        let h' = (replace (up fs) a b m).nodes in
        let t = r.2 in
        record {
          root = r.0;
          around = r.1;
          node_a = Touched-node fs m.nodes _ a t (λ p. let e = d p in omega arith) ∙ s.node_a;
          node_b = Touched-node fs m.nodes _ b t (λ p. let e = d p in omega arith) ∙ s.node_b;
          in_x = Touched-IsTree fs m.nodes _ a x t (λ p. let e = d p in omega arith) s.in_x;
          in_y = Touched-IsTree fs m.nodes _ q y t (λ p. let e = d p in omega arith) s.in_y;
          in_z = Touched-IsTree fs m.nodes _ b z t (λ p. let e = d p in omega arith) s.in_z;
        }

    map_a :
        (m : Map) (hole : Ptr) (at_a at_b : Node) (f : Node → Node) (q : Ptr)
        → Parts m hole at_a at_b q
        → Parts (set_node a (f (m.nodes a)) m) hole (f at_a) at_b q
    map_a m hole at_a at_b f q s =
        subst (λ n. Parts (set_node a (f (m.nodes a)) m) hole n at_b q) (ap f s.node_a)
          (set_a m hole at_a at_b (f (m.nodes a)) q s)

    map_b :
        (m : Map) (hole : Ptr) (at_a at_b : Node) (f : Node → Node) (q : Ptr)
        → Parts m hole at_a at_b q
        → Parts (set_node b (f (m.nodes b)) m) hole at_a (f at_b) q
    map_b m hole at_a at_b f q s =
        subst (λ n. Parts (set_node b (f (m.nodes b)) m) hole at_a n q) (ap f s.node_b)
          (set_b m hole at_a at_b (f (m.nodes b)) q s)

    -- An empty subtree stands below every node.
    lone :
        (m : Map) (hole : Ptr) (at_a at_b : Node) (q : Ptr)
        → top y ≡ 0
        → Parts m hole at_a at_b q
        → Parts m hole at_a at_b a
    lone m hole at_a at_b q e s = record {
      root = s.root;
      around = s.around;
      node_a = s.node_a;
      node_b = s.node_b;
      in_x = s.in_x;
      in_y = top-leaf m.nodes q a y e s.in_y;
      in_z = s.in_z;
    }

    -- The inner subtree below its new parent.
    hand_y :
        (side : Side) (m : Map) (hole : Ptr) (at_a at_b : Node) (q : Ptr)
        → Parts m hole at_a at_b q
        → Parts (hand_over side a (top y) m) hole (with_child (other side) (top y) at_a) at_b a
    unfolding hand_over
    hand_y side m hole at_a at_b q s =
        let linked = map_a m hole at_a at_b (with_child (other side) (top y)) q s in
        elim (Bool-cases (top y == 0)) [
          | inl e ↦ rw e (lone _ hole _ at_b q (is_zero _ e) linked)
          | inr e ↦ rw e (set_y _ hole _ at_b q (is_nonzero _ e) linked)
        ]

-- The nodes after a rotation.
module _ (q : Ptr) (x y z : Tree) (a b : Ptr) (ca cb : Color) (ka va kb vb : ℕ) where
  turned_a :
      (side : Side)
      → with_parent b (with_child (other side) (top y) (node side q (top x) b ca ka va))
        ≡ node side b (top x) (top y) ca ka va
  turned_a left = refl
  turned_a right = refl

  turned_b :
      (side : Side)
      → with_child side a (with_parent q (node side a (top y) (top z) cb kb vb))
        ≡ node side q a (top z) cb kb vb
  turned_b left = refl
  turned_b right = refl

  inner_b :
      (side : Side) → child side (with_parent q (node side a (top y) (top z) cb kb vb)) ≡ top y
  inner_b left = refl
  inner_b right = refl

  outer_a : (side : Side) → child (other side) (node side q (top x) b ca ka va) ≡ b
  outer_a left = refl
  outer_a right = refl

  parent_a : (side : Side) → (node side q (top x) b ca ka va).parent ≡ q
  parent_a left = refl
  parent_a right = refl

-- The parts of a subtree, and what a rotation makes of them.
module _ (side : Side) (fs : List Frame) (a b : Ptr) (x y z : Tree) (ca cb : Color)
    (ka va kb vb : ℕ) where
  abbrev pub before : Tree
  before = join side x a ca ka va (join side y b cb kb vb z)

  abbrev pub after : Tree
  after = join side (join side x a ca ka va y) b cb kb vb z

  count_before :
      (p : Ptr) → count p before ≡ count p x + hit p a + (count p y + hit p b + count p z)
  count_before p =
      count-join side p x a ca ka va (join side y b cb kb vb z)
      ∙ ap (λ n. count p x + hit p a + n) (count-join side p y b cb kb vb z)

  count_after : (p : Ptr) → count p after ≡ count p x + hit p a + count p y + hit p b + count p z
  count_after p =
      count-join side p (join side x a ca ka va y) b cb kb vb z
      ∙ ap (λ n. n + hit p b + count p z) (count-join side p x a ca ka va y)

  module _ (m : Map) (s : IsSubtree m fs before) where
    apart : Apart fs a b x y z
    apart p = let d = s.distinct p in let e = count_before p in omega arith

    take_apart :
        Parts fs a b x y z m a
          (node side (up fs) (top x) b ca ka va)
          (node side a (top y) (top z) cb kb vb)
          b
    take_apart =
        let outer =
          IsTree-join side m.nodes (up fs) x a ca ka va (join side y b cb kb vb z) s.below in
        let inner = IsTree-join side m.nodes a y b cb kb vb z (outer.3) in
        let at = top-join side x a ca ka va (join side y b cb kb vb z) in
        record {
          root = s.root ∙ ap (top_of fs) at;
          around = subst (IsAround m.nodes fs) at s.around;
          node_a =
              outer.1
              ∙ ap (λ p. node side (up fs) (top x) p ca ka va) (top-join side y b cb kb vb z);
          node_b = inner.1;
          in_x = outer.2;
          in_y = inner.2;
          in_z = inner.3;
        }

    abbrev pub result : Map
    result = rotate_to side a b (up fs) m

    ne_a : a ≢ 0
    ne_a = (IsTree-join side m.nodes (up fs) x a ca ka va (join side y b cb kb vb z) s.below).0

    ne_b : b ≢ 0
    ne_b =
        let outer =
          IsTree-join side m.nodes (up fs) x a ca ka va (join side y b cb kb vb z) s.below in
        (IsTree-join side m.nodes a y b cb kb vb z (outer.3)).0

    rotate-Parts :
        Parts fs a b x y z result b
          (node side b (top x) (top y) ca ka va)
          (node side (up fs) a (top z) cb kb vb)
          a
    unfolding rotate_to
    rotate-Parts =
        let nb = with_parent (up fs) (node side a (top y) (top z) cb kb vb) in
        let raised = replace (up fs) a b (set_parent b (up fs) m) in
        let p1 = map_b fs a b x y z apart m a _ _ (with_parent (up fs)) b take_apart in
        let p2 = put_b fs a b x y z apart _ _ _ b ne_a p1 in
        let p3 = hand_y fs a b x y z apart side _ b _ _ b p2 in
        let inner : child side (raised.nodes b) ≡ top y =
          ap (child side) p2.node_b ∙ inner_b (up fs) x y z a b ca cb ka va kb vb side in
        let handed =
          subst
            (λ i.
              Parts fs a b x y z (hand_over side a i raised) b
                (with_child (other side) (top y) (node side (up fs) (top x) b ca ka va)) nb a)
            (sym inner) p3 in
        let p4 = map_b fs a b x y z apart _ b _ _ (with_child side a) a handed in
        let p5 = map_a fs a b x y z apart _ b _ _ (with_parent b) a p4 in
        subst (λ n. Parts fs a b x y z result b n (node side (up fs) a (top z) cb kb vb) a)
          (turned_a (up fs) x y z a b ca cb ka va kb vb side)
          (subst
            (λ n.
              Parts fs a b x y z result b
                (with_parent b
                  (with_child (other side) (top y) (node side (up fs) (top x) b ca ka va)))
                n a)
            (turned_b (up fs) x y z a b ca cb ka va kb vb side) p5)

    pub rotate_eq : rotate side a m ≡ some (b, result)
    unfolding rotate
    rotate_eq =
        let at = take_apart.node_a in
        let c : child (other side) (m.nodes a) ≡ b =
          ap (child (other side)) at ∙ outer_a (up fs) x y z a b ca cb ka va kb vb side in
        let q : (m.nodes a).parent ≡ up fs =
          ap (λ n. n.parent) at ∙ parent_a (up fs) x y z a b ca cb ka va kb vb side in
        let na : (a == null) ≡ false = let ne = ne_a in nonzero_test a ne in
        let nb : (b == null) ≡ false = let ne = ne_b in nonzero_test b ne in rw (c, q, na, nb) refl

    pub put_together : IsSubtree result fs after
    put_together =
        let t = rotate-Parts in
        let at = top-join side (join side x a ca ka va y) b cb kb vb z in
        record {
          root = t.root ∙ ap (top_of fs) (sym at);
          around = subst (IsAround result.nodes fs) (sym at) t.around;
          below =
              join-IsTree side result.nodes (up fs) (join side x a ca ka va y) b cb kb vb z ne_b
                (t.node_b
                  ∙ ap (λ p. node side (up fs) p (top z) cb kb vb)
                      (sym (top-join side x a ca ka va y)))
                (join-IsTree side result.nodes b x a ca ka va y ne_a t.node_a t.in_x t.in_y) t.in_z;
          distinct = λ p. let d = apart p in let e = count_after p in omega arith;
        }
