-- ===== src/Map/Insert/TurnParent.antt =====
-- Case 3 of insert_node: an inner child changes places with its parent first.
use sandnix.Prelude.{
  ℕ, suc, ◌+◌, ◌≤◌, ◌≡◌, ◌≢◌, refl, sym, ap, ◌∙◌, true, false, ◌==◌, Option, none, some, List, ◌∷◌,
  arith, subst,
}
use sandnix.Nodes.{Ptr}
use sandnix.Map.{Color, black, red, Side, left, right, other, Map, child}
use sandnix.Map.Rotate.{rotate}
use sandnix.Map.Rotate.Shape.{rotate-IsSubtree}
use sandnix.Map.Insert.{turn_parent, turn_next}
use sandnix.Map.Tree.{Tree, leaf, branch, top, join, node, entries, hit, count, count-top}
use sandnix.Map.Context.{
  Frame, frame, plug, IsSubtree, IsSubtree-join, join-IsSubtree, join_flip, top-join,
}
use sandnix.Map.Balance.{
  IsBalanced, IsBlackRoot, black-IsBalanced, red-IsBalanced, IsBalanced-red, IsBlackRoot-join,
}
use sandnix.Map.Insert.TurnGrand.{turn_grand-IsSubtree, turned_grand}

-- The loop is left with a black subtree below the frames, and the map has these entries.
abbrev pub Turned : ℕ → List Frame → List (ℕ × ℕ) → Option (Option Ptr × Map) → Type 0
Turned n fs es r =
    (m' : Map) × ((t' : Tree) × (r ≡ some (none, m'))
      × IsSubtree m' fs t'
      × (entries (plug fs t') ≡ es)
      × (IsBalanced n t' × IsBlackRoot t'))

-- The colours when a parent turns: the node and its parent are red, what is beside them is black.
pub record Ready (n : ℕ) (c cp : Color) (t r u : Tree) : Type 0 where
  pub node_red : c ≡ red
  pub parent_red : cp ≡ red
  pub hole : IsBalanced n t
  pub beside : IsBalanced n r
  pub beside_black : IsBlackRoot r
  pub uncle : IsBalanced n u
  pub uncle_black : IsBlackRoot u

self_test : (n : ℕ) → (n == n) ≡ true
self_test n = ground arith

pub far_child :
    (side : Side) (q t u : Ptr) (c : Color) (k v : ℕ)
    → child (other side) (node side q t u c k v) ≡ u
far_child left q t u c k v = refl
far_child right q t u c k v = refl

near_child :
    (side : Side) (q t u : Ptr) (c : Color) (k v : ℕ)
    → child (other side) (node (other side) q t u c k v) ≡ t
near_child left q t u c k v = refl
near_child right q t u c k v = refl

-- The root of a subtree is not that of one beside it.
pub apart_top :
    (t r : Tree) → top t ≢ 0 → ((p : Ptr) → count p r + count p t ≤ 1) → (top t == top r) ≡ false
apart_top t leaf ne d = ground arith
apart_top t (branch l a c k v r) ne d = differ (d (top t)) (count-top t ne)
  where
    differ :
        count (top t) l + hit (top t) a + count (top t) r + count (top t) t ≤ 1
        → 1 ≤ count (top t) t
        → (top t == a) ≡ false
    differ e one = let no : hit (top t) a ≡ 0 = omega arith in ground arith

-- The red grandparent goes below the black parent.
turned-IsBalanced :
    (n : ℕ) (side : Side) (u : Tree) (g : Ptr) (kg vg : ℕ) (r : Tree) (p : Ptr) (kp vp : ℕ)
    (t : Tree)
    → IsBalanced n u
    → IsBlackRoot u
    → IsBalanced n r
    → IsBlackRoot r
    → IsBalanced n t
    → IsBalanced (suc n) (join (other side) (join (other side) u g red kg vg r) p black kp vp t)
turned-IsBalanced n side u g kg vg r p kp vp t bu du br dr bt =
    black-IsBalanced n p kp vp (other side) (join (other side) u g red kg vg r) t
      (red-IsBalanced n g kg vg (other side) u r bu br du dr) bt

turned-IsBlackRoot :
    (side : Side) (u : Tree) (g : Ptr) (kg vg : ℕ) (r : Tree) (p : Ptr) (kp vp : ℕ) (t : Tree)
    → IsBlackRoot (join (other side) (join (other side) u g red kg vg r) p black kp vp t)
turned-IsBlackRoot side u g kg vg r p kp vp t =
    IsBlackRoot-join (other side) (join (other side) u g red kg vg r) p black kp vp t refl

module _ (side : Side) (fs : List Frame) (p g : Ptr) (cp cg : Color) (kp vp kg vg : ℕ) (r u : Tree)
    (m : Map) (n : ℕ) where
  -- An outer child.
  straight :
      (t : Tree) (c : Color)
      → top t ≢ 0
      → Ready n c cp t r u
      → IsSubtree m (frame side p cp kp vp r ∷ (frame side g cg kg vg u ∷ fs)) t
      → Turned
          (suc n)
          fs
          (entries (plug (frame side p cp kp vp r ∷ (frame side g cg kg vg u ∷ fs)) t))
          (turn_parent side (top t) p m)
  unfolding turn_parent
  straight t c ne ready s =
      let test : (top t == child (other side) (m.nodes p)) ≡ false =
        ap (λ n. top t == child (other side) n) (s.around.1)
        ∙ ap (λ q. top t == q) (far_child side g (top t) (top r) cp kp vp)
        ∙ apart_top t r ne (λ q. let d = s.distinct q in omega arith) in
      let turn = turn_grand-IsSubtree side fs p g cp cg kp vp kg vg t r u m s (top t) refl ne in
      (
        turn.0,
        (
          turned_grand side fs p g cp cg kp vp kg vg t r u,
          rw test (turn.1),
          turn.2,
          turn.3,
          (
            turned-IsBalanced n side u g kg vg r p kp vp t ready.uncle ready.uncle_black
                ready.beside ready.beside_black ready.hole,
            turned-IsBlackRoot side u g kg vg r p kp vp t,
          ),
        ),
      )

  bent_colors :
      (y w : Tree) (z : Ptr) (c : Color) (k v : ℕ)
      → Ready n c cp (join side y z c k v w) r u
      → IsBalanced (suc n) (turned_grand side fs z g c cg k v kg vg (join side r p cp kp vp y) w u)
        × IsBlackRoot (turned_grand side fs z g c cg k v kg vg (join side r p cp kp vp y) w u)
  bent_colors y w z c k v ready =
      let hole =
        IsBalanced-red n z k v side y w
          (subst (λ d. IsBalanced n (join side y z d k v w)) ready.node_red ready.hole) in
      let low =
        subst (λ d. IsBalanced n (join side r p d kp vp y)) (sym ready.parent_red)
          (red-IsBalanced n p kp vp side r y ready.beside (hole.0) ready.beside_black (hole.2.0)) in
      (
        turned-IsBalanced n side u g kg vg w z k v (join side r p cp kp vp y) ready.uncle
            ready.uncle_black (hole.1) (hole.2.1) low,
        turned-IsBlackRoot side u g kg vg w z k v (join side r p cp kp vp y),
      )

  -- An inner child.
  bent :
      (y w : Tree) (z : Ptr) (c : Color) (k v : ℕ)
      → Ready n c cp (join side y z c k v w) r u
      → IsSubtree m
          (frame (other side) p cp kp vp r ∷ (frame side g cg kg vg u ∷ fs))
          (join side y z c k v w)
      → Turned
          (suc n)
          fs
          (entries (
            plug
              (frame (other side) p cp kp vp r ∷ (frame side g cg kg vg u ∷ fs))
              (join side y z c k v w)))
          (turn_parent side z p m)
  unfolding turn_parent
  bent y w z c k v ready s =
      let above = frame side g cg kg vg u ∷ fs in
      let t = join side y z c k v w in
      let flip = join_flip side r p cp kp vp t in
      let whole =
        subst (IsSubtree m above) flip (IsSubtree-join m (other side) p cp kp vp r above t s) in
      let one = rotate-IsSubtree side above p z r y w cp c kp vp k v m whole in
      let low = join-IsSubtree (one.0) side z c k v w above (join side r p cp kp vp y) (one.2) in
      let two =
        turn_grand-IsSubtree side fs z g c cg k v kg vg (join side r p cp kp vp y) w u (one.0) low p
          (sym (top-join side r p cp kp vp y)) (s.around.0) in
      let test : (z == child (other side) (m.nodes p)) ≡ true =
        ap (λ n. z == child (other side) n) (s.around.1)
        ∙ ap (λ q. z == q) (near_child side g (top t) (top r) cp kp vp ∙ top-join side y z c k v w)
        ∙ self_test z in
      let next : turn_next side p (rotate side p m) ≡ some (none, two.0) =
        ap (turn_next side p) (one.1) ∙ two.1 in
      (
        two.0,
        (
          turned_grand side fs z g c cg k v kg vg (join side r p cp kp vp y) w u,
          rw test next,
          two.2,
          two.3 ∙ one.3 ∙ ap (λ i. entries (plug above i)) (sym flip),
          bent_colors y w z c k v ready,
        ),
      )

-- Cases 3 and 2, whatever the sides are.
pub turn_parent-Turned :
    (side side' : Side) (fs : List Frame) (p g : Ptr)
    → (cp cg : Color) (kp vp kg vg : ℕ) (r u : Tree) (m : Map) (n : ℕ)
    → (l : Tree) (z : Ptr) (c : Color) (k v : ℕ) (w : Tree) → z ≢ 0
    → Ready n c cp (branch l z c k v w) r u
    → IsSubtree m (frame side' p cp kp vp r ∷ (frame side g cg kg vg u ∷ fs)) (branch l z c k v w)
    → Turned
        (suc n)
        fs
        (entries
          (plug (frame side' p cp kp vp r ∷ (frame side g cg kg vg u ∷ fs)) (branch l z c k v w)))
        (turn_parent side z p m)
turn_parent-Turned left left fs p g cp cg kp vp kg vg r u m n l z c k v w ne ready s =
    straight left fs p g cp cg kp vp kg vg r u m n (branch l z c k v w) c ne ready s
turn_parent-Turned right right fs p g cp cg kp vp kg vg r u m n l z c k v w ne ready s =
    straight right fs p g cp cg kp vp kg vg r u m n (branch l z c k v w) c ne ready s
turn_parent-Turned left right fs p g cp cg kp vp kg vg r u m n l z c k v w ne ready s =
    bent left fs p g cp cg kp vp kg vg r u m n l w z c k v ready s
turn_parent-Turned right left fs p g cp cg kp vp kg vg r u m n l z c k v w ne ready s =
    bent right fs p g cp cg kp vp kg vg r u m n w l z c k v ready s
