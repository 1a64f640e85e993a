-- ===== src/Map/Insert/Fix.antt =====
-- The loop of insert_node that fixes the tree.
use sandnix.Prelude.{
  ℕ, zero, suc, ◌+◌, ◌≤◌, ◌<◌, ◌≡◌, ◌≢◌, ◌⊎◌, inl, inr, refl, sym, ap, ◌∙◌, true, false, ◌==◌,
  Option, none, some, List, [], ◌∷◌, arith, subst, length, if◌then◌else◌,
}
use sandnix.Nodes.{Ptr, null}
use sandnix.Map.{Color, black, red, is_red, Side, left, right, other, Map, child, set_color}
use sandnix.Map.Insert.{turn_parent, push_up, fix_red, fix_below, fix_round, fix_next, fix_tree}
use sandnix.Map.Tree.{Tree, leaf, branch, top, join, node, entries, hit, hit_self, hit_ne, count}
use sandnix.Map.Context.{
  Frame, frame, up, plug, IsSubtree, IsSubtree-join, IsSubtree-plug, join-IsSubtree, entries-plug,
  join_flip, top-join,
}
use sandnix.Map.Recolor.{recolor-IsSubtree, entries-join}
use sandnix.Map.Balance.{
  IsBalanced, IsBlackRoot, IsRedRoot, IsFramed, below_red, black-IsBalanced, red-IsBalanced,
  IsBlackRoot-join, IsRedRoot-join, plug-IsBalanced,
}
use sandnix.Map.Insert.TurnGrand.{nonzero_test, parent_of_hole, parent_of_frame}
use sandnix.Map.Insert.TurnParent.{Turned, Ready, turn_parent-Turned, far_child}

color_of_node :
    (side : Side) (q t u : Ptr) (c : Color) (k v : ℕ) → (node side q t u c k v).color ≡ c
color_of_node left q t u c k v = refl
color_of_node right q t u c k v = refl

apart_node :
    (p : Ptr) (r : Tree) → p ≢ 0 → ((q : Ptr) → hit q p + count q r ≤ 1) → (p == top r) ≡ false
apart_node p leaf ne d = ground arith
apart_node p (branch l a c k v r) ne d =
    let e = d a in let one = hit_self a in hit_ne a p (omega arith)

-- On which side of the grandparent the parent stands.
side_of :
    (side : Side) (q p : Ptr) (u : Tree) (c : Color) (k v : ℕ)
    → p ≢ 0
    → ((a : Ptr) → hit a p + count a u ≤ 1)
    → (if p == (node side q p (top u) c k v).lchild then left else right) ≡ side
side_of left q p u c k v ne d = let e : (p == p) ≡ true = ground arith in rw e refl
side_of right q p u c k v ne d = rw (apart_node p u ne d) refl

-- The parent of the hole.
module _ (side side' : Side) (fs : List Frame) (p g : Ptr) (cp cg : Color) (kp vp kg vg : ℕ)
    (r u : Tree) (m : Map) (t : Tree) (ne : top t ≢ 0)
    (s : IsSubtree m (frame side' p cp kp vp r ∷ (frame side g cg kg vg u ∷ fs)) t) where
  at_grand : fix_below (top t) p g m ≡ fix_red side (top t) p g (top u) m
  unfolding fix_below
  at_grand =
      let n = s.around.3.1 in
      let ng = nonzero_test g (s.around.3.0) in
      let far : child (other side) (m.nodes g) ≡ top u =
        ap (child (other side)) n ∙ far_child side (up fs) p (top u) cg kg vg in
      let at : (if p == (m.nodes g).lchild then left else right) ≡ side =
        ap (λ n. if p == n.lchild then left else right) n
        ∙ side_of side (up fs) p u cg kg vg (s.around.0)
            (λ a. let d = s.distinct a in omega arith) in
      let go : fix_below (top t) p g m
          ≡ fix_red (if p == (m.nodes g).lchild then left else right) (top t) p g
              (child (other (if p == (m.nodes g).lchild then left else right)) (m.nodes g)) m =
        rw (fix_below, ng) refl in
      go
      ∙ ap (λ i. fix_red i (top t) p g (child (other i) (m.nodes g)) m) at
      ∙ ap (λ q. fix_red side (top t) p g q m) far

  at_parent : cp ≡ red → fix_round (top t) m ≡ fix_below (top t) p g m
  unfolding fix_round
  at_parent is_red_p =
      let np = nonzero_test p (s.around.0) in
      let up_t : (m.nodes (top t)).parent ≡ p = parent_of_hole m _ t ne s in
      let up_p : (m.nodes p).parent ≡ g = parent_of_frame m side' p cp kp vp r _ t s in
      let c : is_red (m.nodes p).color ≡ true =
        ap (λ n. is_red n.color) (s.around.1)
        ∙ ap is_red (color_of_node side' g (top t) (top r) cp kp vp ∙ is_red_p) in
      rw (up_t, up_p, np, c) refl

-- Case 1: the grandparent turns red, its two children black.
module _ (side side' : Side) (fs : List Frame) (p g y : Ptr) (cp cg cy : Color)
    (kp vp kg vg ky vy : ℕ) (r ul ur : Tree) (m : Map) (t : Tree) where
  abbrev uncle : Color → Tree
  uncle c = branch ul y c ky vy ur

  abbrev pushed : Tree
  pushed = join side (join side' t p black kp vp r) g red kg vg (uncle black)

  push_up-IsSubtree :
      IsSubtree m (frame side' p cp kp vp r ∷ (frame side g cg kg vg (uncle cy) ∷ fs)) t
      → IsSubtree (push_up p g y m) fs pushed
  push_up-IsSubtree s =
      let below = join side' t p black kp vp r in
      let one =
        recolor-IsSubtree m (frame side g cg kg vg (uncle cy) ∷ fs) side' t p cp black kp vp r
          (IsSubtree-join m side' p cp kp vp r _ t s) in
      let m1 = set_color p black m in
      let m2 = set_color y black m1 in
      let whole =
        subst (IsSubtree m1 fs) (sym (join_flip side below g cg kg vg (uncle cy)))
          (IsSubtree-join m1 side g cg kg vg (uncle cy) fs below one) in
      let at_y = join-IsSubtree m1 (other side) g cg kg vg below fs (uncle cy) whole in
      let two =
        recolor-IsSubtree m1 (frame (other side) g cg kg vg below ∷ fs) left ul y cy black ky vy ur
          at_y in
      let three =
        recolor-IsSubtree m2 fs (other side) (uncle black) g cg red kg vg below
          (IsSubtree-join m2 (other side) g cg kg vg below fs (uncle black) two) in
      subst (IsSubtree (push_up p g y m) fs) (join_flip side below g red kg vg (uncle black)) three

  entries-pushed :
      entries (plug fs pushed)
      ≡ entries (plug (frame side' p cp kp vp r ∷ (frame side g cg kg vg (uncle cy) ∷ fs)) t)
  entries-pushed = entries-plug fs _ _ (
      other_uncle side
      ∙ entries-join side _ _ g red cg kg vg (uncle cy)
          (entries-join side' t t p black cp kp vp r refl))
    where
      other_uncle :
          (side : Side)
          → entries (join side (join side' t p black kp vp r) g red kg vg (uncle black))
            ≡ entries (join side (join side' t p black kp vp r) g red kg vg (uncle cy))
      other_uncle left = refl
      other_uncle right = refl

-- A round leaves the loop, or goes on two frames further up.
abbrev Round : ℕ → List Frame → List (ℕ × ℕ) → Option (Option Ptr × Map) → Type 0
Round n fs es r =
    Turned n fs es r
    ⊎ ((m' : Map) × ((t' : Tree) × (r ≡ some (some (top t'), m'))
          × (top t' ≢ 0)
          × IsSubtree m' fs t'
          × (entries (plug fs t') ≡ es)
          × (IsBalanced n t' × IsRedRoot t')))

module _ (side side' : Side) (fs : List Frame) (p g : Ptr) (cg : Color) (kp vp kg vg : ℕ) (r : Tree)
    (m : Map) (n : ℕ) (l : Tree) (z : Ptr) (c : Color) (k v : ℕ) (w : Tree) (ne : z ≢ 0)
    (hole : IsBalanced n (branch l z c k v w)) (is_red_z : c ≡ red) where
  abbrev child_z : Tree
  child_z = branch l z c k v w

  abbrev frames : Tree → List Frame
  frames u = frame side' p red kp vp r ∷ (frame side g cg kg vg u ∷ fs)

  to_red :
      (u : Tree) → IsSubtree m (frames u) child_z → fix_round z m ≡ fix_red side z p g (top u) m
  to_red u s =
      at_parent side side' fs p g red cg kp vp kg vg r u m child_z ne s refl
      ∙ at_grand side side' fs p g red cg kp vp kg vg r u m child_z ne s

  turn_round :
      (u : Tree)
      → IsFramed n (frames u)
      → IsBlackRoot u
      → IsSubtree m (frames u) child_z
      → fix_red side z p g (top u) m ≡ turn_parent side z p m
      → Round (suc n) fs (entries (plug (frames u) child_z)) (fix_round z m)
  turn_round u framed black_u s e =
      let around = below_red n side' side p g cg kp vp kg vg r u fs framed in
      let ready : Ready n c red child_z r u = record {
        node_red = is_red_z;
        parent_red = refl;
        hole = hole;
        beside = around.0;
        beside_black = around.1;
        uncle = around.2.0;
        uncle_black = black_u;
      } in
      let turn =
        turn_parent-Turned side side' fs p g red cg kp vp kg vg r u m n l z c k v w ne ready s in
      inl (turn.0, (turn.1.0, to_red u s ∙ e ∙ turn.1.1, turn.1.2, turn.1.3, turn.1.4))

  pushed_colors :
      (y : Ptr) (ky vy : ℕ) (ul ur : Tree)
      → IsFramed n (frames (branch ul y red ky vy ur))
      → IsBalanced
          (suc n)
          (pushed side side' fs p g y red cg red kp vp kg vg ky vy r ul ur m child_z)
        × IsRedRoot (pushed side side' fs p g y red cg red kp vp kg vg ky vy r ul ur m child_z)
  pushed_colors y ky vy ul ur framed =
      let around =
        below_red n side' side p g cg kp vp kg vg r (branch ul y red ky vy ur) fs framed in
      let low = join side' child_z p black kp vp r in
      (
        red-IsBalanced (suc n) g kg vg side low (branch ul y black ky vy ur)
            (black-IsBalanced n p kp vp side' child_z r hole (around.0))
            (n, (refl, around.2.0.0, around.2.0.1))
            (IsBlackRoot-join side' child_z p black kp vp r refl) refl,
        IsRedRoot-join side low g kg vg (branch ul y black ky vy ur),
      )

  round_red :
      (u : Tree)
      → IsFramed n (frames u)
      → IsSubtree m (frames u) child_z
      → Round (suc n) fs (entries (plug (frames u) child_z)) (fix_round z m)
  unfolding fix_red
  round_red leaf framed s = turn_round leaf framed tt s refl
  round_red (branch ul y black ky vy ur) framed s =
      let n : is_red (m.nodes y).color ≡ false = ap (λ n. is_red n.color) (s.around.3.2.1) in
      let ny = nonzero_test y (s.around.3.2.0) in
      turn_round (branch ul y black ky vy ur) framed refl s (rw (fix_red, ny, n) refl)
  round_red (branch ul y red ky vy ur) framed s =
      let n : is_red (m.nodes y).color ≡ true = ap (λ n. is_red n.color) (s.around.3.2.1) in
      let ny = nonzero_test y (s.around.3.2.0) in
      let e : fix_red side z p g y m ≡ some (some g, push_up p g y m) = rw (fix_red, ny, n) refl in
      let t' = pushed side side' fs p g y red cg red kp vp kg vg ky vy r ul ur m child_z in
      let at : top t' ≡ g = top-join side _ g red kg vg _ in
      inr (
        push_up p g y m,
        (
          t',
          to_red (branch ul y red ky vy ur) s
              ∙ e
              ∙ ap {A = Ptr} (λ q. some (some q, push_up p g y m)) (sym at),
          (λ zero_at. s.around.3.0 (sym at ∙ zero_at)),
          push_up-IsSubtree side side' fs p g y red cg red kp vp kg vg ky vy r ul ur m child_z s,
          entries-pushed side side' fs p g y red cg red kp vp kg vg ky vy r ul ur m child_z,
          pushed_colors y ky vy ul ur framed,
        ),
      )

-- The loop is left where there is no parent, and below a black one.
stop_top :
    (m : Map) (t : Tree) → top t ≢ 0 → IsSubtree m [] t → fix_round (top t) m ≡ some (none, m)
unfolding fix_round
stop_top m t ne s =
    let up_t : (m.nodes (top t)).parent ≡ null = parent_of_hole m [] t ne s in rw up_t refl

stop_black :
    (m : Map) (side : Side) (a : Ptr) (k v : ℕ) (r : Tree) (fs : List Frame) (t : Tree)
    → top t ≢ 0
    → IsSubtree m (frame side a black k v r ∷ fs) t
    → fix_round (top t) m ≡ some (none, m)
unfolding fix_round
stop_black m side a k v r fs t ne s =
    let up_t : (m.nodes (top t)).parent ≡ a = parent_of_hole m _ t ne s in
    let na = nonzero_test a (s.around.0) in
    let c : is_red (m.nodes a).color ≡ false =
      ap (λ n. is_red n.color) (s.around.1)
      ∙ ap is_red (color_of_node side (up fs) (top t) (top r) black k v) in
    rw (up_t, na, c) refl

-- The loop ends, and the map is a balanced tree with these entries.
abbrev pub Fixed : List (ℕ × ℕ) → Option Map → Type 0
Fixed es r =
    (m' : Map) × ((t' : Tree) × (r ≡ some m')
      × IsSubtree m' [] t'
      × (entries t' ≡ es)
      × ((n' : ℕ) × IsBalanced n' t'))

stopped :
    (fuel n : ℕ) (m : Map) (fs : List Frame) (t : Tree)
    → IsSubtree m fs t
    → fix_round (top t) m ≡ some (none, m)
    → IsBalanced n (plug fs t)
    → Fixed (entries (plug fs t)) (fix_tree (suc fuel) (top t) m)
unfolding fix_tree
stopped fuel n m fs t s e b = (
  m,
  (plug fs t, ap (fix_next (λ p m. fix_tree fuel p m)) e, IsSubtree-plug m fs t s, refl, (n, b)),
)

-- The round that leaves the loop.
left-Fixed :
    (fuel n : ℕ) (m : Map) (fs : List Frame) (z : Ptr) (es : List (ℕ × ℕ))
    → IsFramed n fs
    → Turned n fs es (fix_round z m)
    → Fixed es (fix_tree (suc fuel) z m)
unfolding fix_tree
left-Fixed fuel n m fs z es f t = (
  t.0,
  (
    plug fs (t.1.0),
    ap (fix_next (λ p m. fix_tree fuel p m)) (t.1.1),
    IsSubtree-plug (t.0) fs (t.1.0) (t.1.2),
    t.1.3,
    plug-IsBalanced n fs (t.1.0) f (t.1.4.0) (t.1.4.1),
  ),
)

-- The round before a loop that ends.
went_on :
    (fuel : ℕ) (m m' : Map) (z z' : Ptr) (es es' : List (ℕ × ℕ))
    → fix_round z m ≡ some (some z', m')
    → es' ≡ es
    → Fixed es' (fix_tree fuel z' m')
    → Fixed es (fix_tree (suc fuel) z m)
unfolding fix_tree
went_on fuel m m' z z' es es' e same f =
    (f.0, (f.1.0, ap (fix_next (λ p m. fix_tree fuel p m)) e ∙ f.1.1, f.1.2, f.1.3 ∙ same, f.1.4))

-- A red subtree in the hole of a red-black tree: the loop makes a red-black tree of it.
pub fix_tree-Fixed :
    (fuel n : ℕ) (fs : List Frame) (t : Tree) (m : Map)
    → length fs < fuel
    → IsFramed n fs
    → IsBalanced n t
    → IsRedRoot t
    → top t ≢ 0
    → IsSubtree m fs t
    → Fixed (entries (plug fs t)) (fix_tree fuel (top t) m)
fix_tree-Fixed zero n fs t m lt f b d ne s = absurd (omega arith)
fix_tree-Fixed (suc fuel) n fs leaf m lt f b d ne s = absurd (ne refl)
fix_tree-Fixed (suc fuel) n [] (branch l z c k v w) m lt f b d ne s =
    stopped fuel n m [] _ s (stop_top m _ ne s) b
fix_tree-Fixed (suc fuel) n (frame side a black k' v' r ∷ fs) (branch l z c k v w) m lt f b d ne s =
    let t = branch l z c k v w in
    let whole =
      plug-IsBalanced (suc n) fs (join side t a black k' v' r) (f.1)
        (black-IsBalanced n a k' v' side t r b (f.0))
        (IsBlackRoot-join side t a black k' v' r refl) in
    stopped fuel (whole.0) m (frame side a black k' v' r ∷ fs) t s
      (stop_black m side a k' v' r fs t ne s) (whole.1)
fix_tree-Fixed (suc fuel) n (frame side a red k' v' r ∷ []) (branch l z c k v w) m lt f b d ne s =
    absurd f
fix_tree-Fixed (suc fuel) n (frame side' p red kp vp r ∷ (frame side g cg kg vg u ∷ fs))
      (branch l z c k v w) m lt f b d ne s =
    let around = below_red n side' side p g cg kp vp kg vg r u fs f in
    elim (round_red side side' fs p g cg kp vp kg vg r m n l z c k v w ne b d u f s) [
      | inl t ↦ left-Fixed fuel (suc n) m fs z _ (around.2.1) t
      | inr t ↦ went_on fuel m (t.0) z (top (t.1.0)) _ _ (t.1.1) (t.1.4) (
          fix_tree-Fixed fuel (suc n) fs (t.1.0) (t.0) (omega arith) (around.2.1) (t.1.5.0)
            (t.1.5.1) (t.1.2) (t.1.3))
    ]
