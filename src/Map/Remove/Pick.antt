-- ===== src/Map/Remove/Pick.antt =====
-- The node that is removed has one child at most.
use sandnix.Prelude.{ℕ, ◌≡◌, refl, ap, subst, List, [], ◌∷◌, ◌++◌}
use sandnix.Nodes.{Ptr, null}
use sandnix.Map.{Color, black, red, left, Node, Map, set_node}
use sandnix.Map.Remove.{swap_items}
use sandnix.Map.Tree.{Tree, leaf, branch, top, node}
use sandnix.Map.Context.{Frame, frame, up, plug, IsSubtree, join-IsSubtree}
use sandnix.Map.Recolor.{renode-IsSubtree}
use sandnix.Map.Balance.{IsBalanced, FitsBelow, Around, Around-join}
use sandnix.Map.Remove.Last.{append-IsSubtree, append-Around, Last}

-- Keys and values do not count for the colours.
pub IsBalanced-renode :
    (n : ℕ) (l : Tree) (a : Ptr) (c : Color) (k v k' v' : ℕ) (r : Tree)
    → IsBalanced n (branch l a c k v r)
    → IsBalanced n (branch l a c k' v' r)
IsBalanced-renode n l a black k v k' v' r b = b
IsBalanced-renode n l a red k v k' v' r b = b

FitsBelow-renode :
    (fs : List Frame) (l : Tree) (a : Ptr) (c : Color) (k v k' v' : ℕ) (r : Tree)
    → FitsBelow fs (branch l a c k v r)
    → FitsBelow fs (branch l a c k' v' r)
FitsBelow-renode [] l a c k v k' v' r d = d
FitsBelow-renode (frame side b black i j u ∷ fs) l a c k v k' v' r d = d
FitsBelow-renode (frame side b red i j u ∷ fs) l a c k v k' v' r d = d

Around-renode :
    (fs : List Frame) (l : Tree) (a : Ptr) (c : Color) (k v k' v' : ℕ) (r : Tree)
    → Around fs (branch l a c k v r)
    → Around fs (branch l a c k' v' r)
Around-renode fs l a c k v k' v' r (n, (b, f, d)) =
    (n, (IsBalanced-renode n l a c k v k' v' r b, f, FitsBelow-renode fs l a c k v k' v' r d))

up-append :
    (gs fs : List Frame) (p : Ptr) (c : Color) (k v k' v' : ℕ) (r : Tree)
    → up (gs ++ frame left p c k v r ∷ fs) ≡ up (gs ++ frame left p c k' v' r ∷ fs)
up-append [] fs p c k v k' v' r = refl
up-append (frame side a d i j u ∷ gs) fs p c k v k' v' r = refl

relabeled :
    (q q' l r : Ptr) (c : Color) (k v k' v' i j : ℕ) (n : Node)
    → n ≡ node left q l r c k v
    → q ≡ q'
    → k' ≡ i
    → v' ≡ j
    → record n { key = k'; value = v' } ≡ node left q' l r c i j
relabeled q q' l r c k v k' v' i j n e eq ek ev = rw (e, eq, ek, ev) refl

-- With two children, the key and the value of the node change places with those of the last node
-- on the left.
module _ (m : Map) (fs : List Frame) (l : Tree) (p : Ptr) (c : Color) (k v : ℕ) (r : Tree)
    (d : Last l) where
  abbrev pub above_last : List Frame
  above_last = d.frames ++ frame left p c d.key d.value r ∷ fs

  abbrev pub last_node : Tree
  last_node = branch d.inner d.at d.color k v leaf

  pub swap_items-IsSubtree :
      IsSubtree m fs (branch l p c k v r) → IsSubtree (swap_items p d.at m) above_last last_node
  swap_items-IsSubtree s =
      let gs = d.frames in
      let hole = branch d.inner d.at d.color d.key d.value leaf in
      let s0 = subst (λ l. IsSubtree m fs (branch l p c k v r)) d.shape s in
      let at_p = s0.below.1 in
      let low =
        append-IsSubtree (frame left p c k v r ∷ fs) m gs hole
          (join-IsSubtree m left p c k v r fs (plug gs hole) s0) in
      let at_q = low.below.1 in
      let new_p = record (m.nodes p) { key = (m.nodes d.at).key; value = (m.nodes d.at).value } in
      let m1 = set_node p new_p m in
      let s1 =
        renode-IsSubtree m fs left (plug gs hole) p c c k v d.key d.value r new_p
          (relabeled (up fs) (up fs) (top (plug gs hole)) (top r) c k v (m.nodes d.at).key
            (m.nodes d.at).value d.key d.value (m.nodes p) at_p refl (ap (λ n. n.key) at_q)
            (ap (λ n. n.value) at_q))
          s0 in
      let s2 =
        append-IsSubtree (frame left p c d.key d.value r ∷ fs) m1 gs hole
          (join-IsSubtree m1 left p c d.key d.value r fs (plug gs hole) s1) in
      renode-IsSubtree m1 above_last left d.inner d.at d.color d.color d.key d.value k v leaf
        (record (m.nodes d.at) { key = (m.nodes p).key; value = (m.nodes p).value })
        (relabeled (up (gs ++ frame left p c k v r ∷ fs)) (up above_last) (top d.inner) null d.color
          d.key d.value (m.nodes p).key (m.nodes p).value k v (m.nodes d.at) at_q
          (up-append gs fs p c k v d.key d.value r) (ap (λ n. n.key) at_p) (ap (λ n. n.value) at_p))
        s2

  pub swap_items-Around : Around fs (branch l p c k v r) → Around above_last last_node
  swap_items-Around a =
      let hole = branch d.inner d.at d.color d.key d.value leaf in
      let a0 = subst (λ l. Around fs (branch l p c k v r)) d.shape a in
      let a1 = Around-renode fs (plug d.frames hole) p c k v d.key d.value r a0 in
      Around-renode above_last d.inner d.at d.color d.key d.value k v leaf (
        append-Around (frame left p c d.key d.value r ∷ fs) d.frames hole
          (Around-join left p c d.key d.value r fs (plug d.frames hole) a1))
