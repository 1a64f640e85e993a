-- ===== src/Map/Remove/Last.antt =====
-- The last node of a subtree, and the nodes above it.
use sandnix.Prelude.{
  ℕ, zero, suc, ◌+◌, ◌≤◌, ◌≡◌, ◌≢◌, refl, sym, ap, ◌∙◌, some, List, [], ◌∷◌, ◌++◌, arith, length,
}
use sandnix.Nodes.{Ptr}
use sandnix.Map.{Color, left, right, Side, Map}
use sandnix.Map.Walk.{last_child}
use sandnix.Map.Walk.Next.{last_child-here, last_child-below}
use sandnix.Map.Tree.{Tree, leaf, branch, top, join, entries, size, count, IsTree}
use sandnix.Map.Context.{Frame, frame, plug, count_in, count-join, IsSubtree, join-IsSubtree}
use sandnix.Map.Balance.{Around, Around-join}
use sandnix.Map.Insert.Order.{behind}

module _ (hs : List Frame) where
  pub plug-append : (fs : List Frame) (t : Tree) → plug (fs ++ hs) t ≡ plug hs (plug fs t)
  plug-append [] t = refl
  plug-append (frame side a c k v r ∷ fs) t = plug-append fs (join side t a c k v r)

  pub append-IsSubtree :
      (m : Map) (fs : List Frame) (t : Tree) → IsSubtree m hs (plug fs t) → IsSubtree m (fs ++ hs) t
  append-IsSubtree m [] t s = s
  append-IsSubtree m (frame side a c k v r ∷ fs) t s =
      join-IsSubtree m side a c k v r (fs ++ hs) t (append-IsSubtree m fs (join side t a c k v r) s)

  pub append-Around : (fs : List Frame) (t : Tree) → Around hs (plug fs t) → Around (fs ++ hs) t
  append-Around [] t a = a
  append-Around (frame side p c k v r ∷ fs) t a =
      Around-join side p c k v r (fs ++ hs) t (append-Around fs (join side t p c k v r) a)

pub count-plug :
    (p : Ptr) (fs : List Frame) (t : Tree) → count p (plug fs t) ≡ count_in p fs + count p t
count-plug p [] t = omega arith
count-plug p (frame side a c k v r ∷ fs) t =
    let e = count-plug p fs (join side t a c k v r) in
    let f = count-join side p t a c k v r in omega arith

size-join :
    (side : Side) (t : Tree) (a : Ptr) (c : Color) (k v : ℕ) (r : Tree)
    → size (join side t a c k v r) ≡ suc (size t + size r)
size-join left t a c k v r = refl
size-join right t a c k v r = omega arith

pub length_size : (fs : List Frame) (t : Tree) → length fs + size t ≤ size (plug fs t)
length_size [] t = omega arith
length_size (frame side a c k v r ∷ fs) t =
    let e = length_size fs (join side t a c k v r) in
    let f = size-join side t a c k v r in omega arith

-- The last node of a subtree has no right child, and nothing of the subtree is behind it.
pub record Last (t : Tree) : Type 0 where
  pub frames : List Frame
  pub inner : Tree
  pub at : Ptr
  pub color : Color
  pub key : ℕ
  pub value : ℕ
  pub shape : t ≡ plug frames (branch inner at color key value leaf)
  pub nothing_behind : behind frames ≡ []

below_right :
    (l : Tree) (a : Ptr) (c : Color) (k v : ℕ) (r : Tree) → Last r → Last (branch l a c k v r)
below_right l a c k v r d = record {
  frames = d.frames ++ frame right a c k v l ∷ [];
  inner = d.inner;
  at = d.at;
  color = d.color;
  key = d.key;
  value = d.value;
  shape =
      ap (λ r. branch l a c k v r) d.shape
      ∙ sym (
          plug-append (frame right a c k v l ∷ []) d.frames
            (branch d.inner d.at d.color d.key d.value leaf));
  nothing_behind = behind-append d.frames ∙ d.nothing_behind;
}
  where
    behind-append : (fs : List Frame) → behind (fs ++ frame right a c k v l ∷ []) ≡ behind fs
    behind-append [] = refl
    behind-append (frame left b d i j u ∷ fs) =
        ap (λ es. (i, j) ∷ (entries u ++ es)) (behind-append fs)
    behind-append (frame right b d i j u ∷ fs) = behind-append fs

-- There is one, and the loop finds it.
pub last_of :
    (fuel : ℕ) (m : Map) (q : Ptr) (t : Tree)
    → top t ≢ 0
    → size t ≤ fuel
    → IsTree m.nodes q t
    → (d : Last t) × (last_child right fuel (top t) m ≡ some d.at)
unfolding below_right
last_of fuel m q leaf ne le i = absurd (ne refl)
last_of zero m q (branch l a c k v r) ne le i = absurd (omega arith)
last_of (suc fuel) m q (branch l a c k v leaf) ne le i = (
  record {
    frames = [];
    inner = l;
    at = a;
    color = c;
    key = k;
    value = v;
    shape = refl;
    nothing_behind = refl;
  },
  last_child-here fuel m q l a c k v i,
)
last_of (suc fuel) m q (branch l a c k v (branch x b d i' j y)) ne le i =
    let u = branch x b d i' j y in
    let rest = last_of fuel m a u (i.3.0) (omega arith) (i.3) in
    (below_right l a c k v u (rest.0), last_child-below fuel m q l a c k v u (i.3.0) i ∙ rest.1)
