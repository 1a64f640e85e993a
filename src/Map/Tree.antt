-- ===== src/Map/Tree.antt =====
-- The trees that the nodes of a map stand for.
use sandnix.Prelude.{
  ℕ, suc, ◌+◌, ◌≤◌, ◌≡◌, ◌≢◌, refl, ◌∙◌, true, false, ◌==◌, List, [], ◌∷◌, ◌++◌, if◌then◌else◌,
  arith,
}
use sandnix.Nodes.{Ptr, null, update}
use sandnix.Map.{Color, Side, left, right, Node}

pub data Tree : Type 0 where
  leaf : Tree
  branch : Tree → Ptr → Color → (key value : ℕ) → Tree → Tree

abbrev pub top : Tree → Ptr
top leaf = null
top (branch l a c k v r) = a

-- A branch whose first subtree stands on `side`.
abbrev pub join : Side → Tree → Ptr → Color → (key value : ℕ) → Tree → Tree
join left t a c k v u = branch t a c k v u
join right t a c k v u = branch u a c k v t

abbrev pub node : Side → (parent inner outer : Ptr) → Color → (key value : ℕ) → Node
node left q t u c k v = record { parent = q; lchild = t; rchild = u; color = c; key = k; value = v }
node right q t u c k v = record {
  parent = q;
  lchild = u;
  rchild = t;
  color = c;
  key = k;
  value = v;
}

-- The keys and values from left to right.
abbrev pub entries : Tree → List (ℕ × ℕ)
entries leaf = []
entries (branch l a c k v r) = entries l ++ (k, v) ∷ entries r

abbrev pub size : Tree → ℕ
size leaf = 0
size (branch l a c k v r) = suc (size l + size r)

abbrev pub hit : (p a : Ptr) → ℕ
hit p a = if p == a then 1 else 0

-- How often an address stands in a tree.
abbrev pub count : Ptr → Tree → ℕ
count p leaf = 0
count p (branch l a c k v r) = count p l + hit p a + count p r

-- The nodes below `parent` are this tree.
abbrev pub IsTree : (Ptr → Node) → (parent : Ptr) → Tree → Type 0
IsTree h q leaf = Unit {0}
IsTree h q (branch l a c k v r) =
    (a ≢ 0) × (h a ≡ node left q (top l) (top r) c k v) × IsTree h a l × IsTree h a r

pub hit_self : (p : Ptr) → hit p p ≡ 1
hit_self p = ground arith

pub hit_ne : (p a : Ptr) → hit p a ≡ 0 → (a == p) ≡ false
hit_ne p a e = ground arith

pub update_miss : (h : Ptr → Node) (p q : Ptr) (n : Node) → hit p q ≡ 0 → update h p n q ≡ h q
update_miss h p q n e = let x = hit_ne p q e in rw x refl

pub update_hit : (h : Ptr → Node) (p : Ptr) (n : Node) → update h p n p ≡ n
update_hit h p n = let x : (p == p) ≡ true = ground arith in rw x refl

-- A node that is not in a tree may change.
pub IsTree-update :
    (h : Ptr → Node) (p q : Ptr) (n : Node) (t : Tree)
    → count p t ≡ 0
    → IsTree h q t
    → IsTree (update h p n) q t
IsTree-update h p q n leaf e t = tt
IsTree-update h p q n (branch l a c k v r) e t = (
  t.0,
  update_miss h p a n (omega arith) ∙ t.1,
  IsTree-update h p a n l (omega arith) (t.2),
  IsTree-update h p a n r (omega arith) (t.3),
)

pub count-top : (t : Tree) → top t ≢ 0 → 1 ≤ count (top t) t
count-top leaf e = absurd (e refl)
count-top (branch l a c k v r) e = let x = hit_self a in omega arith
