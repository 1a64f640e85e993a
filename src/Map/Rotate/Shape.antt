-- ===== src/Map/Rotate/Shape.antt =====
-- Rotations and the shape of the tree.
use mathlib.Core.List.{append_assoc}
use sandnix.Prelude.{ℕ, ◌≡◌, refl, sym, some, List, ◌∷◌, subst}
use sandnix.Nodes.{Ptr}
use sandnix.Map.{Color, Side, left, right, other, Map}
use sandnix.Map.Rotate.{rotate}
use sandnix.Map.Tree.{Tree, join, entries}
use sandnix.Map.Context.{Frame, plug, IsSubtree, entries-plug}
use sandnix.Map.Rotate.Turn.{result, rotate_eq, put_together}

entries_turned :
    (side : Side) (a b : Ptr) (x y z : Tree) (ca cb : Color) (ka va kb vb : ℕ)
    → entries (join side (join side x a ca ka va y) b cb kb vb z)
      ≡ entries (join side x a ca ka va (join side y b cb kb vb z))
entries_turned left a b x y z ca cb ka va kb vb =
    append_assoc (entries x) ((ka, va) ∷ entries y) ((kb, vb) ∷ entries z)
entries_turned right a b x y z ca cb ka va kb vb =
    sym (append_assoc (entries z) ((kb, vb) ∷ entries y) ((ka, va) ∷ entries x))

-- Where `a` has the child `b` on the other side, `rotate` (`l_rotate` and `r_rotate`) returns `b`;
-- `b` takes the place of `a` and `a` that of its inner child, all parents and children agree, the
-- tree around is the same, and the entries of the whole map keep their order.
pub rotate-IsSubtree :
    (side : Side) (fs : List Frame) (a b : Ptr) (x y z : Tree)
    → (ca cb : Color) (ka va kb vb : ℕ) (m : Map)
    → IsSubtree m fs (join side x a ca ka va (join side y b cb kb vb z))
    → (m' : Map) × (rotate side a m ≡ some (b, m'))
      × IsSubtree m' fs (join side (join side x a ca ka va y) b cb kb vb z)
      × (entries (plug fs (join side (join side x a ca ka va y) b cb kb vb z))
          ≡ entries (plug fs (join side x a ca ka va (join side y b cb kb vb z))))
rotate-IsSubtree side fs a b x y z ca cb ka va kb vb m s = (
  result side fs a b x y z ca cb ka va kb vb m s,
  rotate_eq side fs a b x y z ca cb ka va kb vb m s,
  put_together side fs a b x y z ca cb ka va kb vb m s,
  entries-plug fs _ _ (entries_turned side a b x y z ca cb ka va kb vb),
)

-- The same subtree, seen from the other side.
flipped_twice :
    (side : Side) (a b : Ptr) (x y z : Tree) (ca cb : Color) (ka va kb vb : ℕ)
    → join (other side) z b cb kb vb (join (other side) y a ca ka va x)
      ≡ join side (join side x a ca ka va y) b cb kb vb z
flipped_twice left a b x y z ca cb ka va kb vb = refl
flipped_twice right a b x y z ca cb ka va kb vb = refl

flipped_back :
    (side : Side) (a b : Ptr) (x y z : Tree) (ca cb : Color) (ka va kb vb : ℕ)
    → join (other side) (join (other side) z b cb kb vb y) a ca ka va x
      ≡ join side x a ca ka va (join side y b cb kb vb z)
flipped_back left a b x y z ca cb ka va kb vb = refl
flipped_back right a b x y z ca cb ka va kb vb = refl

-- The rotation of `a` to one side and then of its new parent `b` to the other both succeed, and
-- the map has the tree again that it had.
pub rotate-other :
    (side : Side) (fs : List Frame) (a b : Ptr) (x y z : Tree)
    → (ca cb : Color) (ka va kb vb : ℕ) (m : Map)
    → IsSubtree m fs (join side x a ca ka va (join side y b cb kb vb z))
    → (m' : Map) × (rotate side a m ≡ some (b, m'))
      × ((m'' : Map) × (rotate (other side) b m' ≡ some (a, m''))
          × IsSubtree m'' fs (join side x a ca ka va (join side y b cb kb vb z)))
rotate-other side fs a b x y z ca cb ka va kb vb m s =
    let there = rotate-IsSubtree side fs a b x y z ca cb ka va kb vb m s in
    let turned =
      subst (IsSubtree (there.0) fs) (sym (flipped_twice side a b x y z ca cb ka va kb vb))
        (there.2) in
    let back = rotate-IsSubtree (other side) fs b a z y x cb ca kb vb ka va (there.0) turned in
    (
      there.0,
      there.1,
      (
        back.0,
        back.1,
        subst (IsSubtree (back.0) fs) (flipped_back side a b x y z ca cb ka va kb vb) (back.2),
      ),
    )
