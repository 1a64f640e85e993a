-- ===== src/Map/Remove/Loop.antt =====
-- The loop of remove_rebalance.
use sandnix.Prelude.{
  ℕ, zero, suc, ◌+◌, ◌≤◌, ◌≡◌, ◌≢◌, refl, sym, subst, Bool, true, false, Bool-cases, ◌==◌, none,
  some, List, [], ◌∷◌, inl, inr, length, arith, if◌then◌else◌,
}
use sandnix.Nodes.{Ptr, null}
use sandnix.Map.{Color, black, red, Side, left, Map, set_color}
use sandnix.Map.Recolor.{recolor-IsSubtree}
use sandnix.Map.Remove.{fix_below, rebalance_round, remove_rebalance}
use sandnix.Map.Tree.{Tree, leaf, branch, top, hit, hit_self}
use sandnix.Map.Context.{
  Frame, frame, up, plug, top_of, count_in, IsAround, IsSubtree, IsSubtree-join, IsSubtree-plug,
}
use sandnix.Map.Balance.{IsBalanced, IsFramed, plug-IsRedBlack}
use sandnix.Map.Insert.TurnGrand.{nonzero_test, parent_of_hole}
use sandnix.Map.Remove.Paint.{red_root, is_red_at-top}
use sandnix.Map.Remove.Same.{IsSame-refl, IsSame-plug, IsSame-blackened}
use sandnix.Map.Remove.Sibling.{Rebalanced, Ended, IsSame-Rebalanced}
use sandnix.Map.Remove.Hole.{IsShort, cost, Progress, GoesOn-weaken, red_root-IsBlackRoot}
use sandnix.Map.Remove.Below.{fix_below-Progress}

-- A node that is not red is short by its own count.
short-IsBalanced : (n : ℕ) (t : Tree) → red_root t ≡ false → IsShort n t → IsBalanced n t
short-IsBalanced n leaf e b = b
short-IsBalanced n (branch l a black k v r) e b = b
short-IsBalanced n (branch l a red k v r) e b = cc

-- A red node turns black, and the loop is left.
red_hole-Ended :
    (n : ℕ) (m : Map) (fs : List Frame) (t : Tree)
    → IsSubtree m fs t
    → IsFramed (suc n) fs
    → IsShort n t
    → red_root t ≡ true
    → Ended (plug fs t) (some (none, set_color (top t) black m))
red_hole-Ended n m fs leaf i f b e = cc
red_hole-Ended n m fs (branch l a black k v r) i f b e = cc
red_hole-Ended n m fs (branch l a red k v r) i f b e =
    let t' = branch l a black k v r in
    let made = recolor-IsSubtree m fs left l a red black k v r i in
    (
      set_color a black m,
      (
        refl,
        record {
          shape = plug fs t';
          whole = IsSubtree-plug (set_color a black m) fs t' made;
          same = IsSame-plug fs t' (branch l a red k v r) (IsSame-blackened (branch l a red k v r));
          red_black = plug-IsRedBlack (suc n) fs t' f b refl;
        },
      ),
    )

-- The root of the map is above the hole.
top_of-IsAround :
    (h : Ptr → _) (fs : List Frame) (p : Ptr) → IsAround h fs p → p ≢ 0 → (top_of fs p ≢ 0)
top_of-IsAround h [] p a ne = ne
top_of-IsAround h (frame side q c k v r ∷ fs) p a ne = top_of-IsAround h fs q (a.3) (a.0)

top_of_counted : (fs : List Frame) (p : Ptr) → 1 ≤ count_in (top_of fs p) fs + hit (top_of fs p) p
top_of_counted [] p = let x = hit_self p in omega arith
top_of_counted (frame side a c k v r ∷ fs) p = let x = top_of_counted fs a in omega arith

pub root_apart :
    (m : Map) (side : Side) (g : Ptr) (c : Color) (k v : ℕ) (r : Tree) (fs : List Frame) (t : Tree)
    → IsSubtree m (frame side g c k v r ∷ fs) t
    → (top t == m.tree) ≡ false
root_apart m side g c k v r fs leaf i =
    let ne = top_of-IsAround m.nodes fs g (i.around.3) (i.around.0) in
    rw (i.root) (nonzero_root (top_of fs g) ne)
  where
    nonzero_root : (p : ℕ) → p ≢ 0 → (0 == p) ≡ false
    nonzero_root p e = ground arith
root_apart m side g c k v r fs (branch l a d i j u) s =
    let one = top_of_counted fs g in
    let d = s.distinct (top_of fs g) in rw (s.root) (apart (omega arith))
  where
    apart : hit (top_of fs g) a ≡ 0 → (a == top_of fs g) ≡ false
    apart e = ground arith

root_hole-Ended :
    (n : ℕ) (m : Map) (t : Tree)
    → IsSubtree m [] t
    → IsShort n t
    → red_root t ≡ false
    → Ended t (some (none, m))
root_hole-Ended n m t i b e = (
  m,
  (
    refl,
    record {
      shape = t;
      whole = i;
      same = IsSame-refl t;
      red_black = (red_root-IsBlackRoot t e, (n, short-IsBalanced n t e b));
    },
  ),
)

-- The parent of the hole is that of the node, or the one remembered.
parent_read :
    (m : Map) (fs : List Frame) (t : Tree) (p_parent : Ptr)
    → IsSubtree m fs t
    → (top t ≡ 0 → p_parent ≡ up fs)
    → (if top t == null then p_parent else (m.nodes (top t)).parent) ≡ up fs
parent_read m fs leaf p_parent i e = e refl
parent_read m fs (branch l a c k v r) p_parent i e =
    let na = nonzero_test a (i.below.0) in
    rw na (parent_of_hole m fs (branch l a c k v r) (i.below.0) i)

black_hole-Progress :
    (n bound : ℕ) (m : Map) (fs : List Frame) (t : Tree) (p_parent : Ptr)
    → IsSubtree m fs t
    → IsFramed (suc n) fs
    → IsShort n t
    → (top t ≡ 0 → p_parent ≡ up fs)
    → red_root t ≡ false
    → suc (length fs) ≤ bound
    → Progress bound (plug fs t) (rebalance_round (top t) p_parent m)
unfolding rebalance_round
black_hole-Progress n bound m [] t p_parent i f b u e le =
    let same : (top t == m.tree) ≡ true = rw (i.root) (ground arith) in
    let seen = is_red_at-top m null t (i.below) in
    let last = root_hole-Ended n m t i b e in
    inl (last.0, (rw (rebalance_round, seen, e, same) (last.1.0), last.1.1))
black_hole-Progress n bound m (frame side g c k v r ∷ fs) t p_parent i f b u e le =
    let high = frame side g c k v r ∷ fs in
    let apart = root_apart m side g c k v r fs t i in
    let seen = is_red_at-top m g t (i.below) in
    let read = parent_read m high t p_parent i u in
    let go : rebalance_round (top t) p_parent m ≡ fix_below (top t) g m =
      rw (rebalance_round, seen, e, apart, read) refl in
    subst (Progress bound (plug high t)) (sym go) (
      GoesOn-weaken (suc (suc (length fs))) bound (plug high t) (fix_below (top t) g m) le (
        fix_below-Progress n m side fs t g c k v r (IsSubtree-join m side g c k v r fs t i) f
          (short-IsBalanced n t e b)))

rebalance_round-Progress :
    (n bound : ℕ) (m : Map) (fs : List Frame) (t : Tree) (p_parent : Ptr)
    → IsSubtree m fs t
    → IsFramed (suc n) fs
    → IsShort n t
    → (top t ≡ 0 → p_parent ≡ up fs)
    → cost fs t ≤ suc bound
    → Progress bound (plug fs t) (rebalance_round (top t) p_parent m)
unfolding rebalance_round
rebalance_round-Progress n bound m fs t p_parent i f b u le = elim (Bool-cases (red_root t)) [
  | inl e ↦
      let seen = is_red_at-top m (up fs) t (i.below) in
      let last = red_hole-Ended n m fs t i f b e in
      inl (last.0, (rw (rebalance_round, seen, e) (last.1.0), last.1.1))
  | inr e ↦ black_hole-Progress n bound m fs t p_parent i f b u e (black_cost e le)
]
  where
    black_cost : red_root t ≡ false → cost fs t ≤ suc bound → suc (length fs) ≤ bound
    black_cost e le = let x : cost fs t ≡ suc (suc (length fs)) = rw e refl in omega arith

-- With a round for each node above the hole, and two more, the map is rebalanced.
pub remove_rebalance-Rebalanced :
    (fuel n : ℕ) (m : Map) (fs : List Frame) (t : Tree) (p_parent : Ptr)
    → IsSubtree m fs t
    → IsFramed (suc n) fs
    → IsShort n t
    → (top t ≡ 0 → p_parent ≡ up fs)
    → cost fs t ≤ fuel
    → (m' : Map) × ((remove_rebalance fuel (top t) p_parent m ≡ some m')
        × Rebalanced (plug fs t) m')
unfolding remove_rebalance
remove_rebalance-Rebalanced zero n m fs t p_parent i f b u le = absurd (no_cost (red_root t) le)
  where
    no_cost : (c : Bool) → (if c then 1 else suc (suc (length fs))) ≤ 0 → ⊥
    no_cost true e = omega arith
    no_cost false e = omega arith
remove_rebalance-Rebalanced (suc fuel) n m fs t p_parent i f b u le =
    elim (rebalance_round-Progress n fuel m fs t p_parent i f b u le) [
      | inl e ↦ (e.0, (rw (e.1.0) refl, e.1.1))
      | inr g ↦
          let last =
            remove_rebalance-Rebalanced fuel g.level g.memory g.frames g.shape (top g.shape) g.whole
              g.framed g.short (λ e. absurd (g.there e)) g.cheap in
          (
            last.0,
            (
              rw (g.next_is) (last.1.0),
              IsSame-Rebalanced (plug g.frames g.shape) (plug fs t) (last.0) g.same (last.1.1),
            ),
          )
    ]
