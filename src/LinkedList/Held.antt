-- ===== src/LinkedList/Held.antt =====
-- A list variable with the heap that its nodes come from: what `core_rtl_list_insert_after` and
-- `core_rtl_list_remove` do to the items at the two ends, for the containers over a list.
use mathlib.Core.List.{append-nil}
use sandnix.Prelude.{
  ℕ, suc, ◌≡◌, ◌≢◌, refl, sym, ap, ◌∙◌, Bool, true, false, some, List, [], ◌∷◌, ◌++◌, map, arith,
  ◌==◌, length, subst,
}
use sandnix.Nodes.{Ptr, null, Store}
use sandnix.LinkedList.{insert_after, remove}
use sandnix.LinkedList.Ring
use sandnix.LinkedList.Ring.{Ring, IsList, first, last, has, ◌∉◌}
use sandnix.LinkedList.Inserted.{IsInserted}
use sandnix.LinkedList.Grow.{insert_after-back}
use sandnix.LinkedList.Remove.{remove-IsRemoved}

-- The pointers that the heap is going to return are distinct and no nodes yet.
abbrev pub AllFresh : (Ptr → Bool) → List Ptr → Type 0
AllFresh live [] = Unit {0}
AllFresh live (p ∷ ps) = (p ≢ null) × (live p ≡ false) × (p ∉ ps) × AllFresh live ps

AllFresh-change :
    (live live' : Ptr → Bool) (ps : List Ptr)
    → ((q : Ptr) → has q ps ≡ true → live q ≡ false → live' q ≡ false)
    → AllFresh live ps
    → AllFresh live' ps
AllFresh-change live live' [] same f = tt
AllFresh-change live live' (p ∷ ps) same (ne, dead, out, f) = (
  ne,
  same p (ground arith) dead,
  out,
  AllFresh-change live live' ps (λ q h dead. same q (ground arith) dead) f,
)

-- `list` holds `items`, and the heap has `room` nodes more.
pub record IsHeld (s : Store) (list : Ptr) (items : List ℕ) (room : ℕ) : Type 0 where
  pub nodes : List Ptr
  pub is_list : IsList s list nodes items
  pub fresh : AllFresh s.live s.supply
  pub room_eq : length s.supply ≡ room

ne-of_has : (q p : Ptr) (ps : List Ptr) → has q ps ≡ true → p ∉ ps → q ≢ p
ne-of_has q p ps here out e = cc

-- With an empty heap, nothing is inserted.
pub insert_after_none :
    (s : Store) (list : Ptr) (v : ℕ)
    → length s.supply ≡ 0
    → insert_after null list v s ≡ some ((null, list), s)
unfolding insert_after
insert_after_none s list v e = rw (nil_of s.supply e)
  where
    nil_of : (ps : List Ptr) → length ps ≡ 0 → ps ≡ []
    nil_of [] e = refl
    nil_of (p ∷ ps) e = absurd (ground arith)

-- An insertion with no position puts the item behind the others.
pub insert_after-IsHeld :
    (s : Store) (list : Ptr) (items : List ℕ) (room v : ℕ)
    → IsHeld s list items (suc room)
    → (node : Ptr) × (list' : Ptr) × (s' : Store) × (insert_after null list v s
        ≡ some ((node, list'), s'))
      × (node ≢ null)
      × IsHeld s' list' (items ++ v ∷ []) room
insert_after-IsHeld s list items room v h = from s.supply refl h.room_eq h.fresh
  where
    from :
        (ps : List Ptr)
        → s.supply ≡ ps
        → length ps ≡ suc room
        → AllFresh s.live ps
        → (node : Ptr) × (list' : Ptr) × (s' : Store) × (insert_after null list v s
            ≡ some ((node, list'), s'))
          × (node ≢ null)
          × IsHeld s' list' (items ++ v ∷ []) room
    from [] e l f = absurd (ground arith)
    from (node ∷ rest) e l (ne, dead, out, f) =
        let is = h.is_list in
        let done =
          insert_after-back s node rest (record { supply = e; ne = ne; unused = dead }) v h.nodes
            is.ring in
        (
          node,
          first (h.nodes ++ node ∷ []) null,
          done.after,
          ap (λ p. insert_after null p v s) is.starts ∙ done.returns,
          ne,
          record {
            nodes = h.nodes ++ node ∷ [];
            is_list = record {
              ring = done.list.ring;
              starts = refl;
              holds = done.list.holds ∙ ap (λ xs. xs ++ v ∷ []) is.holds;
            };
            fresh = rw done.supply (AllFresh-change s.live done.after.live rest (stays done) f);
            room_eq = rw done.supply (ground arith);
          },
        )
      where
        stays :
            (done : IsInserted s h.nodes [] node v rest
              (insert_after null (first h.nodes null) v s))
            (q : Ptr)
            → has q rest ≡ true
            → s.live q ≡ false
            → done.after.live q ≡ false
        stays done q here gone =
            let away : q ∉ h.nodes =
              Ring.not-has_of_dead s.live h.nodes q gone (h.is_list.ring.live) in
            let ne = ne-of_has q node rest here out in
            let other : (q == node) ≡ false = ground arith in
            done.outside.live q (rw Ring.has-append (rw away (rw other refl))) ∙ gone

-- A node of the list is taken out, and is not going to be returned by the heap.
remove-IsHeld :
    (s : Store) (list : Ptr) (items : List ℕ) (room : ℕ) (h : IsHeld s list items room)
    (xs : List Ptr) (pos : Ptr) (ys : List Ptr)
    → h.nodes ≡ xs ++ pos ∷ ys
    → (s' : Store) × (remove pos list s ≡ some ((s.item pos, first (xs ++ ys) null), s'))
      × (s.live pos ≡ true)
      × IsHeld s' (first (xs ++ ys) null) (map s.item xs ++ map s.item ys) room
remove-IsHeld s list items room h xs pos ys e =
    let ring : Ring s (xs ++ pos ∷ ys) = subst (λ ps. Ring s ps) e (h.is_list.ring) in
    let done = remove-IsRemoved s xs pos ys ring in
    (
      done.after,
      ap (λ p. remove pos p s) (h.is_list.starts ∙ ap (λ ps. first ps null) e) ∙ done.returns,
      (Ring.AllLive-split s.live xs (pos ∷ ys) ring.live).1.1,
      record {
        nodes = xs ++ ys;
        is_list = done.list;
        fresh = rw done.supply (
            AllFresh-change s.live done.after.live s.supply
              (λ q here gone.
                done.outside.live q (Ring.not-has_of_dead s.live (xs ++ pos ∷ ys) q gone ring.live)
                ∙ gone)
              h.fresh);
        room_eq = rw done.supply h.room_eq;
      },
    )

-- What a list with an item at one end does when that item is removed.
abbrev pub Removes : (s : Store) (list pos : Ptr) (x : ℕ) (items : List ℕ) (room : ℕ) → Type 0
Removes s list pos x items room =
    (s.live list ≡ true)
    × ((list == null) ≡ false)
    × (s.live pos ≡ true)
    × (s.item pos ≡ x)
    × (list' : Ptr) × (s' : Store) × (remove pos list s ≡ some ((x, list'), s'))
    × IsHeld s' list' items room

pub null_held : (s : Store) (list : Ptr) (room : ℕ) → IsHeld s list [] room → list ≡ null
null_held s list room h = from h.nodes (h.is_list.holds) (h.is_list.starts)
  where
    from : (ps : List Ptr) → map s.item ps ≡ [] → list ≡ first ps null → list ≡ null
    from [] e starts = starts
    from (p ∷ ps) e starts = absurd cc

some_node :
    (s : Store) {list : Ptr} {items : List ℕ} {room : ℕ} (h : IsHeld s list items room) (p : Ptr)
    (ps : List Ptr)
    → h.nodes ≡ p ∷ ps
    → (p == null) ≡ false
some_node s h p ps e =
    let ring : Ring s (p ∷ ps) = subst (λ ps. Ring s ps) e (h.is_list.ring) in
    let ne = ring.live.0 in ground arith

pub remove_first_held :
    (s : Store) (list : Ptr) (x : ℕ) (items : List ℕ) (room : ℕ)
    → IsHeld s list (x ∷ items) room
    → Removes s list list x items room
remove_first_held s list x items room h = from h.nodes refl (h.is_list.holds)
  where
    from :
        (ps : List Ptr)
        → h.nodes ≡ ps
        → map s.item ps ≡ x ∷ items
        → Removes s list list x items room
    from [] e holds = absurd cc
    from (p ∷ ps) e holds =
        let starts : list ≡ p = h.is_list.starts ∙ ap (λ ps. first ps null) e in
        let (s', gone, alive, held) = remove-IsHeld s list (x ∷ items) room h [] p ps e in
        let head : s.item p ≡ x = cc in
        let tail : map s.item ps ≡ items = cc in
        rw starts (
          alive,
          some_node s h p ps e,
          alive,
          head,
          first ps null,
          s',
          rw starts at (rw head at gone),
          rw tail at held,
        )

-- The node behind the last item.
last_of :
    (f : Ptr → ℕ) (ps : List Ptr) (items : List ℕ) (x : ℕ)
    → map f ps ≡ items ++ x ∷ []
    → (xs : List Ptr) × (pos : Ptr) × (ps ≡ xs ++ pos ∷ []) × (map f xs ≡ items) × (f pos ≡ x)
last_of f [] [] x e = absurd cc
last_of f [] (y ∷ items) x e = absurd cc
last_of f (p ∷ []) [] x e = ([], p, refl, refl, cc)
last_of f (p ∷ q ∷ ps) [] x e = absurd cc
last_of f (p ∷ ps) (y ∷ items) x e =
    let tail : map f ps ≡ items ++ x ∷ [] = cc in
    let (xs, pos, split, front, back) = last_of f ps items x tail in
    (p ∷ xs, pos, ap (λ ps. p ∷ ps) split, cc, back)

pub remove_last_held :
    (s : Store) (list : Ptr) (x : ℕ) (items : List ℕ) (room : ℕ)
    → IsHeld s list (items ++ x ∷ []) room
    → Removes s list (s.prev list) x items room
remove_last_held s list x items room h =
    let (xs, pos, split, front, back) = last_of s.item h.nodes items x (h.is_list.holds) in
    let (s', gone, alive, held) = remove-IsHeld s list (items ++ x ∷ []) room h xs pos [] split in
    let at_last : s.prev list ≡ pos = last_is h.nodes refl xs pos split in
    let all : map s.item xs ++ [] ≡ items = append-nil (map s.item xs) ∙ front in
    rw at_last (
      (start h.nodes refl xs pos split).0,
      (start h.nodes refl xs pos split).1,
      alive,
      back,
      first (xs ++ []) null,
      s',
      rw back at gone,
      rw all at held,
    )
  where
    start :
        (ps : List Ptr)
        → h.nodes ≡ ps
        → (xs : List Ptr) (pos : Ptr) → h.nodes ≡ xs ++ pos ∷ []
        → (s.live list ≡ true) × ((list == null) ≡ false)
    start [] e xs pos split = absurd (Ring.append-ne-nil xs pos [] (sym split ∙ e))
    start (p ∷ ps) e xs pos split =
        let starts : list ≡ p = h.is_list.starts ∙ ap (λ ps. first ps null) e in
        let ring : Ring s (p ∷ ps) = subst (λ ps. Ring s ps) e (h.is_list.ring) in
        rw starts (ring.live.1, some_node s h p ps e)

    last_is :
        (ps : List Ptr)
        → h.nodes ≡ ps
        → (xs : List Ptr) (pos : Ptr) → h.nodes ≡ xs ++ pos ∷ []
        → s.prev list ≡ pos
    last_is [] e xs pos split = absurd (Ring.append-ne-nil xs pos [] (sym split ∙ e))
    last_is (p ∷ ps) e xs pos split =
        let starts : list ≡ p = h.is_list.starts ∙ ap (λ ps. first ps null) e in
        let ring : Ring s (p ∷ ps) = subst (λ ps. Ring s ps) e (h.is_list.ring) in
        rw starts (
          ring.prevs.0
          ∙ ap (λ qs. last qs null) (sym e ∙ split)
          ∙ Ring.last-append xs (pos ∷ []) null)
