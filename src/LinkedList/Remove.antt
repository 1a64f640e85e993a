-- ===== src/LinkedList/Remove.antt =====
-- `core_rtl_list_node_remove` and `core_rtl_list_remove`.
use mathlib.Core.List.{map-append}
use sandnix.Prelude.{
  ℕ, ◌≡◌, ◌≢◌, refl, sym, ap, ◌∙◌, true, false, Option, some, List, [], ◌∷◌, ◌++◌, map, arith, ◌==◌,
  ◌⊎◌, inl, inr, if◌then◌else◌,
}
use sandnix.Nodes.{Ptr, null, Store, update}
use sandnix.LinkedList.{node_remove, remove}
use sandnix.LinkedList.Ring
use sandnix.LinkedList.Ring.{Ring, IsList, first, last, has, ◌∉◌, Distinct, update_ne, update_self}
use sandnix.LinkedList.Splice
use sandnix.LinkedList.Splice.{unlinked}
use sandnix.LinkedList.Inserted.{SameOutside}

-- `r` returns the item of `pos` and the list without it; the node is freed, and no node outside
-- the list is changed.
pub record IsRemoved (s : Store) (xs : List Ptr) (pos : Ptr) (ys : List Ptr)
    (r : Option ((ℕ × Ptr) × Store)) : Type 0 where
  pub after : Store
  pub returns : r ≡ some ((s.item pos, first (xs ++ ys) null), after)
  pub list : IsList after (first (xs ++ ys) null) (xs ++ ys) (map s.item xs ++ map s.item ys)
  pub supply : after.supply ≡ s.supply
  pub freed : after.live pos ≡ false
  pub outside : SameOutside (xs ++ pos ∷ ys) s after

Ring-removed :
    (s : Store) (pos : Ptr) (zs : List Ptr)
    → zs ≢ []
    → Ring s (pos ∷ zs)
    → Ring (unlinked s (s.prev pos) (s.next pos)) zs
Ring-removed s pos [] ne r = absurd (ne refl)
Ring-removed s pos (b ∷ zs) ne r =
    rw (r.prevs.0, r.nexts.0) (Splice.Ring-unlinked s b zs pos (Ring.Ring-turn s pos (b ∷ zs) r))

-- The head that the code computes.
first_removed :
    (xs : List Ptr) (pos : Ptr) (ys : List Ptr)
    → Distinct (xs ++ pos ∷ ys)
    → xs ++ ys ≢ []
    → (if first (xs ++ pos ∷ ys) null == pos
        then first ys (first xs pos)
        else first (xs ++ pos ∷ ys) null)
      ≡ first (xs ++ ys) null
first_removed [] pos [] d ne = absurd (ne refl)
first_removed [] pos (y ∷ ys) d ne = ground arith
first_removed (x ∷ xs) pos ys d ne =
    let (_, apart) = Ring.not-has-middle xs pos ys x (d.0) in
    let other : (x == pos) ≡ false = ground arith in rw other

module _ (s : Store) (xs : List Ptr) (pos : Ptr) (ys : List Ptr) (r : Ring s (xs ++ pos ∷ ys)) where
  ring : Ring s (pos ∷ ys ++ xs)
  ring = Splice.Ring-from s xs pos ys r

  present : (s.live pos ≡ true) × ((pos == null) ≡ false)
  present = (ring.live.1, let ne = ring.live.0 in ground arith)

  -- A node that is not alone is unlinked from its neighbours.
  node_remove_lem :
      xs ++ ys ≢ []
      → node_remove pos (first (xs ++ pos ∷ ys) null) s
        ≡ some ((s.item pos, first (xs ++ ys) null), unlinked s (s.prev pos) (s.next pos))
  unfolding node_remove
  node_remove_lem ne =
      let apart : pos ≢ s.prev pos =
        rw ring.prevs.0
          (Ring.ne-last_of_ne_nil (ys ++ xs) pos (Ring.swap-ne-nil xs ys ne) (ring.distinct.0)) in
      let two : (s.prev pos == pos) ≡ false = ground arith in
      let two' : (pos == s.prev pos) ≡ false = ground arith in
      let pos_live = present.0 in
      let some_pos = present.1 in
      let prev_live = Splice.live_prev s xs pos ys r in
      let next_live : s.live (s.next pos) ≡ true =
        rw ring.nexts.0 (Ring.AllLive-first s.live (ys ++ xs) pos ring.live) in
      simp (some_pos, pos_live, two, prev_live, two', next_live)
        (ap (λ head. some ((s.item pos, head), unlinked s (s.prev pos) (s.next pos)))
          (rw (Splice.next_of s xs pos ys r) (first_removed xs pos ys r.distinct ne)))

  node_remove_alone :
      xs ++ ys ≡ [] → node_remove pos (first (xs ++ pos ∷ ys) null) s ≡ some ((s.item pos, null), s)
  unfolding node_remove
  node_remove_alone e =
      let one : s.prev pos ≡ pos = ring.prevs.0 ∙ ap (λ zs. last zs pos) (Ring.swap-nil xs ys e) in
      let same : (s.prev pos == pos) ≡ true = ground arith in
      let pos_live = present.0 in let some_pos = present.1 in simp (some_pos, pos_live, same)

  out : pos ∉ xs ++ ys
  out = Ring.not-has-swap pos ys xs (ring.distinct.0)

  abbrev without : Store → Store
  without t = record t { live = update t.live pos false }

  remove_via :
      (t : Store) (head : Ptr)
      → node_remove pos (first (xs ++ pos ∷ ys) null) s ≡ some ((s.item pos, head), t)
      → t.live pos ≡ true
      → remove pos (first (xs ++ pos ∷ ys) null) s ≡ some ((s.item pos, head), without t)
  unfolding remove
  remove_via t head e l = let some_pos = present.1 in rw some_pos (rw e (rw l))

  live-without : (q : Ptr) → q ∉ xs ++ pos ∷ ys → update s.live pos false q ≡ s.live q
  live-without q h = update_ne s.live pos false q ((Ring.not-has-middle xs pos ys q h).1)

  many-IsRemoved :
      xs ++ ys ≢ [] → IsRemoved s xs pos ys (remove pos (first (xs ++ pos ∷ ys) null) s)
  many-IsRemoved ne = record {
    after = without (unlinked s (s.prev pos) (s.next pos));
    returns =
        remove_via (unlinked s (s.prev pos) (s.next pos)) (first (xs ++ ys) null)
          (node_remove_lem ne) (present.0);
    list = record {
      ring = Splice.Ring-live (unlinked s (s.prev pos) (s.next pos)) (xs ++ ys) pos false out (
          Ring.Ring-rotate (unlinked s (s.prev pos) (s.next pos)) ys xs
            (Ring-removed s pos (ys ++ xs) (Ring.swap-ne-nil xs ys ne) ring));
      starts = refl;
      holds = map-append s.item xs ys;
    };
    supply = refl;
    freed = update_self s.live pos false;
    outside = record {
      live = live-without;
      prev = λ q h. update_ne s.prev (s.next pos) (s.prev pos) q ((apart q h).1);
      next = λ q h. update_ne s.next (s.prev pos) (s.next pos) q ((apart q h).0);
      item = λ q h. refl;
    };
  }
    where
      apart : (q : Ptr) → q ∉ xs ++ pos ∷ ys → (q ≢ s.prev pos) × (q ≢ s.next pos)
      apart q h =
          let o = Ring.not-has-swap q xs (pos ∷ ys) h in
          (
            rw ring.prevs.0 (Ring.ne-last (ys ++ xs) pos q o),
            rw ring.nexts.0 (Ring.ne-first (ys ++ xs) pos q o),
          )

  one-IsRemoved : xs ++ ys ≡ [] → IsRemoved s xs pos ys (remove pos (first (xs ++ pos ∷ ys) null) s)
  one-IsRemoved e = record {
    after = without s;
    returns =
        remove_via s null (node_remove_alone e) (present.0)
        ∙ ap (λ zs. some ((s.item pos, first zs null), without s)) (sym e);
    list = record {
      ring = rw e (record { distinct = tt; live = tt; nexts = tt; prevs = tt });
      starts = refl;
      holds = map-append s.item xs ys;
    };
    supply = refl;
    freed = update_self s.live pos false;
    outside = record {
      live = live-without;
      prev = λ q h. refl;
      next = λ q h. refl;
      item = λ q h. refl;
    };
  }

  nil_or_not : (zs : List Ptr) → (zs ≡ []) ⊎ (zs ≢ [])
  nil_or_not [] = inl refl
  nil_or_not (z ∷ zs) = inr (λ e. cc)

  -- At a node of the list, `core_rtl_list_remove` takes it out, frees it and returns its item.
  pub remove-IsRemoved : IsRemoved s xs pos ys (remove pos (first (xs ++ pos ∷ ys) null) s)
  remove-IsRemoved = elim (nil_or_not (xs ++ ys)) [
    | inl none_left ↦ one-IsRemoved none_left
    | inr some_left ↦ many-IsRemoved some_left
  ]
