-- ===== src/LinkedList/Grow.antt =====
-- `core_rtl_list_insert_before` and `core_rtl_list_insert_after` on lists of items.
use mathlib.Core.List.{append-nil, append_assoc}
use sandnix.Prelude.{
  ℕ, ◌≡◌, ◌≢◌, refl, ap, ap₂, ◌∙◌, true, false, Option, some, List, [], ◌∷◌, ◌++◌, map, arith, ◌==◌,
}
use sandnix.Nodes.{Ptr, null, Store, update, alloc}
use sandnix.LinkedList.{Result, insert_node_before, insert_node_after, insert_before, insert_after}
use sandnix.LinkedList.Ring
use sandnix.LinkedList.Ring.{Ring, IsList, first, last, has, ◌∉◌, Distinct, update_ne, update_self}
use sandnix.LinkedList.Splice
use sandnix.LinkedList.Splice.{linked}
use sandnix.LinkedList.Insert
use sandnix.LinkedList.Inserted.{SameOutside, IsInserted, Gives, first_before, first_after}
use sandnix.LinkedList.Insert.{Ring-insert}

module _ (s : Store) (node : Ptr) (rest : List Ptr) (g : Gives s node rest) (v : ℕ) where
  abbrev taken : Store
  taken = record s { live = update s.live node true; supply = rest }

  alloc_lem : alloc s ≡ some (node, taken)
  alloc_lem =
      let some_node : (node == null) ≡ false = let ne = g.ne in ground arith in
      rw g.supply (rw some_node)

  given : (node == null) ≡ false
  given = let ne = g.ne in ground arith

  node_live : taken.live node ≡ true
  node_live = update_self s.live node true

  insert_before_via :
      (pos head head' : Ptr) (t : Store)
      → insert_node_before pos head node taken ≡ some ((node, head'), t)
      → t.live node ≡ true
      → insert_before pos head v s ≡ some ((node, head'), record t { item = update t.item node v })
  unfolding insert_before
  insert_before_via pos head head' t e l = rw alloc_lem (rw given (rw e (rw l)))

  insert_after_via :
      (pos head head' : Ptr) (t : Store)
      → insert_node_after pos head node taken ≡ some ((node, head'), t)
      → t.live node ≡ true
      → insert_after pos head v s ≡ some ((node, head'), record t { item = update t.item node v })
  unfolding insert_after
  insert_after_via pos head head' t e l = rw alloc_lem (rw given (rw e (rw l)))

  abbrev filled : Store → Store
  filled t = record t { item = update t.item node v }

  -- The contents of a ring that has got its new node's item.
  contents :
      (xs ys : List Ptr)
      → node ∉ xs ++ ys
      → map (update s.item node v) (xs ++ node ∷ ys) ≡ map s.item xs ++ v ∷ map s.item ys
  contents [] ys out = ap₂ ◌∷◌ (update_self s.item node v) (Splice.map-update s.item ys node v out)
  contents (x ∷ xs) ys out =
      ap₂ ◌∷◌ (update_ne s.item node v x (ground arith)) (contents xs ys (ground arith))

  Ring-taken : (ps : List Ptr) → Ring s ps → Ring taken ps × (node ∉ ps)
  Ring-taken ps r =
      let out = Ring.not-has_of_dead s.live ps node g.unused r.live in
      (Splice.Ring-same _ ps s.item rest (Splice.Ring-live s ps node true out r), out)

  -- What an insertion between `a` and `b` leaves.
  module _ (xs ys : List Ptr) (a b : Ptr) (out : node ∉ xs ++ ys)
      (apart : (q : Ptr) → q ∉ xs ++ node ∷ ys → (q ≢ a) × (q ≢ b) × (q ≢ node)) where
    linked-outside : SameOutside (xs ++ node ∷ ys) s (filled (linked taken a b node))
    linked-outside = record {
      live = λ q h. update_ne s.live node true q ((apart q h).2);
      prev = λ q h.
          update_ne (update s.prev node a) b node q ((apart q h).1)
          ∙ update_ne s.prev node a q ((apart q h).2);
      next = λ q h.
          update_ne (update s.next a node) node b q ((apart q h).2)
          ∙ update_ne s.next a node q ((apart q h).0);
      item = λ q h. update_ne s.item node v q ((apart q h).2);
    }

    inserted :
        {r : Option (Result × Store)}
        → Ring (linked taken a b node) (xs ++ node ∷ ys)
        → r ≡ some ((node, first (xs ++ node ∷ ys) null), filled (linked taken a b node))
        → IsInserted s xs ys node v rest r
    inserted ring e = record {
      after = filled (linked taken a b node);
      returns = e;
      list = record {
        ring = Splice.Ring-same (linked taken a b node) _ _ rest ring;
        starts = refl;
        holds = contents xs ys out;
      };
      supply = refl;
      outside = linked-outside;
    }

  -- `pos` and the nodes round it are no nodes outside the ring.
  outside_of :
      (t : Store) (xs : List Ptr) (pos : Ptr) (ys zs : List Ptr)
      → Ring t (xs ++ pos ∷ ys)
      → ((q : Ptr) → q ∉ zs → (q ∉ pos ∷ ys ++ xs) × (q ≢ node))
      → (q : Ptr) → q ∉ zs
      → (q ≢ pos) × (q ≢ t.prev pos) × (q ≢ t.next pos) × (q ≢ node)
  outside_of t xs pos ys zs r away q h =
      let ring = Splice.Ring-from t xs pos ys r in
      let (o, ne) = away q h in
      (
        Ring.ne_head (ys ++ xs) pos q o,
        rw ring.prevs.0 (Ring.ne-last (ys ++ xs) pos q o),
        rw ring.nexts.0 (Ring.ne-first (ys ++ xs) pos q o),
        ne,
      )

  away :
      (xs ys zs : List Ptr)
      → ((q : Ptr) → q ∉ zs → (q ∉ xs ++ ys) × (q ≢ node))
      → (q : Ptr) → q ∉ zs
      → (q ∉ ys ++ xs) × (q ≢ node)
  away xs ys zs split q h = (Ring.not-has-swap q xs ys ((split q h).0), (split q h).1)

  -- At a node of the list.
  module _ (xs : List Ptr) (pos : Ptr) (ys : List Ptr) (r : Ring s (xs ++ pos ∷ ys)) where
    out : node ∉ xs ++ pos ∷ ys
    out = (Ring-taken (xs ++ pos ∷ ys) r).1

    ring : Ring taken (xs ++ pos ∷ ys)
    ring = (Ring-taken (xs ++ pos ∷ ys) r).0

    before_pos : Ring (linked taken (s.prev pos) pos node) (xs ++ node ∷ pos ∷ ys)
    before_pos = rw (Splice.prev_of taken xs pos ys ring) (
        Ring-insert taken xs (pos ∷ ys) node (Ring.append-ne-nil xs pos ys) ring g.ne node_live out)

    before_apart : (q : Ptr) → q ∉ xs ++ node ∷ pos ∷ ys → (q ≢ s.prev pos) × (q ≢ pos) × (q ≢ node)
    before_apart q h =
        let o =
          outside_of taken xs pos ys (xs ++ node ∷ pos ∷ ys) ring
            (away xs (pos ∷ ys) _ (Ring.not-has-middle xs node (pos ∷ ys))) q h in
        (o.1, o.0, o.3)

    -- At a node, `core_rtl_list_insert_before` puts the new one in front of it.
    pub insert_before_at :
        IsInserted s xs (pos ∷ ys) node v rest (insert_before pos (first (xs ++ pos ∷ ys) null) v s)
    insert_before_at = inserted xs (pos ∷ ys) (s.prev pos) pos out before_apart before_pos (
        insert_before_via pos (first (xs ++ pos ∷ ys) null) _ (linked taken (s.prev pos) pos node)
          (Insert.insert_node_before_at taken node g.ne node_live xs pos ys ring out _
            ∙ ap (λ h. some ((node, h), linked taken (s.prev pos) pos node))
                (first_before xs pos ys node r.distinct))
          node_live)

    out_after : node ∉ (xs ++ pos ∷ []) ++ ys
    out_after = rw append_assoc out

    after_pos : Ring (linked taken pos (s.next pos) node) ((xs ++ pos ∷ []) ++ node ∷ ys)
    after_pos =
        let regroup : Ring taken ((xs ++ pos ∷ []) ++ ys) = rw append_assoc ring in
        let some_node : (xs ++ pos ∷ []) ++ ys ≢ [] =
          rw append_assoc (Ring.append-ne-nil xs pos ys) in
        let placed =
          Ring-insert taken (xs ++ pos ∷ []) ys node some_node regroup g.ne node_live out_after in
        rw (Splice.next_of taken xs pos ys ring)
          (rw (Ring.last-append, Ring.first-append) at placed)

    after_apart :
        (q : Ptr) → q ∉ (xs ++ pos ∷ []) ++ node ∷ ys → (q ≢ pos) × (q ≢ s.next pos) × (q ≢ node)
    after_apart q h =
        let split = λ (p : Ptr) (k : p ∉ (xs ++ pos ∷ []) ++ node ∷ ys).
          Ring.not-has-middle (xs ++ pos ∷ []) node ys p k in
        let o =
          outside_of taken xs pos ys ((xs ++ pos ∷ []) ++ node ∷ ys) ring
            (λ p k. (
              Ring.not-has-swap p xs (pos ∷ ys) (rw append_assoc at ((split p k).0)),
              (split p k).1,
            ))
            q h in
        (o.0, o.2, o.3)

    -- At a node, `core_rtl_list_insert_after` puts the new one behind it.
    pub insert_after_at :
        IsInserted s
          (xs ++ pos ∷ [])
          ys
          node
          v
          rest
          (insert_after pos (first (xs ++ pos ∷ ys) null) v s)
    insert_after_at =
        inserted (xs ++ pos ∷ []) ys pos (s.next pos) out_after after_apart after_pos (
          insert_after_via pos (first (xs ++ pos ∷ ys) null) _ (linked taken pos (s.next pos) node)
            (Insert.insert_node_after_at taken node g.ne node_live xs pos ys ring out _
              ∙ ap (λ h. some ((node, h), linked taken pos (s.next pos) node))
                  (first_after xs pos ys node))
            node_live)

  one :
      IsInserted s [] [] node v rest
        (some ((node, node), filled (Insert.alone taken node g.ne node_live)))
  one = record {
    after = filled (Insert.alone taken node g.ne node_live);
    returns = refl;
    list = record {
      ring = Splice.Ring-same _ _ _ rest (Insert.Ring-alone taken node g.ne node_live);
      starts = refl;
      holds = contents [] [] refl;
    };
    supply = refl;
    outside = record {
      live = λ q h. update_ne s.live node true q (Ring.ne_head [] node q h);
      prev = λ q h. update_ne s.prev node node q (Ring.ne_head [] node q h);
      next = λ q h. update_ne s.next node node q (Ring.ne_head [] node q h);
      item = λ q h. update_ne s.item node v q (Ring.ne_head [] node q h);
    };
  }

  -- With no position, `core_rtl_list_insert_before` puts the new node in front of the list.
  insert_before-front :
      (ps : List Ptr)
      → Ring s ps
      → IsInserted s [] ps node v rest (insert_before null (first ps null) v s)
  insert_before-front [] r =
      rw
        (insert_before_via null null node (Insert.alone taken node g.ne node_live)
          (Insert.insert_node_before_empty taken node g.ne node_live) node_live)
        one
  insert_before-front (p ∷ ps) r =
      inserted [] (p ∷ ps) (s.prev p) p (out [] p ps r) (before_apart [] p ps r)
        (before_pos [] p ps r)
        (insert_before_via null p node (linked taken (s.prev p) p node)
          (Insert.insert_node_before_front taken node g.ne node_live [] p ps (ring [] p ps r)
            (out [] p ps r))
          node_live)

  -- With no position, `core_rtl_list_insert_after` puts the new node at the end of the list.
  pub insert_after-back :
      (ps : List Ptr)
      → Ring s ps
      → IsInserted s ps [] node v rest (insert_after null (first ps null) v s)
  insert_after-back [] r =
      rw
        (insert_after_via null null node (Insert.alone taken node g.ne node_live)
          (Insert.insert_node_after_empty taken node g.ne node_live) node_live)
        one
  insert_after-back (p ∷ ps) r = inserted (p ∷ ps) [] (s.prev p) p out_back apart back (
      insert_after_via null p p (linked taken (s.prev p) p node)
        (Insert.insert_node_after_back taken node g.ne node_live [] p ps (ring [] p ps r)
          (out [] p ps r))
        node_live)
    where
      out_back : node ∉ (p ∷ ps) ++ []
      out_back = rw append-nil (out [] p ps r)

      back : Ring (linked taken (s.prev p) p node) (p ∷ ps ++ node ∷ [])
      back = rw (r.prevs.0) (
          Ring-insert taken (p ∷ ps) [] node (λ e. cc) (rw append-nil (ring [] p ps r)) g.ne
            node_live out_back)

      apart : (q : Ptr) → q ∉ (p ∷ ps) ++ node ∷ [] → (q ≢ s.prev p) × (q ≢ p) × (q ≢ node)
      apart q h =
          let o =
            outside_of taken [] p ps ((p ∷ ps) ++ node ∷ []) (ring [] p ps r)
              (Ring.not-has-middle (p ∷ ps) node []) q h in
          (o.1, o.0, o.3)
