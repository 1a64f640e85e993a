-- ===== src/LinkedList/Insert.antt =====
-- `core_rtl_list_insert_node_before` and `core_rtl_list_insert_node_after`: the stores that they
-- leave, and the rings in these.
use mathlib.Core.List.{append-nil, append_assoc}
use sandnix.Prelude.{
  ◌≡◌, ◌≢◌, refl, ap, true, false, some, List, [], ◌∷◌, ◌++◌, arith, ◌==◌, if◌then◌else◌,
}
use sandnix.Nodes.{Ptr, null, Store, update}
use sandnix.LinkedList.{link_first, link_before, link_after, insert_node_before, insert_node_after}
use sandnix.LinkedList.Ring
use sandnix.LinkedList.Ring.{
  Ring, first, last, has, ◌∉◌, Distinct, Nexts, Prevs, AllLive, update_swap, update_self,
}
use sandnix.LinkedList.Splice
use sandnix.LinkedList.Splice.{linked}

-- A node between `xs` and `ys`, linked to the neighbours that it gets there.
pub Ring-insert :
    (s : Store) (xs ys : List Ptr) (node : Ptr)
    → xs ++ ys ≢ []
    → Ring s (xs ++ ys)
    → node ≢ null
    → s.live node ≡ true
    → node ∉ xs ++ ys
    → Ring (linked s (last xs (last ys null)) (first ys (first xs null)) node) (xs ++ node ∷ ys)
Ring-insert s [] [] node some_node r ne alive out = absurd (some_node refl)
Ring-insert s (b ∷ xs) [] node some_node r ne alive out =
    Splice.Ring-linked s b xs node (rw append-nil at r) ne alive (rw append-nil at out)
Ring-insert s xs (b ∷ ys) node some_node r ne alive out =
    let from : Ring s (b ∷ ys ++ xs) = Ring.Ring-rotate s xs (b ∷ ys) r in
    let out' = Ring.not-has-swap node xs (b ∷ ys) out in
    let put : Ring (linked s (last xs (last ys b)) b node) ((b ∷ ys ++ xs) ++ node ∷ []) =
      rw Ring.last-append at (Splice.Ring-linked s b (ys ++ xs) node from ne alive out') in
    let placed : Ring (linked s (last xs (last ys b)) b node) ((b ∷ ys) ++ (xs ++ node ∷ [])) =
      rw append_assoc at put in
    rw append_assoc at (Ring.Ring-rotate _ (b ∷ ys) (xs ++ node ∷ []) placed)

-- The four writes of `link_before`.
module _ (s : Store) (pos node : Ptr) (pos_live : s.live pos ≡ true)
    (node_live : s.live node ≡ true) (prev_live : s.live (s.prev pos) ≡ true)
    (ne : node ≢ pos) where
  link_before_lem : link_before pos node s ≡ some (tt, linked s (s.prev pos) pos node)
  unfolding link_before
  link_before_lem =
      let other : (pos == node) ≡ false = ground arith in
      simp (pos_live, node_live, other, prev_live)

  link_after_lem :
      s.live (s.next pos) ≡ true
      → node ≢ s.next pos
      → link_after pos node s ≡ some (tt, linked s pos (s.next pos) node)
  unfolding link_after
  link_after_lem next_live apart =
      let self : (node == node) ≡ true = ground arith in
      let other : (node == pos) ≡ false = ground arith in
      simp (node_live, pos_live, self, other, next_live)
        (ap
          (λ next. some (
            tt,
            record s { prev = update (update s.prev node pos) (s.next pos) node; next = next },
          ))
          (update_swap s.next node pos (s.next pos) node ne))

-- Where and how the four cases of an insertion link the node.
module _ (s : Store) (node : Ptr) (ne : node ≢ null) (alive : s.live node ≡ true) where
  -- On an empty list both functions make a ring of one node.
  abbrev pub alone : Store
  alone = record s { prev = update s.prev node node; next = update s.next node node }

  pub Ring-alone : Ring alone (node ∷ [])
  Ring-alone = record {
    distinct = (refl, tt);
    live = (ne, alive, tt);
    nexts = (update_self s.next node node, tt);
    prevs = (update_self s.prev node node, tt);
  }

  pub insert_node_before_empty : insert_node_before null null node s ≡ some ((node, node), alone)
  unfolding insert_node_before link_first
  insert_node_before_empty = simp alive

  pub insert_node_after_empty : insert_node_after null null node s ≡ some ((node, node), alone)
  unfolding insert_node_after link_first
  insert_node_after_empty = simp alive

  module _ (xs : List Ptr) (pos : Ptr) (ys : List Ptr) (r : Ring s (xs ++ pos ∷ ys))
      (out : node ∉ xs ++ pos ∷ ys) where
    ring : Ring s (pos ∷ ys ++ xs)
    ring = Splice.Ring-from s xs pos ys r

    apart : node ∉ pos ∷ ys ++ xs
    apart = Ring.not-has-swap node xs (pos ∷ ys) out

    ne_pos : node ≢ pos
    ne_pos = ground (arith, apart)

    present : (s.live pos ≡ true) × ((pos == null) ≡ false)
    present = (ring.live.1, let ne' = ring.live.0 in ground arith)

    write_before : link_before pos node s ≡ some (tt, linked s (s.prev pos) pos node)
    write_before =
        link_before_lem s pos node (present.0) alive (Splice.live_prev s xs pos ys r) ne_pos

    pub insert_node_before_at :
        (head : Ptr)
        → insert_node_before pos head node s
          ≡ some ((node, if pos == head then node else head), linked s (s.prev pos) pos node)
    unfolding insert_node_before
    insert_node_before_at head = rw (present.1) (rw write_before)

    pub insert_node_after_at :
        (head : Ptr)
        → insert_node_after pos head node s ≡ some ((node, head), linked s pos (s.next pos) node)
    unfolding insert_node_after
    insert_node_after_at head =
        let live_next : s.live (s.next pos) ≡ true =
          rw ring.nexts.0 (Ring.AllLive-first s.live (ys ++ xs) pos ring.live) in
        let ne_next : node ≢ s.next pos =
          rw ring.nexts.0 (Ring.ne-first (ys ++ xs) pos node apart) in
        let write =
          link_after_lem s pos node (present.0) alive (Splice.live_prev s xs pos ys r) ne_pos
            live_next ne_next in
        rw (present.1) (rw write)

    -- With no position, both functions link the node in front of the first one.
    pub insert_node_before_front :
        insert_node_before null pos node s ≡ some ((node, node), linked s (s.prev pos) pos node)
    unfolding insert_node_before
    insert_node_before_front = rw (present.1) (rw write_before)

    pub insert_node_after_back :
        insert_node_after null pos node s ≡ some ((node, pos), linked s (s.prev pos) pos node)
    unfolding insert_node_after
    insert_node_after_back = rw (present.1) (rw write_before)
