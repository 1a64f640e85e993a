-- ===== src/LinkedList/Splice.antt =====
-- Linking a node into a ring, and unlinking one.
use sandnix.Prelude.{ℕ, ◌≡◌, ◌≢◌, refl, sym, ap₂, ◌∙◌, Bool, true, List, [], ◌∷◌, ◌++◌, map, arith}
use sandnix.Nodes.{Ptr, null, Store, update}
use sandnix.LinkedList.Ring
use sandnix.LinkedList.Ring.{
  Ring, first, last, has, ◌∉◌, Distinct, Nexts, Prevs, AllLive, update_ne, update_self,
}

-- `node` linked between `a` and `b`.
abbrev pub linked : Store → (a b node : Ptr) → Store
linked s a b node = record s {
  prev = update (update s.prev node a) b node;
  next = update (update s.next a node) node b;
}

-- Linking a node between the last and the first one of a ring.
pub Ring-linked :
    (s : Store) (b : Ptr) (ps : List Ptr) (node : Ptr)
    → Ring s (b ∷ ps)
    → node ≢ null
    → s.live node ≡ true
    → node ∉ b ∷ ps
    → Ring (linked s (last ps b) b node) (b ∷ ps ++ node ∷ [])
Ring-linked s b ps node r ne alive out = record {
  distinct = Ring.Distinct-snoc (b ∷ ps) node r.distinct out;
  live = Ring.AllLive-append s.live (b ∷ ps) (node ∷ []) r.live (ne, alive, tt);
  nexts =
      Ring.Nexts-append (update (update s.next (last ps b) node) node b) (b ∷ ps) (node ∷ []) b
        (Ring.Nexts-frame (update s.next (last ps b) node) (b ∷ ps) node node b out
          (Ring.Nexts-update s.next ps b b node r.distinct r.nexts))
        (update_self (update s.next (last ps b) node) node b, tt);
  prevs = (
    update_self (update s.prev node (last ps b)) b node ∙ sym (Ring.last-append ps (node ∷ []) b),
    Ring.Prevs-append (update (update s.prev node (last ps b)) b node) ps (node ∷ []) b
        (Ring.Prevs-frame (update s.prev node (last ps b)) ps b b node (r.distinct.0)
          (Ring.Prevs-frame s.prev ps b node (last ps b) (ground arith) (r.prevs.1)))
        (
          update_ne (update s.prev node (last ps b)) b node node (ground arith)
              ∙ update_self s.prev node (last ps b),
          tt,
        ),
  );
}

-- What is left when the node between `a` and `b` is unlinked.
abbrev pub unlinked : Store → (a b : Ptr) → Store
unlinked s a b = record s { prev = update s.prev b a; next = update s.next a b }

-- Unlinking the last node of a ring of two or more.
pub Ring-unlinked :
    (s : Store) (b : Ptr) (ps : List Ptr) (node : Ptr)
    → Ring s (b ∷ ps ++ node ∷ [])
    → Ring (unlinked s (last ps b) b) (b ∷ ps)
Ring-unlinked s b ps node r =
    let (d, out) = Ring.Distinct-init (b ∷ ps) node r.distinct in
    let (l, _) = Ring.AllLive-split s.live (b ∷ ps) (node ∷ []) r.live in
    let (n, _) = Ring.Nexts-split s.next (b ∷ ps) (node ∷ []) b r.nexts in
    let (m, _) = Ring.Prevs-split s.prev ps (node ∷ []) b (r.prevs.1) in
    record {
      distinct = d;
      live = l;
      nexts = Ring.Nexts-update s.next ps b node b d n;
      prevs =
          (update_self s.prev b (last ps b), Ring.Prevs-frame s.prev ps b b (last ps b) (d.0) m);
    }

-- The node in front of the first one, and the one behind the last.
pub prev-first : (s : Store) (b : Ptr) (ps : List Ptr) → Ring s (b ∷ ps) → s.prev b ≡ last ps b
prev-first s b ps r = r.prevs.0

pub next-last : (s : Store) (b : Ptr) (ps : List Ptr) → Ring s (b ∷ ps) → s.next (last ps b) ≡ b
next-last s b ps r = go ps b b (r.nexts)
  where
    go : (ps : List Ptr) (p stop : Ptr) → Nexts s.next (p ∷ ps) stop → s.next (last ps p) ≡ stop
    go [] p stop n = n.0
    go (q ∷ ps) p stop n = go ps q stop (n.1)

-- Freeing or allocating a node outside the ring changes nothing of it.
pub Ring-live :
    (s : Store) (ps : List Ptr) (p : Ptr) (b : Bool)
    → p ∉ ps
    → Ring s ps
    → Ring (record s { live = update s.live p b }) ps
Ring-live s ps p b out r = record {
  distinct = r.distinct;
  live = Ring.AllLive-frame s.live ps p b out r.live;
  nexts = r.nexts;
  prevs = r.prevs;
}

-- Neither does any change of the items or the supply.
pub Ring-same :
    (s : Store) (ps : List Ptr) (item : Ptr → ℕ) (supply : List Ptr)
    → Ring s ps
    → Ring (record s { item = item; supply = supply }) ps
Ring-same s ps item supply r = record {
  distinct = r.distinct;
  live = r.live;
  nexts = r.nexts;
  prevs = r.prevs;
}

pub map-update :
    (f : Ptr → ℕ) (ps : List Ptr) (p : Ptr) (v : ℕ) → p ∉ ps → map (update f p v) ps ≡ map f ps
map-update f [] p v out = refl
map-update f (q ∷ ps) p v out =
    ap₂ ◌∷◌ (update_ne f p v q (ground arith)) (map-update f ps p v (ground arith))

-- A node of a ring, between `xs` and `ys`: its neighbours.
module _ (s : Store) (xs : List Ptr) (pos : Ptr) (ys : List Ptr) (r : Ring s (xs ++ pos ∷ ys)) where
  pub Ring-from : Ring s (pos ∷ ys ++ xs)
  Ring-from = Ring.Ring-rotate s xs (pos ∷ ys) r

  pub prev_of : s.prev pos ≡ last xs (last ys pos)
  prev_of = Ring-from.prevs.0 ∙ Ring.last-append ys xs pos

  pub next_of : s.next pos ≡ first ys (first xs pos)
  next_of = Ring-from.nexts.0 ∙ Ring.first-append ys xs pos

  pub live_prev : s.live (s.prev pos) ≡ true
  live_prev = rw Ring-from.prevs.0 (Ring.AllLive-last s.live (ys ++ xs) pos Ring-from.live)

  pub live_pos : (pos ≢ null) × (s.live pos ≡ true)
  live_pos = (Ring-from.live.0, Ring-from.live.1)
