-- ===== src/Map/Remove/Set.antt =====
-- core_rtl_map_set as a whole, and what core_rtl_map_get finds afterwards.
use sandnix.Prelude.{
  ℕ, suc, ◌<◌, ◌≡◌, ◌≢◌, refl, sym, ap, ◌∙◌, subst, ◌==◌, some, List, ◌∷◌, arith, length,
  if◌then◌else◌, Bool-cases, inl, inr,
}
use sandnix.Nodes.{Ptr, null}
use sandnix.Map.{Map, get, get_node}
use sandnix.Map.Remove.{set, set_found, with_found, inserted}
use sandnix.Map.Tree.{Tree, entries, size, count}
use sandnix.Map.Lookup.{IsRanked, Misses, value_in, get-value_in}
use sandnix.Map.Insert.Found.{insert_node-IsInserted, length-entries}
use sandnix.Map.Insert.Sorted.{IsSearch-IsSorted}
use sandnix.Map.Insert.TurnGrand.{nonzero_test}
use sandnix.Map.Remove.Entries.{
  set_result, has_entry-Misses, remove_entry-Misses, put_entry-Misses, length-set_entry,
}
use sandnix.Map.Remove.Values.{value_in-set_entry}
use sandnix.Map.Remove.Locate.{Site, find_node-from_root}
use sandnix.Map.Remove.Update.{IsStored, Assigned, update-Assigned, remove-Assigned}

-- The heap has a node that is not in the tree.
pub record HasFresh (m : Map) (t : Tree) : Type 0 where
  pub node : Ptr
  pub rest : List Ptr
  pub supply_is : m.supply ≡ node ∷ rest
  pub not_null : node ≢ 0
  pub fresh : count node t ≡ 0

module _ (m : Map) (rank : ℕ → ℕ) (fuel key value : ℕ) where
  -- A call with the node that was found.
  abbrev Found : Tree → Ptr → Type 0
  Found t p =
      (m' : Map) × ((set_found fuel key value p m
          ≡ some (set_result rank key value (entries t), m'))
        × Assigned rank key value t m')

  missing_result : (es : List (ℕ × ℕ)) → Misses rank key es → set_result rank key value es ≡ value
  missing_result es d = rw (has_entry-Misses rank key es d) refl

  -- No key of the rank is there.
  missing-Assigned :
      (t : Tree)
      → IsStored m rank t
      → HasFresh m t
      → size t < fuel
      → Misses rank key (entries t)
      → Found t null
  unfolding set_found
  missing-Assigned t stored new lt absent = elim (Bool-cases (value == 0)) [
    | inl e ↦
        let z : 0 ≡ value = ground arith in
        (
          m,
          (
            rw e (ap (λ ret. some (ret, m)) (z ∙ sym (missing_result (entries t) absent))),
            record {
              tree = t;
              stored = stored;
              list = sym (rw e (remove_entry-Misses rank key (entries t) absent));
            },
          ),
        )
    | inr e ↦
        let done =
          insert_node-IsInserted m rank fuel key value new.node new.rest t stored.ranked
            new.supply_is new.not_null new.fresh stored.nodes stored.red_black stored.ordered absent
            lt in
        let m' = done.0 in
        let now = done.1.1 in
        let nn = nonzero_test new.node new.not_null in
        let returned : inserted value (some (new.node, m')) ≡ some (value, m') = rw nn refl in
        (
          m',
          (
            rw e (
                ap (inserted value) (done.1.0)
                ∙ returned
                ∙ ap (λ ret. some (ret, m')) (sym (missing_result (entries t) absent))),
            record {
              tree = now.tree;
              stored = record {
                nodes = now.nodes;
                red_black = now.red_black;
                ordered = now.ordered;
                ranked = subst (λ f. IsRanked f rank) (sym now.compare) stored.ranked;
              };
              list = now.list ∙ sym (rw e (put_entry-Misses rank key value (entries t) absent));
            },
          ),
        )
  ]

  -- The node of the key stands somewhere in the tree.
  Site-Assigned :
      (t : Tree) (p : Ptr) → IsStored m rank t → size t < fuel → Site rank key t p → Found t p
  Site-Assigned t p stored lt s =
      subst (λ t. IsStored m rank t → size t < fuel → Found t p) (sym s.shape)
        (λ stored lt. elim (Bool-cases (value == 0)) [
          | inl e ↦
              remove-Assigned m rank fuel key value s.frames s.inner p s.color s.key_there
                s.value_there s.outer stored s.same e lt
          | inr e ↦
              update-Assigned m rank fuel key value s.frames s.inner p s.color s.key_there
                s.value_there s.outer stored s.same e
        ])
        stored lt

-- On a red-black search tree in the order of a rank, with a node from the heap that is not in the
-- tree, and with fuel for the nodes: core_rtl_map_set returns. It returns the value that the key
-- had, or the new value where it had none; the map is again such a tree, and its entries in their
-- order are the former ones, without the key if the value is NULL, otherwise with the value in
-- place of the old one or with the key and the value entered where they belong.
pub set_refines :
    (m : Map) (rank : ℕ → ℕ) (fuel key value : ℕ) (t : Tree)
    → IsStored m rank t
    → HasFresh m t
    → size t < fuel
    → (m' : Map) × ((set fuel key value m ≡ some (set_result rank key value (entries t), m'))
        × Assigned rank key value t m')
unfolding set get_node
set_refines m rank fuel key value t stored new lt =
    elim (find_node-from_root m rank fuel key t stored.ranked stored.nodes stored.ordered lt) [
      | inl d ↦
          let last = missing-Assigned m rank fuel key value t stored new lt (d.1) in
          (last.0, (ap (with_found fuel key value m) (d.0) ∙ last.1.0, last.1.1))
      | inr s ↦
          let last = Site-Assigned m rank fuel key value t (s.0) stored lt (s.1.1) in
          (last.0, (ap (with_found fuel key value m) (s.1.0) ∙ last.1.0, last.1.1))
    ]

-- On such a tree, and with fuel for one node more, core_rtl_map_get finds the new value for a key
-- of the same rank after core_rtl_map_set, so nothing where the value is NULL, and for every
-- other key what it found before.
pub get-set :
    (m : Map) (rank : ℕ → ℕ) (fuel key value : ℕ) (t : Tree)
    → IsStored m rank t
    → HasFresh m t
    → suc (size t) < fuel
    → (ret : ℕ) × ((m' : Map) × ((set fuel key value m ≡ some (ret, m'))
          × ((key' : ℕ)
              → get fuel key' m'
                ≡ (if rank key == rank key' then some value else get fuel key' m))))
get-set m rank fuel key value t stored new lt =
    let done = set_refines m rank fuel key value t stored new (omega arith) in
    let now = done.1.1 in
    let room : size now.tree < fuel =
      let e = length-entries now.tree in
      let f = ap length now.list in
      let g = length-entries t in
      let h = length-set_entry rank key value (entries t) in omega arith in
    (
      set_result rank key value (entries t),
      (
        done.0,
        (
          done.1.0,
          λ key'.
              get-value_in (done.0) rank fuel key' now.tree now.stored.ranked now.stored.nodes.root
                now.stored.nodes.below now.stored.ordered room
              ∙ ap some (
                  ap (value_in rank key') now.list
                  ∙ value_in-set_entry rank key key' value (entries t)
                      (IsSearch-IsSorted rank t stored.ordered))
              ∙ over key' (
                  sym (
                    get-value_in m rank fuel key' t stored.ranked stored.nodes.root
                      stored.nodes.below stored.ordered (omega arith))),
        ),
      ),
    )
  where
    over :
        (key' : ℕ)
        → some (value_in rank key' (entries t)) ≡ get fuel key' m
        → some (if rank key == rank key' then value else value_in rank key' (entries t))
          ≡ (if rank key == rank key' then some value else get fuel key' m)
    over key' e = elim (Bool-cases (rank key == rank key')) [ inl h ↦ rw h refl | inr h ↦ rw h e ]
