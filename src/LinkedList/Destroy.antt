-- ===== src/LinkedList/Destroy.antt =====
-- `core_rtl_list_destroy` hands every item to the destroyer and frees every node.
use sandnix.Prelude.{
  ℕ, zero, suc, ◌≤◌, ◌≡◌, refl, sym, ◌∙◌, Bool, true, false, some, Option, List, [], ◌∷◌, map,
  arith, ◌==◌, length, if◌then◌else◌,
}
use sandnix.Nodes.{Ptr, null, Store, update}
use sandnix.LinkedList.{destroy_loop, destroy}
use sandnix.LinkedList.Ring
use sandnix.LinkedList.Ring.{Ring, IsList, first, has, ◌∉◌, Distinct, Nexts, AllLive}

-- Which pointers are nodes once those of a list are freed.
abbrev pub without : List Ptr → (Ptr → Bool) → Ptr → Bool
without ps live q = if has q ps then false else live q

abbrev killed : List Ptr → (Ptr → Bool) → Ptr → Bool
killed [] live = live
killed (p ∷ ps) live = killed ps (update live p false)

killed_lem : (ps : List Ptr) (live : Ptr → Bool) (q : Ptr) → killed ps live q ≡ without ps live q
killed_lem [] live q = refl
killed_lem (p ∷ ps) live q = killed_lem ps (update live p false) q ∙ ground arith

destroy_loop_lem :
    (fuel : ℕ) (head p : Ptr) (ps : List Ptr) (s : Store)
    → Distinct (p ∷ ps)
    → AllLive s.live (p ∷ ps)
    → Nexts s.next (p ∷ ps) head
    → head ∉ ps
    → length (p ∷ ps) ≤ fuel
    → destroy_loop fuel head p s
      ≡ some (map s.item (p ∷ ps), record s { live = killed (p ∷ ps) s.live })
unfolding destroy_loop
destroy_loop_lem zero head p ps s d l n out le = absurd (ground arith)
destroy_loop_lem (suc fuel) head p [] s d l n out le =
    let same : (s.next p == head) ≡ true = ground arith in rw (l.1) (rw (l.1) (rw (l.1) (rw same)))
destroy_loop_lem (suc fuel) head p (q ∷ ps) s d l n out le =
    let ne = Ring.ne_head ps q head out in
    let more : (s.next p == head) ≡ false = ground arith in
    let t : Store = record s { live = update s.live p false } in
    let later : destroy_loop fuel head q t
        ≡ some (map s.item (q ∷ ps), record s { live = killed (q ∷ ps) t.live }) =
      destroy_loop_lem fuel head q ps t (d.1)
        (Ring.AllLive-frame s.live (q ∷ ps) p false (d.0) (l.2)) (n.1) (ground arith)
        (ground arith) in
    rw (l.1) (rw (l.1) (rw (l.1) (rw more (rw (n.0) (rw later refl)))))

-- `r` handed out `items` in order, left an empty list, and freed the nodes `ps` and no other.
pub record IsDestroyed (s : Store) (ps : List Ptr) (items : List ℕ)
    (r : Option ((List ℕ × Ptr) × Store)) : Type 0 where
  pub live : Ptr → Bool
  pub returns : r ≡ some ((items, null), record s { live = live })
  pub freed : (q : Ptr) → live q ≡ without ps s.live q

-- On fuel for its nodes, `core_rtl_list_destroy` hands the items of a list to the destroyer in
-- their order, frees every node once and nothing else, and leaves the empty list.
pub destroy-IsDestroyed :
    (fuel : ℕ) (head : Ptr) (ps : List Ptr) (items : List ℕ) (s : Store)
    → IsList s head ps items
    → length ps ≤ fuel
    → IsDestroyed s ps items (destroy fuel head s)
unfolding destroy
destroy-IsDestroyed fuel head [] items s l le =
    let none_left : items ≡ [] = sym l.holds in
    record { live = s.live; returns = rw l.starts (rw none_left refl); freed = λ q. refl }
destroy-IsDestroyed fuel head (p ∷ ps) items s l le =
    let r = l.ring in
    let ne = r.live.0 in
    let some_list : (p == null) ≡ false = ground arith in
    record {
      live = killed (p ∷ ps) s.live;
      returns = rw l.starts (
          rw some_list (
            rw (destroy_loop_lem fuel p p ps s r.distinct r.live r.nexts (r.distinct.0) le)
              (rw (l.holds) refl)));
      freed = killed_lem (p ∷ ps) s.live;
    }
