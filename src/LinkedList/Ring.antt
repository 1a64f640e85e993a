-- ===== src/LinkedList/Ring.antt =====
-- What a list in memory is: the nodes of a ring, in order from the one that `*p_list` points to.
use mathlib.Core.List.{append-nil, append_assoc}
use sandnix.Prelude.{
  fun_ext, Bool-cases, inl, inr, ℕ, ◌≡◌, ◌≢◌, refl, sym, ◌∙◌, Bool, true, false, List, [], ◌∷◌,
  ◌++◌, map, arith, ◌==◌, ◌||◌,
}
use sandnix.Nodes.{Ptr, null, Store, update}

abbrev pub first : List Ptr → Ptr → Ptr
first [] d = d
first (p ∷ ps) d = p

abbrev pub last : List Ptr → Ptr → Ptr
last [] d = d
last (p ∷ ps) d = last ps p

abbrev pub has : Ptr → List Ptr → Bool
has a [] = false
has a (p ∷ ps) = (a == p) || has a ps

infix 40 ◌∉◌
abbrev pub ◌∉◌ : Ptr → List Ptr → Type 0
a ∉ ps = has a ps ≡ false

abbrev pub Distinct : List Ptr → Type 0
Distinct [] = Unit {0}
Distinct (p ∷ ps) = (p ∉ ps) × Distinct ps

-- The `p_next` pointers lead through `ps` to `stop`.
abbrev pub Nexts : (Ptr → Ptr) → List Ptr → Ptr → Type 0
Nexts next [] stop = Unit {0}
Nexts next (p ∷ ps) stop = (next p ≡ first ps stop) × Nexts next ps stop

-- The `p_prev` pointers lead back through `ps` to `before`.
abbrev pub Prevs : (Ptr → Ptr) → Ptr → List Ptr → Type 0
Prevs prev before [] = Unit {0}
Prevs prev before (p ∷ ps) = (prev p ≡ before) × Prevs prev p ps

abbrev pub AllLive : (Ptr → Bool) → List Ptr → Type 0
AllLive live [] = Unit {0}
AllLive live (p ∷ ps) = (p ≢ null) × (live p ≡ true) × AllLive live ps

pub record Ring (s : Store) (ps : List Ptr) : Type 0 where
  pub distinct : Distinct ps
  pub live : AllLive s.live ps
  pub nexts : Nexts s.next ps (first ps null)
  pub prevs : Prevs s.prev (last ps null) ps

-- `head` is the value of `*p_list`, `ps` the nodes and `items` what they hold.
pub record IsList (s : Store) (head : Ptr) (ps : List Ptr) (items : List ℕ) : Type 0 where
  pub ring : Ring s ps
  pub starts : head ≡ first ps null
  pub holds : map s.item ps ≡ items

pub first-append : (ps qs : List Ptr) (d : Ptr) → first (ps ++ qs) d ≡ first ps (first qs d)
first-append [] qs d = refl
first-append (p ∷ ps) qs d = refl

pub last-append : (ps qs : List Ptr) (d : Ptr) → last (ps ++ qs) d ≡ last qs (last ps d)
last-append [] qs d = refl
last-append (p ∷ ps) qs d = last-append ps qs p

pub has-append : (a : Ptr) (ps qs : List Ptr) → has a (ps ++ qs) ≡ (has a ps || has a qs)
has-append a [] qs = refl
has-append a (p ∷ ps) qs = ground (arith, has-append a ps qs)

pub update_swap {ℓ} :
    {A : Type ℓ} (f : Ptr → A) (p q : Ptr) (v w : A)
    → p ≢ q
    → update (update f p v) q w ≡ update (update f q w) p v
update_swap f p q v w ne = fun_ext λ r. ground arith

pub ne-last : (ps : List Ptr) (p a : Ptr) → a ∉ p ∷ ps → a ≢ last ps p
ne-last [] p a out = ground arith
ne-last (q ∷ ps) p a out = ne-last ps q a (ground arith)

pub update_ne {ℓ} :
    {A : Type ℓ} (f : Ptr → A) (p : Ptr) (v : A) (q : Ptr) → q ≢ p → update f p v q ≡ f q
update_ne f p v q ne = let other : (q == p) ≡ false = ground arith in rw other

pub update_self {ℓ} : {A : Type ℓ} (f : Ptr → A) (p : Ptr) (v : A) → update f p v p ≡ v
update_self f p v = let same : (p == p) ≡ true = ground arith in rw same

pub ne-last_of_ne_nil : (ps : List Ptr) (a : Ptr) → ps ≢ [] → a ∉ ps → a ≢ last ps a
ne-last_of_ne_nil [] a some_node out = absurd (some_node refl)
ne-last_of_ne_nil (p ∷ ps) a some_node out = ne-last ps p a out

pub ne_head : (ps : List Ptr) (p a : Ptr) → a ∉ p ∷ ps → a ≢ p
ne_head ps p a out = ground arith

pub ne-first : (ps : List Ptr) (p a : Ptr) → a ∉ p ∷ ps → a ≢ first ps p
ne-first [] p a out = ground arith
ne-first (q ∷ ps) p a out = ground arith

pub Distinct-snoc : (ps : List Ptr) (p : Ptr) → Distinct ps → p ∉ ps → Distinct (ps ++ p ∷ [])
Distinct-snoc [] p d out = (refl, tt)
Distinct-snoc (q ∷ ps) p d out =
    (rw has-append (ground (arith, d.0)), Distinct-snoc ps p (d.1) (ground arith))

pub Distinct-init : (ps : List Ptr) (p : Ptr) → Distinct (ps ++ p ∷ []) → Distinct ps × (p ∉ ps)
Distinct-init [] p d = (tt, refl)
Distinct-init (q ∷ ps) p d =
    let (e, out) = Distinct-init ps p (d.1) in
    let q_out : (has q ps || has q (p ∷ [])) ≡ false = rw has-append at (d.0) in
    ((ground arith, e), ground arith)

module _ (live : Ptr → Bool) where
  pub AllLive-append :
      (ps qs : List Ptr) → AllLive live ps → AllLive live qs → AllLive live (ps ++ qs)
  AllLive-append [] qs l m = m
  AllLive-append (p ∷ ps) qs l m = (l.0, l.1, AllLive-append ps qs (l.2) m)

  pub AllLive-split :
      (ps qs : List Ptr) → AllLive live (ps ++ qs) → AllLive live ps × AllLive live qs
  AllLive-split [] qs l = (tt, l)
  AllLive-split (p ∷ ps) qs l = let (m, n) = AllLive-split ps qs (l.2) in ((l.0, l.1, m), n)

  pub AllLive-last : (ps : List Ptr) (p : Ptr) → AllLive live (p ∷ ps) → live (last ps p) ≡ true
  AllLive-last [] p l = l.1
  AllLive-last (q ∷ ps) p l = AllLive-last ps q (l.2)

  pub AllLive-first : (ps : List Ptr) (p : Ptr) → AllLive live (p ∷ ps) → live (first ps p) ≡ true
  AllLive-first [] p l = l.1
  AllLive-first (q ∷ ps) p l = l.2.1

  pub AllLive-frame :
      (ps : List Ptr) (q : Ptr) (b : Bool) → q ∉ ps → AllLive live ps → AllLive (update live q b) ps
  AllLive-frame [] q b out l = tt
  AllLive-frame (p ∷ ps) q b out l =
      (l.0, ground (arith, l.1), AllLive-frame ps q b (ground arith) (l.2))

  pub not-has_of_dead : (ps : List Ptr) (q : Ptr) → live q ≡ false → AllLive live ps → q ∉ ps
  not-has_of_dead [] q dead l = refl
  not-has_of_dead (p ∷ ps) q dead l = elim (Bool-cases (q == p)) [
    | inl same ↦ absurd (ground (arith, l.1))
    | inr other ↦ rw other (not-has_of_dead ps q dead (l.2))
  ]

pub not-has-swap : (a : Ptr) (ps qs : List Ptr) → a ∉ ps ++ qs → a ∉ qs ++ ps
not-has-swap a ps qs out =
    let split : (has a ps || has a qs) ≡ false = rw has-append at out in
    rw has-append (ground arith)

pub append-ne-nil : (ps : List Ptr) (p : Ptr) (qs : List Ptr) → ps ++ p ∷ qs ≢ []
append-ne-nil [] p qs e = cc
append-ne-nil (r ∷ ps) p qs e = cc

pub not-has-middle :
    (ps : List Ptr) (p : Ptr) (qs : List Ptr) (a : Ptr)
    → a ∉ ps ++ p ∷ qs
    → (a ∉ ps ++ qs) × (a ≢ p)
not-has-middle [] p qs a out = (ground arith, ground arith)
not-has-middle (r ∷ ps) p qs a out =
    let (o, ne) = not-has-middle ps p qs a (ground arith) in (ground arith, ne)

pub swap-nil : (ps qs : List Ptr) → ps ++ qs ≡ [] → qs ++ ps ≡ []
swap-nil [] qs e = append-nil qs ∙ e
swap-nil (p ∷ ps) qs e = absurd (cc)

pub swap-ne-nil : (ps qs : List Ptr) → ps ++ qs ≢ [] → qs ++ ps ≢ []
swap-ne-nil [] [] ne = ne
swap-ne-nil [] (q ∷ qs) ne = λ e. cc
swap-ne-nil (p ∷ ps) qs ne = append-ne-nil qs p ps

module _ (next : Ptr → Ptr) where
  pub Nexts-append :
      (ps qs : List Ptr) (stop : Ptr)
      → Nexts next ps (first qs stop)
      → Nexts next qs stop
      → Nexts next (ps ++ qs) stop
  Nexts-append [] qs stop n m = m
  Nexts-append (p ∷ ps) qs stop n m =
      (n.0 ∙ sym (first-append ps qs stop), Nexts-append ps qs stop (n.1) m)

  pub Nexts-split :
      (ps qs : List Ptr) (stop : Ptr)
      → Nexts next (ps ++ qs) stop
      → Nexts next ps (first qs stop) × Nexts next qs stop
  Nexts-split [] qs stop n = (tt, n)
  Nexts-split (p ∷ ps) qs stop n =
      let (l, r) = Nexts-split ps qs stop (n.1) in ((n.0 ∙ first-append ps qs stop, l), r)

  -- A write to the last node's `p_next`.
  pub Nexts-update :
      (ps : List Ptr) (p stop stop' : Ptr)
      → Distinct (p ∷ ps)
      → Nexts next (p ∷ ps) stop
      → Nexts (update next (last ps p) stop') (p ∷ ps) stop'
  Nexts-update [] p stop stop' d n = (ground arith, tt)
  Nexts-update (q ∷ ps) p stop stop' d n = (
    update_ne next (last ps q) stop' p (ne-last ps q p (d.0)) ∙ n.0,
    Nexts-update ps q stop stop' (d.1) (n.1),
  )

  -- A write elsewhere.
  pub Nexts-frame :
      (ps : List Ptr) (stop q v : Ptr)
      → q ∉ ps
      → Nexts next ps stop
      → Nexts (update next q v) ps stop
  Nexts-frame [] stop q v out n = tt
  Nexts-frame (p ∷ ps) stop q v out n =
      (ground (arith, n.0), Nexts-frame ps stop q v (ground arith) (n.1))

module _ (prev : Ptr → Ptr) where
  pub Prevs-append :
      (ps qs : List Ptr) (before : Ptr)
      → Prevs prev before ps
      → Prevs prev (last ps before) qs
      → Prevs prev before (ps ++ qs)
  Prevs-append [] qs before n m = m
  Prevs-append (p ∷ ps) qs before n m = (n.0, Prevs-append ps qs p (n.1) m)

  pub Prevs-split :
      (ps qs : List Ptr) (before : Ptr)
      → Prevs prev before (ps ++ qs)
      → Prevs prev before ps × Prevs prev (last ps before) qs
  Prevs-split [] qs before n = (tt, n)
  Prevs-split (p ∷ ps) qs before n = let (l, r) = Prevs-split ps qs p (n.1) in ((n.0, l), r)

  pub Prevs-frame :
      (ps : List Ptr) (before q v : Ptr)
      → q ∉ ps
      → Prevs prev before ps
      → Prevs (update prev q v) before ps
  Prevs-frame [] before q v out n = tt
  Prevs-frame (p ∷ ps) before q v out n =
      (ground (arith, n.0), Prevs-frame ps p q v (ground arith) (n.1))

-- A ring may be read from its second node on.
pub Ring-turn : (s : Store) (p : Ptr) (ps : List Ptr) → Ring s (p ∷ ps) → Ring s (ps ++ p ∷ [])
Ring-turn s p ps r = record {
  distinct = Distinct-snoc ps p (r.distinct.1) (r.distinct.0);
  live = AllLive-append s.live ps (p ∷ []) (r.live.2) (r.live.0, r.live.1, tt);
  nexts =
      rw first-append (Nexts-append s.next ps (p ∷ []) (first ps p) (r.nexts.1) (r.nexts.0, tt));
  prevs = rw last-append (Prevs-append s.prev ps (p ∷ []) p (r.prevs.1) (r.prevs.0, tt));
}

-- A ring may be read from any node on.
pub Ring-rotate : (s : Store) (ps qs : List Ptr) → Ring s (ps ++ qs) → Ring s (qs ++ ps)
Ring-rotate s [] qs r = rw append-nil r
Ring-rotate s (p ∷ ps) qs r =
    let turned : Ring s (ps ++ (qs ++ p ∷ [])) = rw append_assoc at (Ring-turn s p (ps ++ qs) r) in
    rw append_assoc at (Ring-rotate s ps (qs ++ p ∷ []) turned)
