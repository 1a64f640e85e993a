-- ===== src/SpinLock/Queue.antt =====
-- The lock is a queue of threads, of which the first may hold it.
use sandnix.Prelude.{
  ℕ, suc, ◌+◌, ◌^◌, ◌<◌, ◌≤◌, ◌≡◌, ◌≢◌, refl, sym, ap, ◌∙◌, ◌⊎◌, inl, inr, true, false, ◌||◌, ◌==◌,
  List, [], ◌∷◌, ◌++◌, length, arith, Bool-cases, subst,
}
use sandnix.LinkedList.Ring
use sandnix.LinkedList.Ring.{has, ◌∉◌, Distinct}
use sandnix.SpinLock.{Lock, u16}
use sandnix.SpinLock.Stage.{
  Stage, outside, waiting, holding, Effect, silent, queues, enters, leaves,
}
use sandnix.SpinLock.Line.{
  Line, Served, Agree, Line-frame, Served-frame, Served-snoc, Line-Served, Line-at, AllBelow,
  length-le,
}

-- The threads `ws` wait in this order; `served` counts how often the lock was given up.
pub record IsQueue (n : ℕ) (m : Lock) (f : ℕ → Stage) (ws : List ℕ) : Type 0 where
  pub served : ℕ
  pub owner_eq : m.owner ≡ u16 served
  pub ticket_eq : m.ticket ≡ u16 (served + length ws)
  pub line : Served f served ws
  pub distinct : Distinct ws
  pub below : AllBelow n ws
  pub others : (i : ℕ) → i ∉ ws → f i ≡ outside

-- A thread joins at the end, or the first one leaves.
pub data Turn (i : ℕ) (ws : List ℕ) : List ℕ → Type 0 where
  stays : Turn i ws ws
  joins : Turn i ws (ws ++ i ∷ [])
  goes : {rest : List ℕ} → ws ≡ i ∷ rest → Turn i ws rest

AllBelow-snoc : (n i : ℕ) (ws : List ℕ) → AllBelow n ws → i < n → AllBelow n (ws ++ i ∷ [])
AllBelow-snoc n i [] b h = (h, tt)
AllBelow-snoc n i (j ∷ js) b h = (b.0, AllBelow-snoc n i js (b.1) h)

length-snoc : (i : ℕ) (ws : List ℕ) → length (ws ++ i ∷ []) ≡ suc (length ws)
length-snoc i [] = refl
length-snoc i (j ∷ js) = ap suc (length-snoc i js)

waiting_inj : {a b : ℕ} → waiting a ≡ waiting b → a ≡ b
waiting_inj e = cc

-- The threads of the line are not outside.
inside :
    (f : ℕ → Stage) (served : ℕ) (ws : List ℕ) (i : ℕ) → Served f served ws → f i ≡ outside → i ∉ ws
inside f served ws i l out = elim (Bool-cases (has i ws)) [
  | inl h ↦ absurd (contra ws l h)
  | inr h ↦ h
]
  where
    contra : (ws : List ℕ) → Served f served ws → has i ws ≡ true → ⊥
    contra [] l h = cc
    contra (j ∷ js) (at, l) h = elim (Bool-cases (i == j)) [
      | inl e ↦
          let same : i ≡ j = ground arith in
          elim at [ inl w ↦ cc (same, w, out) | inr w ↦ cc (same, w, out) ]
      | inr e ↦ let (k, lt, at') = Line-at f (served + 1) js i l (ground arith) in cc (at', out)
    ]

-- Who has the ticket that is served, or the lock, is the first.
pub first_is :
    (n : ℕ) (m : Lock) (f : ℕ → Stage) (ws : List ℕ) (q : IsQueue n m f ws) (i : ℕ)
    → n ≤ 2 ^ 16
    → (f i ≡ waiting m.owner) ⊎ (f i ≡ holding)
    → (rest : List ℕ) × (ws ≡ i ∷ rest)
first_is n m f ws q i few w = go ws refl
  where
    room : length ws ≤ 2 ^ 16
    room = omega (arith, length-le n ws q.below q.distinct)

    tail : (js : List ℕ) → Line f (q.served + 1) js → length js < 2 ^ 16 → has i js ≡ true → ⊥
    tail js l short h =
        let (k, lt, at) = Line-at f (q.served + 1) js i l h in
        elim w [
          | inl e ↦
              let same : m.owner ≡ u16 (q.served + 1 + k) = waiting_inj (sym e ∙ at) in
              omega (arith, q.owner_eq)
          | inr e ↦ cc (at, e)
        ]

    go : (vs : List ℕ) → ws ≡ vs → (rest : List ℕ) × (ws ≡ i ∷ rest)
    go [] e =
        let out = q.others i (rw e refl) in
        elim w [ inl v ↦ absurd (cc (out, v)) | inr v ↦ absurd (cc (out, v)) ]
    go (j ∷ js) e = elim (Bool-cases (i == j)) [
      | inl same ↦ let eq : i ≡ j = ground arith in (js, rw eq e)
      | inr other ↦
          let l : Served f q.served (j ∷ js) = subst (Served f q.served) e q.line in
          let short : length js < 2 ^ 16 =
            let r : length (j ∷ js) ≤ 2 ^ 16 = rw e at room in omega arith in
          elim (Bool-cases (has i js)) [
            | inl h ↦ absurd (tail js (l.1) short h)
            | inr h ↦
                let out = q.others i (rw e (rw other h)) in
                elim w [ inl v ↦ absurd (cc (out, v)) | inr v ↦ absurd (cc (out, v)) ]
          ]
    ]

-- A move of thread `i`, where `f` and `g` are the stages before and after.
module _ (n : ℕ) {m : Lock} (m' : Lock) {f g : ℕ → Stage} {b : Stage} (ws : List ℕ)
    (q : IsQueue n m f ws) (i : ℕ) (here : g i ≡ b)
    (there : (j : ℕ) → (j == i) ≡ false → g j ≡ f j) where
  same_stages : b ≡ f i → (j : ℕ) → g j ≡ f j
  same_stages e j = elim (Bool-cases (j == i)) [
    | inl eq ↦ let same : j ≡ i = ground arith in rw same (here ∙ e)
    | inr ne ↦ there j ne
  ]

  agrees : (js : List ℕ) → i ∉ js → Agree f g js
  agrees js out j h = there j (ground (arith, ne-of_has js j out h))
    where
      ne-of_has : (js : List ℕ) (j : ℕ) → i ∉ js → has j js ≡ true → j ≢ i
      ne-of_has js j out h e = cc

  silent-IsQueue : m'.ticket ≡ m.ticket → m'.owner ≡ m.owner → b ≡ f i → IsQueue n m' g ws
  silent-IsQueue et eo e = record {
    served = q.served;
    owner_eq = eo ∙ q.owner_eq;
    ticket_eq = et ∙ q.ticket_eq;
    line = Served-frame q.served ws (λ j h. same_stages e j) q.line;
    distinct = q.distinct;
    below = q.below;
    others = λ j out. same_stages e j ∙ q.others j out;
  }

  queues-IsQueue :
      i < n
      → m'.ticket ≡ u16 (m.ticket + 1)
      → m'.owner ≡ m.owner
      → f i ≡ outside
      → b ≡ waiting m.ticket
      → IsQueue n m' g (ws ++ i ∷ [])
  queues-IsQueue lt et eo out w =
      let away = inside f q.served ws i q.line out in
      record {
        served = q.served;
        owner_eq = eo ∙ q.owner_eq;
        ticket_eq = rw length-snoc (omega (arith, et, q.ticket_eq));
        line =
            Served-snoc g q.served ws i (Served-frame q.served ws (agrees ws away) q.line)
              (here ∙ w ∙ ap waiting q.ticket_eq);
        distinct = Ring.Distinct-snoc ws i q.distinct away;
        below = AllBelow-snoc n i ws q.below lt;
        others = others away;
      }
    where
      others : i ∉ ws → (j : ℕ) → j ∉ ws ++ i ∷ [] → g j ≡ outside
      others away j h =
          let split : (has j ws || has j (i ∷ [])) ≡ false = rw Ring.has-append at h in
          there j (ground arith) ∙ q.others j (ground arith)

  enters-IsQueue :
      (rest : List ℕ)
      → ws ≡ i ∷ rest
      → m'.ticket ≡ m.ticket
      → m'.owner ≡ m.owner
      → b ≡ holding
      → IsQueue n m' g ws
  enters-IsQueue rest e et eo hold =
      let d : Distinct (i ∷ rest) = subst Distinct e q.distinct in
      let l : Served f q.served (i ∷ rest) = subst (Served f q.served) e q.line in
      record {
        served = q.served;
        owner_eq = eo ∙ q.owner_eq;
        ticket_eq = et ∙ q.ticket_eq;
        line = rw e (inr (here ∙ hold), Line-frame (q.served + 1) rest (agrees rest (d.0)) (l.1));
        distinct = q.distinct;
        below = q.below;
        others = λ j out.
            let out' : j ∉ i ∷ rest = rw e at out in there j (ground arith) ∙ q.others j out;
      }

  leaves-IsQueue :
      (rest : List ℕ)
      → ws ≡ i ∷ rest
      → m'.ticket ≡ m.ticket
      → m'.owner ≡ u16 (m.owner + 1)
      → b ≡ outside
      → IsQueue n m' g rest
  leaves-IsQueue rest e et eo out =
      let d : Distinct (i ∷ rest) = subst Distinct e q.distinct in
      let l : Served f q.served (i ∷ rest) = subst (Served f q.served) e q.line in
      let all : AllBelow n (i ∷ rest) = subst (AllBelow n) e q.below in
      let t : m.ticket ≡ u16 (q.served + length (i ∷ rest)) = rw e at q.ticket_eq in
      record {
        served = q.served + 1;
        owner_eq = omega (arith, eo, q.owner_eq);
        ticket_eq = et ∙ t ∙ ap u16 (omega arith);
        line =
            Line-Served g (q.served + 1) rest
              (Line-frame (q.served + 1) rest (agrees rest (d.0)) (l.1));
        distinct = d.1;
        below = all.1;
        others = others;
      }
    where
      others : (j : ℕ) → j ∉ rest → g j ≡ outside
      others j h = elim (Bool-cases (j == i)) [
        | inl eq ↦ let same : j ≡ i = ground arith in rw same (here ∙ out)
        | inr ne ↦ there j ne ∙ q.others j (rw e (rw (ne, h) refl))
      ]

  -- The queue after a move.
  pub Effect-IsQueue :
      n ≤ 2 ^ 16 → i < n → Effect m (f i) m' b → (ws' : List ℕ) × IsQueue n m' g ws' × Turn i ws ws'
  Effect-IsQueue few lt (silent et eo e) = (ws, silent-IsQueue et eo e, stays)
  Effect-IsQueue few lt (queues et eo out w) = (ws ++ i ∷ [], queues-IsQueue lt et eo out w, joins)
  Effect-IsQueue few lt (enters et eo w hold) =
      let (rest, e) = first_is n m f ws q i few (inl w) in
      (ws, enters-IsQueue rest e et eo hold, stays)
  Effect-IsQueue few lt (leaves et eo hold out) =
      let (rest, e) = first_is n m f ws q i few (inr hold) in
      (rest, leaves-IsQueue rest e et eo out, goes e)
