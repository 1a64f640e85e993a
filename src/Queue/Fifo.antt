-- ===== src/Queue/Fifo.antt =====
-- A queue behaves as a first-in first-out list of items that holds as many as the heap has nodes.
use sandnix.Prelude.{
  ℕ, zero, suc, ◌≡◌, refl, ap, Bool, true, false, some, Option, List, [], ◌∷◌, ◌++◌, arith, ◌==◌,
  ◌⊎◌, inl, inr, subst,
}
use sandnix.Nodes.{Ptr, null, Store, Cmd, pure, ◌>>=◌}
use sandnix.LinkedList.Held.{
  IsHeld, insert_after_none, insert_after-IsHeld, null_held, remove_first_held, remove_last_held,
}
use sandnix.Queue.{push, pop, front, end}

-- What a queue promises: the items it holds, and how many more there is room for.
pub record Spec : Type 0 where
  pub items : List ℕ
  pub room : ℕ

-- What the client of a queue calls, and what it sees.
pub data Call : Type 0 where
  to_push : ℕ → Call
  to_pop to_front to_end : Call

pub data Answer : Type 0 where
  done : Bool → Answer
  item : ℕ → Answer

abbrev pub first_item : List ℕ → ℕ
first_item [] = 0
first_item (x ∷ xs) = x

abbrev pub last_item : List ℕ → ℕ
last_item [] = 0
last_item (x ∷ []) = x
last_item (x ∷ y ∷ xs) = last_item (y ∷ xs)

abbrev pub others : List ℕ → List ℕ
others [] = []
others (x ∷ xs) = xs

abbrev pub spec_push : ℕ → List ℕ → ℕ → Answer × Spec
spec_push v xs zero = (done false, record { items = xs; room = zero })
spec_push v xs (suc n) = (done true, record { items = xs ++ v ∷ []; room = n })

-- A step of the promise.
abbrev pub spec_step : Call → Spec → Answer × Spec
spec_step (to_push v) q = spec_push v q.items q.room
spec_step to_pop q = (item (first_item q.items), record { items = others q.items; room = q.room })
spec_step to_front q = (item (first_item q.items), q)
spec_step to_end q = (item (last_item q.items), q)

abbrev pub spec_run : List Call → Spec → List Answer × Spec
spec_run [] q = ([], q)
spec_run (c ∷ cs) q =
    let r = spec_step c q in let rest = spec_run cs (r.1) in (r.0 ∷ rest.0, rest.1)

-- A step of the code.
abbrev pub step : Call → Ptr → Cmd (Answer × Ptr)
step (to_push v) list = do (ok, list') ← push list v; pure (done ok, list')
step to_pop list = do (x, list') ← pop list; pure (item x, list')
step to_front list = do x ← front list; pure (item x, list)
step to_end list = do x ← end list; pure (item x, list)

abbrev pub run : List Call → Ptr → Cmd (List Answer × Ptr)
run [] list = pure ([], list)
run (c ∷ cs) list = do
  (answer, list') ← step c list
  (answers, list'') ← run cs list'
  pure (answer ∷ answers, list'')

abbrev pub IsQueue : Store → Ptr → Spec → Type 0
IsQueue s list q = IsHeld s list q.items q.room

-- A result of the code is what the promise says, and the queue holds what it says.
abbrev pub Meets : {A : Type 0} → Option ((A × Ptr) × Store) → A × Spec → Type 0
Meets r (a, q) = (list' : Ptr) × (s' : Store) × (r ≡ some ((a, list'), s')) × IsQueue s' list' q

push-Meets :
    (v : ℕ) (list : Ptr) (s : Store) (xs : List ℕ) (room : ℕ)
    → IsHeld s list xs room
    → Meets (step (to_push v) list s) (spec_push v xs room)
unfolding push
push-Meets v list s xs zero h = (list, s, rw (insert_after_none s list v h.room_eq) refl, h)
push-Meets v list s xs (suc n) h =
    let (node, list', s', e, ne, h') = insert_after-IsHeld s list xs n v h in
    let given : (node == null) ≡ false = ground arith in (list', s', rw e (rw given refl), h')

pop-Meets :
    (list : Ptr) (s : Store) (xs : List ℕ) (room : ℕ)
    → IsHeld s list xs room
    → Meets (step to_pop list s) (spec_step to_pop (record { items = xs; room = room }))
unfolding pop
pop-Meets list s [] room h = (list, s, rw (null_held s list room h) refl, h)
pop-Meets list s (x ∷ xs) room h =
    let (alive, some_list, _, head, list', s', e, h') = remove_first_held s list x xs room h in
    (list', s', rw some_list (rw alive (rw e (rw head refl))), h')

front-Meets :
    (list : Ptr) (s : Store) (xs : List ℕ) (room : ℕ)
    → IsHeld s list xs room
    → Meets (step to_front list s) (spec_step to_front (record { items = xs; room = room }))
unfolding front
front-Meets list s [] room h = (list, s, rw (null_held s list room h) refl, h)
front-Meets list s (x ∷ xs) room h =
    let (alive, some_list, _, head, _, _, _, _) = remove_first_held s list x xs room h in
    (list, s, rw some_list (rw alive (rw head refl)), h)

-- A list is empty or has a last item.
last_cases : (xs : List ℕ) → (xs ≡ []) ⊎ (ys : List ℕ) × (xs ≡ ys ++ last_item xs ∷ [])
last_cases [] = inl refl
last_cases (x ∷ []) = inr ([], refl)
last_cases (x ∷ y ∷ xs) = elim (last_cases (y ∷ xs)) [
  | inl e ↦ absurd cc
  | inr (ys, e) ↦ inr (x ∷ ys, ap (λ zs. x ∷ zs) e)
]

end-Meets :
    (list : Ptr) (s : Store) (xs : List ℕ) (room : ℕ)
    → IsHeld s list xs room
    → Meets (step to_end list s) (spec_step to_end (record { items = xs; room = room }))
unfolding end
end-Meets list s xs room h = elim (last_cases xs) [
  | inl e ↦
      (list, s, rw (null_held s list room (subst (λ zs. IsHeld s list zs room) e h)) (rw e refl), h)
  | inr (ys, e) ↦
      let (alive, some_list, alive', back, _, _, _, _) =
        remove_last_held s list (last_item xs) ys room (subst (λ zs. IsHeld s list zs room) e h) in
      (list, s, rw some_list (rw alive (rw alive' (rw back refl))), h)
]

step-Meets :
    (c : Call) (list : Ptr) (s : Store) (q : Spec)
    → IsQueue s list q
    → Meets (step c list s) (spec_step c q)
step-Meets (to_push v) list s q h = push-Meets v list s q.items q.room h
step-Meets to_pop list s q h = pop-Meets list s q.items q.room h
step-Meets to_front list s q h = front-Meets list s q.items q.room h
step-Meets to_end list s q h = end-Meets list s q.items q.room h

-- Whatever is called in whatever order, a queue answers as a first-in first-out list of items
-- does: nothing faults, a push says whether there was room, NULL (0) is the item of an empty
-- queue. It is a queue of the same items in the end.
pub queue_run_refines :
    (cs : List Call) (list : Ptr) (s : Store) (q : Spec)
    → IsQueue s list q
    → Meets (run cs list s) (spec_run cs q)
queue_run_refines [] list s q h = (list, s, refl, h)
queue_run_refines (c ∷ cs) list s q h =
    let (list', s', e, h') = step-Meets c list s q h in
    let (list'', s'', e', h'') = queue_run_refines cs list' s' ((spec_step c q).1) h' in
    (list'', s'', rw e (rw e' refl), h'')
