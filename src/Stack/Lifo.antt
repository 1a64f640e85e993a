-- ===== src/Stack/Lifo.antt =====
-- A stack behaves as a last-in first-out list of items that holds as many as the heap has nodes.
-- In `items`, the bottom comes first, as in the linked list.
use sandnix.Prelude.{
  ℕ, zero, suc, ◌≡◌, refl, ap, Bool, true, false, some, Option, List, [], ◌∷◌, ◌++◌, arith, ◌==◌,
  ◌⊎◌, inl, inr, subst, not,
}
use sandnix.Nodes.{Ptr, null, Store, Cmd, pure, ◌>>=◌}
use sandnix.LinkedList.Held.{
  IsHeld, Removes, insert_after_none, insert_after-IsHeld, null_held, remove_first_held,
  remove_last_held,
}
use sandnix.Stack.{push, pop, top, is_empty}

-- What a stack promises: the items it holds, and how many more there is room for.
pub record Spec : Type 0 where
  pub items : List ℕ
  pub room : ℕ

-- What the client of a stack calls, and what it sees: of a push, whether it got a node.
pub data Call : Type 0 where
  to_push : ℕ → Call
  to_pop to_top to_is_empty : Call

pub data Answer : Type 0 where
  done : Bool → Answer
  item : ℕ → Answer

-- The last item and the items before it; 0 of none.
abbrev pub split : List ℕ → List ℕ × ℕ
split [] = ([], 0)
split (x ∷ []) = ([], x)
split (x ∷ y ∷ xs) = let rest = split (y ∷ xs) in (x ∷ rest.0, rest.1)

abbrev pub none_left : List ℕ → Bool
none_left [] = true
none_left (x ∷ xs) = false

abbrev pub spec_push : ℕ → List ℕ → ℕ → Answer × Spec
spec_push v xs zero = (done false, record { items = xs; room = zero })
spec_push v xs (suc n) = (done true, record { items = xs ++ v ∷ []; room = n })

-- A step of the promise.
abbrev pub spec_step : Call → Spec → Answer × Spec
spec_step (to_push v) q = spec_push v q.items q.room
spec_step to_pop q = (item ((split q.items).1), record { items = (split q.items).0; room = q.room })
spec_step to_top q = (item ((split q.items).1), q)
spec_step to_is_empty q = (done (none_left q.items), q)

abbrev pub spec_run : List Call → Spec → List Answer × Spec
spec_run [] q = ([], q)
spec_run (c ∷ cs) q =
    let r = spec_step c q in let rest = spec_run cs (r.1) in (r.0 ∷ rest.0, rest.1)

-- A step of the code.
abbrev pub step : Call → Ptr → Cmd (Answer × Ptr)
step (to_push v) stack = do (node, stack') ← push stack v; pure (done (not (node == null)), stack')
step to_pop stack = do (x, stack') ← pop stack; pure (item x, stack')
step to_top stack = do x ← top stack; pure (item x, stack)
step to_is_empty stack = pure (done (is_empty stack), stack)

abbrev pub run : List Call → Ptr → Cmd (List Answer × Ptr)
run [] stack = pure ([], stack)
run (c ∷ cs) stack = do
  (answer, stack') ← step c stack
  (answers, stack'') ← run cs stack'
  pure (answer ∷ answers, stack'')

abbrev pub IsStack : Store → Ptr → Spec → Type 0
IsStack s stack q = IsHeld s stack q.items q.room

-- A result of the code is what the promise says, and the stack holds what it says.
abbrev pub Meets : {A : Type 0} → Option ((A × Ptr) × Store) → A × Spec → Type 0
Meets r (a, q) = (stack' : Ptr) × (s' : Store) × (r ≡ some ((a, stack'), s')) × IsStack s' stack' q

push-Meets :
    (v : ℕ) (stack : Ptr) (s : Store) (xs : List ℕ) (room : ℕ)
    → IsHeld s stack xs room
    → Meets (step (to_push v) stack s) (spec_push v xs room)
unfolding push
push-Meets v stack s xs zero h = (stack, s, rw (insert_after_none s stack v h.room_eq) refl, h)
push-Meets v stack s xs (suc n) h =
    let (node, stack', s', e, ne, h') = insert_after-IsHeld s stack xs n v h in
    let given : (node == null) ≡ false = ground arith in (stack', s', rw e (rw given refl), h')

-- A list is empty or has a last item.
split_cases : (xs : List ℕ) → (xs ≡ []) ⊎ (xs ≡ (split xs).0 ++ (split xs).1 ∷ [])
split_cases [] = inl refl
split_cases (x ∷ []) = inr refl
split_cases (x ∷ y ∷ xs) = elim (split_cases (y ∷ xs)) [
  | inl e ↦ absurd cc
  | inr e ↦ inr (ap (λ zs. x ∷ zs) e)
]

last_removed :
    (stack : Ptr) (s : Store) (xs : List ℕ) (room : ℕ)
    → IsHeld s stack xs room
    → xs ≡ (split xs).0 ++ (split xs).1 ∷ []
    → Removes s stack (s.prev stack) ((split xs).1) ((split xs).0) room
last_removed stack s xs room h e =
    remove_last_held s stack ((split xs).1) ((split xs).0) room
      (subst (λ zs. IsHeld s stack zs room) e h)

pop-Meets :
    (stack : Ptr) (s : Store) (xs : List ℕ) (room : ℕ)
    → IsHeld s stack xs room
    → Meets (step to_pop stack s) (spec_step to_pop (record { items = xs; room = room }))
unfolding pop
pop-Meets stack s xs room h = elim (split_cases xs) [
  | inl e ↦ (
    stack,
    s,
    rw (null_held s stack room (subst (λ zs. IsHeld s stack zs room) e h)) (rw e refl),
    rw e (rw e at h),
  )
  | inr e ↦
      let (alive, some_list, _, back, stack', s', gone, h') = last_removed stack s xs room h e in
      (stack', s', rw some_list (rw alive (rw gone refl)), h')
]

top-Meets :
    (stack : Ptr) (s : Store) (xs : List ℕ) (room : ℕ)
    → IsHeld s stack xs room
    → Meets (step to_top stack s) (spec_step to_top (record { items = xs; room = room }))
unfolding top
top-Meets stack s xs room h = elim (split_cases xs) [
  | inl e ↦ (
    stack,
    s,
    rw (null_held s stack room (subst (λ zs. IsHeld s stack zs room) e h)) (rw e refl),
    h,
  )
  | inr e ↦
      let (alive, some_list, alive', back, _, _, _, _) = last_removed stack s xs room h e in
      (stack, s, rw some_list (rw alive (rw alive' (rw back refl))), h)
]

is_empty-Meets :
    (stack : Ptr) (s : Store) (xs : List ℕ) (room : ℕ)
    → IsHeld s stack xs room
    → Meets (step to_is_empty stack s) (spec_step to_is_empty (record { items = xs; room = room }))
unfolding is_empty
is_empty-Meets stack s [] room h = (stack, s, rw (null_held s stack room h) refl, h)
is_empty-Meets stack s (x ∷ xs) room h =
    let (_, some_list, _, _, _, _, _, _) = remove_first_held s stack x xs room h in
    (stack, s, rw some_list refl, h)

step-Meets :
    (c : Call) (stack : Ptr) (s : Store) (q : Spec)
    → IsStack s stack q
    → Meets (step c stack s) (spec_step c q)
step-Meets (to_push v) stack s q h = push-Meets v stack s q.items q.room h
step-Meets to_pop stack s q h = pop-Meets stack s q.items q.room h
step-Meets to_top stack s q h = top-Meets stack s q.items q.room h
step-Meets to_is_empty stack s q h = is_empty-Meets stack s q.items q.room h

-- Whatever is called in whatever order, a stack answers as a last-in first-out list of items
-- does: nothing faults, a push gets a node exactly while there is room, NULL (0) is the item of
-- an empty stack. It is a stack of the same items in the end.
pub stack_run_refines :
    (cs : List Call) (stack : Ptr) (s : Store) (q : Spec)
    → IsStack s stack q
    → Meets (run cs stack s) (spec_run cs q)
stack_run_refines [] stack s q h = (stack, s, refl, h)
stack_run_refines (c ∷ cs) stack s q h =
    let (stack', s', e, h') = step-Meets c stack s q h in
    let (stack'', s'', e', h'') = stack_run_refines cs stack' s' ((spec_step c q).1) h' in
    (stack'', s'', rw e (rw e' refl), h'')
