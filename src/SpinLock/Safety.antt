-- ===== src/SpinLock/Safety.antt =====
-- What holds in every state that `lock`, `raw_lock`, `unlock` and `raw_unlock` reach, for at most
-- 2^16 threads that only unlock what they have locked.
use sandnix.Prelude.{ℕ, ◌^◌, ◌≤◌, ◌≡◌, refl, sym, ap, ◌∙◌, ◌⊎◌, inl, inr, List, [], ◌∷◌, arith}
use sandnix.Nodes.{update}
use sandnix.LinkedList.Ring.{update_self, update_ne}
use sandnix.SpinLock.System.{
  System, Step, move, goes_on_as, mover, IsProperStep, Reach, start, later, IsDisciplined,
}
use sandnix.SpinLock.Stage.{
  Stage, waiting, gone, holding, stage, part, waits_or_is_gone, holds_itself, Move-Effect,
}
use sandnix.SpinLock.Queue.{IsQueue, Turn, first_is, Effect-IsQueue, stays}

abbrev pub stages : System → ℕ → Stage
stages s i = stage (s.pc i)

-- The threads in the order in which they got their tickets. Who is gone stands there as if waiting.
abbrev pub Queued : ℕ → System → List ℕ → Type 0
Queued n s ws = IsQueue n s.lock (λ i. part (stages s i)) ws

-- One step of the threads is a turn of the queue.
pub Step-Turn :
    {n : ℕ} {cpu : ℕ → ℕ} {s t : System} (ws : List ℕ)
    → n ≤ 2 ^ 16
    → Queued n s ws
    → (st : Step n cpu s t) → IsProperStep st
    → (ws' : List ℕ) × Queued n t ws' × Turn (mover st) ws ws'
Step-Turn {n} {s} ws few q (move i {m} {pc'} {p'} lt mv) ok =
    Effect-IsQueue n m {g = λ j. part (stage (update s.pc i pc' j))} ws q i
      (ap (λ x. part (stage x)) (update_self s.pc i pc'))
      (λ j ne. ap (λ x. part (stage x)) (update_ne s.pc i pc' j (ground arith))) few lt
      (Move-Effect mv ok)
Step-Turn ws few q (goes_on_as i j li lj same at free) ok = (ws, q, stays)

pub Reach-Queued :
    {n : ℕ} {cpu : ℕ → ℕ} {s : System}
    → n ≤ 2 ^ 16
    → (r : Reach n cpu s) → IsDisciplined r
    → (ws : List ℕ) × Queued n s ws
Reach-Queued few (start c p) ok = (
  [],
  record {
    served = 0;
    owner_eq = refl;
    ticket_eq = refl;
    line = tt;
    distinct = tt;
    below = tt;
    others = λ i out. refl;
  },
)
Reach-Queued few (later r st) ok =
    let (ws, q) = Reach-Queued few r (ok.0) in
    let (ws', q', turn) = Step-Turn ws few q st (ok.1) in (ws', q')

-- At most 2^16 threads, counting what a thread runs behind an exception that unwound as another
-- one, that use `lock`, `raw_lock`, `unlock` and `raw_unlock` in any interleaving, where only a
-- thread for which `lock` has returned unlocks: two of them never hold the lock together, which is
-- from the end of the loop in `lock` to the change of the owner in `unlock`.
pub mutual_exclusion :
    {n : ℕ} {cpu : ℕ → ℕ} {s : System}
    → n ≤ 2 ^ 16
    → (r : Reach n cpu s) → IsDisciplined r
    → (i j : ℕ) → stages s i ≡ holding
    → stages s j ≡ holding
    → i ≡ j
mutual_exclusion {n} {s} few r ok i j hi hj =
    let (ws, q) = Reach-Queued few r ok in
    let (rest, e) = first_is n s.lock (λ k. part (stages s k)) ws q i few (inr (ap part hi)) in
    let (rest', e') = first_is n s.lock (λ k. part (stages s k)) ws q j few (inr (ap part hj)) in cc

-- At most 2^16 threads, counting what a thread runs behind an exception that unwound as another
-- one, where only a thread for which `lock` has returned unlocks: the lock refines a queue. In every
-- state the threads with a ticket stand in the order of their tickets, also those whose exception
-- unwound out of `lock`, only the first may hold the lock, and a step leaves the queue as it is,
-- adds the thread that moves at its end, or removes the thread that moves from its front.
pub lock_refines_queue :
    {n : ℕ} {cpu : ℕ → ℕ} {s t : System}
    → n ≤ 2 ^ 16
    → (r : Reach n cpu s) → IsDisciplined r
    → (st : Step n cpu s t) → IsProperStep st
    → (ws : List ℕ) × (ws' : List ℕ) × Queued n s ws × Queued n t ws' × Turn (mover st) ws ws'
lock_refines_queue few r ok st proper =
    let (ws, q) = Reach-Queued few r ok in
    let (ws', q', turn) = Step-Turn ws few q st proper in (ws, ws', q, q', turn)

-- At most 2^16 threads, counting what a thread runs behind an exception that unwound as another
-- one, where only a thread for which `lock` has returned unlocks: while a thread waits, one holds
-- the lock, or waits with the ticket that is served, or has unwound out of `lock` and left the
-- ticket that is served behind.
pub lock_is_served :
    {n t : ℕ} {cpu : ℕ → ℕ} {s : System}
    → n ≤ 2 ^ 16
    → (r : Reach n cpu s) → IsDisciplined r
    → (j : ℕ) → stages s j ≡ waiting t
    → (i : ℕ) × ((stages s i ≡ holding)
        ⊎ ((stages s i ≡ waiting s.lock.owner) ⊎ (stages s i ≡ gone s.lock.owner)))
lock_is_served {t} {s} few r ok j w = go (Reach-Queued few r ok)
  where
    go :
        {n : ℕ}
        → (ws : List ℕ) × Queued n s ws
        → (i : ℕ) × ((stages s i ≡ holding)
            ⊎ ((stages s i ≡ waiting s.lock.owner) ⊎ (stages s i ≡ gone s.lock.owner)))
    go ([], q) =
        let out = q.others j refl in
        let at : part (stages s j) ≡ waiting t = ap part w in absurd (cc (at, out))
    go (i ∷ is, q) = (
      i,
      elim (q.line.0) [
        | inl e ↦ inr (waits_or_is_gone (stages s i) (e ∙ ap waiting (sym q.owner_eq)))
        | inr e ↦ inl (holds_itself (stages s i) e)
      ],
    )
