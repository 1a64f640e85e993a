-- ===== src/SpinLock/Try.antt =====
-- `core_pm_spnlck_trylock` and `core_pm_spnlck_raw_trylock`, beside the functions of `Move`.
use sandnix.Prelude.{ℕ, ◌+◌, ◌<◌, ◌≤◌, ◌≡◌, ◌≢◌, ◌⊎◌, refl, Bool, true, false, arith, if◌then◌else◌}
use sandnix.Nodes.{update}
use sandnix.SpinLock.{
  Lock, u16, highest, Pc, idle, tries, loaded, passed, raised, Move, take, raise_priority, passes,
  store_priority, store_cpu, read_priority, read_ticket, release, returns, differs, raises, unwinds,
  stray_raw_unlock, raw_returns,
}
use sandnix.SpinLock.Stage.{stage, waiting, gone, holding}
use sandnix.SpinLock.System.{System, Step, move, begin, Reach, start, later}

-- One access of a thread in one of the two functions. What follows the compare-exchange that
-- succeeds is what follows the loop of `lock`.
pub data TryMove (c : ℕ) (m : Lock) : (pc : Pc) (priority : ℕ) → Lock → Pc → ℕ → Type 0 where
  try_raise : {p : ℕ} → p < highest → TryMove c m idle p m (tries p) highest
  try_keep : {p : ℕ} → highest ≤ p → TryMove c m idle p m (tries p) p
  try_load : {q p : ℕ} → TryMove c m (tries q) p m (loaded false q m.ticket m.owner) p
  raw_try_load : {p : ℕ} → TryMove c m idle p m (loaded true 0 m.ticket m.owner) p
  try_wins :
      {raw : Bool} {q t o p : ℕ}
      → m.ticket ≡ t
      → m.owner ≡ o
      → TryMove c m (loaded raw q t o) p (record m { ticket = u16 (t + 1) }) (passed raw q) p
  try_fails :
      {raw : Bool} {q t o p : ℕ}
      → (m.ticket ≢ t) ⊎ (m.owner ≢ o)
      → TryMove c m (loaded raw q t o) p m idle (if raw then p else q)

-- The steps of both kinds.
pub data AnyStep (n : ℕ) (cpu : ℕ → ℕ) (s : System) : System → Type 0 where
  locks : {t : System} → Step n cpu s t → AnyStep n cpu s t
  try :
      (i : ℕ) {m : Lock} {pc' : Pc} {p' : ℕ}
      → i < n
      → TryMove (cpu i) s.lock (s.pc i) (s.priority i) m pc' p'
      → AnyStep n cpu s
          (record { lock = m; pc = update s.pc i pc'; priority = update s.priority i p' })

pub data ReachAny (n : ℕ) (cpu : ℕ → ℕ) (s : System) : System → Type 0 where
  here : ReachAny n cpu s s
  next : {t u : System} → ReachAny n cpu s t → AnyStep n cpu t u → ReachAny n cpu s u

abbrev same_cpu : ℕ → ℕ
same_cpu i = i

abbrev fresh : System
fresh = begin 0 (λ _. 0)

-- `core_pm_spnlck_trylock` does not look whether the lock is held: with two threads a state is
-- reached where one has the lock from `lock` and the other from `trylock`.
pub trylock_breaks_exclusion :
    (s : System) × ReachAny 2 same_cpu fresh s
    × (stage (s.pc 0) ≡ holding)
    × (stage (s.pc 1) ≡ holding)
trylock_breaks_exclusion = (
  _,
  next
      (next
        (next
          (next
            (next (next here (locks (move 0 (omega arith) take)))
              (locks (move 0 (omega arith) (raise_priority (omega arith)))))
            (locks (move 0 (omega arith) (passes refl))))
          (try 1 (omega arith) (try_raise (omega arith))))
        (try 1 (omega arith) try_load))
      (try 1 (omega arith) (try_wins refl refl)),
  refl,
  refl,
)

-- A move of thread 0, and one of thread 1.
infixl 5 ◌⊳◌ ◌⊵◌
◌⊳◌ :
    {s : System} {m : Lock} {pc' : Pc} {p' : ℕ}
    → Reach 2 same_cpu s
    → Move 0 s.lock (s.pc 0) (s.priority 0) m pc' p'
    → Reach 2 same_cpu
        (record { lock = m; pc = update s.pc 0 pc'; priority = update s.priority 0 p' })
r ⊳ mv = later r (move 0 (omega arith) mv)

◌⊵◌ :
    {s : System} {m : Lock} {pc' : Pc} {p' : ℕ}
    → Reach 2 same_cpu s
    → Move 1 s.lock (s.pc 1) (s.priority 1) m pc' p'
    → Reach 2 same_cpu
        (record { lock = m; pc = update s.pc 1 pc'; priority = update s.priority 1 p' })
r ⊵ mv = later r (move 1 (omega arith) mv)

-- With two threads on two CPUs, a state is reached where a thread that does not hold the lock has
-- raised the exception of a deadlock, since `cpu_index` still names its CPU from the last time,
-- while the other thread has the lock and has not yet stored its own.
pub deadlock_false_alarm :
    (s : System) × Reach 2 same_cpu s × (s.pc 0 ≡ raised false 2 0) × (s.pc 1 ≡ passed false 0)
deadlock_false_alarm = (
  _,
  start 7 (λ _. 0)
      ⊳ take
      ⊳ raise_priority (omega arith)
      ⊳ passes refl
      ⊳ store_priority
      ⊳ store_cpu
      ⊳ read_priority
      ⊳ read_ticket
      ⊳ release
      ⊳ returns refl
      ⊵ take
      ⊵ raise_priority (omega arith)
      ⊵ passes refl
      ⊳ take
      ⊳ raise_priority (omega arith)
      ⊳ differs (omega arith)
      ⊳ raises refl,
  refl,
  refl,
)

-- `core_pm_spnlck_raw_unlock` does not look who has the lock: a state of two threads is reached where
-- both have it, after one called it without a lock.
pub stray_unlock_breaks_exclusion :
    (s : System) × Reach 2 same_cpu s × (stage (s.pc 0) ≡ holding) × (stage (s.pc 1) ≡ holding)
stray_unlock_breaks_exclusion = (
  _,
  start 7 (λ _. 0)
      ⊳ take
      ⊳ raise_priority (omega arith)
      ⊳ passes refl
      ⊵ stray_raw_unlock
      ⊵ raw_returns refl
      ⊵ take
      ⊵ raise_priority (omega arith)
      ⊵ passes refl,
  refl,
  refl,
)

-- The exception unwinds out of `lock`: a state of two threads is reached where no thread holds the
-- lock and the ticket that is served is that of a thread that is gone, while the other waits.
pub unwinding_blocks :
    (s : System) × Reach 2 same_cpu s
    × (stage (s.pc 0) ≡ gone s.lock.owner)
    × (stage (s.pc 1) ≡ waiting 3)
unwinding_blocks = (
  _,
  start 7 (λ _. 0)
      ⊳ take
      ⊳ raise_priority (omega arith)
      ⊳ passes refl
      ⊳ store_priority
      ⊳ store_cpu
      ⊳ read_priority
      ⊳ read_ticket
      ⊳ release
      ⊳ returns refl
      ⊵ take
      ⊵ raise_priority (omega arith)
      ⊵ passes refl
      ⊳ take
      ⊳ raise_priority (omega arith)
      ⊳ differs (omega arith)
      ⊳ raises refl
      ⊳ unwinds
      ⊵ store_priority
      ⊵ store_cpu
      ⊵ read_priority
      ⊵ read_ticket
      ⊵ release
      ⊵ returns refl
      ⊵ take,
  refl,
  refl,
)
