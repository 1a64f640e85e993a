-- ===== src/SpinLock/System.antt =====
-- `n` threads over one lock, interleaved in any order. What a thread runs after an exception has
-- unwound out of `lock` is a thread of its own, so `n` counts the threads and these exceptions.
use sandnix.Prelude.{ℕ, ◌<◌, ◌≡◌}
use sandnix.Nodes.{update}
use sandnix.SpinLock.{Lock, init, Pc, idle, unwound, Move, IsProper}

pub record System : Type 0 where
  pub lock : Lock
  pub pc : ℕ → Pc
  pub priority : ℕ → ℕ

-- Thread `i` runs on the CPU `cpu i`.
pub data Step (n : ℕ) (cpu : ℕ → ℕ) (s : System) : System → Type 0 where
  move :
      (i : ℕ) {m : Lock} {pc' : Pc} {p' : ℕ}
      → i < n
      → Move (cpu i) s.lock (s.pc i) (s.priority i) m pc' p'
      → Step n cpu s
          (record { lock = m; pc = update s.pc i pc'; priority = update s.priority i p' })
  -- Behind an exception that has unwound, thread `i` goes on as thread `j`.
  goes_on_as :
      (i j : ℕ) {ticket : ℕ}
      → i < n
      → j < n
      → cpu j ≡ cpu i
      → s.pc i ≡ unwound ticket
      → s.pc j ≡ idle
      → Step n cpu s
          (record { lock = s.lock; pc = s.pc; priority = update s.priority j (s.priority i) })

-- The thread that moves.
abbrev pub mover : {n : ℕ} {cpu : ℕ → ℕ} {s t : System} → Step n cpu s t → ℕ
mover (move i lt mv) = i
mover (goes_on_as i j li lj same at free) = j

abbrev pub IsProperStep : {n : ℕ} {cpu : ℕ → ℕ} {s t : System} → Step n cpu s t → Type 0
IsProperStep (move i lt mv) = IsProper mv
IsProperStep (goes_on_as i j li lj same at free) = Unit {0}

abbrev pub begin : (cpu_index : ℕ) (priority : ℕ → ℕ) → System
begin cpu_index priority = record { lock = init cpu_index; pc = λ _. idle; priority = priority }

-- The states from a lock just initialised on, whatever stood in `cpu_index`.
pub data Reach (n : ℕ) (cpu : ℕ → ℕ) : System → Type 0 where
  start : (cpu_index : ℕ) (priority : ℕ → ℕ) → Reach n cpu (begin cpu_index priority)
  later : {s t : System} → Reach n cpu s → Step n cpu s t → Reach n cpu t

-- No thread unlocks what it has not locked.
abbrev pub IsDisciplined : {n : ℕ} {cpu : ℕ → ℕ} {s : System} → Reach n cpu s → Type 0
IsDisciplined (start c p) = Unit {0}
IsDisciplined (later r st) = IsDisciplined r × IsProperStep st
