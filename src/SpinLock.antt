-- ===== src/SpinLock.antt =====
-- core/pm/lock/spinlock/spnlck.c: a lock with a ticket and an owner of 16 bits, taken by threads
-- that are interleaved at each access of the lock.
-- The atomic instructions are those of hal/rtl/atomic/x86/atomic.h. A thread stays on its CPU.
-- A thread whose exception unwinds out of `lock` leaves its ticket behind: `unwound` is its last
-- place, and what runs in its place after that counts as another thread. So does a call of `lock`
-- by a thread that holds the lock.
pub mod System
pub mod Stage
pub mod Line
pub mod Queue
pub mod Safety
pub mod Try
mod Tests
use sandnix.Prelude.{ℕ, ◌+◌, ◌-◌, ◌%◌, ◌^◌, ◌<◌, ◌≤◌, ◌≡◌, ◌≢◌, Bool, true, false, ltb}

-- `spnlck_t`
pub record Lock : Type 0 where
  pub ticket : ℕ
  pub owner : ℕ
  pub priority : ℕ
  pub cpu_index : ℕ

abbrev pub u16 : ℕ → ℕ
u16 n = n % 2 ^ 16

abbrev pub highest : ℕ
highest = 255

-- `core_pm_spnlck_init`, which leaves `cpu_index` as it is.
abbrev pub init : ℕ → Lock
init cpu_index = record { ticket = 0; owner = 0; priority = 0; cpu_index = cpu_index }

-- Where a thread is, with the local variables that are live there. `raw` is true in the functions
-- `raw_…`, which have no `priority`.
pub data Pc : Type 0 where
  idle : Pc  -- in no function of the lock
  took : (ticket : ℕ) → Pc  -- `lock` has its ticket
  spins : (raw : Bool) (ticket priority : ℕ) → Pc  -- before the test of `while`
  looks : (raw : Bool) (ticket priority : ℕ) → Pc  -- before the test of `cpu_index`
  raised : (raw : Bool) (ticket priority : ℕ) → Pc  -- the exception of `lock`
  unwound : (ticket : ℕ) → Pc  -- which has left `lock` for a handler
  passed : (raw : Bool) (priority : ℕ) → Pc  -- behind the loop
  stored : Pc  -- before `cpu_index` is stored
  critical : Pc  -- `lock` has returned
  unlocks : (priority : ℕ) → Pc  -- `unlock` has read the priority
  reads : (priority ticket : ℕ) → Pc  -- and the ticket
  released : (priority ticket inc_val : ℕ) → Pc  -- and has given up the lock
  raw_released : (inc_val : ℕ) → Pc  -- `raw_unlock` has given up the lock
  complained : Pc  -- the exception of `unlock`
  tries : (priority : ℕ) → Pc  -- `trylock` has set the priority
  loaded : (raw : Bool) (priority ticket owner : ℕ) → Pc  -- and has read the lock

-- `ticket - (inc_val + (u16)1) > ticket - inc_val` on numbers of type `int`: 2^17 is added to both
-- sides.
abbrev pub released_twice : (ticket inc_val : ℕ) → Bool
released_twice ticket inc_val = ltb (ticket + 2 ^ 17 - inc_val) (ticket + 2 ^ 17 - (inc_val + 1))

-- One access of a thread on the CPU `c`: its place, its priority and the lock, before and after. An
-- exception goes on behind RAISE or unwinds. `unlock` and `raw_unlock` do not test who calls them.
pub data Move (c : ℕ) (m : Lock) : (pc : Pc) (priority : ℕ) → Lock → Pc → ℕ → Type 0 where
  take : {p : ℕ} → Move c m idle p (record m { ticket = u16 (m.ticket + 1) }) (took m.ticket) p
  raw_take :
      {p : ℕ} → Move c m idle p (record m { ticket = u16 (m.ticket + 1) }) (spins true m.ticket 0) p
  raise_priority : {t p : ℕ} → p < highest → Move c m (took t) p m (spins false t p) highest
  keep_priority : {t p : ℕ} → highest ≤ p → Move c m (took t) p m (spins false t p) p
  differs : {raw : Bool} {t q p : ℕ} → m.owner ≢ t → Move c m (spins raw t q) p m (looks raw t q) p
  waits :
      {raw : Bool} {t q p : ℕ} → m.cpu_index ≢ c → Move c m (looks raw t q) p m (spins raw t q) p
  raises :
      {raw : Bool} {t q p : ℕ} → m.cpu_index ≡ c → Move c m (looks raw t q) p m (raised raw t q) p
  resumes : {raw : Bool} {t q p : ℕ} → Move c m (raised raw t q) p m (spins raw t q) p
  unwinds : {raw : Bool} {t q p : ℕ} → Move c m (raised raw t q) p m (unwound t) p
  passes : {raw : Bool} {t q p : ℕ} → m.owner ≡ t → Move c m (spins raw t q) p m (passed raw q) p
  store_priority : {q p : ℕ} → Move c m (passed false q) p (record m { priority = q }) stored p
  store_cpu : {p : ℕ} → Move c m stored p (record m { cpu_index = c }) critical p
  raw_store_cpu : {q p : ℕ} → Move c m (passed true q) p (record m { cpu_index = c }) critical p
  read_priority : {p : ℕ} → Move c m critical p m (unlocks m.priority) p
  read_ticket : {q p : ℕ} → Move c m (unlocks q) p m (reads q m.ticket) p
  release :
      {q t p : ℕ}
      → Move c m (reads q t) p (record m { owner = u16 (m.owner + 1) }) (released q t m.owner) p
  raw_release :
      {p : ℕ}
      → Move c m critical p (record m { owner = u16 (m.owner + 1) }) (raw_released m.owner) p
  returns : {q t v p : ℕ} → released_twice t v ≡ false → Move c m (released q t v) p m idle q
  complains : {q t v p : ℕ} → released_twice t v ≡ true → Move c m (released q t v) p m complained q
  goes_on : {p : ℕ} → Move c m complained p m idle p
  stray_unlock : {p : ℕ} → Move c m idle p m (unlocks m.priority) p
  stray_raw_unlock :
      {p : ℕ} → Move c m idle p (record m { owner = u16 (m.owner + 1) }) (raw_released m.owner) p
  raw_returns : {v p : ℕ} → released_twice m.ticket v ≡ false → Move c m (raw_released v) p m idle p
  raw_complains :
      {v p : ℕ} → released_twice m.ticket v ≡ true → Move c m (raw_released v) p m complained p

-- `unlock` and `raw_unlock` are called by a thread for which `lock` or `raw_lock` has returned.
abbrev pub IsProper :
    {c : ℕ} {m m' : Lock} {pc pc' : Pc} {p p' : ℕ} → Move c m pc p m' pc' p' → Type 0
IsProper stray_unlock = ⊥
IsProper stray_raw_unlock = ⊥
IsProper _ = Unit {0}
