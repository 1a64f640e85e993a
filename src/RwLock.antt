-- ===== src/RwLock.antt =====
-- core/pm/lock/spinlock/spnlck_rw.c: the reader-writer lock, taken by threads that are interleaved
-- at each access. To take and to leave the ticket lock inside is one step each: what SpinLock.antt
-- says of that lock holds for at most 2^16 threads, and is used here for no more than these. A
-- thread that the ticket lock raises an exception in does not go on in `Step`; what runs in its
-- place after that counts as another thread.
pub mod Safety
mod Tests
use sandnix.Prelude.{ℕ, ◌+◌, ◌-◌, ◌%◌, ◌^◌, ◌<◌, ◌≡◌, Option, none, some}
use sandnix.Nodes.{update}

-- Where a thread is: outside, in core_pm_spnlck_rw_r_lock with the ticket lock before and behind the
-- addition, between r_lock and r_unlock, in the loop of w_lock, and between w_lock and w_unlock.
pub data Pc : Type 0 where
  idle : Pc
  r_locked : Pc
  r_counted : Pc
  reading : Pc
  w_locked : Pc
  writing : Pc

-- `spnlck_rw_t`, with the thread that has the ticket lock, and the threads.
pub record System : Type 0 where
  pub holder : Option ℕ
  pub reader_count : ℕ
  pub pc : ℕ → Pc

abbrev pub begin : System
begin = record { holder = none; reader_count = 0; pc = λ _. idle }

-- One of `n` threads goes on.
pub data Step (n : ℕ) (s : System) : System → Type 0 where
  r_lock :
      (i : ℕ)
      → i < n
      → s.holder ≡ none
      → s.pc i ≡ idle
      → Step n s
          (record { holder = some i; reader_count = s.reader_count; pc = update s.pc i r_locked })
  r_add :
      (i : ℕ)
      → i < n
      → s.pc i ≡ r_locked
      → Step n s (record {
        holder = s.holder;
        reader_count = (s.reader_count + 1) % 2 ^ 32;
        pc = update s.pc i r_counted;
      })
  r_release :
      (i : ℕ)
      → i < n
      → s.pc i ≡ r_counted
      → Step n s
          (record { holder = none; reader_count = s.reader_count; pc = update s.pc i reading })
  r_unlock :
      (i : ℕ)
      → i < n
      → s.pc i ≡ reading
      → Step n s (record {
        holder = s.holder;
        reader_count = (s.reader_count + 2 ^ 32 - 1) % 2 ^ 32;
        pc = update s.pc i idle;
      })
  w_lock :
      (i : ℕ)
      → i < n
      → s.holder ≡ none
      → s.pc i ≡ idle
      → Step n s
          (record { holder = some i; reader_count = s.reader_count; pc = update s.pc i w_locked })
  w_enter :
      (i : ℕ)
      → i < n
      → s.pc i ≡ w_locked
      → s.reader_count ≡ 0
      → Step n s
          (record { holder = s.holder; reader_count = s.reader_count; pc = update s.pc i writing })
  w_unlock :
      (i : ℕ)
      → i < n
      → s.pc i ≡ writing
      → Step n s (record { holder = none; reader_count = s.reader_count; pc = update s.pc i idle })

-- The states from the lock just initialised on.
pub data Reach (n : ℕ) : System → Type 0 where
  start : Reach n begin
  later : {s t : System} → Reach n s → Step n s t → Reach n t
