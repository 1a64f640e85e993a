-- ===== src/RwLock/Safety.antt =====
-- A writer is alone.
use sandnix.Prelude.{ℕ, zero, suc, ◌+◌, ◌≡◌, Bool, true, false, some}
use sandnix.RwLock.{Pc, idle, r_locked, r_counted, reading, w_locked, writing, System}

-- The threads that are counted as readers.
abbrev weight : Pc → ℕ
weight idle = 0
weight r_locked = 0
weight r_counted = 1
weight reading = 1
weight w_locked = 0
weight writing = 0

abbrev holds : Pc → Bool
holds idle = false
holds r_locked = true
holds r_counted = true
holds reading = false
holds w_locked = true
holds writing = true

abbrev readers : ℕ → (ℕ → Pc) → ℕ
readers zero pc = 0
readers (suc n) pc = weight (pc n) + readers n pc

record IsSafe (n : ℕ) (s : System) : Type 0 where
  count : s.reader_count ≡ readers n s.pc
  held : (j : ℕ) → holds (s.pc j) ≡ true → s.holder ≡ some j
  alone : (j : ℕ) → s.pc j ≡ writing → s.reader_count ≡ 0
