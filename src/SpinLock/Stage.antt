-- ===== src/SpinLock/Stage.antt =====
-- What a move does to the ticket, the owner and a thread's part in the lock.
use sandnix.Prelude.{ℕ, ◌+◌, ◌≡◌, refl, ap, sym, ◌⊎◌, inl, inr}
use sandnix.SpinLock.{
  Lock, u16, Pc, took, spins, looks, raised, passed, stored, critical, unlocks, reads, Move, take,
  raw_take, raise_priority, keep_priority, differs, waits, raises, passes, store_priority,
  store_cpu, raw_store_cpu, read_priority, read_ticket, release, raw_release, returns, complains,
  raw_returns, raw_complains, unwound, resumes, unwinds, goes_on, stray_unlock, stray_raw_unlock,
  IsProper,
}

pub data Stage : Type 0 where
  outside : Stage
  waiting : (ticket : ℕ) → Stage
  gone : (ticket : ℕ) → Stage
  holding : Stage

-- A thread waits from when it has a ticket, is gone when it has unwound out of `lock` with that
-- ticket, and holds the lock from when it has seen its ticket until it changes the owner.
abbrev pub stage : Pc → Stage
stage (took t) = waiting t
stage (spins raw t q) = waiting t
stage (looks raw t q) = waiting t
stage (raised raw t q) = waiting t
stage (unwound t) = gone t
stage (passed raw q) = holding
stage stored = holding
stage critical = holding
stage (unlocks q) = holding
stage (reads q t) = holding
stage _ = outside

-- Its part in the lock, which cannot tell who is gone from who waits.
abbrev pub part : Stage → Stage
part (gone t) = waiting t
part outside = outside
part (waiting t) = waiting t
part holding = holding

pub waits_or_is_gone : {t : ℕ} (a : Stage) → part a ≡ waiting t → (a ≡ waiting t) ⊎ (a ≡ gone t)
waits_or_is_gone outside e = absurd (cc)
waits_or_is_gone (waiting u) e = inl e
waits_or_is_gone (gone u) e = inr (let same : u ≡ _ = cc in ap gone same)
waits_or_is_gone holding e = absurd (cc)

pub holds_itself : (a : Stage) → part a ≡ holding → a ≡ holding
holds_itself outside e = absurd (cc)
holds_itself (waiting u) e = absurd (cc)
holds_itself (gone u) e = absurd (cc)
holds_itself holding e = e

-- The four kinds of a move.
pub data Effect (m : Lock) (a : Stage) (m' : Lock) (b : Stage) : Type 0 where
  silent : m'.ticket ≡ m.ticket → m'.owner ≡ m.owner → b ≡ a → Effect m a m' b
  queues :
      m'.ticket ≡ u16 (m.ticket + 1)
      → m'.owner ≡ m.owner
      → a ≡ outside
      → b ≡ waiting m.ticket
      → Effect m a m' b
  enters :
      m'.ticket ≡ m.ticket
      → m'.owner ≡ m.owner
      → a ≡ waiting m.owner
      → b ≡ holding
      → Effect m a m' b
  leaves :
      m'.ticket ≡ m.ticket
      → m'.owner ≡ u16 (m.owner + 1)
      → a ≡ holding
      → b ≡ outside
      → Effect m a m' b

pub Move-Effect :
    {c : ℕ} {m m' : Lock} {pc pc' : Pc} {p p' : ℕ}
    → (mv : Move c m pc p m' pc' p') → IsProper mv
    → Effect m (part (stage pc)) m' (part (stage pc'))
Move-Effect take ok = queues refl refl refl refl
Move-Effect raw_take ok = queues refl refl refl refl
Move-Effect (raise_priority h) ok = silent refl refl refl
Move-Effect (keep_priority h) ok = silent refl refl refl
Move-Effect (differs h) ok = silent refl refl refl
Move-Effect (waits h) ok = silent refl refl refl
Move-Effect (raises h) ok = silent refl refl refl
Move-Effect resumes ok = silent refl refl refl
Move-Effect unwinds ok = silent refl refl refl
Move-Effect goes_on ok = silent refl refl refl
Move-Effect stray_unlock ok = absurd ok
Move-Effect stray_raw_unlock ok = absurd ok
Move-Effect (passes h) ok = enters refl refl (ap waiting (sym h)) refl
Move-Effect store_priority ok = silent refl refl refl
Move-Effect store_cpu ok = silent refl refl refl
Move-Effect raw_store_cpu ok = silent refl refl refl
Move-Effect read_priority ok = silent refl refl refl
Move-Effect read_ticket ok = silent refl refl refl
Move-Effect release ok = leaves refl refl refl refl
Move-Effect raw_release ok = leaves refl refl refl refl
Move-Effect (returns h) ok = silent refl refl refl
Move-Effect (complains h) ok = silent refl refl refl
Move-Effect (raw_returns h) ok = silent refl refl refl
Move-Effect (raw_complains h) ok = silent refl refl refl
