-- ===== src/SpinLock/Tests.antt =====
-- A run of two threads: thread 0 has the lock, thread 1 waits.
use sandnix.Prelude.{ℕ, ◌≡◌, ◌⊎◌, refl, List, arith}
use sandnix.SpinLock.{take, raise_priority, passes}
use sandnix.SpinLock.System.{System, move, Reach, start, later, IsDisciplined}
use sandnix.SpinLock.Stage.{waiting, gone, holding}
use sandnix.SpinLock.Queue.{Turn}
use sandnix.SpinLock.Safety.{stages, Queued, mutual_exclusion, lock_refines_queue, lock_is_served}

abbrev one_cpu_each : ℕ → ℕ
one_cpu_each i = i

record Run : Type 0 where
  last : System
  reach : Reach 2 one_cpu_each last
  ok : IsDisciplined reach

abbrev entering : Run
entering = record {
  last = _;
  reach =
      later (later (start 9 (λ _. 0)) (move 0 (omega arith) take))
        (move 0 (omega arith) (raise_priority (omega arith)));
  ok = ((tt, tt), tt);
}

abbrev entered : Run
entered = record {
  last = _;
  reach = later entering.reach (move 0 (omega arith) (passes refl));
  ok = (entering.ok, tt);
}

abbrev contended : Run
contended = record {
  last = _;
  reach = later entered.reach (move 1 (omega arith) take);
  ok = (entered.ok, tt);
}

mutual_exclusion_example : ◌≡◌ {A = ℕ} 0 0
mutual_exclusion_example = mutual_exclusion (omega arith) contended.reach contended.ok 0 0 refl refl

lock_refines_queue_example :
    (ws : List ℕ) × (ws' : List ℕ) × Queued 2 entered.last ws
    × Queued 2 contended.last ws'
    × Turn 1 ws ws'
lock_refines_queue_example =
    lock_refines_queue (omega arith) entered.reach entered.ok (move 1 (omega arith) take) tt

lock_is_served_example :
    (i : ℕ) × ((stages contended.last i ≡ holding)
      ⊎ ((stages contended.last i ≡ waiting contended.last.lock.owner)
          ⊎ (stages contended.last i ≡ gone contended.last.lock.owner)))
lock_is_served_example = lock_is_served {t = 1} (omega arith) contended.reach contended.ok 1 refl
