-- ===== src/Object/Tests.antt =====
-- A new object that is shared once and given up twice.
use sandnix.Prelude.{◌≡◌, refl, true, some, [], ◌∷◌, List, arith}
use sandnix.Object.{Object, obj}
use sandnix.Object.Count.{Call, to_inc, to_dec, run, IsCounted, run-IsCounted}

abbrev fresh : Object
fresh = record { class_id = 7; ref_count = 1; destructions = 0 }

obj_runs : obj 7 true ≡ some fresh
unfolding obj
obj_runs = refl

abbrev calls : List Call
calls = to_inc ∷ to_dec ∷ to_dec ∷ []

run-IsCounted_example : IsCounted 0 (run calls fresh)
run-IsCounted_example =
    run-IsCounted calls 1 0 fresh (omega arith) refl (record { count = refl; called = refl })
