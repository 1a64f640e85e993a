-- ===== src/Stack/Tests.antt =====
-- A run of stack.h on a heap with two nodes.
use sandnix.Prelude.{refl, false, List, [], ◌∷◌, arith}
use sandnix.Nodes.{null, Store}
use sandnix.Stack.Lifo.{
  Call, to_push, to_pop, to_top, to_is_empty, Meets, run, spec_run, stack_run_refines,
}

abbrev empty_store : Store
empty_store = record {
  live = λ p. false;
  prev = λ p. 0;
  next = λ p. 0;
  item = λ p. 0;
  supply = 10 ∷ 20 ∷ [];
}

abbrev calls : List Call
calls = to_push 5 ∷ to_push 6 ∷ to_push 7 ∷ to_top ∷ to_pop ∷ to_pop ∷ to_is_empty ∷ to_pop ∷ []

stack_run_refines_example :
    Meets (run calls null empty_store) (spec_run calls (record { items = []; room = 2 }))
stack_run_refines_example =
    stack_run_refines calls null empty_store (record { items = []; room = 2 })
      (record {
        nodes = [];
        is_list = record {
          ring = record { distinct = tt; live = tt; nexts = tt; prevs = tt };
          starts = refl;
          holds = refl;
        };
        fresh = (omega arith, refl, refl, (omega arith, refl, refl, tt));
        room_eq = refl;
      })
