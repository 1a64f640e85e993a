-- ===== src/LinkedList/Tests.antt =====
-- Runs of list.c on the ring of the nodes 10 and 20, which hold 1 and 2.
use sandnix.Prelude.{refl, [], ◌∷◌, arith, ◌==◌, ◌||◌, if◌then◌else◌}
use sandnix.Nodes.{Ptr, Store}
use sandnix.LinkedList.{insert_before, insert_after, remove, destroy}
use sandnix.LinkedList.Ring.{Ring}
use sandnix.LinkedList.Inserted.{IsInserted, Gives}
use sandnix.LinkedList.Grow.{insert_before_at, insert_after_at}
use sandnix.LinkedList.Remove.{IsRemoved, remove-IsRemoved}
use sandnix.LinkedList.Destroy.{IsDestroyed, destroy-IsDestroyed}

abbrev other : Ptr → Ptr
other p = if p == 10 then 20 else 10

abbrev two : Store
two = record {
  live = λ p. p == 10 || p == 20;
  prev = other;
  next = other;
  item = λ p. if p == 10 then 1 else 2;
  supply = 30 ∷ [];
}

two-Ring : Ring two (10 ∷ 20 ∷ [])
two-Ring = record {
  distinct = (refl, (refl, tt));
  live = (omega arith, refl, (omega arith, refl, tt));
  nexts = (refl, (refl, tt));
  prevs = (refl, (refl, tt));
}

two-Gives : Gives two 30 []
two-Gives = record { supply = refl; ne = omega arith; unused = refl }

insert_before_at_example : IsInserted two (10 ∷ []) (20 ∷ []) 30 3 [] (insert_before 20 10 3 two)
insert_before_at_example = insert_before_at two 30 [] two-Gives 3 (10 ∷ []) 20 [] two-Ring

insert_after_at_example : IsInserted two (10 ∷ []) (20 ∷ []) 30 3 [] (insert_after 10 10 3 two)
insert_after_at_example = insert_after_at two 30 [] two-Gives 3 [] 10 (20 ∷ []) two-Ring

remove-IsRemoved_example : IsRemoved two [] 10 (20 ∷ []) (remove 10 10 two)
remove-IsRemoved_example = remove-IsRemoved two [] 10 (20 ∷ []) two-Ring

destroy-IsDestroyed_example : IsDestroyed two (10 ∷ 20 ∷ []) (1 ∷ 2 ∷ []) (destroy 2 10 two)
destroy-IsDestroyed_example =
    destroy-IsDestroyed 2 10 (10 ∷ 20 ∷ []) (1 ∷ 2 ∷ []) two
      (record { ring = two-Ring; starts = refl; holds = refl }) (omega arith)
