-- ===== src/Nodes.antt =====
-- The list nodes of sandnix/kernel/core/rtl/container/list/list_defs.h in memory, one map for each
-- field, and commands that read and write them. A pointer is a number, NULL is 0.
-- The heap of core/mm/heap is an oracle here: `supply` holds the pointers that
-- `core_mm_heap_alloc` is going to return, and it returns NULL when they run out.
use sandnix.Prelude.{ℕ, Bool, true, false, Option, none, some, List, [], ◌∷◌, ◌==◌, if◌then◌else◌}

abbrev pub Ptr : Type 0
Ptr = ℕ

abbrev pub null : Ptr
null = 0

pub record Store : Type 0 where
  pub live : Ptr → Bool
  pub prev : Ptr → Ptr
  pub next : Ptr → Ptr
  pub item : Ptr → ℕ
  pub supply : List Ptr

abbrev pub update {ℓ} : {A : Type ℓ} → (Ptr → A) → Ptr → A → Ptr → A
update f p v q = if q == p then v else f q

-- `none` is an access to what is no allocated node.
abbrev pub Cmd : Type 0 → Type 0
Cmd A = Store → Option (A × Store)

abbrev pub pure : {A : Type 0} → A → Cmd A
pure a s = some (a, s)

module _ {A B : Type 0} where
  abbrev pub and_then : Option (A × Store) → (A → Cmd B) → Option (B × Store)
  and_then none k = none
  and_then (some (a, s)) k = k a s

  infixl 5 ◌>>=◌ ◌>>◌
  abbrev pub ◌>>=◌ : Cmd A → (A → Cmd B) → Cmd B
  m >>= k = λ s. and_then (m s) k

  abbrev pub ◌>>◌ : Cmd A → Cmd B → Cmd B
  m >> n = m >>= λ _. n

abbrev pub get_prev : Ptr → Cmd Ptr
get_prev p s = if s.live p then some (s.prev p, s) else none

abbrev pub get_next : Ptr → Cmd Ptr
get_next p s = if s.live p then some (s.next p, s) else none

abbrev pub get_item : Ptr → Cmd ℕ
get_item p s = if s.live p then some (s.item p, s) else none

abbrev pub set_prev : Ptr → Ptr → Cmd (Unit {0})
set_prev p q s = if s.live p then some (tt, record s { prev = update s.prev p q }) else none

abbrev pub set_next : Ptr → Ptr → Cmd (Unit {0})
set_next p q s = if s.live p then some (tt, record s { next = update s.next p q }) else none

abbrev pub set_item : Ptr → ℕ → Cmd (Unit {0})
set_item p v s = if s.live p then some (tt, record s { item = update s.item p v }) else none

abbrev pub take_from : Store → List Ptr → Option (Ptr × Store)
take_from s [] = some (null, s)
take_from s (p ∷ ps) =
    if p == null
    then some (null, record s { supply = ps })
    else some (p, record s { live = update s.live p true; supply = ps })

abbrev pub alloc : Cmd Ptr
alloc s = take_from s s.supply

abbrev pub free : Ptr → Cmd (Unit {0})
free p s = if s.live p then some (tt, record s { live = update s.live p false }) else none
