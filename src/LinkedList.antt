-- ===== src/LinkedList.antt =====
-- sandnix/kernel/core/rtl/container/list/list.c: circular doubly linked lists.
-- The variable behind `p_list` holds the first node, or NULL; a function that changes it returns
-- its new value.
pub mod Ring
pub mod Splice
pub mod Inserted
pub mod Grow
pub mod Insert
pub mod Remove
pub mod Held
pub mod Destroy
mod Tests
use sandnix.Prelude.{
  ℕ, zero, suc, Bool, true, false, Option, none, some, List, [], ◌∷◌, ◌==◌, if◌then◌else◌,
}
use sandnix.Nodes.{
  Ptr, null, Store, Cmd, pure, ◌>>=◌, ◌>>◌, get_prev, get_next, get_item, set_prev, set_next,
  set_item, alloc, free,
}

-- A function's returned pointer, and the new value of `*p_list`.
abbrev pub Result : Type 0
Result = Ptr × Ptr

-- The first node of a list.
pub link_first : (head node : Ptr) → Cmd (Unit {0})
link_first head node = do set_prev node node; set_next node node

-- `node` between the node before `pos`, and `pos`.
pub link_before : (pos node : Ptr) → Cmd (Unit {0})
link_before pos node = do
  before ← get_prev pos
  set_prev node before
  last ← get_prev pos
  set_next last node
  set_prev pos node
  set_next node pos

-- `node` between `pos` and the node behind it.
pub link_after : (pos node : Ptr) → Cmd (Unit {0})
link_after pos node = do
  set_prev node pos
  behind ← get_next pos
  set_next node behind
  before ← get_prev node
  set_next before node
  after ← get_next node
  set_prev after node

-- `core_rtl_list_insert_node_before`
pub insert_node_before : (pos head node : Ptr) → Cmd Result
insert_node_before pos head node =
    if pos == null
    then if head == null
      then link_first head node >> pure (node, node)
      else (link_before head node >> pure (node, node))
    else (link_before pos node >> pure (node, if pos == head then node else head))

-- `core_rtl_list_insert_node_after`
pub insert_node_after : (pos head node : Ptr) → Cmd Result
insert_node_after pos head node =
    if pos == null
    then if head == null
      then link_first head node >> pure (node, node)
      else (link_before head node >> pure (node, head))
    else (link_after pos node >> pure (node, head))

-- `core_rtl_list_insert_before`: the same on a new node, which also gets its item.
pub insert_before : (pos head : Ptr) → ℕ → Cmd Result
insert_before pos head item = do
  node ← alloc
  if node == null
      then pure (null, head)
      else (do r ← insert_node_before pos head node; set_item node item; pure r)

-- `core_rtl_list_insert_after`
pub insert_after : (pos head : Ptr) → ℕ → Cmd Result
insert_after pos head item = do
  node ← alloc
  if node == null
      then pure (null, head)
      else (do r ← insert_node_after pos head node; set_item node item; pure r)

-- `core_rtl_list_node_remove`: the item (0 is NULL) and the new `*p_list`.
pub node_remove : (pos head : Ptr) → Cmd (ℕ × Ptr)
node_remove pos head = if pos == null then pure (0, head) else (do
  item ← get_item pos
  before ← get_prev pos
  if before == pos then pure (item, null) else (do
    behind ← get_next pos
    set_next before behind
    next ← get_next pos
    previous ← get_prev pos
    set_prev next previous
    pure (item, if head == pos then behind else head)))

-- `core_rtl_list_remove`: the same, and the node is freed.
pub remove : (pos head : Ptr) → Cmd (ℕ × Ptr)
remove pos head =
    if pos == null then pure (0, head) else (do r ← node_remove pos head; free pos; pure r)

-- The `do … while` loop of `core_rtl_list_destroy`, on fuel: the items in the order in which the
-- destroyer gets them, where there is one. `none` is also an end of the fuel.
pub destroy_loop : ℕ → (head node : Ptr) → Cmd (List ℕ)
destroy_loop zero head node = λ s. none
destroy_loop (suc fuel) head node =
    let rest = λ (next : Ptr). destroy_loop fuel head next in
    (do
      next ← get_next node
      item ← get_item node
      free node
      if next == head then pure (item ∷ []) else (do items ← rest next; pure (item ∷ items)))

-- `core_rtl_list_destroy`, whose result is also the empty list.
pub destroy : ℕ → Ptr → Cmd (List ℕ × Ptr)
destroy fuel head =
    if head == null
    then pure ([], head)
    else (do items ← destroy_loop fuel head head; pure (items, null))

-- `core_rtl_list_join`, on fuel: the new `*p_src` and `*p_dest`.
pub join : ℕ → (source dest : Ptr) → Cmd (Ptr × Ptr)
join zero source dest = λ s. none
join (suc fuel) source dest =
    let rest = λ (next to : Ptr). join fuel next to in
    if source == null then pure (source, dest) else (do
      (item, source') ← remove source source
      (node, dest') ← insert_after null dest item
      rest source' dest')
