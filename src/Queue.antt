-- ===== src/Queue.antt =====
-- sandnix/kernel/core/rtl/container/queue/queue.c: a queue over a linked list. The variable is its
-- `data_list`.
pub mod Fifo
mod Tests
use sandnix.Prelude.{ℕ, Bool, true, false, List, ◌==◌, if◌then◌else◌}
use sandnix.Nodes.{Ptr, null, Cmd, pure, ◌>>=◌, ◌>>◌, get_prev, get_item}
use sandnix.LinkedList
use sandnix.LinkedList.{insert_after, remove}

pub init : Ptr
init = null

-- What is returned, and the new `data_list`.
pub push : Ptr → ℕ → Cmd (Bool × Ptr)
push list item = do
  (node, list') ← insert_after null list item
  if node == null then pure (false, list') else pure (true, list')

pub pop : Ptr → Cmd (ℕ × Ptr)
pop list =
    if list == null
    then pure (0, list)
    else (do item ← get_item list; (removed, list') ← remove list list; pure (item, list'))

pub front : Ptr → Cmd ℕ
front list = if list == null then pure 0 else get_item list

pub end : Ptr → Cmd ℕ
end list = if list == null then pure 0 else (do last ← get_prev list; get_item last)

pub destroy : ℕ → Ptr → Cmd (List ℕ × Ptr)
destroy fuel list = LinkedList.destroy fuel list
