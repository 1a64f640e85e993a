-- ===== src/Stack.antt =====
-- sandnix/kernel/core/rtl/container/stack/stack.h: a stack over a linked list, its top at the end.
-- The macros are functions of the value of `*p_stack`.
pub mod Lifo
mod Tests
use sandnix.Prelude.{ℕ, Bool, true, false, ◌==◌, if◌then◌else◌}
use sandnix.Nodes.{Ptr, null, Cmd, pure, ◌>>=◌, ◌>>◌, get_prev, get_item}
use sandnix.LinkedList.{Result, insert_after, remove}

pub init : Ptr
init = null

pub is_empty : Ptr → Bool
is_empty stack = stack == null

-- The new node, and the new `*p_stack`.
pub push : Ptr → ℕ → Cmd Result
push stack item = insert_after null stack item

pub pop : Ptr → Cmd (ℕ × Ptr)
pop stack = if stack == null then pure (0, stack) else (do last ← get_prev stack; remove last stack)

pub top : Ptr → Cmd ℕ
top stack = if stack == null then pure 0 else (do last ← get_prev stack; get_item last)
