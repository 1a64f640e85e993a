-- ===== src/Lib.antt =====
-- Sandnix: a model of parts of the kernel under src/sandnix/kernel, with what makes them correct.
--
-- Paths below start at the repository's directory src/sandnix/kernel/.
--
-- * Prelude.antt and its children: names of the libraries, Boolean tests on numbers, list
--   operations over native numbers, and the monad of computations that may fault.
-- * Math.antt is hal/rtl/math/math.c: division of 64-bit and 32-bit numbers bit by bit, the loop
--   of hal_rtl_math_div64 and its three variants on a record of the registers. The loops have a
--   fixed number of rounds, so their fuel is that number.
-- * Array.antt is core/rtl/container/array/array.c: the record Array is array_t with the block
--   table as a list, and array_set is core_rtl_array_set, and so on. The loops run over the table,
--   whose length is their fuel. A result `none` is undefined behaviour: a read outside the table
--   or a block, a free of NULL. The trace of array_destroy ends where it reads a freed block.
--   Unsigned numbers of 32 bits keep their wrap-around, and `bool` has 8 bits.
-- * Nodes.antt is the memory of list nodes (core/rtl/container/list/list_defs.h), one map for each
--   field, and LinkedList.antt is core/rtl/container/list/list.c on it: the functions with their
--   names less the prefix core_rtl_list_. The variable *p_list is an argument and a result. The
--   heap (core/mm/heap) is a parameter: the list of the pointers that it is going to return.
--   The loops of destroy and join run on fuel; the number of nodes is enough for destroy.
-- * Queue.antt is core/rtl/container/queue/queue.c and Stack.antt the macros of
--   core/rtl/container/stack/stack.h, both over LinkedList. Queue/Fifo.antt and Stack/Lifo.antt
--   state what they promise, as a specification over sequences of calls.
-- * Bytes.antt is memory as a map from addresses to bytes, and the string instructions of
--   hal/rtl/string/x86/string.h. Copy.antt (memcpy, memmove, memset) and Compare.antt (memcmp,
--   strncmp, strcmp) are those functions of core/rtl/string/string.c, each less its prefix
--   core_rtl_. The steps for units of 8, 4 and 2 bytes are one function of the width. In memset
--   addresses wrap round at 2^32, in the others they do not; size_t has 32 bits. memcmp runs on fuel, one round for each longword.
-- * Digits.antt is core_rtl_itoa, core_rtl_htoa and core_rtl_otoa of the same file: one function of
--   the base, on the division of Math.antt for the decimal one. 65 rounds of fuel are enough for
--   the 64 digits that a number of 64 bits has at most.
-- * Strings.antt is core_rtl_memccpy, strncpy, strpbrk, strspn and strstr of that file. The loops
--   that end at a NUL run on fuel, the inner ones on fuel of their own; more than the length of the
--   string that a loop runs over is enough.
-- * Length.antt is core_rtl_strlen of that file, with its test of a whole longword for a zero byte,
--   on the bitwise operations of Words.antt. It runs on fuel, a round for each longword; longwords
--   have 32 bits and are little-endian.
-- * Map.antt and its children are core/rtl/container/map/map.c: the nodes of the red-black tree as
--   records in a memory, with parent pointers. Each pair of mirrored functions or branches of the
--   source is one definition with a side. Rotate.antt is l_rotate and r_rotate, Insert.antt
--   insert_node, Remove.antt remove_node, remove_rebalance and core_rtl_map_set, Walk.antt
--   core_rtl_map_next and _prev, Destroy.antt core_rtl_map_destroy. Keys are compared by a function
--   that the map holds. Loops run on fuel: more than the number of nodes is enough to look up, to
--   insert and to remove, twice that number to destroy. Tree.antt and Context.antt say which tree
--   the memory holds: a subtree and the frames above it; Balance.antt says which colours make it a
--   red-black tree. The children of Remove.antt follow its cases: Sibling, Near, Black and Beside
--   are cases 4, 3, 2 and 1, Loop the rounds, Adopt and Unlink the node that goes, Last and Pick
--   the node that is chosen, Set the whole call on a sorted list of entries.
-- * Kparam.antt is hal/kparam/kparam.c: hal_kparam_init reads the command line in the memory of
--   Bytes.antt, and its calls of core_rtl_map_set are noted in their order. What these calls
--   return is given; a NULL among it is a PANIC, the result `none`. get_word and jump_space are loops on fuel, of which the length of a word is enough.
-- * SpinLock.antt is core/pm/lock/spinlock/spnlck.c: the record Lock is spnlck_t, the program
--   counters of a thread are the places between two accesses to shared memory, and Move is a step
--   of a thread. An exception of `lock` goes on behind RAISE or unwinds: what the thread runs then
--   is a thread of its own in the model, as is a call of `lock` by a holder. `unlock` can be called
--   by any thread, and the theorems are about runs in which only holders call it.
--   SpinLock/System.antt interleaves the steps of any number of threads; a ticket has 16 bits, so
--   the theorems are about at most 2 ^ 16 of them. SpinLock/Try.antt adds trylock.
-- * RwLock.antt is core/pm/lock/spinlock/spnlck_rw.c on top of that lock: the data type Step has
--   the steps of r_lock, r_unlock, w_lock and w_unlock. To take the inner lock is one step, which
--   its theorems allow for at most 2 ^ 16 threads. Priorities and the trylock functions are left
--   out.
-- * Object.antt is core/rtl/obj/obj.c: reference counts, one call at a time, as the atomic
--   instructions make it; the destructor is opaque and its calls are counted.
--
-- Not modelled: the rest of string.c, the quick sort of the list, the heap itself, paging, the locks
-- that wait on the scheduler, threads, signals, exceptions and the hardware layer. Freed memory is
-- not given out again by the heap of the model. Item destroyers are pure observers: those of the
-- list get the items in order, those of the map are left out.
mod Prelude
pub mod Math
pub mod Array
pub mod Nodes
pub mod LinkedList
pub mod Queue
pub mod Stack
pub mod SpinLock
pub mod RwLock
pub mod Map
pub mod Bytes
pub mod Copy
pub mod Compare
pub mod Digits
pub mod Strings
pub mod Object
pub mod Words
pub mod Kparam
pub mod Length
