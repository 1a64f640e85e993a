-- ===== src/RwLock/Tests.antt =====
-- A run in which the first of two threads writes.
use sandnix.Prelude.{some}
use sandnix.Nodes.{update}
use sandnix.RwLock.{w_locked, writing, System, begin}

abbrev written : System
written = record {
  holder = some 0;
  reader_count = 0;
  pc = update (update begin.pc 0 w_locked) 0 writing;
}
