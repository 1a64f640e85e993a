-- ===== src/Object.antt =====
-- core/rtl/obj/obj.c: objects with a reference count of 32 bits. The functions that the object
-- keeps are not modelled, but how often its destructor has been called is.
pub mod Count
mod Tests
use sandnix.Prelude.{ℕ, ◌+◌, ◌%◌, ◌^◌, Bool, ◌==◌, Option, none, some, if◌then◌else◌}

pub record Object : Type 0 where
  pub class_id : ℕ
  pub ref_count : ℕ
  pub destructions : ℕ

-- The flag says whether the object gets its memory.
pub obj : (class_id : ℕ) → Bool → Option Object
obj class_id has_memory =
    if has_memory
    then some (record { class_id = class_id; ref_count = 1; destructions = 0 })
    else none

pub inc_ref : Object → Object
inc_ref o = record o { ref_count = (o.ref_count + 1) % 2 ^ 32 }

-- 0xFFFFFFFF is added, and the old count decides.
pub dec_ref : Object → Object
dec_ref o =
    let result = o.ref_count in
    let counted : Object = record o { ref_count = (o.ref_count + 4294967295) % 2 ^ 32 } in
    if result == 1 then record counted { destructions = counted.destructions + 1 } else counted
