-- ===== src/Copy/Tests.antt =====
-- Runs of the copies on a memory that holds at each address the address.
use sandnix.Prelude.{◌≡◌, inl, arith}
use sandnix.Bytes.{Bytes, moved, filled}
use sandnix.Copy.{memcpy, memmove, memset}
use sandnix.Copy.Forward.{memcpy-moved}
use sandnix.Copy.Backward.{memmove-moved}
use sandnix.Copy.Fill.{memset-filled}

abbrev addresses : Bytes
addresses p = p

memcpy-moved_example : memcpy 100 108 20 addresses ≡ moved 100 108 20 addresses
memcpy-moved_example = memcpy-moved 100 108 20 addresses (inl (omega arith))

-- The regions overlap.
memmove-moved_example : memmove 108 100 20 addresses ≡ moved 108 100 20 addresses
memmove-moved_example = memmove-moved 108 100 20 addresses

memset-filled_example : memset 101 7 20 addresses ≡ filled 101 20 7 addresses
memset-filled_example = memset-filled 101 7 20 addresses (omega arith) (omega arith)
