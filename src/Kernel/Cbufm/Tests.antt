-- ===== src/Kernel/Cbufm/Tests.antt =====
-- A write that goes round the end of a buffer of four bytes.
use aexkernel.Prelude.{[], ◌∷◌, arith}
use aexkernel.Kernel.Cbufm.{Cbufm}
use aexkernel.Kernel.Cbufm.Broadcast.{IsValid}
use aexkernel.Kernel.Cbufm.Reading.{Broadcast, cbufm_read-cbufm_write}

abbrev ring : Cbufm
ring = record { write_ptr = 3; size = 4; buffer = 1 ∷ 2 ∷ 3 ∷ 4 ∷ [] }

ring-IsValid : IsValid ring
ring-IsValid = record { storage = omega arith; small = omega arith; write_in = omega arith }

cbufm_read-cbufm_write_example : Broadcast ring (7 ∷ 8 ∷ [])
cbufm_read-cbufm_write_example = cbufm_read-cbufm_write ring (7 ∷ 8 ∷ []) ring-IsValid (omega arith)
