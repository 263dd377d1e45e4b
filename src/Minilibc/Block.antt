-- ===== src/Minilibc/Block.antt =====
-- memset and memcpy of src/vita/common/minilibc.c. They return their first argument, which a
-- caller has; what is modelled is the memory that they leave.
pub mod Laws
use adr_bubble_booter_oss.Prelude.{ℕ, zero, suc, ◌+◌, ◌%◌}
use adr_bubble_booter_oss.Memory.{Mem, store}

-- `value` is the bit pattern of the int
pub memset : Mem → ℕ → ℕ → ℕ → Mem
memset m destination value zero = m
memset m destination value (suc size) =
    memset (store m destination (value % 256)) (destination + 1) value size

-- bytes are copied upwards, each read after those before it are written
pub memcpy : Mem → ℕ → ℕ → ℕ → Mem
memcpy m destination source zero = m
memcpy m destination source (suc size) =
    memcpy (store m destination (m source)) (destination + 1) (source + 1) size
