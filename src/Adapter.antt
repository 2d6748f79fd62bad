-- ===== src/Adapter.antt =====
-- linux/rtu_impl.c and atmega328p/rtu_memory_impl.c: the PDU callback of a slave, which leaves
-- requests for other addresses alone.
pub mod Serves
use modbus_c.Prelude.{ℕ, ◌+◌, ◌==◌, not, List, [], ◌∷◌, if◌then◌else◌, replicate, Exec, done, ◌>>=◌}
use modbus_c.Wire.{u16}
use modbus_c.Memory.{RtuMemory, rtu_memory_pdu_cb}

-- `rtu_memory_impl_t`; `memory` is the header and the bytes behind it.
pub record RtuMemoryImpl : Type 0 where
  pub self_addr : ℕ
  pub memory : RtuMemory

-- for RTU_MEMORY_SIZE
unfoldable pub rtu_memory_impl_clear : ℕ → RtuMemoryImpl
rtu_memory_impl_clear size = record {
  self_addr = 0;
  memory = record { addr_begin = 0; addr_end = 0; bytes = replicate size 0 };
}

-- for RTU_MEMORY_ADDR and RTU_MEMORY_SIZE
unfoldable pub rtu_memory_impl_init : ℕ → ℕ → RtuMemoryImpl → RtuMemoryImpl
rtu_memory_impl_init addr size impl = record impl {
  memory = record (impl.memory) { addr_begin = u16 addr; addr_end = u16 (addr + size) };
}

unfoldable pub rtu_memory_impl_pdu_cb :
    RtuMemoryImpl → ℕ → ℕ → List ℕ → ℕ → ℕ → ℕ → Exec (RtuMemoryImpl × List ℕ)
rtu_memory_impl_pdu_cb impl addr fcode src begin end curr =
    if not (impl.self_addr == addr) then done (impl, []) else do
      (memory, reply) ← rtu_memory_pdu_cb impl.memory fcode src (begin + 1) end curr
      done (record impl { memory = memory }, addr ∷ reply)
