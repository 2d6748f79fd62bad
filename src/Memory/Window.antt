-- ===== src/Memory/Window.antt =====
-- The memory as `rtu_memory_impl_init` of the adapters sets it up, and where a request lies.
use modbus_c.Prelude.{ℕ, ◌+◌, ◌≤◌, ◌<◌, ◌^◌, ◌≡◌, List, length, IsBytes}
use modbus_c.Memory.{RtuMemory}

-- The window has 16-bit ends, and a byte for each address in it.
pub record IsWellFormed (mem : RtuMemory) : Type 0 where
  pub ends : mem.addr_end < 2 ^ 16
  pub size : mem.addr_begin + length mem.bytes ≡ mem.addr_end
  pub contents : IsBytes mem.bytes

-- the `num` addresses from `addr` on lie in the window
abbrev pub IsInside : RtuMemory → ℕ → ℕ → Type 0
IsInside mem addr num = (mem.addr_begin ≤ addr) × (addr + num ≤ mem.addr_end)

-- A request of `size` bytes behind the function code is in a buffer of bytes that holds `room` bytes
-- from there on.
pub record IsRequest (src : List ℕ) (begin end curr size room : ℕ) : Type 0 where
  pub bytes : IsBytes src
  pub start : curr ≡ begin + 1
  pub long : begin + 1 + size ≤ end
  pub held : curr + room ≤ length src
