-- ===== src/Memory/Tests.antt =====
-- The handlers on a window of four addresses from 16 on, in a buffer that starts with the slave's
-- address 1.
use modbus_c.Prelude.{ℕ, ◌<◌, ◌≡◌, refl, ◌⊎◌, List, [], ◌∷◌, done, fault, ◌>>=◌, Ensures, arith}
use modbus_c.Memory.{
  RtuMemory, wr16, except, read_n16, read_n8, write_n16, write_n8, rtu_memory_pdu_cb,
}
use modbus_c.Memory.Window.{IsWellFormed, IsRequest}
use modbus_c.Memory.Frame.{Framed, rtu_memory_pdu_cb-Framed}
use modbus_c.Memory.Read.{Answered, read_n16_lem, read_n8_lem}
use modbus_c.Memory.Write.{write_n8-stores, write_n8-outside}
use modbus_c.Memory.Registers.{IsAccepted, write_n16-stores, write_n16-partial, write_n16-outside}
use modbus_c.Memory.RoundTrip.{read_n8-write_n8, read_n16-write_n16}

abbrev four : List ℕ → RtuMemory
four bytes = record { addr_begin = 16; addr_end = 20; bytes = bytes }

abbrev window : RtuMemory
window = four (1 ∷ 2 ∷ 3 ∷ 4 ∷ [])

window-IsWellFormed : IsWellFormed window
window-IsWellFormed = record { ends = omega arith; size = refl; contents = omega arith }

-- two addresses from 17 on, as registers and as bytes
abbrev read_two_registers : List ℕ
read_two_registers = 1 ∷ 3 ∷ 0 ∷ 17 ∷ 0 ∷ 2 ∷ []

abbrev read_two_bytes : List ℕ
read_two_bytes = 1 ∷ 65 ∷ 0 ∷ 17 ∷ 2 ∷ []

read_two_registers-IsRequest : IsRequest read_two_registers 1 6 2 4 4
read_two_registers-IsRequest = record {
  bytes = omega arith;
  start = refl;
  long = omega arith;
  held = omega arith;
}

read_two_bytes-IsRequest : IsRequest read_two_bytes 1 5 2 3 3
read_two_bytes-IsRequest = record {
  bytes = omega arith;
  start = refl;
  long = omega arith;
  held = omega arith;
}

rtu_memory_pdu_cb-Framed_example :
    Ensures (Framed window) (rtu_memory_pdu_cb window 3 read_two_registers 1 6 2)
rtu_memory_pdu_cb-Framed_example =
    rtu_memory_pdu_cb-Framed window read_two_registers 1 6 2 (omega arith) (omega arith) 3

read_n16_lem_example :
    (Answered 125 window 17 2
      × (read_n16 window read_two_registers 1 6 2 ≡ done (window, 3 ∷ 4 ∷ 0 ∷ 2 ∷ 0 ∷ 3 ∷ [])))
    ⊎ ((¬ Answered 125 window 17 2)
        × (read_n16 window read_two_registers 1 6 2 ≡ done (window, except 3 2)))
unfolding wr16
read_n16_lem_example =
    read_n16_lem window read_two_registers 1 6 2 window-IsWellFormed read_two_registers-IsRequest

read_n8_lem_example :
    (Answered 249 window 17 2
      × (read_n8 window read_two_bytes 1 5 2 ≡ done (window, 65 ∷ 0 ∷ 17 ∷ 2 ∷ 2 ∷ 3 ∷ [])))
    ⊎ ((¬ Answered 249 window 17 2)
        × (read_n8 window read_two_bytes 1 5 2 ≡ done (window, except 65 2)))
read_n8_lem_example =
    read_n8_lem window read_two_bytes 1 5 2 window-IsWellFormed read_two_bytes-IsRequest

-- a write of one register
abbrev one_register : ℕ → ℕ → ℕ → List ℕ
one_register addr high low = 1 ∷ 6 ∷ 0 ∷ addr ∷ high ∷ low ∷ []

one_register-IsRequest :
    (addr high low : ℕ)
    → addr < 256
    → high < 256
    → low < 256
    → IsRequest (one_register addr high low) 1 6 2 4 4
one_register-IsRequest addr high low a h l = record {
  bytes = omega arith;
  start = refl;
  long = omega arith;
  held = omega arith;
}

-- a write of two bytes
abbrev two_bytes : ℕ → List ℕ
two_bytes addr = 1 ∷ 66 ∷ 0 ∷ addr ∷ 2 ∷ 8 ∷ 9 ∷ []

two_bytes-IsRequest : (addr : ℕ) → addr < 256 → IsRequest (two_bytes addr) 1 7 2 3 5
two_bytes-IsRequest addr h = record {
  bytes = omega arith;
  start = refl;
  long = omega arith;
  held = omega arith;
}

write_n8-stores_example :
    write_n8 window (two_bytes 17) 1 7 2 ≡ done (four (1 ∷ 8 ∷ 9 ∷ 4 ∷ []), 66 ∷ 0 ∷ 17 ∷ 2 ∷ [])
write_n8-stores_example =
    write_n8-stores window (two_bytes 17) 1 7 2 window-IsWellFormed 17 2
      (two_bytes-IsRequest 17 (omega arith)) refl refl (omega arith) (omega arith) refl
      (omega arith)

write_n8-outside_example : write_n8 window (two_bytes 19) 1 7 2 ≡ fault
write_n8-outside_example =
    write_n8-outside window (two_bytes 19) 1 7 2 window-IsWellFormed 19 2
      (two_bytes-IsRequest 19 (omega arith)) refl refl (omega arith) (omega arith) refl
      (omega arith) (omega arith)

-- a write of two registers
abbrev two_registers : ℕ → ℕ → List ℕ
two_registers addr high = 1 ∷ 16 ∷ 0 ∷ addr ∷ 0 ∷ 2 ∷ 4 ∷ 0 ∷ 8 ∷ high ∷ 9 ∷ []

two_registers-IsAccepted :
    (addr high : ℕ)
    → addr < 20
    → high < 256
    → IsAccepted window (two_registers addr high) 1 11 2 addr 2
two_registers-IsAccepted addr high h k = record {
  request = record { bytes = omega arith; start = refl; long = omega arith; held = omega arith };
  start = omega arith;
  count = refl;
  few = omega arith;
  byte_count = refl;
  exact = refl;
  before_end = h;
}

write_n16-stores_example :
    write_n16 window (two_registers 17 0) 1 11 2
    ≡ done (four (1 ∷ 8 ∷ 9 ∷ 4 ∷ []), 16 ∷ 0 ∷ 17 ∷ 0 ∷ 2 ∷ [])
write_n16-stores_example =
    write_n16-stores window (two_registers 17 0) 1 11 2 window-IsWellFormed 17 2
      (two_registers-IsAccepted 17 0 (omega arith) (omega arith)) (omega arith) (omega arith)

write_n16-partial_example :
    write_n16 window (two_registers 17 1) 1 11 2 ≡ done (four (1 ∷ 8 ∷ 3 ∷ 4 ∷ []), except 16 3)
write_n16-partial_example =
    write_n16-partial window (two_registers 17 1) 1 11 2 window-IsWellFormed 17 2
      (two_registers-IsAccepted 17 1 (omega arith) (omega arith)) 1 (omega arith) (omega arith)
      (omega arith) (omega arith)

write_n16-outside_example : write_n16 window (two_registers 19 0) 1 11 2 ≡ fault
write_n16-outside_example =
    write_n16-outside window (two_registers 19 0) 1 11 2 window-IsWellFormed 19 2
      (two_registers-IsAccepted 19 0 (omega arith) (omega arith)) (omega arith) (omega arith)

read_n8-write_n8_example :
    (write_n8 window (two_bytes 17) 1 7 2 >>= λ out. read_n8 out.0 read_two_bytes 1 5 2)
    ≡ done (four (1 ∷ 8 ∷ 9 ∷ 4 ∷ []), 65 ∷ 0 ∷ 17 ∷ 2 ∷ 8 ∷ 9 ∷ [])
read_n8-write_n8_example =
    read_n8-write_n8 window (two_bytes 17) 1 7 2 window-IsWellFormed read_two_bytes 1 5 2 17 2
      (omega arith) (two_bytes-IsRequest 17 (omega arith)) refl refl (omega arith) (omega arith)
      refl read_two_bytes-IsRequest refl refl

read_n16-write_n16_example :
    (write_n16 window (two_registers 17 0) 1 11 2 >>= λ out.
    read_n16 out.0 read_two_registers 1 6 2)
    ≡ done (four (1 ∷ 8 ∷ 9 ∷ 4 ∷ []), 3 ∷ 4 ∷ 0 ∷ 8 ∷ 0 ∷ 9 ∷ [])
unfolding wr16
read_n16-write_n16_example =
    read_n16-write_n16 window (two_registers 17 0) 1 11 2 window-IsWellFormed read_two_registers 1 6
      2 17 2 (omega arith) (two_registers-IsAccepted 17 0 (omega arith) (omega arith)) (omega arith)
      read_two_registers-IsRequest refl refl
