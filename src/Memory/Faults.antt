-- ===== src/Memory/Faults.antt =====
-- The loops of the write handlers outside the array: they have no test of the end of the window, and
-- meet a fault at the first index behind it.
use modbus_c.Prelude.{
  ℕ, zero, suc, ◌+◌, ◌*◌, ◌^◌, ◌≤◌, ◌<◌, ◌≡◌, List, length, length-set, get_or, set, fault, load_in,
  store_in, store_out, IsBytes, dec_lt, arith,
}
use modbus_c.Wire.{u16}
use modbus_c.Memory.{write_registers, write_bytes}
use modbus_c.Memory.Fields.{word_at, rd16_in, high_byte_clear}
use modbus_c.Memory.Loops.{words}

pub write_bytes-fault :
    (n : ℕ) (bytes src : List ℕ) (c i e : ℕ)
    → c + suc n ≤ length src
    → length bytes < i + suc n
    → length bytes < 2 ^ 16
    → i < 2 ^ 16
    → suc n < 2 ^ 16
    → e ≡ u16 (i + suc n)
    → write_bytes (suc (suc n)) bytes src c i e ≡ fault
unfolding write_bytes
write_bytes-fault zero bytes src c i e s out small hi hn q =
    ground (arith, load_in src c, store_out bytes i (get_or src c 0))
write_bytes-fault (suc n) bytes src c i e s out small hi hn q =
    let v = get_or src c 0 in
    elim (dec_lt i (length bytes)) [
      | yes p ↦ ground (
        arith,
        load_in src c,
        store_in bytes i v,
        length-set bytes i v,
        write_bytes-fault n (set bytes i v) src (c + 1) (u16 (i + 1)) e (omega arith)
            (omega (arith, length-set bytes i v)) (omega (arith, length-set bytes i v))
            (omega arith) (omega arith) (omega arith),
      )
      | no p ↦ ground (arith, load_in src c, store_out bytes i v)
    ]

pub write_registers-fault :
    (n : ℕ) (bytes src : List ℕ) (c i e : ℕ)
    → IsBytes src
    → c + suc n * 2 ≤ length src
    → IsBytes (words src c (suc n))
    → length bytes < i + suc n
    → length bytes < 2 ^ 16
    → i < 2 ^ 16
    → suc n < 2 ^ 16
    → e ≡ u16 (i + suc n)
    → write_registers (suc (suc n)) bytes src c i e ≡ fault
unfolding write_registers
write_registers-fault zero bytes src c i e v s w out small hi hn q =
    let x = word_at src c in
    ground (arith, rd16_in src c v, high_byte_clear x w.0, store_out bytes i x)
write_registers-fault (suc n) bytes src c i e v s w out small hi hn q =
    let x = word_at src c in
    elim (dec_lt i (length bytes)) [
      | yes p ↦ ground (
        arith,
        rd16_in src c v,
        high_byte_clear x w.0,
        store_in bytes i x,
        length-set bytes i x,
        write_registers-fault n (set bytes i x) src (c + 2) (u16 (i + 1)) e v (omega arith) w.1
            (omega (arith, length-set bytes i x)) (omega (arith, length-set bytes i x))
            (omega arith) (omega arith) (omega arith),
      )
      | no p ↦ ground (arith, rd16_in src c v, high_byte_clear x w.0, store_out bytes i x)
    ]
