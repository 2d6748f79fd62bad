-- ===== src/Memory/Registers.antt =====
-- `write_n16`: what it stores and answers, what a refused request leaves behind, and where it writes
-- outside the memory.
use modbus_c.Prelude.{
  ℕ, zero, suc, ◌+◌, ◌-◌, ◌*◌, ◌≤◌, ◌<◌, ◌^◌, ◌≡◌, false, List, length, get_or, set, length-set,
  done, fault, load_in, copy_in, store_in, IsBytes, arith,
}
use modbus_c.Wire.{u16}
use modbus_c.Wire.Fcode
use modbus_c.Wire.Ecode
use modbus_c.Memory.{RtuMemory, except, write_registers, write_n16, written_n16}
use modbus_c.Memory.Fields.{word_at, word_at-lt, rd16_in, high_byte_clear, high_byte_set}
use modbus_c.Memory.Loops.{slice, splice, words, add_one, write_registers-splice}
use modbus_c.Memory.Faults.{write_registers-fault}
use modbus_c.Memory.Window.{IsWellFormed, IsInside, IsRequest}

-- The loop stops at the first value that does not fit a byte, behind `k` that do.
write_registers-stops :
    (k n : ℕ) (bytes src : List ℕ) (c p i e : ℕ)
    → IsBytes src
    → p ≡ c + k * 2
    → p + 2 ≤ length src
    → IsBytes (words src c k)
    → 256 ≤ word_at src p
    → k < n
    → i + k ≤ length bytes
    → e ≡ u16 (i + n)
    → length bytes < 2 ^ 16
    → i < 2 ^ 16
    → n < 2 ^ 15
    → write_registers (suc n) bytes src c i e ≡ done (splice bytes i (words src c k), false)
unfolding write_registers
write_registers-stops k zero bytes src c p i e v o s w big hk h q lim hi hn = absurd (omega arith)
write_registers-stops zero (suc n) bytes src c p i e v o s w big hk h q lim hi hn =
    let same : p ≡ c = omega arith in
    ground (arith, rd16_in src p v, word_at-lt src p v, high_byte_set (word_at src p))
write_registers-stops (suc k) (suc n) bytes src c p i e v o s w big hk h q lim hi hn =
    let x = word_at src c in
    ground (
      arith,
      rd16_in src c v,
      high_byte_clear x w.0,
      store_in bytes i x,
      length-set bytes i x,
      add_one i,
      write_registers-stops k n (set bytes i x) src (c + 2) p (u16 (i + 1)) e v (omega arith) s w.1
          big (omega arith) (omega (arith, length-set bytes i x)) (omega arith)
          (omega (arith, length-set bytes i x)) (omega arith) (omega arith),
    )

-- What `write_n16` accepts before its loop: 1 to 123 registers that start before the end of the
-- window, with a count of their bytes, and exactly these bytes behind the header.
pub record IsAccepted (mem : RtuMemory) (src : List ℕ) (begin end curr addr num : ℕ) : Type 0 where
  pub request : IsRequest src begin end curr 4 (5 + num * 2)
  pub start : word_at src curr ≡ addr
  pub count : word_at src (curr + 2) ≡ num
  pub few : (1 ≤ num) × (num ≤ 123)
  pub byte_count : get_or src (curr + 4) 0 ≡ num * 2
  pub exact : end ≡ curr + 5 + num * 2
  pub before_end : addr < mem.addr_end

module _ (mem : RtuMemory) (src : List ℕ) (begin end curr : ℕ) (w : IsWellFormed mem) (addr num : ℕ)
    (a : IsAccepted mem src begin end curr addr num) where
  -- In a well-formed memory, an accepted request to write registers inside the window whose values
  -- all fit a byte stores them in order, and is answered by its first five bytes.
  pub write_n16-stores :
      IsInside mem addr num
      → IsBytes (words src (curr + 5) num)
      → write_n16 mem src begin end curr
        ≡ done (
          record mem {
            bytes = splice mem.bytes (addr - mem.addr_begin) (words src (curr + 5) num);
          },
          slice src begin 5,
        )
  unfolding write_n16 written_n16
  write_n16-stores h v = ground (
    arith,
    w,
    a.request,
    rd16_in src curr a.request.bytes,
    rd16_in src (curr + 2) a.request.bytes,
    load_in src (curr + 4),
    copy_in 5 src begin (omega arith),
    write_registers-splice num mem.bytes src (curr + 5) (u16 (addr + 2 ^ 16 - mem.addr_begin))
        (u16 (u16 (addr + 2 ^ 16 - mem.addr_begin) + num)) a.request.bytes,
  )

  -- In a well-formed memory, an accepted request to write registers inside the window whose value
  -- number `k` is the first that does not fit a byte is refused, but the `k` values before it have
  -- been stored.
  pub write_n16-partial :
      (k : ℕ)
      → IsInside mem addr num
      → k < num
      → IsBytes (words src (curr + 5) k)
      → 256 ≤ word_at src (curr + 5 + k * 2)
      → write_n16 mem src begin end curr
        ≡ done (
          record mem { bytes = splice mem.bytes (addr - mem.addr_begin) (words src (curr + 5) k) },
          except Fcode.wr_registers Ecode.illegal_data_value,
        )
  unfolding write_n16 written_n16
  write_n16-partial k h hk v big = ground (
    arith,
    w,
    a.request,
    rd16_in src curr a.request.bytes,
    rd16_in src (curr + 2) a.request.bytes,
    load_in src (curr + 4),
    write_registers-stops k num mem.bytes src (curr + 5) (curr + 5 + k * 2)
        (u16 (addr + 2 ^ 16 - mem.addr_begin)) (u16 (u16 (addr + 2 ^ 16 - mem.addr_begin) + num))
        a.request.bytes,
  )

-- In a well-formed memory, a request to write registers that `write_n16` accepts, whose values all
-- fit a byte but whose addresses do not all lie in the window, writes outside the memory.
pub write_n16-outside :
    (mem : RtuMemory) (src : List ℕ) (begin end curr : ℕ) (w : IsWellFormed mem) (addr num : ℕ)
    → IsAccepted mem src begin end curr addr num
    → ¬ IsInside mem addr num
    → IsBytes (words src (curr + 5) num)
    → write_n16 mem src begin end curr ≡ fault
unfolding write_n16
write_n16-outside mem src begin end curr w addr zero a h v = absurd (omega (arith, a.few))
write_n16-outside mem src begin end curr w addr (suc n) a h v = ground (
  arith,
  w,
  a.request,
  rd16_in src curr a.request.bytes,
  rd16_in src (curr + 2) a.request.bytes,
  load_in src (curr + 4),
  write_registers-fault n mem.bytes src (curr + 5) (u16 (addr + 2 ^ 16 - mem.addr_begin))
      (u16 (u16 (addr + 2 ^ 16 - mem.addr_begin) + suc n)) a.request.bytes,
)
