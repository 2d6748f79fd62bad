-- ===== src/Memory/Write.antt =====
-- The write handlers: what they store and answer, and where they write outside the memory.
use modbus_c.Prelude.{
  if◌then◌else◌, ltb, ℕ, zero, suc, ◌+◌, ◌-◌, ◌≤◌, ◌<◌, ◌^◌, ◌≡◌, ◌⊎◌, List, get_or, set, done,
  fault, load_in, copy_in, store_in, arith,
}
use modbus_c.Wire.{u16}
use modbus_c.Wire.Fcode
use modbus_c.Wire.Ecode
use modbus_c.Memory.{RtuMemory, except, write_16, write_n8}
use modbus_c.Memory.Fields.{word_at, word_at-lt, rd16_in, high_byte_clear, high_byte_set}
use modbus_c.Memory.Loops.{slice, splice, write_bytes-splice}
use modbus_c.Memory.Faults.{write_bytes-fault}
use modbus_c.Memory.Window.{IsWellFormed, IsInside, IsRequest}

module _ (mem : RtuMemory) (src : List ℕ) (begin end curr : ℕ) (w : IsWellFormed mem) where
  -- In a well-formed memory, a request to write one register stores its value, if that fits a byte
  -- and the address lies in the window, and is answered by its first five bytes.
  pub write_16-stores :
      (addr value : ℕ)
      → IsRequest src begin end curr 4 4
      → word_at src curr ≡ addr
      → word_at src (curr + 2) ≡ value
      → IsInside mem addr 1
      → value < 256
      → write_16 mem src begin end curr
        ≡ done
            (record mem { bytes = set mem.bytes (addr - mem.addr_begin) value }, slice src begin 5)
  unfolding write_16
  write_16-stores addr value r ea ev h small = ground (
    arith,
    w,
    rd16_in src curr r.bytes,
    rd16_in src (curr + 2) r.bytes,
    high_byte_clear value small,
    store_in mem.bytes (addr - mem.addr_begin) value,
    copy_in 5 src begin (omega arith),
  )

  -- A request to write one register at an address behind the window is refused as a bad address;
  -- one before the window's end whose value does not fit a byte is refused as a bad value. The
  -- memory stays.
  pub write_16-refused :
      (addr value : ℕ)
      → IsRequest src begin end curr 4 4
      → word_at src curr ≡ addr
      → word_at src (curr + 2) ≡ value
      → (mem.addr_end ≤ addr) ⊎ (256 ≤ value)
      → write_16 mem src begin end curr
        ≡ done (
          mem,
          except Fcode.wr_register (
              if ltb addr mem.addr_end
              then Ecode.illegal_data_value
              else Ecode.illegal_data_address),
        )
  unfolding write_16
  write_16-refused addr value r ea ev h = ground (
    arith,
    rd16_in src curr r.bytes,
    rd16_in src (curr + 2) r.bytes,
    high_byte_set value (omega (arith, word_at-lt src (curr + 2) r.bytes)),
  )

  -- In a well-formed memory, a request to write `num` bytes with exactly as many behind its header
  -- stores them in order, if they are 1 to 249 and all their addresses lie in the window, and is
  -- answered by its first four bytes.
  pub write_n8-stores :
      (addr num : ℕ)
      → IsRequest src begin end curr 3 (3 + num)
      → word_at src curr ≡ addr
      → get_or src (curr + 2) 0 ≡ num
      → 1 ≤ num
      → num ≤ 249
      → end ≡ curr + 3 + num
      → IsInside mem addr num
      → write_n8 mem src begin end curr
        ≡ done (
          record mem {
            bytes = splice mem.bytes (addr - mem.addr_begin) (slice src (curr + 3) num);
          },
          slice src begin 4,
        )
  unfolding write_n8
  write_n8-stores addr num r ea en lo hi he h = ground (
    arith,
    w,
    rd16_in src curr r.bytes,
    load_in src (curr + 2),
    copy_in 4 src begin (omega arith),
    write_bytes-splice num mem.bytes src (curr + 3) (u16 (addr + 2 ^ 16 - mem.addr_begin))
        (u16 (u16 (addr + 2 ^ 16 - mem.addr_begin) + num)),
  )

  -- In a well-formed memory, a request to write 1 to 249 bytes, with exactly as many behind its
  -- header, that starts before the end of the window but does not lie inside it, writes outside the
  -- memory.
  pub write_n8-outside :
      (addr num : ℕ)
      → IsRequest src begin end curr 3 (3 + num)
      → word_at src curr ≡ addr
      → get_or src (curr + 2) 0 ≡ num
      → 1 ≤ num
      → num ≤ 249
      → end ≡ curr + 3 + num
      → addr < mem.addr_end
      → ¬ IsInside mem addr num
      → write_n8 mem src begin end curr ≡ fault
  unfolding write_n8
  write_n8-outside addr zero r ea en lo hi he ha h = absurd (omega arith)
  write_n8-outside addr (suc n) r ea en lo hi he ha h = ground (
    arith,
    w,
    rd16_in src curr r.bytes,
    load_in src (curr + 2),
    write_bytes-fault n mem.bytes src (curr + 3) (u16 (addr + 2 ^ 16 - mem.addr_begin))
        (u16 (u16 (addr + 2 ^ 16 - mem.addr_begin) + suc n)),
  )
