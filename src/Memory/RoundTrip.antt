-- ===== src/Memory/RoundTrip.antt =====
-- What is written is read back, by the same view of the memory and by the other.
use modbus_c.Prelude.{
  ℕ, ◌+◌, ◌-◌, ◌*◌, ◌≤◌, ◌≡◌, sym, List, ◌∷◌, ◌++◌, length, get_or, done, ◌>>=◌, IsBytes, arith,
}
use modbus_c.Wire.Fcode
use modbus_c.Memory.{RtuMemory, read_n16, write_n16, read_n8, write_n8}
use modbus_c.Memory.Fields.{word_at}
use modbus_c.Memory.Loops.{expand, slice, splice, words}
use modbus_c.Memory.Window.{IsWellFormed, IsInside, IsRequest}
use modbus_c.Memory.Splice.{
  length-splice, splice-IsBytes, slice-splice, length-slice, slice-IsBytes, length-words,
}
use modbus_c.Memory.Read.{read_n16-Answered, read_n8-Answered}
use modbus_c.Memory.Write.{write_n8-stores}
use modbus_c.Memory.Registers.{IsAccepted, write_n16-stores}

abbrev pub stored : RtuMemory → ℕ → List ℕ → RtuMemory
stored mem addr values = record mem { bytes = splice mem.bytes (addr - mem.addr_begin) values }

-- A write inside the window keeps the memory well formed.
pub stored-IsWellFormed :
    (mem : RtuMemory) (addr : ℕ) (values : List ℕ)
    → IsWellFormed mem
    → IsBytes values
    → IsWellFormed (stored mem addr values)
stored-IsWellFormed mem addr values w v = record {
  ends = w.ends;
  size = omega (arith, w, length-splice values mem.bytes (addr - mem.addr_begin));
  contents = splice-IsBytes values mem.bytes (addr - mem.addr_begin) w.contents v;
}

pub stored-slice :
    (mem : RtuMemory) (addr num : ℕ) (values : List ℕ)
    → IsWellFormed mem
    → num ≡ length values
    → IsInside mem addr num
    → slice (stored mem addr values).bytes (addr - mem.addr_begin) num ≡ values
stored-slice mem addr num values w e h =
    slice-splice values mem.bytes (addr - mem.addr_begin) num e (omega (arith, w))

-- A later request `src'` at `[begin', end')` for the same addresses.
module _ (mem : RtuMemory) (src : List ℕ) (begin end curr : ℕ) (w : IsWellFormed mem)
    (src' : List ℕ) (begin' end' curr' : ℕ) (addr num : ℕ) (inside : IsInside mem addr num) where
  -- In a well-formed memory, the 1 to 249 bytes that a request inside the window writes by
  -- `write_n8` are what `read_n8` answers for the same addresses.
  pub read_n8-write_n8 :
      IsRequest src begin end curr 3 (3 + num)
      → word_at src curr ≡ addr
      → get_or src (curr + 2) 0 ≡ num
      → 1 ≤ num
      → num ≤ 249
      → end ≡ curr + 3 + num
      → IsRequest src' begin' end' curr' 3 3
      → word_at src' curr' ≡ addr
      → get_or src' (curr' + 2) 0 ≡ num
      → (write_n8 mem src begin end curr >>= λ out. read_n8 out.0 src' begin' end' curr')
        ≡ done (
          stored mem addr (slice src (curr + 3) num),
          slice src' begin' 4 ++ slice src (curr + 3) num,
        )
  read_n8-write_n8 r ea en lo hi he r' ea' en' =
      let values = slice src (curr + 3) num in
      let v = slice-IsBytes num src (curr + 3) r.bytes in
      rw (
        write_n8-stores mem src begin end curr w addr num r ea en lo hi he inside,
        read_n8-Answered (stored mem addr values) src' begin' end' curr'
            (stored-IsWellFormed mem addr values w v) addr num r' ea' en' (lo, hi, inside),
        stored-slice mem addr num values w (sym (length-slice num src (curr + 3) (omega arith)))
            inside,
      )

  -- In a well-formed memory, the registers that an accepted request inside the window writes by
  -- `write_n16`, if all fit a byte, are what `read_n16` answers for the same addresses.
  pub read_n16-write_n16 :
      IsAccepted mem src begin end curr addr num
      → IsBytes (words src (curr + 5) num)
      → IsRequest src' begin' end' curr' 4 4
      → word_at src' curr' ≡ addr
      → word_at src' (curr' + 2) ≡ num
      → (write_n16 mem src begin end curr >>= λ out. read_n16 out.0 src' begin' end' curr')
        ≡ done (
          stored mem addr (words src (curr + 5) num),
          Fcode.rd_holding_registers ∷ (num * 2) ∷ expand (words src (curr + 5) num),
        )
  read_n16-write_n16 a v r' ea' en' =
      let values = words src (curr + 5) num in
      rw (
        write_n16-stores mem src begin end curr w addr num a inside v,
        read_n16-Answered (stored mem addr values) src' begin' end' curr'
            (stored-IsWellFormed mem addr values w v) addr num r' ea' en'
            (omega (arith, a.few), omega (arith, a.few), inside),
        stored-slice mem addr num values w (sym (length-words num src (curr + 5))) inside,
      )

  -- In a well-formed memory, the registers that an accepted request inside the window writes by
  -- `write_n16`, if all fit a byte, are what `read_n8` answers as single bytes for the same
  -- addresses.
  pub read_n8-write_n16 :
      IsAccepted mem src begin end curr addr num
      → IsBytes (words src (curr + 5) num)
      → IsRequest src' begin' end' curr' 3 3
      → word_at src' curr' ≡ addr
      → get_or src' (curr' + 2) 0 ≡ num
      → (write_n16 mem src begin end curr >>= λ out. read_n8 out.0 src' begin' end' curr')
        ≡ done (
          stored mem addr (words src (curr + 5) num),
          slice src' begin' 4 ++ words src (curr + 5) num,
        )
  read_n8-write_n16 a v r' ea' en' =
      let values = words src (curr + 5) num in
      rw (
        write_n16-stores mem src begin end curr w addr num a inside v,
        read_n8-Answered (stored mem addr values) src' begin' end' curr'
            (stored-IsWellFormed mem addr values w v) addr num r' ea' en'
            (omega (arith, a.few), omega (arith, a.few), inside),
        stored-slice mem addr num values w (sym (length-words num src (curr + 5))) inside,
      )
