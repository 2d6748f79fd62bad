-- ===== src/Memory.antt =====
-- rtu_memory.h and rtu_memory.c: the handler of a request PDU over a flat array of bytes.
--
-- A request lies in `src` at `[begin, end)`, `begin` at the function code and `curr` behind it; the
-- three are indices into `src`, the receive buffer. The reply is the list of the bytes written from
-- `reply` on. An `int` has 32 bits, so `addr + num` does not wrap.
pub mod Loops
pub mod Splice
pub mod Rounds
pub mod Fields
pub mod Window
pub mod Frame
pub mod Read
pub mod Write
pub mod Registers
pub mod Faults
pub mod RoundTrip
pub mod Tests
use modbus_c.Prelude.{
  ℕ, zero, suc, ◌+◌, ◌-◌, ◌*◌, ◌/◌, ◌^◌, bit_and, bit_or, Bool, true, false, not, ◌&&◌, List, [],
  ◌∷◌, ◌++◌, ltb, leb, ◌==◌, if◌then◌else◌, Exec, done, fault, stuck, ◌>>=◌, load, store, copy,
}
use modbus_c.Wire.{u8, u16}
use modbus_c.Wire.Fcode
use modbus_c.Wire.Ecode

-- `rtu_memory_t` with its header
pub record RtuMemory : Type 0 where
  pub addr_begin : ℕ
  pub addr_end : ℕ
  pub bytes : List ℕ

unfoldable pub rd16 : List ℕ → ℕ → Exec ℕ
rd16 src p = do high ← load src p; low ← load src (p + 1); done (u16 (bit_or (high * 2 ^ 8) low))

unfoldable pub wr16 : ℕ → List ℕ
wr16 word = u8 (word / 2 ^ 8) ∷ u8 (bit_and word 0xff) ∷ []

unfoldable pub except : ℕ → ℕ → List ℕ
except fcode ecode = u8 (fcode + 0x80) ∷ ecode ∷ []

-- A handler returns the memory and the reply.
abbrev pub Reply : Type 0
Reply = Exec (RtuMemory × List ℕ)

-- `RETURN_EXCEPTION_IF`, where its condition holds
abbrev pub reject : RtuMemory → ℕ → ℕ → Reply
reject mem fcode ecode = done (mem, except fcode ecode)

-- the loop of `read_n16`, on as many rounds as `fuel`
unfoldable pub read_registers : ℕ → List ℕ → ℕ → ℕ → Exec (List ℕ)
read_registers zero bytes addr_begin addr_end = stuck
read_registers (suc fuel) bytes addr_begin addr_end = elim (addr_begin == addr_end) [
  | true ↦ done []
  | false ↦ do
    word ← load bytes addr_begin
    rest ← read_registers fuel bytes (u16 (addr_begin + 1)) addr_end
    done (wr16 word ++ rest)
]

unfoldable pub read_n16 : RtuMemory → List ℕ → ℕ → ℕ → ℕ → Reply
read_n16 mem src begin end curr =
    if ltb (end - begin) 5 then reject mem Fcode.wr_bytes Ecode.format_error else do
      addr ← rd16 src curr
      if not (ltb addr mem.addr_end && leb mem.addr_begin addr)
          then reject mem Fcode.rd_holding_registers Ecode.illegal_data_address
          else do
            num ← rd16 src (curr + 2)
            if not (ltb 0 num && ltb num 0x7e)
                then reject mem Fcode.rd_holding_registers Ecode.illegal_data_value
                else if not (leb (addr + num) mem.addr_end)
                then reject mem Fcode.rd_holding_registers Ecode.illegal_data_address
                else do
                  let addr_begin = u16 (addr + 2 ^ 16 - mem.addr_begin)
                  words ← read_registers (suc num) mem.bytes addr_begin (u16 (addr_begin + num))
                  done (mem, Fcode.rd_holding_registers ∷ u8 (num * 2) ∷ words)

unfoldable pub write_16 : RtuMemory → List ℕ → ℕ → ℕ → ℕ → Reply
write_16 mem src begin end curr =
    if ltb (end - begin) 5 then reject mem Fcode.wr_bytes Ecode.format_error else do
      addr ← rd16 src curr
      if not (ltb addr mem.addr_end)
          then reject mem Fcode.wr_register Ecode.illegal_data_address
          else do
            word ← rd16 src (curr + 2)
            if not (bit_and 0xff00 word == 0)
                then reject mem Fcode.wr_register Ecode.illegal_data_value
                else do
                  -- the index is an `int`: below zero it lies outside, as one above the end does
                  bytes ←
                      if ltb addr mem.addr_begin
                      then fault
                      else store mem.bytes (addr - mem.addr_begin) (u8 word)
                  echo ← copy src begin 5
                  done (record mem { bytes = bytes }, echo)

-- the loop of `write_n16`, with whether it ran to its end
unfoldable pub write_registers : ℕ → List ℕ → List ℕ → ℕ → ℕ → ℕ → Exec (List ℕ × Bool)
write_registers zero bytes src curr addr_begin addr_end = stuck
write_registers (suc fuel) bytes src curr addr_begin addr_end = elim (addr_begin == addr_end) [
  | true ↦ done (bytes, true)
  | false ↦ do
    word ← rd16 src curr
    elim (bit_and 0xff00 word == 0) [
      | false ↦ done (bytes, false)
      | true ↦ do
        bytes' ← store bytes addr_begin (u8 word)
        write_registers fuel bytes' src (curr + 2) (u16 (addr_begin + 1)) addr_end
    ]
]

-- the end of `write_n16`, behind its loop
unfoldable pub written_n16 : RtuMemory → List ℕ → ℕ → List ℕ × Bool → Reply
written_n16 mem src begin (bytes, false) =
    reject (record mem { bytes = bytes }) Fcode.wr_registers Ecode.illegal_data_value
written_n16 mem src begin (bytes, true) = do
  echo ← copy src begin 5
  done (record mem { bytes = bytes }, echo)

unfoldable pub write_n16 : RtuMemory → List ℕ → ℕ → ℕ → ℕ → Reply
write_n16 mem src begin end curr =
    if ltb (end - begin) 5 then reject mem Fcode.wr_bytes Ecode.format_error else do
      addr ← rd16 src curr
      if not (ltb addr mem.addr_end)
          then reject mem Fcode.wr_registers Ecode.illegal_data_address
          else do
            num ← rd16 src (curr + 2)
            if not (ltb 0 num && ltb num 0x7c)
                then reject mem Fcode.wr_registers Ecode.illegal_data_value
                else do
                  byte_count ← load src (curr + 4)
                  -- `byte_count != end - curr`, of signed numbers
                  if not (byte_count == num * 2)
                      then reject mem Fcode.wr_registers Ecode.illegal_data_value
                      else if not (curr + 5 + byte_count == end)
                      then reject mem Fcode.wr_registers Ecode.format_error
                      else do
                        let addr_begin = u16 (addr + 2 ^ 16 - mem.addr_begin)
                        stored ←
                            write_registers (suc num) mem.bytes src (curr + 5) addr_begin
                              (u16 (addr_begin + num))
                        written_n16 mem src begin stored

-- the loop of `read_n8`
unfoldable pub read_bytes : ℕ → List ℕ → ℕ → ℕ → Exec (List ℕ)
read_bytes zero bytes addr_begin addr_end = stuck
read_bytes (suc fuel) bytes addr_begin addr_end = elim (addr_begin == addr_end) [
  | true ↦ done []
  | false ↦ do
    byte ← load bytes addr_begin
    rest ← read_bytes fuel bytes (u16 (addr_begin + 1)) addr_end
    done (byte ∷ rest)
]

unfoldable pub read_n8 : RtuMemory → List ℕ → ℕ → ℕ → ℕ → Reply
read_n8 mem src begin end curr =
    if ltb (end - begin) 4 then reject mem Fcode.wr_bytes Ecode.format_error else do
      addr ← rd16 src curr
      if not (ltb addr mem.addr_end && leb mem.addr_begin addr)
          then reject mem Fcode.rd_bytes Ecode.illegal_data_address
          else do
            num ← load src (curr + 2)
            if not (ltb 0 num && ltb num 250)
                then reject mem Fcode.rd_bytes Ecode.illegal_data_value
                else if not (leb (addr + num) mem.addr_end)
                then reject mem Fcode.rd_bytes Ecode.illegal_data_address
                else do
                  echo ← copy src begin 4
                  let addr_begin = u16 (addr + 2 ^ 16 - mem.addr_begin)
                  bytes ← read_bytes (suc num) mem.bytes addr_begin (u16 (addr_begin + num))
                  done (mem, echo ++ bytes)

-- the loop of `write_n8`
unfoldable pub write_bytes : ℕ → List ℕ → List ℕ → ℕ → ℕ → ℕ → Exec (List ℕ)
write_bytes zero bytes src curr offset_begin offset_end = stuck
write_bytes (suc fuel) bytes src curr offset_begin offset_end = elim (offset_begin == offset_end) [
  | true ↦ done bytes
  | false ↦ do
    byte ← load src curr
    bytes' ← store bytes offset_begin byte
    write_bytes fuel bytes' src (curr + 1) (u16 (offset_begin + 1)) offset_end
]

unfoldable pub write_n8 : RtuMemory → List ℕ → ℕ → ℕ → ℕ → Reply
write_n8 mem src begin end curr =
    if ltb (end - begin) 4 then reject mem Fcode.wr_bytes Ecode.format_error else do
      addr ← rd16 src curr
      if not (ltb addr mem.addr_end)
          then reject mem Fcode.wr_bytes Ecode.illegal_data_address
          else do
            num ← load src (curr + 2)
            -- `num != end - curr`, of signed numbers
            if not (ltb 0 num && ltb num 250)
                then reject mem Fcode.wr_bytes Ecode.illegal_data_value
                else if not (curr + 3 + num == end)
                then reject mem Fcode.wr_bytes Ecode.illegal_data_value
                else do
                  let offset_begin = u16 (addr + 2 ^ 16 - mem.addr_begin)
                  bytes ←
                      write_bytes (suc num) mem.bytes src (curr + 3) offset_begin
                        (u16 (offset_begin + num))
                  echo ← copy src begin 4
                  done (record mem { bytes = bytes }, echo)

unfoldable pub rtu_memory_pdu_cb : RtuMemory → ℕ → List ℕ → ℕ → ℕ → ℕ → Reply
rtu_memory_pdu_cb mem fcode src begin end curr =
    if fcode == Fcode.rd_holding_registers
    then read_n16 mem src begin end curr
    else if fcode == Fcode.wr_register
    then write_16 mem src begin end curr
    else if fcode == Fcode.wr_registers
    then write_n16 mem src begin end curr
    else if fcode == Fcode.rd_bytes
    then read_n8 mem src begin end curr
    else if fcode == Fcode.wr_bytes
    then write_n8 mem src begin end curr
    else reject mem fcode Ecode.illegal_function
