-- ===== src/Master.antt =====
-- master.c: the requests of a master and the checks of the replies.
--
-- A buffer is the list of its bytes and a pointer into it an index; `none` for a buffer is the null
-- pointer. A request ends with the buffer and the returned pointer, which is `none` for NULL.
pub mod Requests
pub mod Outcome
pub mod Parse
pub mod Tests
pub mod Replies
use modbus_c.Prelude.{
  ℕ, ◌+◌, ◌-◌, ◌*◌, not, ◌&&◌, Option, none, some, List, [], ◌∷◌, ◌++◌, ltb, leb, ◌==◌,
  if◌then◌else◌, length, take, Exec, done, fault, ◌>>=◌, load, store, copy,
}
use modbus_c.Wire.{u8, Data16, data16_to_word}
use modbus_c.Wire.Fcode
use modbus_c.Crc.{modbus_rtu_calc_crc}

-- what a request leaves in the buffer, and what it returns
abbrev pub Request : Type 0
Request = Exec (List ℕ × Option ℕ)

-- `memcpy` to index `p` of a buffer
unfoldable pub memcpy : List ℕ → ℕ → List ℕ → Exec (List ℕ)
memcpy buf p [] = done buf
memcpy buf p (b ∷ bs) = do buf' ← store buf p b; memcpy buf' (p + 1) bs

-- `begin` is the start of the buffer.
unfoldable pub implace_crc_impl : List ℕ → ℕ → ℕ → Request
implace_crc_impl buf end max_size =
    if ltb max_size (end + 2)
    then done (buf, none)
    else let crc = modbus_rtu_calc_crc (take end buf) in
      do
        buf' ← store buf end crc.low
        buf'' ← store buf' (end + 1) crc.high
        done (buf'', some (end + 2))

-- An ADU of less than two bytes has no place for a CRC: the pointer goes before its start.
unfoldable pub implace_crc : List ℕ → ℕ → Request
implace_crc adu adu_size =
    if ltb adu_size 2 then fault else implace_crc_impl adu (adu_size - 2) adu_size

unfoldable pub valid_crc_impl : List ℕ → ℕ → Exec (Option ℕ)
valid_crc_impl adu end =
    if leb end 2
    then done none
    else let crc = modbus_rtu_calc_crc (take (end - 2) adu) in
      do
        crc_low ← load adu (end - 2)
        crc_high ← load adu (end - 1)
        done (if crc_low == crc.low && crc_high == crc.high then some (end - 2) else none)

unfoldable pub valid_crc : List ℕ → ℕ → Exec (Option ℕ)
valid_crc adu adu_size = valid_crc_impl adu adu_size

abbrev pub data16s_bytes : List Data16 → List ℕ
data16s_bytes [] = []
data16s_bytes (d ∷ ds) = d.high ∷ d.low ∷ data16s_bytes ds

-- `modbus_rtu_mem_access_request_t`, less the CRC
abbrev pub mem_access_request : ℕ → ℕ → Data16 → Data16 → List ℕ
mem_access_request addr fcode mem_addr count =
    addr ∷ fcode ∷ mem_addr.high ∷ mem_addr.low ∷ count.high ∷ count.low ∷ []

-- `modbus_rtu_wr_register_t`, less the CRC
abbrev pub wr_register_request : ℕ → ℕ → Data16 → Data16 → List ℕ
wr_register_request addr fcode mem_addr value =
    addr ∷ fcode ∷ mem_addr.high ∷ mem_addr.low ∷ value.high ∷ value.low ∷ []

-- `modbus_rtu_wr_registers_request_header_t`
abbrev pub wr_registers_request_header : ℕ → ℕ → Data16 → Data16 → ℕ → List ℕ
wr_registers_request_header addr fcode mem_addr count byte_count =
    addr ∷ fcode ∷ mem_addr.high ∷ mem_addr.low ∷ count.high ∷ count.low ∷ byte_count ∷ []

-- `modbus_rtu_rd_bytes_request_t`, less the CRC
abbrev pub bytes_request : ℕ → ℕ → Data16 → ℕ → List ℕ
bytes_request addr fcode mem_addr count = addr ∷ fcode ∷ mem_addr.high ∷ mem_addr.low ∷ count ∷ []

-- `modbus_rtu_wr_bytes_request_header_t`
abbrev pub wr_bytes_request_header : ℕ → ℕ → Data16 → ℕ → List ℕ
wr_bytes_request_header addr fcode mem_addr count =
    addr ∷ fcode ∷ mem_addr.high ∷ mem_addr.low ∷ count ∷ []

-- a request built in the buffer
unfoldable pub build_in : List ℕ → List ℕ → ℕ → Request
build_in dst req max_size = do dst' ← memcpy dst 0 req; implace_crc_impl dst' (length req) max_size

-- a request built in a struct of its own, whose CRC is zero at first
unfoldable pub build_struct : List ℕ → List ℕ → Request
build_struct dst req = do
  (req', crc) ← implace_crc (req ++ 0 ∷ 0 ∷ []) (length req + 2)
  elim crc [
    | none ↦ done (dst, none)
    | some _ ↦ do dst' ← memcpy dst 0 req'; done (dst', some (length req + 2))
  ]

-- what a function that is given a null pointer returns
abbrev pub refused : List ℕ → Request
refused dst = done (dst, none)

unfoldable pub make_request_rd_coils : ℕ → Data16 → ℕ → Option (List ℕ) → ℕ → Request
make_request_rd_coils slave_addr mem_addr count none max_size = refused []
make_request_rd_coils slave_addr mem_addr count (some dst) max_size =
    if ltb 0x7d count
    then refused dst
    else if ltb max_size 6
    then refused dst
    else build_in dst
        (mem_access_request slave_addr Fcode.rd_coils mem_addr (record { high = 0; low = count }))
        max_size

unfoldable pub make_request_rd_holding_registers :
    ℕ → Data16 → Data16 → Option (List ℕ) → ℕ → Request
make_request_rd_holding_registers slave_addr mem_addr count none max_size = refused []
make_request_rd_holding_registers slave_addr mem_addr count (some dst) max_size =
    if ltb 0x7d (data16_to_word count)
    then refused dst
    else if ltb max_size 8
    then refused dst
    else build_struct dst (mem_access_request slave_addr Fcode.rd_holding_registers mem_addr count)

unfoldable pub make_request_wr_coil : ℕ → Data16 → ℕ → Option (List ℕ) → ℕ → Request
make_request_wr_coil slave_addr mem_addr value none max_size = refused []
make_request_wr_coil slave_addr mem_addr value (some dst) max_size =
    if not (value == 0) && not (value == 0xff)
    then refused dst
    else if ltb max_size 6
    then refused dst
    else build_in dst
        (mem_access_request slave_addr Fcode.wr_coil mem_addr (record { high = value; low = 0 }))
        max_size

-- This one does not test for a null pointer.
unfoldable pub make_request_wr_register : ℕ → Data16 → Data16 → Option (List ℕ) → ℕ → Request
make_request_wr_register slave_addr mem_addr value none max_size =
    if ltb max_size 8 then refused [] else fault
make_request_wr_register slave_addr mem_addr value (some dst) max_size =
    if ltb max_size 8
    then refused dst
    else build_struct dst (wr_register_request slave_addr Fcode.wr_register mem_addr value)

-- the values to write, and how many registers they are for
unfoldable pub make_request_wr_registers :
    ℕ → Data16 → Option (List Data16) → Data16 → Option (List ℕ) → ℕ → Request
make_request_wr_registers slave_addr mem_addr none count none max_size = refused []
make_request_wr_registers slave_addr mem_addr none count (some dst) max_size = refused dst
make_request_wr_registers slave_addr mem_addr (some values) count none max_size = refused []
make_request_wr_registers slave_addr mem_addr (some values) count (some dst) max_size =
    let word = data16_to_word count in
    let header =
      wr_registers_request_header slave_addr Fcode.wr_registers mem_addr count (u8 (word * 2)) in
    if ltb 0x7b word
    then refused dst
    else if ltb max_size (7 + word * 2 + 2)
    then refused dst
    else do
      dst' ← memcpy dst 0 header
      bytes ← copy (data16s_bytes values) 0 (word * 2)
      dst'' ← memcpy dst' 7 bytes
      implace_crc_impl dst'' (7 + word * 2) max_size

unfoldable pub make_request_wr_bytes :
    ℕ → Data16 → Option (List ℕ) → ℕ → Option (List ℕ) → ℕ → Request
make_request_wr_bytes slave_addr mem_addr none count none max_size = refused []
make_request_wr_bytes slave_addr mem_addr none count (some dst) max_size = refused dst
make_request_wr_bytes slave_addr mem_addr (some values) count none max_size = refused []
make_request_wr_bytes slave_addr mem_addr (some values) count (some dst) max_size =
    if ltb 249 count then refused dst else if ltb max_size (5 + count + 2) then refused dst else do
      dst' ← memcpy dst 0 (wr_bytes_request_header slave_addr Fcode.wr_bytes mem_addr count)
      bytes ← copy values 0 count
      dst'' ← memcpy dst' 5 bytes
      implace_crc_impl dst'' (5 + count) max_size

unfoldable pub make_request_rd_bytes : ℕ → Data16 → ℕ → Option (List ℕ) → ℕ → Request
make_request_rd_bytes slave_addr mem_addr count none max_size = refused []
make_request_rd_bytes slave_addr mem_addr count (some dst) max_size =
    if ltb 249 count
    then refused dst
    else if ltb max_size 7
    then refused dst
    else build_struct dst (bytes_request slave_addr Fcode.rd_bytes mem_addr count)
