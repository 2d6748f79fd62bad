-- ===== src/MasterImpl.antt =====
-- linux/master_impl.c: a request and its reply over a serial line.
--
-- The line is any type `D` with the two functions of linux/tty.c that use it: `tty_write` says how many
-- of the bytes it sent in time, and `tty_read` which bytes came in time, when asked for some number of
-- them. A transaction ends with the line, the caller's data and what it returns: the number of
-- elements in front of the returned pointer, or `none` for NULL. The local buffers are not
-- initialised, so their contents are arguments.
pub mod Reads
pub mod Writes
pub mod Tests
use modbus_c.Prelude.{
  ℕ, ◌+◌, ◌*◌, Bool, not, Option, none, some, List, [], ◌∷◌, ◌++◌, ◌==◌, if◌then◌else◌, length,
  take, Exec, done, ◌>>=◌, copy,
}
use modbus_c.Wire.{Data16, data16_to_word}
use modbus_c.Wire.Fcode
use modbus_c.Master.{
  memcpy, implace_crc, mem_access_request, bytes_request, make_request_wr_registers,
  make_request_wr_bytes,
}
use modbus_c.Master.Replies.{
  parse_reply_rd_holding_registers, parse_reply_wr_registers, parse_reply_wr_bytes,
  parse_reply_rd_bytes,
}

module _ {D : Type 0} (tty_write : D → List ℕ → D × ℕ) (tty_read : D → ℕ → D × List ℕ) where
  -- whether all was sent
  unfoldable pub write_impl : D → List ℕ → D × Bool
  write_impl dev target = let out = tty_write dev target in (out.0, out.1 == length target)

  -- the buffer with what came, and whether all did
  unfoldable pub read_impl : D → List ℕ → ℕ → Exec (D × List ℕ × Bool)
  read_impl dev buf size =
      let out = tty_read dev size in
      do buf' ← memcpy buf 0 out.1; done (out.0, buf', length out.1 == size)

  -- the two reads: a request of its own struct, a reply with `header` bytes in front of the `size` bytes
  -- of data, its check, and the copy of the data
  unfoldable pub read_data :
      D
      → List ℕ
      → ℕ
      → ℕ
      → (List ℕ → ℕ → Exec (Option ℕ))
      → List ℕ
      → List ℕ
      → ℕ
      → Exec (D × List ℕ × Option ℕ)
  read_data dev req header size parse_reply rx_buf target count = do
    (req', crc) ← implace_crc (req ++ 0 ∷ 0 ∷ []) (length req + 2)
    elim crc [
      | none ↦ done (dev, target, none)
      | some _ ↦
          let sent = write_impl dev req' in
          if not sent.1 then done (sent.0, target, none) else do
            read ← read_impl sent.0 rx_buf (header + size + 2)
            if not read.2 then done (read.0, target, none) else do
              rep ← parse_reply read.1 (header + size + 2)
              elim rep [
                | none ↦ done (read.0, target, none)
                | some _ ↦ do
                  bytes ← copy read.1 header size
                  target' ← memcpy target 0 bytes
                  done (read.0, target', some count)
              ]
    ]

  -- `target` is the bytes of the caller's array.
  unfoldable pub rtu_master_rd_holding_registers :
      D → ℕ → Data16 → Data16 → List ℕ → List ℕ → Exec (D × List ℕ × Option ℕ)
  rtu_master_rd_holding_registers dev addr mem_addr count rx_buf target =
      read_data dev (mem_access_request addr Fcode.rd_holding_registers mem_addr count) 3
        (data16_to_word count * 2) parse_reply_rd_holding_registers rx_buf target
        (data16_to_word count)

  unfoldable pub rtu_master_rd_bytes :
      D → ℕ → Data16 → ℕ → List ℕ → List ℕ → Exec (D × List ℕ × Option ℕ)
  rtu_master_rd_bytes dev addr mem_addr count rx_buf bytes =
      read_data dev (bytes_request addr Fcode.rd_bytes mem_addr count) 5 count parse_reply_rd_bytes
        rx_buf bytes count

  -- the two writes: a request in `tx_buf`, a reply in a struct of `size` bytes, and its check
  unfoldable pub write_data :
      D
      → Exec (List ℕ × Option ℕ)
      → ℕ
      → (List ℕ → ℕ → Exec (Option ℕ))
      → List ℕ
      → ℕ
      → Exec (D × Option ℕ)
  write_data dev request size parse_reply reply count = do
    (tx_buf, req_end) ← request
    elim req_end [
      | none ↦ done (dev, none)
      | some n ↦
          let sent = write_impl dev (take n tx_buf) in
          if not sent.1 then done (sent.0, none) else do
            read ← read_impl sent.0 reply size
            if not read.2 then done (read.0, none) else do
              rep ← parse_reply read.1 size
              done (read.0, elim rep [ none ↦ none | some _ ↦ some count ])
    ]

  unfoldable pub rtu_master_wr_registers :
      D → ℕ → Data16 → Data16 → Option (List Data16) → List ℕ → List ℕ → Exec (D × Option ℕ)
  rtu_master_wr_registers dev addr mem_addr count values tx_buf reply =
      write_data dev (make_request_wr_registers addr mem_addr values count (some tx_buf) 256) 8
        parse_reply_wr_registers reply (data16_to_word count)

  unfoldable pub rtu_master_wr_bytes :
      D → ℕ → Data16 → ℕ → Option (List ℕ) → List ℕ → List ℕ → Exec (D × Option ℕ)
  rtu_master_wr_bytes dev addr mem_addr count values tx_buf reply =
      write_data dev (make_request_wr_bytes addr mem_addr values count (some tx_buf) 256) 7
        parse_reply_wr_bytes reply count
