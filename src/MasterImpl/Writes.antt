-- ===== src/MasterImpl/Writes.antt =====
-- The two writes of linux/master_impl.c, whatever the line does.
use modbus_c.Prelude.{
  ℕ, ◌+◌, ◌*◌, ◌≤◌, ◌≡◌, ◌⊎◌, inl, inr, Option, none, some, List, ◌++◌, ◌==◌, Bool-cases, length,
  length-append, length-drop, take, drop, Exec, done, arith,
}
use modbus_c.Prelude.Behind.{take_behind}
use modbus_c.Wire.{u8, Data16, data16_to_word}
use modbus_c.Wire.Fcode
use modbus_c.Crc.Frame.{frame, length-frame, HasCrc}
use modbus_c.Master.{wr_bytes_request_header, wr_registers_request_header, Request, data16s_bytes}
use modbus_c.Master.Requests.{memcpy_start}
use modbus_c.Master.Outcome.{Outcome, make_request_wr_registers_lem, make_request_wr_bytes_lem}
use modbus_c.Master.Parse.{Accepts, fixed_replies_lem}
use modbus_c.Master.Replies.{parse_reply_wr_registers, parse_reply_wr_bytes}
use modbus_c.MasterImpl.{
  write_impl, read_impl, write_data, rtu_master_wr_registers, rtu_master_wr_bytes,
}
use modbus_c.MasterImpl.Reads.{answer, in_buffer, IsBounded}

module _ {D : Type 0} (tty_write : D → List ℕ → D × ℕ) (tty_read : D → ℕ → D × List ℕ) where
  -- NULL is returned, or the request was made and sent in full, and a reply of `size` bytes came that
  -- ends with its CRC.
  abbrev pub Confirmed : D → Type 0 → List ℕ → ℕ → List ℕ → ℕ → Exec (D × Option ℕ) → Type 0
  Confirmed dev ok req size reply count m =
      ((dev' : D) × (m ≡ done (dev', none)))
      ⊎ (ok
          × ((tty_write dev (frame req)).1 ≡ length (frame req))
          × (length (answer tty_write tty_read dev req size).1 ≡ size)
          × HasCrc (in_buffer (answer tty_write tty_read dev req size).1 reply) size
          × (m ≡ done ((answer tty_write tty_read dev req size).0, some count)))

module _ {D : Type 0} (tty_write : D → List ℕ → D × ℕ) (tty_read : D → ℕ → D × List ℕ)
    (bounded : IsBounded tty_read) where
  write_data_lem :
      (dev : D) (request : Request) (ok : Type 0) (tx_buf req : List ℕ) (size : ℕ)
      (parse_reply : List ℕ → ℕ → Exec (Option ℕ)) (reply : List ℕ) (count : ℕ)
      → Outcome ok tx_buf req request
      → size ≤ length reply
      → Accepts
          ((size ≡ size) × HasCrc (in_buffer (answer tty_write tty_read dev req size).1 reply) size)
          0
          (parse_reply (in_buffer (answer tty_write tty_read dev req size).1 reply) size)
      → Confirmed tty_write tty_read dev ok req size reply count
          (write_data tty_write tty_read dev request size parse_reply reply count)
  unfolding write_data write_impl read_impl
  write_data_lem dev request ok tx_buf req size parse_reply reply count (inr (v, (dst, e))) room a =
      inl (dev, ground (arith, e))
  write_data_lem dev request ok tx_buf req size parse_reply reply count (inl (v, e)) room a =
      let sent = tty_write dev (frame req) in
      let came = answer tty_write tty_read dev req size in
      let t = take_behind (frame req) (drop (length req + 2) tx_buf) in
      let l = length-frame req in
      let few = bounded sent.0 size in
      let c = memcpy_start came.1 reply (omega arith) in
      elim (Bool-cases (sent.1 == length (frame req))) [
        | inr s ↦ inl (sent.0, ground (arith, e, t, l, s))
        | inl s ↦ elim (Bool-cases (length came.1 == size)) [
          | inr n ↦ inl (came.0, ground (arith, e, t, l, s, c, n))
          | inl n ↦ elim a [
            | inr (w, p) ↦ inl (came.0, ground (arith, e, t, l, s, c, n, p))
            | inl (w, p) ↦
                inr (v, ground arith, ground arith, w.1, ground (arith, e, t, l, s, c, n, p))
          ]
        ]
      ]

  in_buffer-room : (bytes buf : List ℕ) → length buf ≤ length (in_buffer bytes buf)
  in_buffer-room bytes buf =
      omega (arith, length-append bytes (drop (length bytes) buf), length-drop (length bytes) buf)

  -- Whatever a line does that brings no more than it is asked for: a write of registers, with
  -- enough values given and local buffers of 256 and 8 bytes, ends. It returns NULL, or it writes
  -- at most 123 registers, the whole request was sent, and a reply of exactly 8 bytes came that
  -- ends with its CRC.
  pub rtu_master_wr_registers_lem :
      (dev : D) (addr : ℕ) (mem_addr count : Data16) (values : List Data16) (tx_buf reply : List ℕ)
      → length tx_buf ≡ 256
      → length reply ≡ 8
      → data16_to_word count * 2 ≤ length (data16s_bytes values)
      → Confirmed tty_write tty_read dev
          ((data16_to_word count ≤ 123) × (data16_to_word count * 2 + 9 ≤ 256))
          ((wr_registers_request_header addr Fcode.wr_registers mem_addr count
              (u8 (data16_to_word count * 2)))
            ++ take (data16_to_word count * 2) (data16s_bytes values))
          8
          reply
          (data16_to_word count)
          (rtu_master_wr_registers tty_write tty_read dev addr mem_addr count
            (some values)
            tx_buf
            reply)
  unfolding rtu_master_wr_registers
  rtu_master_wr_registers_lem dev addr mem_addr count values tx_buf reply size room enough =
      let req =
        ((wr_registers_request_header addr Fcode.wr_registers mem_addr count
            (u8 (data16_to_word count * 2)))
          ++ take (data16_to_word count * 2) (data16s_bytes values)) in
      let came = (answer tty_write tty_read dev req 8).1 in
      write_data_lem dev _ _ tx_buf req 8 parse_reply_wr_registers reply (data16_to_word count)
        (make_request_wr_registers_lem addr mem_addr tx_buf 256 (omega arith) values count enough)
        (omega arith)
        (fixed_replies_lem (in_buffer came reply) 8 (omega (arith, in_buffer-room came reply))).1

  -- Whatever a line does that brings no more than it is asked for: a write of bytes, with enough
  -- values given and local buffers of 256 and 7 bytes, ends. It returns NULL, or it writes at most
  -- 249 bytes, the whole request was sent, and a reply of exactly 7 bytes came that ends with its
  -- CRC.
  pub rtu_master_wr_bytes_lem :
      (dev : D) (addr : ℕ) (mem_addr : Data16) (count : ℕ) (values tx_buf reply : List ℕ)
      → length tx_buf ≡ 256
      → length reply ≡ 7
      → count ≤ length values
      → Confirmed tty_write tty_read dev
          ((count ≤ 249) × (count + 7 ≤ 256))
          (wr_bytes_request_header addr Fcode.wr_bytes mem_addr count ++ take count values)
          7
          reply
          count
          (rtu_master_wr_bytes tty_write tty_read dev addr mem_addr count
            (some values)
            tx_buf
            reply)
  unfolding rtu_master_wr_bytes
  rtu_master_wr_bytes_lem dev addr mem_addr count values tx_buf reply size room enough =
      let req = (wr_bytes_request_header addr Fcode.wr_bytes mem_addr count ++ take count values) in
      let came = (answer tty_write tty_read dev req 7).1 in
      write_data_lem dev _ _ tx_buf req 7 parse_reply_wr_bytes reply count
        (make_request_wr_bytes_lem addr mem_addr tx_buf 256 (omega arith) values count enough)
        (omega arith)
        (fixed_replies_lem (in_buffer came reply) 7 (omega (arith, in_buffer-room came reply))).2
