-- ===== src/MasterImpl/Reads.antt =====
-- The two reads of linux/master_impl.c, whatever the line does.
use modbus_c.Prelude.{
  ℕ, ◌+◌, ◌*◌, ◌≤◌, ◌<◌, ◌≡◌, ◌⊎◌, inl, inr, Option, none, some, List, [], ◌∷◌, ◌++◌, ◌==◌,
  Bool-cases, length, length-append, length-drop, drop, get_or, Exec, done, fault, set, length-set,
  ltb, store_in, store_out, copy_in, arith,
}
use modbus_c.Wire.{Data16, data16_to_word}
use modbus_c.Wire.Fcode
use modbus_c.Crc.Frame.{frame, HasCrc}
use modbus_c.Memory.Loops.{slice}
use modbus_c.Memory.Splice.{length-slice}
use modbus_c.Master.{memcpy, mem_access_request, bytes_request}
use modbus_c.Master.Requests.{memcpy_start, implace_crc-frame}
use modbus_c.Master.Parse.{Accepts, counted_replies_lem}
use modbus_c.Master.Replies.{parse_reply_rd_holding_registers, parse_reply_rd_bytes}
use modbus_c.MasterImpl.{
  write_impl, read_impl, read_data, rtu_master_rd_holding_registers, rtu_master_rd_bytes,
}

-- a buffer that starts with bytes that were read
abbrev pub in_buffer : List ℕ → List ℕ → List ℕ
in_buffer bytes rx_buf = bytes ++ drop (length bytes) rx_buf

module _ {D : Type 0} (tty_write : D → List ℕ → D × ℕ) (tty_read : D → ℕ → D × List ℕ) where
  -- the line behind the reply, and the reply, when `expected` bytes are asked for
  abbrev pub answer : D → List ℕ → ℕ → D × List ℕ
  answer dev req expected = tty_read (tty_write dev (frame req)).0 expected

  -- Nothing is returned and the data stays, or the reply was complete and right and its data is there.
  abbrev pub Transaction :
      D
      → List ℕ
      → ℕ
      → ℕ
      → (List ℕ → Type 0)
      → List ℕ
      → List ℕ
      → ℕ
      → Exec (D × List ℕ × Option ℕ)
      → Type 0
  Transaction dev req header size ok rx_buf target count m =
      ((dev' : D) × (m ≡ done (dev', target, none)))
      ⊎ (ok (in_buffer (answer dev req (header + size + 2)).1 rx_buf)
          × (length (answer dev req (header + size + 2)).1 ≡ header + size + 2)
          × (m
              ≡ done (
                (answer dev req (header + size + 2)).0,
                slice (in_buffer (answer dev req (header + size + 2)).1 rx_buf) header size
                    ++ drop size target,
                some count,
              )))

  read_data_lem :
      (dev : D) (req : List ℕ) (header size : ℕ) (parse_reply : List ℕ → ℕ → Exec (Option ℕ))
      (ok : List ℕ → Type 0) (rx_buf target : List ℕ) (count : ℕ)
      → length (answer dev req (header + size + 2)).1 ≤ header + size + 2
      → header + size + 2 ≤ length rx_buf
      → size ≤ length target
      → Accepts (ok (in_buffer (answer dev req (header + size + 2)).1 rx_buf)) 0 (
          parse_reply (in_buffer (answer dev req (header + size + 2)).1 rx_buf) (header + size + 2))
      → Transaction dev req header size ok rx_buf target count
          (read_data tty_write tty_read dev req header size parse_reply rx_buf target count)
  unfolding read_data write_impl read_impl
  read_data_lem dev req header size parse_reply ok rx_buf target count few room enough a =
      let sent = tty_write dev (frame req) in
      let came = answer dev req (header + size + 2) in
      let rx = in_buffer came.1 rx_buf in
      let e = implace_crc-frame req in
      let c = memcpy_start came.1 rx_buf (omega arith) in
      elim (Bool-cases (sent.1 == length (frame req))) [
        | inr s ↦ inl (sent.0, ground (arith, e, s))
        | inl s ↦ elim (Bool-cases (length came.1 == header + size + 2)) [
          | inr n ↦ inl (came.0, ground (arith, e, s, c, n))
          | inl n ↦ elim a [
            | inr (v, p) ↦ inl (came.0, ground (arith, e, s, c, n, p))
            | inl (v, p) ↦ inr (
              v,
              ground arith,
              ground (
                arith,
                e,
                s,
                c,
                n,
                p,
                copy_in size rx header,
                length-slice size rx header,
                length-append came.1 (drop (length came.1) rx_buf),
                length-drop (length came.1) rx_buf,
                memcpy_start (slice rx header size) target,
              ),
            )
          ]
        ]
      ]

-- What tty.c says of `tty_read`: it does not read more than it is asked for.
abbrev pub IsBounded : {D : Type 0} → (D → ℕ → D × List ℕ) → Type 0
IsBounded {D} tty_read = (dev : D) (n : ℕ) → length (tty_read dev n).1 ≤ n

module _ (rx : List ℕ) (n : ℕ) where
  pub read_registers_lem :
      5 + n ≤ length rx
      → Accepts
          ((get_or rx 2 0 ≡ n) × HasCrc rx (3 + n + 2))
          0
          (parse_reply_rd_holding_registers rx (3 + n + 2))
  read_registers_lem h = elim (counted_replies_lem rx (3 + n + 2) (omega arith)).0 [
    | inl (v, e) ↦ inl ((omega (arith, v.0), v.1), e)
    | inr (v, e) ↦ inr (λ ok. v (omega (arith, ok.0), ok.1), e)
  ]

  pub read_bytes_lem :
      7 + n ≤ length rx
      → Accepts
          ((get_or rx 4 0 ≡ n) × HasCrc rx (5 + n + 2))
          0
          (parse_reply_rd_bytes rx (5 + n + 2))
  read_bytes_lem h = elim (counted_replies_lem rx (5 + n + 2) (omega arith)).1 [
    | inl (v, e) ↦ inl ((omega (arith, v.0), v.1), e)
    | inr (v, e) ↦ inr (λ ok. v (omega (arith, ok.0), ok.1), e)
  ]

module _ {D : Type 0} (tty_write : D → List ℕ → D × ℕ) (tty_read : D → ℕ → D × List ℕ)
    (bounded : IsBounded tty_read) where
  -- Whatever a line does that brings no more than it is asked for: a read of at most 125 registers
  -- ends, with a local buffer of 256 bytes and room for the registers at `target`. It returns NULL
  -- and leaves the target as it was, or a reply of exactly the right size came that counts its
  -- bytes right and ends with its CRC, and the target starts with its registers.
  pub rtu_master_rd_holding_registers_lem :
      (dev : D) (addr : ℕ) (mem_addr count : Data16) (rx_buf target : List ℕ)
      → data16_to_word count ≤ 125
      → length rx_buf ≡ 256
      → data16_to_word count * 2 ≤ length target
      → Transaction tty_write tty_read dev
          (mem_access_request addr Fcode.rd_holding_registers mem_addr count)
          3
          (data16_to_word count * 2)
          (λ rx.
            (get_or rx 2 0 ≡ data16_to_word count * 2)
            × HasCrc rx (3 + data16_to_word count * 2 + 2))
          rx_buf
          target
          (data16_to_word count)
          (rtu_master_rd_holding_registers tty_write tty_read dev addr mem_addr count rx_buf target)
  unfolding rtu_master_rd_holding_registers
  rtu_master_rd_holding_registers_lem dev addr mem_addr count rx_buf target few size enough =
      let req = mem_access_request addr Fcode.rd_holding_registers mem_addr count in
      let n = data16_to_word count * 2 in
      let came = (answer tty_write tty_read dev req (3 + n + 2)).1 in
      let rx = in_buffer came rx_buf in
      read_data_lem tty_write tty_read dev req 3 n parse_reply_rd_holding_registers
        (λ rx. (get_or rx 2 0 ≡ n) × HasCrc rx (3 + n + 2)) rx_buf target (data16_to_word count)
        (bounded _ _) (omega arith) enough
        (read_registers_lem rx n (
          omega (
            arith,
            bounded (tty_write dev (frame req)).0 (3 + n + 2),
            length-append came (drop (length came) rx_buf),
            length-drop (length came) rx_buf,
          )))

  -- Whatever a line does that brings no more than it is asked for: a read of at most 249 bytes
  -- ends, with a local buffer of 256 bytes and room for the bytes at `target`. It returns NULL and
  -- leaves the target as it was, or a reply of exactly the right size came that counts its bytes
  -- right and ends with its CRC, and the target starts with its bytes.
  pub rtu_master_rd_bytes_lem :
      (dev : D) (addr : ℕ) (mem_addr : Data16) (count : ℕ) (rx_buf target : List ℕ)
      → count ≤ 249
      → length rx_buf ≡ 256
      → count ≤ length target
      → Transaction tty_write tty_read dev
          (bytes_request addr Fcode.rd_bytes mem_addr count)
          5
          count
          (λ rx. (get_or rx 4 0 ≡ count) × HasCrc rx (5 + count + 2))
          rx_buf
          target
          count
          (rtu_master_rd_bytes tty_write tty_read dev addr mem_addr count rx_buf target)
  unfolding rtu_master_rd_bytes
  rtu_master_rd_bytes_lem dev addr mem_addr count rx_buf target few size enough =
      let req = bytes_request addr Fcode.rd_bytes mem_addr count in
      let came = (answer tty_write tty_read dev req (5 + count + 2)).1 in
      let rx = in_buffer came rx_buf in
      read_data_lem tty_write tty_read dev req 5 count parse_reply_rd_bytes
        (λ rx. (get_or rx 4 0 ≡ count) × HasCrc rx (5 + count + 2)) rx_buf target count
        (bounded _ _) (omega arith) enough
        (read_bytes_lem rx count (
          omega (
            arith,
            bounded (tty_write dev (frame req)).0 (5 + count + 2),
            length-append came (drop (length came) rx_buf),
            length-drop (length came) rx_buf,
          )))

memcpy_fault :
    (buf : List ℕ) (p : ℕ) (bs : List ℕ)
    → p ≤ length buf
    → length buf < p + length bs
    → memcpy buf p bs ≡ fault
unfolding memcpy
memcpy_fault buf p [] h k = absurd (omega arith)
memcpy_fault buf p (b ∷ bs) h k = elim (Bool-cases (ltb p (length buf))) [
  | inl e ↦ ground (
    arith,
    store_in buf p b,
    length-set buf p b,
    memcpy_fault (set buf p b) (p + 1) bs (ground (arith, length-set buf p b))
        (ground (arith, length-set buf p b)),
  )
  | inr e ↦ ground (arith, store_out buf p b)
]

-- A read of more than 125 registers is not refused: where the line takes the whole request and
-- brings as many bytes as are asked for, they are written beyond the local buffer of 256 bytes.
pub rtu_master_rd_holding_registers-overflows :
    {D : Type 0} (tty_write : D → List ℕ → D × ℕ) (tty_read : D → ℕ → D × List ℕ) (dev : D)
    (addr : ℕ) (mem_addr count : Data16) (rx_buf target : List ℕ)
    → 125 < data16_to_word count
    → length rx_buf ≡ 256
    → let req = mem_access_request addr Fcode.rd_holding_registers mem_addr count in
      let expected = 3 + data16_to_word count * 2 + 2 in
      (tty_write dev (frame req)).1 ≡ length (frame req)
      → length (answer tty_write tty_read dev req expected).1 ≡ expected
      → rtu_master_rd_holding_registers tty_write tty_read dev addr mem_addr count rx_buf target
        ≡ fault
unfolding rtu_master_rd_holding_registers read_data write_impl read_impl
rtu_master_rd_holding_registers-overflows tty_write tty_read dev addr mem_addr count rx_buf target
      many size s n =
    let req = mem_access_request addr Fcode.rd_holding_registers mem_addr count in
    let came = (answer tty_write tty_read dev req (3 + data16_to_word count * 2 + 2)).1 in
    ground (arith, implace_crc-frame req, s, n, memcpy_fault rx_buf 0 came)
