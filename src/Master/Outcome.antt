-- ===== src/Master/Outcome.antt =====
-- master.c: each request, on every branch: made in full where its parameters and the buffer allow it,
-- and NULL elsewhere.
use modbus_c.Prelude.{
  ℕ, ◌+◌, ◌*◌, ◌≤◌, ◌≡◌, refl, ◌⊎◌, inl, inr, Bool, true, false, ◌&&◌, ◌||◌, none, some, List, ◌++◌,
  leb, ◌==◌, Bool-cases, length, length-append, length-drop, take, drop, done, ◌>>=◌, copy_in,
  arith,
}
use modbus_c.Wire.{u8, Data16, data16_to_word}
use modbus_c.Wire.Fcode
use modbus_c.Memory.Splice.{length-slice}
use modbus_c.Master.{
  wr_register_request, wr_bytes_request_header, wr_registers_request_header, Request, memcpy,
  implace_crc_impl, mem_access_request, bytes_request, data16s_bytes, make_request_rd_coils,
  make_request_rd_holding_registers, make_request_wr_coil, make_request_wr_register,
  make_request_wr_registers, make_request_wr_bytes, make_request_rd_bytes,
}
use modbus_c.Prelude.Behind.{append_assoc, drop-drop}
use modbus_c.Master.Requests.{
  made, memcpy_start, memcpy_behind, build_in-made, build_struct-made, build_in-small,
  implace_crc_impl-frame,
}

-- The request is made in full if `ok` holds; if not, NULL is returned.
abbrev pub Outcome : Type 0 → List ℕ → List ℕ → Request → Type 0
Outcome ok dst req m =
    (ok × (m ≡ made dst req)) ⊎ ((¬ ok) × ((dst' : List ℕ) × (m ≡ done (dst', none))))

by_cases :
    (b : Bool) (ok : Type 0) (dst req : List ℕ) (m : Request)
    → (b ≡ true → ok × (m ≡ made dst req))
    → (b ≡ false → (¬ ok) × ((dst' : List ℕ) × (m ≡ done (dst', none))))
    → Outcome ok dst req m
by_cases true ok dst req m h k = inl (h refl)
by_cases false ok dst req m h k = inr (k refl)

module _ (slave_addr : ℕ) (mem_addr : Data16) (dst : List ℕ) (max_size : ℕ)
    (room : max_size ≤ length dst) where
  -- With at least `max_size` bytes at `dst`, a request to read registers is made in full with its
  -- CRC if it asks for at most 125 and `max_size` is at least 8; if not, NULL is returned.
  pub make_request_rd_holding_registers_lem :
      (count : Data16)
      → Outcome
          ((data16_to_word count ≤ 125) × (8 ≤ max_size))
          dst
          (mem_access_request slave_addr Fcode.rd_holding_registers mem_addr count)
          (make_request_rd_holding_registers slave_addr mem_addr count (some dst) max_size)
  unfolding make_request_rd_holding_registers
  make_request_rd_holding_registers_lem count =
      let req = mem_access_request slave_addr Fcode.rd_holding_registers mem_addr count in
      by_cases (leb (data16_to_word count) 125 && leb 8 max_size) _ dst req _
        (λ e. (ground arith, ground (arith, build_struct-made dst req)))
        (λ e. (λ ok. ground arith, (dst, ground arith)))

  -- With at least `max_size` bytes at `dst`, a request to write a register is made in full with its
  -- CRC if `max_size` is at least 8; if not, NULL is returned.
  pub make_request_wr_register_lem :
      (value : Data16)
      → Outcome
          (8 ≤ max_size)
          dst
          (wr_register_request slave_addr Fcode.wr_register mem_addr value)
          (make_request_wr_register slave_addr mem_addr value (some dst) max_size)
  unfolding make_request_wr_register
  make_request_wr_register_lem value =
      let req = wr_register_request slave_addr Fcode.wr_register mem_addr value in
      by_cases (leb 8 max_size) _ dst req _
        (λ e. (ground arith, ground (arith, build_struct-made dst req)))
        (λ e. (λ ok. ground arith, (dst, ground arith)))

  -- With at least `max_size` bytes at `dst`, a request to read bytes is made in full with its CRC
  -- if it asks for at most 249 and `max_size` is at least 7; if not, NULL is returned.
  pub make_request_rd_bytes_lem :
      (count : ℕ)
      → Outcome
          ((count ≤ 249) × (7 ≤ max_size))
          dst
          (bytes_request slave_addr Fcode.rd_bytes mem_addr count)
          (make_request_rd_bytes slave_addr mem_addr count (some dst) max_size)
  unfolding make_request_rd_bytes
  make_request_rd_bytes_lem count =
      let req = bytes_request slave_addr Fcode.rd_bytes mem_addr count in
      by_cases (leb count 249 && leb 7 max_size) _ dst req _
        (λ e. (ground arith, ground (arith, build_struct-made dst req)))
        (λ e. (λ ok. ground arith, (dst, ground arith)))

  -- With at least `max_size` bytes at `dst`, a request to read coils is made in full with its CRC
  -- if the count is at most 125 and `max_size` is at least 8; if not, NULL is returned.
  pub make_request_rd_coils_lem :
      (count : ℕ)
      → Outcome
          ((count ≤ 125) × (8 ≤ max_size))
          dst
          (mem_access_request slave_addr Fcode.rd_coils mem_addr (record { high = 0; low = count }))
          (make_request_rd_coils slave_addr mem_addr count (some dst) max_size)
  unfolding make_request_rd_coils
  make_request_rd_coils_lem count =
      let req =
        mem_access_request slave_addr Fcode.rd_coils mem_addr (record { high = 0; low = count }) in
      by_cases (leb count 125 && leb 8 max_size) _ dst req _
        (λ e. (ground arith, ground (arith, build_in-made dst req max_size)))
        (λ e. (λ ok. ground arith, small count e))
    where
      small :
          (count : ℕ)
          → (leb count 125 && leb 8 max_size) ≡ false
          → (dst' : List ℕ) × (make_request_rd_coils slave_addr mem_addr count (some dst) max_size
              ≡ done (dst', none))
      small count e =
          let req =
            mem_access_request slave_addr Fcode.rd_coils mem_addr
              (record { high = 0; low = count }) in
          elim (Bool-cases (leb count 125 && leb 6 max_size)) [
            | inl t ↦ (req ++ drop 6 dst, ground (arith, build_in-small dst req max_size))
            | inr f ↦ (dst, ground arith)
          ]

  -- With at least `max_size` bytes at `dst`, a request to write a coil is made in full with its CRC
  -- if the value is 0 or 255 and `max_size` is at least 8; if not, NULL is returned.
  pub make_request_wr_coil_lem :
      (value : ℕ)
      → Outcome
          (((value ≡ 0) ⊎ (value ≡ 255)) × (8 ≤ max_size))
          dst
          (mem_access_request slave_addr Fcode.wr_coil mem_addr (record { high = value; low = 0 }))
          (make_request_wr_coil slave_addr mem_addr value (some dst) max_size)
  unfolding make_request_wr_coil
  make_request_wr_coil_lem value =
      let req =
        mem_access_request slave_addr Fcode.wr_coil mem_addr (record { high = value; low = 0 }) in
      by_cases ((value == 0 || value == 255) && leb 8 max_size) _ dst req _
        (λ e. (ground arith, ground (arith, build_in-made dst req max_size)))
        (λ e. (λ ok. ground arith, small value e))
    where
      small :
          (value : ℕ)
          → ((value == 0 || value == 255) && leb 8 max_size) ≡ false
          → (dst' : List ℕ) × (make_request_wr_coil slave_addr mem_addr value (some dst) max_size
              ≡ done (dst', none))
      small value e =
          let req =
            mem_access_request slave_addr Fcode.wr_coil mem_addr
              (record { high = value; low = 0 }) in
          elim (Bool-cases ((value == 0 || value == 255) && leb 6 max_size)) [
            | inl t ↦ (req ++ drop 6 dst, ground (arith, build_in-small dst req max_size))
            | inr f ↦ (dst, ground arith)
          ]

  -- a header, the bytes behind it and the CRC of both
  two_parts :
      (header bytes : List ℕ)
      → length header + length bytes + 2 ≤ max_size
      → (do
        dst' ← memcpy dst 0 header
        dst'' ← memcpy dst' (length header) bytes
        implace_crc_impl dst'' (length header + length bytes) max_size)
        ≡ made dst (header ++ bytes)
  two_parts header bytes h = ground (
    arith,
    memcpy_start header dst,
    memcpy_behind header bytes (drop (length header) dst),
    length-drop (length header) dst,
    length-append header bytes,
    drop-drop (length bytes) (length header) dst,
    append_assoc header bytes (drop (length bytes) (drop (length header) dst)),
    length-drop (length header + length bytes) dst,
    drop-drop 2 (length header + length bytes) dst,
    implace_crc_impl-frame (header ++ bytes) (drop (length header + length bytes) dst) max_size,
  )

  -- With at least `max_size` bytes at `dst` and enough data, a request to write bytes is made in
  -- full, header, data and CRC, if it writes at most 249 bytes and `max_size` has room for it; if
  -- not, NULL is returned.
  pub make_request_wr_bytes_lem :
      (values : List ℕ) (count : ℕ)
      → count ≤ length values
      → Outcome
          ((count ≤ 249) × (count + 7 ≤ max_size))
          dst
          (wr_bytes_request_header slave_addr Fcode.wr_bytes mem_addr count ++ take count values)
          (make_request_wr_bytes slave_addr mem_addr (some values) count (some dst) max_size)
  unfolding make_request_wr_bytes
  make_request_wr_bytes_lem values count h =
      let header = wr_bytes_request_header slave_addr Fcode.wr_bytes mem_addr count in
      by_cases (leb count 249 && leb (count + 7) max_size) _ dst (header ++ take count values) _
        (λ e. (
          ground arith,
          ground (
            arith,
            copy_in count values 0 (omega arith),
            length-slice count values 0 (omega arith),
            two_parts header (take count values),
          ),
        ))
        (λ e. (λ ok. ground arith, (dst, ground arith)))

  -- With at least `max_size` bytes at `dst` and enough data, a request to write registers is made
  -- in full, header, byte count, data and CRC, if it writes at most 123 registers and `max_size`
  -- has room for it; if not, NULL is returned.
  pub make_request_wr_registers_lem :
      (values : List Data16) (count : Data16)
      → data16_to_word count * 2 ≤ length (data16s_bytes values)
      → Outcome
          ((data16_to_word count ≤ 123) × (data16_to_word count * 2 + 9 ≤ max_size))
          dst
          ((wr_registers_request_header slave_addr Fcode.wr_registers mem_addr count
              (u8 (data16_to_word count * 2)))
            ++ take (data16_to_word count * 2) (data16s_bytes values))
          (make_request_wr_registers slave_addr mem_addr (some values) count (some dst) max_size)
  unfolding make_request_wr_registers
  make_request_wr_registers_lem values count h =
      let word = data16_to_word count in
      let header =
        wr_registers_request_header slave_addr Fcode.wr_registers mem_addr count (u8 (word * 2)) in
      let bytes = take (word * 2) (data16s_bytes values) in
      by_cases (leb word 123 && leb (word * 2 + 9) max_size) _ dst (header ++ bytes) _
        (λ e. (
          ground arith,
          ground (
            arith,
            copy_in (word * 2) (data16s_bytes values) 0 (omega arith),
            length-slice (word * 2) (data16s_bytes values) 0 (omega arith),
            two_parts header bytes,
          ),
        ))
        (λ e. (λ ok. ground arith, (dst, ground arith)))
