-- ===== src/Memory/Read.antt =====
-- The read handlers: what they answer, on every request long enough to be read.
use modbus_c.Prelude.{
  ℕ, ◌+◌, ◌-◌, ◌*◌, ◌≤◌, ◌^◌, ◌≡◌, refl, ◌⊎◌, inl, inr, List, ◌∷◌, ◌++◌, not, ◌&&◌, ltb, leb,
  if◌then◌else◌, Bool-cases, get_or, done, load_in, copy_in, arith,
}
use modbus_c.Wire.{u16}
use modbus_c.Wire.Fcode
use modbus_c.Wire.Ecode
use modbus_c.Memory.{RtuMemory, except, read_n16, read_n8}
use modbus_c.Memory.Fields.{word_at, rd16_in}
use modbus_c.Memory.Loops.{expand, slice, read_registers-slice, read_bytes-slice}
use modbus_c.Memory.Window.{IsWellFormed, IsInside, IsRequest}

-- what a read of at most `limit` addresses has to ask for
abbrev pub Answered : ℕ → RtuMemory → ℕ → ℕ → Type 0
Answered limit mem addr num = (1 ≤ num) × (num ≤ limit) × IsInside mem addr num

-- the code for any other: a bad count is named only for an address in the window
abbrev pub refusal : ℕ → RtuMemory → ℕ → ℕ → ℕ
refusal limit mem addr num =
    if leb mem.addr_begin addr && ltb addr mem.addr_end && not (leb 1 num && leb num limit)
    then Ecode.illegal_data_value
    else Ecode.illegal_data_address

Answered-cases :
    (limit : ℕ) (mem : RtuMemory) (addr num : ℕ)
    → Answered limit mem addr num ⊎ (¬ Answered limit mem addr num)
Answered-cases limit mem addr num =
    elim (Bool-cases
      (leb 1 num && leb num limit && (leb mem.addr_begin addr && leb (addr + num) mem.addr_end))) [
        | inl e ↦ inl (ground arith)
        | inr e ↦ inr (λ h. ground arith)
      ]

module _ (mem : RtuMemory) (src : List ℕ) (begin end curr : ℕ) (w : IsWellFormed mem) where
  pub read_n16-Answered :
      (addr num : ℕ)
      → IsRequest src begin end curr 4 4
      → word_at src curr ≡ addr
      → word_at src (curr + 2) ≡ num
      → Answered 125 mem addr num
      → read_n16 mem src begin end curr
        ≡ done (
          mem,
          Fcode.rd_holding_registers
              ∷ (num * 2)
              ∷ expand (slice mem.bytes (addr - mem.addr_begin) num),
        )
  unfolding read_n16
  read_n16-Answered addr num r ea en h = ground (
    arith,
    w,
    rd16_in src curr r.bytes,
    rd16_in src (curr + 2) r.bytes,
    read_registers-slice num mem.bytes (u16 (addr + 2 ^ 16 - mem.addr_begin))
        (u16 (u16 (addr + 2 ^ 16 - mem.addr_begin) + num)),
  )

  read_n16-refused :
      (addr num : ℕ)
      → IsRequest src begin end curr 4 4
      → word_at src curr ≡ addr
      → word_at src (curr + 2) ≡ num
      → ¬ Answered 125 mem addr num
      → read_n16 mem src begin end curr
        ≡ done (mem, except Fcode.rd_holding_registers (refusal 125 mem addr num))
  unfolding read_n16
  read_n16-refused addr num r ea en h =
      ground (arith, w, rd16_in src curr r.bytes, rd16_in src (curr + 2) r.bytes)

  -- A request for registers of at least five bytes, to a well-formed memory, is answered by the
  -- bytes at its addresses, each behind a zero, if it asks for 1 to 125 addresses that lie in the
  -- window. Any other is refused, with the code for a bad count where the address is in the window
  -- and the count is not from 1 to 125, and with that for a bad address elsewhere. The memory stays
  -- as it is.
  pub read_n16_lem :
      IsRequest src begin end curr 4 4
      → let addr = word_at src curr in
        let num = word_at src (curr + 2) in
        (Answered 125 mem addr num
          × (read_n16 mem src begin end curr
              ≡ done (
                mem,
                Fcode.rd_holding_registers
                    ∷ (num * 2)
                    ∷ expand (slice mem.bytes (addr - mem.addr_begin) num),
              )))
        ⊎ ((¬ Answered 125 mem addr num)
            × (read_n16 mem src begin end curr
                ≡ done (mem, except Fcode.rd_holding_registers (refusal 125 mem addr num))))
  read_n16_lem r = elim (Answered-cases 125 mem (word_at src curr) (word_at src (curr + 2))) [
    | inl h ↦ inl (h, read_n16-Answered _ _ r refl refl h)
    | inr h ↦ inr (h, read_n16-refused _ _ r refl refl h)
  ]

  pub read_n8-Answered :
      (addr num : ℕ)
      → IsRequest src begin end curr 3 3
      → word_at src curr ≡ addr
      → get_or src (curr + 2) 0 ≡ num
      → Answered 249 mem addr num
      → read_n8 mem src begin end curr
        ≡ done (mem, slice src begin 4 ++ slice mem.bytes (addr - mem.addr_begin) num)
  unfolding read_n8
  read_n8-Answered addr num r ea en h = ground (
    arith,
    w,
    rd16_in src curr r.bytes,
    load_in src (curr + 2),
    copy_in 4 src begin (omega arith),
    read_bytes-slice num mem.bytes (u16 (addr + 2 ^ 16 - mem.addr_begin))
        (u16 (u16 (addr + 2 ^ 16 - mem.addr_begin) + num)),
  )

  read_n8-refused :
      (addr num : ℕ)
      → IsRequest src begin end curr 3 3
      → word_at src curr ≡ addr
      → get_or src (curr + 2) 0 ≡ num
      → ¬ Answered 249 mem addr num
      → read_n8 mem src begin end curr
        ≡ done (mem, except Fcode.rd_bytes (refusal 249 mem addr num))
  unfolding read_n8
  read_n8-refused addr num r ea en h =
      ground (arith, w, rd16_in src curr r.bytes, load_in src (curr + 2))

  -- A request for bytes of at least four bytes, to a well-formed memory, is answered by its own
  -- first four bytes and the bytes at its addresses, if it asks for 1 to 249 addresses that lie in
  -- the window. Any other is refused, with the code for a bad count where the address is in the
  -- window and the count is not from 1 to 249, and with that for a bad address elsewhere. The
  -- memory stays as it is.
  pub read_n8_lem :
      IsRequest src begin end curr 3 3
      → let addr = word_at src curr in
        let num = get_or src (curr + 2) 0 in
        (Answered 249 mem addr num
          × (read_n8 mem src begin end curr
              ≡ done (mem, slice src begin 4 ++ slice mem.bytes (addr - mem.addr_begin) num)))
        ⊎ ((¬ Answered 249 mem addr num)
            × (read_n8 mem src begin end curr
                ≡ done (mem, except Fcode.rd_bytes (refusal 249 mem addr num))))
  read_n8_lem r = elim (Answered-cases 249 mem (word_at src curr) (get_or src (curr + 2) 0)) [
    | inl h ↦ inl (h, read_n8-Answered _ _ r refl refl h)
    | inr h ↦ inr (h, read_n8-refused _ _ r refl refl h)
  ]
