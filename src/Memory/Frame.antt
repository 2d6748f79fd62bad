-- ===== src/Memory/Frame.antt =====
-- Every handler, whatever the request holds: it ends or meets a fault, keeps the window and the size
-- of the memory, leaves bytes in it, and replies with bytes that fit a PDU.
use modbus_c.Prelude.{
  ℕ, ◌+◌, ◌-◌, ◌*◌, ◌^◌, ◌≤◌, ◌<◌, bit_and, ◌≡◌, refl, ◌==◌, Bool, true, false, not, ◌&&◌, List,
  ◌∷◌, ◌++◌, ltb, leb, length, length-append, Exec, done, ◌>>=◌, Ensures, Ensures-bind, Ensures-if,
  copy, IsByte, IsBytes, IsBytes-append, AreBytes, load-IsByte, store-AreBytes, copy-AreBytes,
  arith, if◌then◌else◌,
}
use modbus_c.Wire.{u8, u16}
use modbus_c.Wire.Fcode
use modbus_c.Wire.Ecode
use modbus_c.Memory.{
  RtuMemory, except, reject, rd16, read_n16, write_16, written_n16, write_n16, read_n8, write_n8,
  rtu_memory_pdu_cb,
}
use modbus_c.Memory.Rounds.{
  IsWord, Kept, rd16-IsWord, read_bytes-AreBytes, read_registers-AreBytes, write_bytes-AreBytes,
  write_registers-Kept,
}

pub record Framed (mem : RtuMemory) (out : RtuMemory × List ℕ) : Type 0 where
  pub window : (out.0.addr_begin ≡ mem.addr_begin) × (out.0.addr_end ≡ mem.addr_end)
  pub memory : AreBytes (length mem.bytes) out.0.bytes
  pub reply : IsBytes out.1
  pub size : (2 ≤ length out.1) × (length out.1 ≤ 253)

except-Framed :
    (mem : RtuMemory) (bytes : List ℕ) (fcode ecode : ℕ)
    → AreBytes (length mem.bytes) bytes
    → ecode < 256
    → Framed mem (record mem { bytes = bytes }, except fcode ecode)
unfolding except
except-Framed mem bytes fcode ecode v h = ground arith

module _ (mem : RtuMemory) (src : List ℕ) (begin end curr : ℕ) (v : IsBytes mem.bytes)
    (s : IsBytes src) where
  rejected : (fcode ecode : ℕ) → ecode < 256 → Ensures (Framed mem) (reject mem fcode ecode)
  rejected fcode ecode h = except-Framed mem mem.bytes fcode ecode (refl, v) h

  word_field :
      (p : ℕ) (f : ℕ → Exec (RtuMemory × List ℕ))
      → ((w : ℕ) → w < 2 ^ 16 → Ensures (Framed mem) (f w))
      → Ensures (Framed mem) (rd16 src p >>= f)
  word_field p f k = Ensures-bind IsWord (Framed mem) (rd16 src p) f (rd16-IsWord src p s) k

  guarded :
      (b : Bool) (fcode ecode : ℕ) (x : Exec (RtuMemory × List ℕ))
      → ecode < 256
      → (b ≡ false → Ensures (Framed mem) x)
      → Ensures (Framed mem) (if b then reject mem fcode ecode else x)
  guarded b fcode ecode x h k =
      Ensures-if (Framed mem) b (reject mem fcode ecode) x (λ _. rejected fcode ecode h) k

  -- the last steps of the write handlers
  echoed :
      (n : ℕ) (bytes : List ℕ)
      → 2 ≤ n
      → n ≤ 253
      → AreBytes (length mem.bytes) bytes
      → Ensures
          (Framed mem)
          (copy src begin n >>= λ echo. done (record mem { bytes = bytes }, echo))
  echoed n bytes lo hi h =
      Ensures-bind (AreBytes n) (Framed mem) (copy src begin n) _ (copy-AreBytes n src begin s)
        λ echo he. ground arith

  registers_reply :
      (num : ℕ) (words : List ℕ)
      → num < 0x7e
      → AreBytes (num * 2) words
      → Framed mem (mem, Fcode.rd_holding_registers ∷ u8 (num * 2) ∷ words)
  registers_reply num words few h = ground arith

  read_n16-Framed : Ensures (Framed mem) (read_n16 mem src begin end curr)
  unfolding read_n16
  read_n16-Framed = guarded (ltb (end - begin) 5) _ Ecode.format_error _ (omega arith) λ _.
      word_field curr _ λ addr ha.
        guarded (not (ltb addr mem.addr_end && leb mem.addr_begin addr)) _
          Ecode.illegal_data_address _ (omega arith)
          λ _. word_field (curr + 2) _ λ num hn.
            guarded (not (ltb 0 num && ltb num 0x7e)) _ Ecode.illegal_data_value _ (omega arith)
              λ few.
                guarded (not (leb (addr + num) mem.addr_end)) _ Ecode.illegal_data_address _
                  (omega arith)
                  λ _.
                    Ensures-bind (AreBytes (num * 2)) (Framed mem) _
                      (λ words. done (mem, Fcode.rd_holding_registers ∷ u8 (num * 2) ∷ words))
                      (read_registers-AreBytes num mem.bytes (u16 (addr + 2 ^ 16 - mem.addr_begin))
                        _ v (omega arith) hn refl)
                      λ words h. registers_reply num words (ground arith) h

  read_n8-Framed : Ensures (Framed mem) (read_n8 mem src begin end curr)
  unfolding read_n8
  read_n8-Framed = guarded (ltb (end - begin) 4) _ Ecode.format_error _ (omega arith) λ _.
      word_field curr _ λ addr ha.
        guarded (not (ltb addr mem.addr_end && leb mem.addr_begin addr)) _
          Ecode.illegal_data_address _ (omega arith)
          λ _. Ensures-bind IsByte (Framed mem) _ _ (load-IsByte src (curr + 2) s) λ num hn.
            guarded (not (ltb 0 num && ltb num 250)) _ Ecode.illegal_data_value _ (omega arith)
              λ few.
                guarded (not (leb (addr + num) mem.addr_end)) _ Ecode.illegal_data_address _
                  (omega arith)
                  λ _.
                    Ensures-bind (AreBytes 4) (Framed mem) _ _ (copy-AreBytes 4 src begin s)
                      λ echo he.
                        Ensures-bind (AreBytes num) (Framed mem) _
                          (λ bytes. done (mem, echo ++ bytes))
                          (read_bytes-AreBytes num mem.bytes (u16 (addr + 2 ^ 16 - mem.addr_begin))
                            _ v (omega arith) (omega arith) refl)
                          λ bytes h.
                            let small : num < 250 = ground arith in
                            record {
                              window = (refl, refl);
                              memory = (refl, v);
                              reply = IsBytes-append echo bytes he.1 h.1;
                              size = omega (arith, length-append echo bytes);
                            }

  write_16-Framed : Ensures (Framed mem) (write_16 mem src begin end curr)
  unfolding write_16
  write_16-Framed = guarded (ltb (end - begin) 5) _ Ecode.format_error _ (omega arith) λ _.
      word_field curr _ λ addr ha.
        guarded (not (ltb addr mem.addr_end)) _ Ecode.illegal_data_address _ (omega arith) λ _.
          word_field (curr + 2) _ λ word hw.
            guarded (not (bit_and 0xff00 word == 0)) _ Ecode.illegal_data_value _ (omega arith) λ _.
              Ensures-bind (AreBytes (length mem.bytes)) (Framed mem) _ _
                (Ensures-if _ (ltb addr mem.addr_begin) _ _ (λ _. tt)
                  λ _. store-AreBytes mem.bytes (addr - mem.addr_begin) (u8 word) v (omega arith))
                λ bytes h. echoed 5 bytes (omega arith) (omega arith) h

  written_n16-Framed :
      (out : List ℕ × Bool)
      → Kept (length mem.bytes) out
      → Ensures (Framed mem) (written_n16 mem src begin out)
  unfolding written_n16
  written_n16-Framed (bytes, false) h = except-Framed mem bytes _ _ h (omega arith)
  written_n16-Framed (bytes, true) h = echoed 5 bytes (omega arith) (omega arith) h

  write_n16-Framed : Ensures (Framed mem) (write_n16 mem src begin end curr)
  unfolding write_n16
  write_n16-Framed = guarded (ltb (end - begin) 5) _ Ecode.format_error _ (omega arith) λ _.
      word_field curr _ λ addr ha.
        guarded (not (ltb addr mem.addr_end)) _ Ecode.illegal_data_address _ (omega arith) λ _.
          word_field (curr + 2) _ λ num hn.
            guarded (not (ltb 0 num && ltb num 0x7c)) _ Ecode.illegal_data_value _ (omega arith)
              λ _.
                Ensures-bind IsByte (Framed mem) _ _ (load-IsByte src (curr + 4) s) λ byte_count hb.
                  guarded (not (byte_count == num * 2)) _ Ecode.illegal_data_value _ (omega arith)
                    λ _.
                      guarded (not (curr + 5 + byte_count == end)) _ Ecode.format_error _
                        (omega arith)
                        λ _.
                          Ensures-bind (Kept (length mem.bytes)) (Framed mem) _ _
                            (write_registers-Kept num mem.bytes src (curr + 5)
                              (u16 (addr + 2 ^ 16 - mem.addr_begin)) _ v s (omega arith) hn refl)
                            written_n16-Framed

  write_n8-Framed : Ensures (Framed mem) (write_n8 mem src begin end curr)
  unfolding write_n8
  write_n8-Framed = guarded (ltb (end - begin) 4) _ Ecode.format_error _ (omega arith) λ _.
      word_field curr _ λ addr ha.
        guarded (not (ltb addr mem.addr_end)) _ Ecode.illegal_data_address _ (omega arith) λ _.
          Ensures-bind IsByte (Framed mem) _ _ (load-IsByte src (curr + 2) s) λ num hn.
            guarded (not (ltb 0 num && ltb num 250)) _ Ecode.illegal_data_value _ (omega arith) λ _.
              guarded (not (curr + 3 + num == end)) _ Ecode.illegal_data_value _ (omega arith) λ _.
                Ensures-bind (AreBytes (length mem.bytes)) (Framed mem) _ _
                  (write_bytes-AreBytes num mem.bytes src (curr + 3)
                    (u16 (addr + 2 ^ 16 - mem.addr_begin)) _ v s (omega arith) (omega arith) refl)
                  λ bytes h. echoed 4 bytes (omega arith) (omega arith) h

  -- Whatever a request in a buffer of bytes holds, its handler ends or meets a fault, and never
  -- runs out of rounds. Where it ends, the memory has its window, its size and bytes in it, and the
  -- reply is of 2 to 253 bytes.
  pub rtu_memory_pdu_cb-Framed :
      (fcode : ℕ) → Ensures (Framed mem) (rtu_memory_pdu_cb mem fcode src begin end curr)
  unfolding rtu_memory_pdu_cb
  rtu_memory_pdu_cb-Framed fcode = choose Fcode.rd_holding_registers _ _ read_n16-Framed (
      choose Fcode.wr_register _ _ write_16-Framed (
        choose Fcode.wr_registers _ _ write_n16-Framed (
          choose Fcode.rd_bytes _ _ read_n8-Framed (
            choose Fcode.wr_bytes _ _ write_n8-Framed
              (rejected fcode Ecode.illegal_function (omega arith))))))
    where
      choose :
          (code : ℕ) (x y : Exec (RtuMemory × List ℕ))
          → Ensures (Framed mem) x
          → Ensures (Framed mem) y
          → Ensures (Framed mem) (if fcode == code then x else y)
      choose code x y h k = Ensures-if (Framed mem) (fcode == code) x y (λ _. h) (λ _. k)
