-- ===== src/Session/RoundTrip.antt =====
-- Two transactions of a master of linux/master_impl.c on one line: what it writes, it reads back.
use modbus_c.Prelude.{
  ℕ, ◌-◌, ◌≤◌, ◌≡◌, refl, subst, sym, ap, ◌∙◌, some, Option, List, [], ◌∷◌, ◌++◌, length, drop,
  Exec, done, ◌>>=◌, IsByte, IsBytes, arith,
}
use modbus_c.Wire.{Data16, data16_to_word}
use modbus_c.Memory.Loops.{slice}
use modbus_c.Memory.Window.{IsWellFormed, IsInside}
use modbus_c.Memory.RoundTrip.{stored-IsWellFormed, stored-slice}
use modbus_c.Adapter.{RtuMemoryImpl, rtu_memory_impl_pdu_cb}
use modbus_c.Rtu.{State}
use modbus_c.Rtu.Invariant.{zeros-AreBytes}
use modbus_c.Rtu.Schedule.{expires, sent, polls, run}
use modbus_c.Rtu.Answer.{IsListening}
use modbus_c.Rtu.Listen.{sent-fresh}
use modbus_c.MasterImpl.{rtu_master_rd_bytes, rtu_master_wr_bytes}
use modbus_c.Session.{IsData16}
use modbus_c.Session.Line.{Line, line_write, line_read}
use modbus_c.Session.Bytes.{with_values, rtu_master_wr_bytes-answered}
use modbus_c.Session.ReadBytes.{rtu_master_rd_bytes-answered}

-- The slave has time for the end of its transmission and for the silent interval behind it.
abbrev pub line_rest : Line → Line
line_rest (s, unread) = elim (run rtu_memory_impl_pdu_cb s (sent ∷ polls ∷ expires ∷ [])) [
  | done s' ↦ (s', unread)
  | _ ↦ (s, unread)
]

-- a write of bytes, a rest, and a read of as many
abbrev pub write_then_read :
    Line → ℕ → Data16 → List ℕ → List ℕ → List ℕ → List ℕ → List ℕ → Exec (Line × List ℕ × Option ℕ)
write_then_read line addr mem_addr values tx_buf reply rx_buf target = do
  (line', written) ←
      rtu_master_wr_bytes line_write line_read line addr mem_addr (length values) (some values)
        tx_buf reply
  rtu_master_rd_bytes line_write line_read (line_rest line') addr mem_addr (length values) rx_buf
      target

then_read :
    (s s1 s2 s3 : State RtuMemoryImpl) (addr : ℕ) (mem_addr : Data16)
    (values tx_buf reply rx_buf target got : List ℕ) (written : Option ℕ)
    → rtu_master_wr_bytes line_write line_read
        (s, [])
        addr
        mem_addr
        (length values)
        (some values)
        tx_buf
        reply
      ≡ done ((s1, []), written)
    → run rtu_memory_impl_pdu_cb s1 (sent ∷ polls ∷ expires ∷ []) ≡ done s2
    → rtu_master_rd_bytes line_write line_read (s2, []) addr mem_addr (length values) rx_buf target
      ≡ done ((s3, []), got, some (length values))
    → write_then_read (s, []) addr mem_addr values tx_buf reply rx_buf target
      ≡ done ((s3, []), got, some (length values))
then_read s s1 s2 s3 addr mem_addr values tx_buf reply rx_buf target got written wr rest rd =
    let read_on = λ (line : Line).
      rtu_master_rd_bytes line_write line_read (line_rest line) addr mem_addr (length values) rx_buf
        target in
    ap (λ m. m >>= λ out. read_on out.0) wr ∙ ground (arith, rest, rd)

module _ (s : State RtuMemoryImpl) (listening : IsListening s) (w : IsWellFormed s.user_data.memory)
    (contents : IsBytes s.rxbuf) (self : IsByte s.user_data.self_addr) where
  -- A master of linux/master_impl.c writes 1 to 249 bytes to addresses inside the memory of a
  -- slave, over a line at whose other end that slave listens, gets each frame as a whole and has
  -- time to answer and to rest, and then reads as many bytes at the same addresses. Both
  -- transactions succeed: the target starts with the bytes that were written and is as before
  -- behind them, their number is returned, the slave's memory is the old one with these bytes at
  -- these addresses, its address and window stay, and no bytes are left on the line.
  pub rd_bytes-wr_bytes :
      (mem_addr : Data16) (values tx_buf reply rx_buf target : List ℕ)
      → IsData16 mem_addr
      → IsBytes values
      → 1 ≤ length values
      → length values ≤ 249
      → IsInside s.user_data.memory (data16_to_word mem_addr) (length values)
      → length tx_buf ≡ 256
      → length reply ≡ 7
      → length rx_buf ≡ 256
      → length values ≤ length target
      → (s' : State RtuMemoryImpl) × (write_then_read
            (s, [])
            s.user_data.self_addr
            mem_addr
            values
            tx_buf
            reply
            rx_buf
            target
          ≡ done ((s', []), values ++ drop (length values) target, some (length values)))
        × (s'.user_data ≡ with_values s.user_data mem_addr values)
  rd_bytes-wr_bytes mem_addr values tx_buf reply rx_buf target hm hv any few inside tx room rx
        enough =
      let num = length values in
      let impl = with_values s.user_data mem_addr values in
      let a =
        rtu_master_wr_bytes-answered s listening w contents self mem_addr values tx_buf reply hm hv
          any few inside tx room in
      let b = sent-fresh rtu_memory_impl_pdu_cb a.0 a.3 a.4 a.5 in
      let same : b.0.user_data ≡ impl = b.3 ∙ a.2 in
      let w' : IsWellFormed b.0.user_data.memory =
        subst (λ (i : RtuMemoryImpl). IsWellFormed i.memory) (sym same)
          (stored-IsWellFormed s.user_data.memory (data16_to_word mem_addr) values w hv) in
      let self' : IsByte b.0.user_data.self_addr =
        subst (λ (i : RtuMemoryImpl). IsByte i.self_addr) (sym same) self in
      let inside' : IsInside b.0.user_data.memory (data16_to_word mem_addr) num =
        subst (λ (i : RtuMemoryImpl). IsInside i.memory (data16_to_word mem_addr) num) (sym same)
          inside in
      let contents' : IsBytes b.0.rxbuf = subst IsBytes (sym b.5) (zeros-AreBytes 256).1 in
      let c =
        rtu_master_rd_bytes-answered b.0 b.2 w' contents' self' mem_addr num rx_buf target hm
          (any, few, inside') rx enough in
      let read =
        subst
          (λ (i : RtuMemoryImpl).
            rtu_master_rd_bytes line_write line_read (b.0, []) i.self_addr mem_addr num rx_buf
              target
            ≡ done (
              (c.0, []),
              slice i.memory.bytes (data16_to_word mem_addr - i.memory.addr_begin) num
                  ++ drop num target,
              some num,
            ))
          same c.1 in
      let values_back =
        ap (λ vs. done ((c.0, []), vs ++ drop num target, some num))
          (stored-slice s.user_data.memory (data16_to_word mem_addr) num values w refl inside) in
      (
        c.0,
        then_read s a.0 b.0 c.0 s.user_data.self_addr mem_addr values tx_buf reply rx_buf target
            (values ++ drop num target) (some num) a.1 b.1 (read ∙ values_back),
        c.2 ∙ same,
      )
