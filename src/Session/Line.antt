-- ===== src/Session/Line.antt =====
-- A read of linux/master_impl.c over a line with a slave of rtu.c and rtu_memory.c at its other end.
use modbus_c.Prelude.{
  ℕ, ◌+◌, ◌-◌, ◌*◌, ◌≤◌, ◌≡◌, refl, sym, subst, ap, ◌∙◌, Option, some, List, [], ◌∷◌, ◌++◌, length,
  length-append, length-drop, drop, take, ◌==◌, if◌then◌else◌, Exec, done, copy_in, IsByte, IsBytes,
  arith,
}
use modbus_c.Prelude.Behind.{append_assoc, take_behind}
use modbus_c.Wire.{Data16, data16_to_word}
use modbus_c.Wire.Fcode
use modbus_c.Crc.{modbus_rtu_calc_crc}
use modbus_c.Crc.Detect.{crc_bytes}
use modbus_c.Crc.Frame.{frame, length-frame, HasCrc, frame-HasCrc}
use modbus_c.Memory.Loops.{expand, slice}
use modbus_c.Memory.Splice.{length-slice}
use modbus_c.Memory.Window.{IsWellFormed}
use modbus_c.Memory.Read.{Answered}
use modbus_c.Adapter.{RtuMemoryImpl, rtu_memory_impl_pdu_cb}
use modbus_c.Rtu.{State}
use modbus_c.Rtu.Schedule.{Event, receives, run}
use modbus_c.Rtu.Receive.{AreArrivals, received, frames_sent}
use modbus_c.Rtu.Answer.{IsListening, frame_time}
use modbus_c.Master.{mem_access_request}
use modbus_c.Master.Requests.{memcpy_start, implace_crc-frame}
use modbus_c.Master.Replies.{parse_reply_rd_holding_registers}
use modbus_c.MasterImpl.{write_impl, read_impl, read_data, rtu_master_rd_holding_registers}
use modbus_c.MasterImpl.Reads.{in_buffer, read_registers_lem}
use modbus_c.Session.{IsData16, read_reply, registers_read, length-expand, accepted}

-- the bytes of a frame on the line
abbrev pub arrivals : List ℕ → List Event
arrivals [] = []
arrivals (b ∷ bs) = receives b ∷ arrivals bs

pub arrivals-AreArrivals : (bs : List ℕ) → AreArrivals (arrivals bs)
arrivals-AreArrivals [] = tt
arrivals-AreArrivals (b ∷ bs) = arrivals-AreArrivals bs

pub received-arrivals : (bs : List ℕ) → received (arrivals bs) ≡ bs
received-arrivals [] = refl
received-arrivals (b ∷ bs) = ap (λ cs. b ∷ cs) (received-arrivals bs)

-- what a slave has sent since it had sent the frames `before`
abbrev pub reply_since : List (List ℕ) → List (List ℕ) → List ℕ
reply_since before [] = []
reply_since before (f ∷ fs) = if length before == length fs then f else []

-- A line: the slave, and the bytes of its reply that nobody has read.
abbrev pub Line : Type 0
Line = State RtuMemoryImpl × List ℕ

-- A frame that is written reaches the slave, which has time for its silence and its answer.
abbrev pub line_write : Line → List ℕ → Line × ℕ
line_write (s, unread) bs = elim (run rtu_memory_impl_pdu_cb s (frame_time (arrivals bs))) [
  | done s' ↦ ((s', reply_since (frames_sent s.actions) (frames_sent s'.actions)), length bs)
  | _ ↦ ((s, []), length bs)
]

abbrev pub line_read : Line → ℕ → Line × List ℕ
line_read (s, unread) n = ((s, drop n unread), take n unread)

pub take-own : (bs : List ℕ) → take (length bs) bs ≡ bs
take-own [] = refl
take-own (b ∷ bs) = ap (λ cs. b ∷ cs) (take-own bs)

pub drop-own : (bs : List ℕ) → drop (length bs) bs ≡ []
drop-own [] = refl
drop-own (b ∷ bs) = drop-own bs

pub reply_since-cons : (before : List (List ℕ)) (f : List ℕ) → reply_since before (f ∷ before) ≡ f
reply_since-cons before f = ground arith

-- the data of a reply behind its header of three bytes
pub slice_values :
    (a f c : ℕ) (values crc rest : List ℕ) (n : ℕ)
    → length values ≡ n
    → slice (((a ∷ f ∷ c ∷ values) ++ crc) ++ rest) 3 n ≡ values
slice_values a f c values crc rest n e =
    subst (λ k. take k ((values ++ crc) ++ rest) ≡ values) e
      (ap (take (length values)) (append_assoc values crc rest) ∙ take_behind values (crc ++ rest))

-- a read that is answered
module _ {D : Type 0} (tty_write : D → List ℕ → D × ℕ) (tty_read : D → ℕ → D × List ℕ) where
  pub read_data-answered :
      (dev sent dev' : D) (req came : List ℕ) (header size : ℕ)
      (parse_reply : List ℕ → ℕ → Exec (Option ℕ)) (rx_buf target : List ℕ) (count : ℕ)
      → tty_write dev (frame req) ≡ (sent, length (frame req))
      → tty_read sent (header + size + 2) ≡ (dev', came)
      → length came ≡ header + size + 2
      → header + size + 2 ≤ length rx_buf
      → size ≤ length target
      → parse_reply (in_buffer came rx_buf) (header + size + 2) ≡ done (some 0)
      → read_data tty_write tty_read dev req header size parse_reply rx_buf target count
        ≡ done (dev', slice (in_buffer came rx_buf) header size ++ drop size target, some count)
  unfolding read_data write_impl read_impl
  read_data-answered dev sent dev' req came header size parse_reply rx_buf target count wr rd n room
        enough parsed =
      let rx = in_buffer came rx_buf in
      ground (
        arith,
        implace_crc-frame req,
        wr,
        rd,
        n,
        parsed,
        memcpy_start came rx_buf (omega arith),
        copy_in size rx header,
        length-slice size rx header,
        length-append came (drop (length came) rx_buf),
        length-drop (length came) rx_buf,
        memcpy_start (slice rx header size) target,
      )

module _ (s : State RtuMemoryImpl) (listening : IsListening s) (w : IsWellFormed s.user_data.memory)
    (contents : IsBytes s.rxbuf) (self : IsByte s.user_data.self_addr) where
  -- A master of linux/master_impl.c reads registers over a line, at whose other end a slave with
  -- its memory listens that gets each frame as a whole and has time to answer. If it asks for 1 to
  -- 125 addresses inside the slave's memory and its target has room for them, then the transaction
  -- does not fail: the target starts with the bytes at these addresses, each behind a zero, and is
  -- as before behind them, the number of registers is returned, the slave's memory stays, and no
  -- bytes are left on the line.
  pub rtu_master_rd_holding_registers-answered :
      (mem_addr count : Data16) (rx_buf target : List ℕ)
      → IsData16 mem_addr
      → IsData16 count
      → Answered 125 s.user_data.memory (data16_to_word mem_addr) (data16_to_word count)
      → length rx_buf ≡ 256
      → data16_to_word count * 2 ≤ length target
      → (s' : State RtuMemoryImpl) × (rtu_master_rd_holding_registers line_write line_read
            (s, [])
            s.user_data.self_addr
            mem_addr
            count
            rx_buf
            target
          ≡ done (
            (s', []),
            expand (
                  slice s.user_data.memory.bytes
                    (data16_to_word mem_addr - s.user_data.memory.addr_begin)
                    (data16_to_word count))
                ++ drop (data16_to_word count * 2) target,
            some (data16_to_word count),
          ))
        × (s'.user_data ≡ s.user_data)
  unfolding rtu_master_rd_holding_registers read_data write_impl read_impl
  rtu_master_rd_holding_registers-answered mem_addr count rx_buf target hm hc ok size enough =
      let req =
        mem_access_request s.user_data.self_addr Fcode.rd_holding_registers mem_addr count in
      let num = data16_to_word count in
      let r =
        registers_read s listening w contents self (arrivals (frame req))
          (arrivals-AreArrivals (frame req)) mem_addr count hm hc (received-arrivals (frame req))
          ok in
      let values = expand (
        slice s.user_data.memory.bytes (data16_to_word mem_addr - s.user_data.memory.addr_begin)
          num) in
      let reply = read_reply s.user_data mem_addr count in
      let rest = drop (length (frame reply)) rx_buf in
      let n : length values ≡ num * 2 = omega (
        arith,
        length-expand (
            slice s.user_data.memory.bytes (data16_to_word mem_addr - s.user_data.memory.addr_begin)
              num),
        length-slice num s.user_data.memory.bytes
            (data16_to_word mem_addr - s.user_data.memory.addr_begin) (omega (arith, w, ok.2)),
      ) in
      let long : length (frame reply) ≡ 3 + num * 2 + 2 = omega (arith, n, length-frame reply) in
      let parsed : parse_reply_rd_holding_registers (frame reply ++ rest) (3 + num * 2 + 2)
          ≡ done (some 0) =
        accepted _ 0 _
          (read_registers_lem (frame reply ++ rest) (num * 2)
            (omega (arith, long, length-append (frame reply) rest)))
          (
            refl,
            subst (HasCrc (frame reply ++ rest)) (sym (length-frame reply) ∙ long)
                (frame-HasCrc reply rest (omega arith)),
          ) in
      (
        r.0,
        read_data-answered line_write line_read (s, []) (r.0, frame reply) (r.0, []) req
              (frame reply) 3 (num * 2) parse_reply_rd_holding_registers rx_buf target num
              (ground (arith, r.1, r.2, reply_since-cons (frames_sent s.actions) (frame reply)))
              (ground (arith, long, take-own (frame reply), drop-own (frame reply))) long
              (omega (arith, ok.1)) enough parsed
            ∙ ap (λ vs. done ((r.0, []), vs ++ drop (num * 2) target, some num))
                (slice_values s.user_data.self_addr Fcode.rd_holding_registers (num * 2) values
                  (crc_bytes (modbus_rtu_calc_crc reply)) rest (num * 2) n),
        r.3,
      )
