-- ===== src/Session.antt =====
-- A master and a slave on one line: what a request of master.c makes a slave of rtu.c with the memory
-- of rtu_memory.c do, and what master.c makes of the reply.
pub mod Line
pub mod Bytes
pub mod ReadBytes
pub mod RoundTrip
pub mod Tests
use modbus_c.Prelude.{
  ℕ, ◌+◌, ◌-◌, ◌*◌, ◌≤◌, ◌<◌, ◌≡◌, refl, ap, inl, inr, Option, some, List, [], ◌∷◌, ◌++◌, length,
  drop, set, Exec, done, ◌>>=◌, IsByte, IsBytes, IsBytes-append, arith,
}
use modbus_c.Prelude.Behind.{append_nil}
use modbus_c.Wire.{Data16, data16_to_word}
use modbus_c.Wire.Fcode
use modbus_c.Wire.Words.{make_word-eq}
use modbus_c.Crc.Frame.{frame, length-frame, frame-IsBytes, HasCrc, frame-HasCrc}
use modbus_c.Memory.{RtuMemory, wr16, rtu_memory_pdu_cb}
use modbus_c.Memory.Fields.{word_at}
use modbus_c.Memory.Loops.{expand, slice}
use modbus_c.Memory.Splice.{length-slice}
use modbus_c.Memory.Window.{IsWellFormed, IsInside, IsRequest}
use modbus_c.Memory.Read.{Answered, read_n16-Answered}
use modbus_c.Memory.Write.{write_16-stores}
use modbus_c.Adapter.{RtuMemoryImpl, rtu_memory_impl_pdu_cb}
use modbus_c.Rtu.{State}
use modbus_c.Rtu.Process.{drop-IsBytes}
use modbus_c.Rtu.Schedule.{Event, run}
use modbus_c.Rtu.Receive.{AreArrivals, received, frames_sent}
use modbus_c.Rtu.Answer.{IsListening, frame_time, frame_time-answered}
use modbus_c.Master.{wr_register_request, mem_access_request}
use modbus_c.Master.Replies.{parse_reply_rd_holding_registers, parse_reply_wr_register}
use modbus_c.Master.Parse.{Accepts, fixed_replies_lem, counted_replies_lem}

abbrev pub IsData16 : Data16 → Type 0
IsData16 d = IsByte d.high × IsByte d.low

pub length-expand : (bs : List ℕ) → length (expand bs) ≡ length bs * 2
unfolding wr16
length-expand [] = refl
length-expand (b ∷ bs) = ground (arith, length-expand bs)

-- a frame is its own ADU
frame-own : (bs : List ℕ) → 1 ≤ length bs → HasCrc (frame bs) (length (frame bs))
frame-own bs h = rw (length-frame bs) (rw (append_nil (frame bs)) at (frame-HasCrc bs [] h))

module _ (self_addr fcode : ℕ) (mem_addr value : Data16) (rest : List ℕ) where
  -- the receive buffer behind a request of six bytes and its CRC
  abbrev request_buffer : List ℕ
  request_buffer = frame (mem_access_request self_addr fcode mem_addr value) ++ rest

  module _ (ha : IsByte self_addr) (hf : IsByte fcode) (hm : IsData16 mem_addr)
      (hv : IsData16 value) (hr : IsBytes rest) where
    request-IsRequest : IsRequest request_buffer 1 6 2 4 4
    request-IsRequest = record {
      bytes =
          IsBytes-append (frame (mem_access_request self_addr fcode mem_addr value)) rest
            (frame-IsBytes (mem_access_request self_addr fcode mem_addr value)
              (ha, (hf, (hm.0, (hm.1, (hv.0, (hv.1, tt)))))))
            hr;
      start = refl;
      long = omega arith;
      held = omega arith;
    }

    request-start : word_at request_buffer 2 ≡ data16_to_word mem_addr
    unfolding data16_to_word
    request-start = omega (arith, make_word-eq mem_addr.low mem_addr.high hm.0)

    request-value : word_at request_buffer 4 ≡ data16_to_word value
    unfolding data16_to_word
    request-value = omega (arith, make_word-eq value.low value.high hv.0)

    own_request :
        (impl : RtuMemoryImpl) (memory : RtuMemory) (reply : List ℕ)
        → impl.self_addr ≡ self_addr
        → rtu_memory_pdu_cb impl.memory fcode request_buffer 1 6 2 ≡ done (memory, reply)
        → rtu_memory_impl_pdu_cb impl self_addr fcode request_buffer 0 6 2
          ≡ done (record impl { memory = memory }, self_addr ∷ reply)
    unfolding rtu_memory_impl_pdu_cb
    own_request impl memory reply e h = ground (arith, e, h)

-- the reply to a read of registers: the function code, the number of bytes and the registers
abbrev pub read_reply : RtuMemoryImpl → Data16 → Data16 → List ℕ
read_reply impl mem_addr count =
    impl.self_addr
    ∷ Fcode.rd_holding_registers
    ∷ (data16_to_word count * 2)
    ∷ expand (
        slice impl.memory.bytes (data16_to_word mem_addr - impl.memory.addr_begin)
          (data16_to_word count))

pub accepted : (ok : Type 0) (p : ℕ) (m : Exec (Option ℕ)) → Accepts ok p m → ok → m ≡ done (some p)
accepted ok p m (inl (v, e)) h = e
accepted ok p m (inr (v, e)) h = absurd (v h)

module _ (s : State RtuMemoryImpl) (listening : IsListening s) (w : IsWellFormed s.user_data.memory)
    (contents : IsBytes s.rxbuf) (self : IsByte s.user_data.self_addr) (es : List Event)
    (arrivals : AreArrivals es) where
  -- A slave listens, its memory is well formed, and it is sent a master's request for registers,
  -- with rounds of its loop anywhere between the bytes. If the request asks for 1 to 125 addresses
  -- inside the memory, the slave sends one frame, the bytes at these addresses each behind a zero,
  -- its memory stays, and the master's check accepts that frame.
  pub registers_read :
      (mem_addr count : Data16)
      → IsData16 mem_addr
      → IsData16 count
      → received es
        ≡ frame (mem_access_request s.user_data.self_addr Fcode.rd_holding_registers mem_addr count)
      → Answered 125 s.user_data.memory (data16_to_word mem_addr) (data16_to_word count)
      → (s' : State RtuMemoryImpl) × (run rtu_memory_impl_pdu_cb s (frame_time es) ≡ done s')
        × (frames_sent s'.actions
            ≡ frame (read_reply s.user_data mem_addr count) ∷ frames_sent s.actions)
        × (s'.user_data ≡ s.user_data)
        × (parse_reply_rd_holding_registers
              (frame (read_reply s.user_data mem_addr count))
              (length (frame (read_reply s.user_data mem_addr count)))
            ≡ done (some 0))
  unfolding rtu_memory_pdu_cb
  registers_read mem_addr count hm hc e ok =
      let impl = s.user_data in
      let num = data16_to_word count in
      let rest = drop 8 s.rxbuf in
      let values =
        expand (slice impl.memory.bytes (data16_to_word mem_addr - impl.memory.addr_begin) num) in
      let reply = impl.self_addr ∷ Fcode.rd_holding_registers ∷ (num * 2) ∷ values in
      let hr = drop-IsBytes 8 s.rxbuf contents in
      let fc : IsByte 3 = omega arith in
      let cb =
        own_request impl.self_addr 3 mem_addr count rest self fc hm hc hr impl impl.memory
          (Fcode.rd_holding_registers ∷ (num * 2) ∷ values) refl
          (read_n16-Answered impl.memory _ 1 6 2 w _ num
            (request-IsRequest impl.self_addr 3 mem_addr count rest self fc hm hc hr)
            (request-start impl.self_addr 3 mem_addr count rest self fc hm hc hr)
            (request-value impl.self_addr 3 mem_addr count rest self fc hm hc hr) ok) in
      let n : length values ≡ num * 2 = omega (
        arith,
        length-expand
            (slice impl.memory.bytes (data16_to_word mem_addr - impl.memory.addr_begin) num),
        length-slice num impl.memory.bytes (data16_to_word mem_addr - impl.memory.addr_begin)
            (omega (arith, w, ok.2)),
      ) in
      let r =
        frame_time-answered rtu_memory_impl_pdu_cb s listening es
          (mem_access_request impl.self_addr Fcode.rd_holding_registers mem_addr count) impl reply
          arrivals e (omega arith) (omega arith) cb (omega arith) (omega (arith, n, ok.1)) in
      (
        r.0,
        r.1,
        r.2,
        r.3,
        accepted _ 0 _ (counted_replies_lem (frame reply) (length (frame reply)) (omega arith)).0
            (omega (arith, n, length-frame reply), frame-own reply (omega arith)),
      )

  -- A slave listens, its memory is well formed, and it is sent a master's request to write a value
  -- below 256 to a register inside the memory, with rounds of its loop anywhere between the bytes.
  -- Then the slave sends back the frame it received, its memory is the old one with the value at
  -- that address, and the master's check accepts the frame.
  pub register_written :
      (mem_addr value : Data16)
      → IsData16 mem_addr
      → IsData16 value
      → received es
        ≡ frame (wr_register_request s.user_data.self_addr Fcode.wr_register mem_addr value)
      → IsInside s.user_data.memory (data16_to_word mem_addr) 1
      → data16_to_word value < 256
      → (s' : State RtuMemoryImpl) × (run rtu_memory_impl_pdu_cb s (frame_time es) ≡ done s')
        × (frames_sent s'.actions ≡ received es ∷ frames_sent s.actions)
        × (s'.user_data.memory.bytes
            ≡ set s.user_data.memory.bytes
                (data16_to_word mem_addr - s.user_data.memory.addr_begin)
                (data16_to_word value))
        × (parse_reply_wr_register (received es) (length (received es)) ≡ done (some 0))
  unfolding rtu_memory_pdu_cb
  register_written mem_addr value hm hv e inside small =
      let impl = s.user_data in
      let rest = drop 8 s.rxbuf in
      let reply = wr_register_request impl.self_addr Fcode.wr_register mem_addr value in
      let hr = drop-IsBytes 8 s.rxbuf contents in
      let fc : IsByte 6 = omega arith in
      let memory : RtuMemory = record (impl.memory) {
        bytes =
            set impl.memory.bytes (data16_to_word mem_addr - impl.memory.addr_begin)
              (data16_to_word value);
      } in
      let cb =
        own_request impl.self_addr 6 mem_addr value rest self fc hm hv hr impl memory _ refl (
          write_16-stores impl.memory _ 1 6 2 w _ _
            (request-IsRequest impl.self_addr 6 mem_addr value rest self fc hm hv hr)
            (request-start impl.self_addr 6 mem_addr value rest self fc hm hv hr)
            (request-value impl.self_addr 6 mem_addr value rest self fc hm hv hr) inside small) in
      let r =
        frame_time-answered rtu_memory_impl_pdu_cb s listening es reply
          (record impl { memory = memory }) reply arrivals e (omega arith) (omega arith) cb
          (omega arith) (omega arith) in
      (
        r.0,
        r.1,
        rw (e) r.2,
        ap (λ (impl : RtuMemoryImpl). impl.memory.bytes) r.3,
        rw (e) (
            accepted _ 0 _ (fixed_replies_lem (frame reply) (length (frame reply)) (omega arith)).0
              (omega (arith, length-frame reply), frame-own reply (omega arith))),
      )
