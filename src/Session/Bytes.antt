-- ===== src/Session/Bytes.antt =====
-- A write of bytes of linux/master_impl.c over a line with a slave at its other end.
use modbus_c.Prelude.{
  ℕ, ◌+◌, ◌-◌, ◌≤◌, ◌≡◌, refl, ap, ◌∙◌, inl, inr, false, Option, some, List, [], ◌∷◌, ◌++◌, length,
  take, drop, length-append, Exec, done, IsByte, IsBytes, IsBytes-append, arith,
}
use modbus_c.Prelude.Behind.{append_assoc, take_behind}
use modbus_c.Wire.{Data16, data16_to_word}
use modbus_c.Wire.Fcode
use modbus_c.Wire.Words.{make_word-eq}
use modbus_c.Crc.{modbus_rtu_calc_crc}
use modbus_c.Crc.Detect.{crc_bytes}
use modbus_c.Crc.Frame.{frame, length-frame, frame-IsBytes, frame-HasCrc}
use modbus_c.Memory.{RtuMemory, rtu_memory_pdu_cb}
use modbus_c.Memory.Loops.{slice, splice}
use modbus_c.Memory.Window.{IsWellFormed, IsInside, IsRequest}
use modbus_c.Memory.Write.{write_n8-stores}
use modbus_c.Adapter.{RtuMemoryImpl, rtu_memory_impl_pdu_cb}
use modbus_c.Rtu.{RtuState, State}
use modbus_c.Rtu.Timer.{stopped, timer_after}
use modbus_c.Rtu.Process.{drop-IsBytes}
use modbus_c.Rtu.Schedule.{Event, run}
use modbus_c.Rtu.Receive.{AreArrivals, received, frames_sent}
use modbus_c.Rtu.Answer.{IsListening, frame_time, frame_time-answered}
use modbus_c.Master.{Request, wr_bytes_request_header}
use modbus_c.Master.Requests.{made, memcpy_start}
use modbus_c.Master.Outcome.{Outcome, make_request_wr_bytes_lem}
use modbus_c.Master.Parse.{fixed_replies_lem}
use modbus_c.Master.Replies.{parse_reply_wr_bytes}
use modbus_c.MasterImpl.{write_impl, read_impl, write_data, rtu_master_wr_bytes}
use modbus_c.MasterImpl.Reads.{in_buffer}
use modbus_c.Session.{IsData16, accepted}
use modbus_c.Session.Line.{
  arrivals, arrivals-AreArrivals, received-arrivals, line_write, line_read, reply_since-cons,
  take-own, drop-own,
}

-- a request to write bytes
abbrev pub request : ℕ → Data16 → List ℕ → List ℕ
request self_addr mem_addr values =
    wr_bytes_request_header self_addr Fcode.wr_bytes mem_addr (length values) ++ values

module _ (self_addr : ℕ) (mem_addr : Data16) (values rest : List ℕ) where
  -- the receive buffer behind it
  abbrev buffer : List ℕ
  buffer = frame (request self_addr mem_addr values) ++ rest

  buffer-slice : slice buffer 5 (length values) ≡ values
  buffer-slice =
      ap (take (length values)) (
        append_assoc values (crc_bytes (modbus_rtu_calc_crc (request self_addr mem_addr values)))
          rest)
      ∙ take_behind values
          (crc_bytes (modbus_rtu_calc_crc (request self_addr mem_addr values)) ++ rest)

  module _ (ha : IsByte self_addr) (hm : IsData16 mem_addr) (hv : IsBytes values)
      (hr : IsBytes rest) (few : length values ≤ 249) where
    buffer-IsRequest :
        IsRequest buffer 1 (length (request self_addr mem_addr values)) 2 3 (3 + length values)
    buffer-IsRequest = record {
      bytes =
          IsBytes-append (frame (request self_addr mem_addr values)) rest
            (frame-IsBytes (request self_addr mem_addr values)
              (ha, (omega arith, (hm.0, (hm.1, (omega (arith, few), hv))))))
            hr;
      start = refl;
      long = omega arith;
      held = omega (
        arith,
        length-append (frame (request self_addr mem_addr values)) rest,
        length-frame (request self_addr mem_addr values),
      );
    }

    -- the handler on it
    stored :
        (memory : RtuMemory)
        → IsWellFormed memory
        → IsInside memory (data16_to_word mem_addr) (length values)
        → 1 ≤ length values
        → rtu_memory_pdu_cb memory Fcode.wr_bytes buffer 1
            (length (request self_addr mem_addr values))
            2
          ≡ done (
            record memory {
              bytes = splice memory.bytes (data16_to_word mem_addr - memory.addr_begin) values;
            },
            Fcode.wr_bytes ∷ mem_addr.high ∷ mem_addr.low ∷ length values ∷ [],
          )
    unfolding rtu_memory_pdu_cb data16_to_word
    stored memory w inside any =
        write_n8-stores memory buffer 1 (length (request self_addr mem_addr values)) 2 w
          (data16_to_word mem_addr) (length values) buffer-IsRequest
          (omega (arith, make_word-eq mem_addr.low mem_addr.high hm.0)) refl any few (omega arith)
          inside
        ∙ ap
            (λ vs. done (
              record memory {
                bytes = splice memory.bytes (data16_to_word mem_addr - memory.addr_begin) vs;
              },
              Fcode.wr_bytes ∷ mem_addr.high ∷ mem_addr.low ∷ length values ∷ [],
            ))
            buffer-slice

-- the callback of the adapter, for its own address
pub own_write :
    (impl : RtuMemoryImpl) (memory : RtuMemory) (fcode : ℕ) (buf reply : List ℕ) (end : ℕ)
    → rtu_memory_pdu_cb impl.memory fcode buf 1 end 2 ≡ done (memory, reply)
    → rtu_memory_impl_pdu_cb impl impl.self_addr fcode buf 0 end 2
      ≡ done (record impl { memory = memory }, impl.self_addr ∷ reply)
unfolding rtu_memory_impl_pdu_cb
own_write impl memory fcode buf reply end h = ground (arith, h)

-- the memory behind a write of values
abbrev pub with_values : RtuMemoryImpl → Data16 → List ℕ → RtuMemoryImpl
with_values impl mem_addr values = record impl {
  memory = record (impl.memory) {
    bytes = splice impl.memory.bytes (data16_to_word mem_addr - impl.memory.addr_begin) values;
  };
}

module _ (s : State RtuMemoryImpl) (listening : IsListening s) (w : IsWellFormed s.user_data.memory)
    (contents : IsBytes s.rxbuf) (self : IsByte s.user_data.self_addr) where
  abbrev written_reply : Data16 → ℕ → List ℕ
  written_reply = wr_bytes_request_header s.user_data.self_addr Fcode.wr_bytes

  bytes_written :
      (mem_addr : Data16) (values : List ℕ) (es : List Event)
      → IsData16 mem_addr
      → IsBytes values
      → 1 ≤ length values
      → length values ≤ 249
      → IsInside s.user_data.memory (data16_to_word mem_addr) (length values)
      → AreArrivals es
      → received es ≡ frame (request s.user_data.self_addr mem_addr values)
      → (s' : State RtuMemoryImpl) × (run rtu_memory_impl_pdu_cb s (frame_time es) ≡ done s')
        × (frames_sent s'.actions
            ≡ frame (written_reply mem_addr (length values)) ∷ frames_sent s.actions)
        × (s'.user_data ≡ with_values s.user_data mem_addr values)
        × (s'.status.curr ≡ RtuState.busy)
        × (s'.status.error ≡ false)
        × (timer_after s'.actions ≡ some stopped)
  bytes_written mem_addr values es hm hv any few inside arrivals e =
      let impl = s.user_data in
      let rest = drop (length (request impl.self_addr mem_addr values) + 2) s.rxbuf in
      let memory : RtuMemory = (with_values impl mem_addr values).memory in
      let cb =
        own_write impl memory Fcode.wr_bytes (buffer impl.self_addr mem_addr values rest) _ _ (
          stored impl.self_addr mem_addr values rest self hm hv
            (drop-IsBytes (length (request impl.self_addr mem_addr values) + 2) s.rxbuf contents)
            few impl.memory w inside any) in
      let r =
        frame_time-answered rtu_memory_impl_pdu_cb s listening es
          (request impl.self_addr mem_addr values) (with_values impl mem_addr values)
          (written_reply mem_addr (length values)) arrivals e (omega arith) (omega (arith, few)) cb
          (omega arith) (omega arith) in
      (r.0, r.1, r.2, r.3, r.4, r.5, r.6)

in_full :
    (ok : Type 0) (dst req : List ℕ) (m : Request) → Outcome ok dst req m → ok → m ≡ made dst req
in_full ok dst req m (inl (v, e)) h = e
in_full ok dst req m (inr (v, e)) h = absurd (v h)

-- a write that is answered
module _ {D : Type 0} (tty_write : D → List ℕ → D × ℕ) (tty_read : D → ℕ → D × List ℕ) where
  pub write_data-answered :
      (dev sent dev' : D) (tx_buf req came : List ℕ) (size : ℕ)
      (parse_reply : List ℕ → ℕ → Exec (Option ℕ)) (reply : List ℕ) (count : ℕ)
      → tty_write dev (frame req) ≡ (sent, length (frame req))
      → tty_read sent size ≡ (dev', came)
      → length came ≡ size
      → size ≤ length reply
      → parse_reply (in_buffer came reply) size ≡ done (some 0)
      → write_data tty_write tty_read dev (made tx_buf req) size parse_reply reply count
        ≡ done (dev', some count)
  unfolding write_data write_impl read_impl
  write_data-answered dev sent dev' tx_buf req came size parse_reply reply count wr rd n room
        parsed =
      ground (
        arith,
        take_behind (frame req) (drop (length req + 2) tx_buf),
        length-frame req,
        wr,
        rd,
        n,
        parsed,
        memcpy_start came reply (omega arith),
      )

module _ (s : State RtuMemoryImpl) (listening : IsListening s) (w : IsWellFormed s.user_data.memory)
    (contents : IsBytes s.rxbuf) (self : IsByte s.user_data.self_addr) where
  pub rtu_master_wr_bytes-answered :
      (mem_addr : Data16) (values tx_buf reply : List ℕ)
      → IsData16 mem_addr
      → IsBytes values
      → 1 ≤ length values
      → length values ≤ 249
      → IsInside s.user_data.memory (data16_to_word mem_addr) (length values)
      → length tx_buf ≡ 256
      → length reply ≡ 7
      → (s' : State RtuMemoryImpl) × (rtu_master_wr_bytes line_write line_read
            (s, [])
            s.user_data.self_addr
            mem_addr
            (length values)
            (some values)
            tx_buf
            reply
          ≡ done ((s', []), some (length values)))
        × (s'.user_data ≡ with_values s.user_data mem_addr values)
        × (s'.status.curr ≡ RtuState.busy)
        × (s'.status.error ≡ false)
        × (timer_after s'.actions ≡ some stopped)
  unfolding rtu_master_wr_bytes
  rtu_master_wr_bytes-answered mem_addr values tx_buf reply hm hv any few inside size room =
      let self_addr = s.user_data.self_addr in
      let num = length values in
      let req = request self_addr mem_addr values in
      let answer = wr_bytes_request_header self_addr Fcode.wr_bytes mem_addr num in
      let rest = drop 7 reply in
      let r =
        bytes_written s listening w contents self mem_addr values (arrivals (frame req)) hm hv any
          few inside (arrivals-AreArrivals (frame req)) (received-arrivals (frame req)) in
      let parsed : parse_reply_wr_bytes (frame answer ++ rest) 7 ≡ done (some 0) =
        accepted _ 0 _ (fixed_replies_lem (frame answer ++ rest) 7 (omega arith)).2
          (refl, frame-HasCrc answer rest (omega arith)) in
      (
        r.0,
        ap (λ m. write_data line_write line_read (s, []) m 7 parse_reply_wr_bytes reply num)
              (in_full _ tx_buf (answer ++ take num values) _
                  (make_request_wr_bytes_lem self_addr mem_addr tx_buf 256 (omega arith) values num
                    (omega arith))
                  (few, omega (arith, few))
                ∙ ap (λ vs. made tx_buf (answer ++ vs)) (take-own values))
            ∙ write_data-answered line_write line_read (s, []) (r.0, frame answer) (r.0, []) tx_buf
                req (frame answer) 7 parse_reply_wr_bytes reply num
                (ground (arith, r.1, r.2, reply_since-cons (frames_sent s.actions) (frame answer)))
                (ground (arith, take-own (frame answer), drop-own (frame answer))) refl
                (omega (arith, room)) parsed,
        r.3,
        r.4,
        r.5,
        r.6,
      )
