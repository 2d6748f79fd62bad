-- ===== src/Session/ReadBytes.antt =====
-- A read of bytes of linux/master_impl.c over a line with a slave at its other end.
use modbus_c.Prelude.{
  ℕ, ◌+◌, ◌-◌, ◌≤◌, ◌≡◌, refl, sym, subst, ap, ◌∙◌, some, List, [], ◌∷◌, ◌++◌, length, take, drop,
  length-append, done, IsByte, IsBytes, IsBytes-append, arith,
}
use modbus_c.Prelude.Behind.{append_assoc, take_behind}
use modbus_c.Wire.{Data16, data16_to_word}
use modbus_c.Wire.Fcode
use modbus_c.Wire.Words.{make_word-eq}
use modbus_c.Crc.{modbus_rtu_calc_crc}
use modbus_c.Crc.Detect.{crc_bytes}
use modbus_c.Crc.Frame.{frame, length-frame, frame-IsBytes, HasCrc, frame-HasCrc}
use modbus_c.Memory.{RtuMemory, rtu_memory_pdu_cb}
use modbus_c.Memory.Loops.{slice}
use modbus_c.Memory.Splice.{length-slice}
use modbus_c.Memory.Window.{IsWellFormed, IsRequest}
use modbus_c.Memory.Read.{Answered, read_n8-Answered}
use modbus_c.Adapter.{RtuMemoryImpl, rtu_memory_impl_pdu_cb}
use modbus_c.Rtu.{State}
use modbus_c.Rtu.Process.{drop-IsBytes}
use modbus_c.Rtu.Schedule.{Event, run}
use modbus_c.Rtu.Receive.{AreArrivals, received, frames_sent}
use modbus_c.Rtu.Answer.{IsListening, frame_time, frame_time-answered}
use modbus_c.Master.{bytes_request}
use modbus_c.Master.Replies.{parse_reply_rd_bytes}
use modbus_c.MasterImpl.{rtu_master_rd_bytes}
use modbus_c.MasterImpl.Reads.{read_bytes_lem}
use modbus_c.Session.{IsData16, accepted}
use modbus_c.Session.Line.{
  arrivals, arrivals-AreArrivals, received-arrivals, line_write, line_read, reply_since-cons,
  take-own, drop-own, read_data-answered,
}
use modbus_c.Session.Bytes.{own_write}

-- the data of a reply behind its header of five bytes
slice_bytes :
    (a f h l c : ℕ) (values crc rest : List ℕ) (n : ℕ)
    → length values ≡ n
    → slice (((a ∷ f ∷ h ∷ l ∷ c ∷ values) ++ crc) ++ rest) 5 n ≡ values
slice_bytes a f h l c values crc rest n e =
    subst (λ k. take k ((values ++ crc) ++ rest) ≡ values) e
      (ap (take (length values)) (append_assoc values crc rest) ∙ take_behind values (crc ++ rest))

module _ (self_addr : ℕ) (mem_addr : Data16) (num : ℕ) (rest : List ℕ) (ha : IsByte self_addr)
    (hm : IsData16 mem_addr) (hn : IsByte num) (hr : IsBytes rest) where
  -- the receive buffer behind a request for bytes
  abbrev read_buffer : List ℕ
  read_buffer = frame (bytes_request self_addr Fcode.rd_bytes mem_addr num) ++ rest

  read_buffer-IsRequest : IsRequest read_buffer 1 5 2 3 3
  read_buffer-IsRequest = record {
    bytes =
        IsBytes-append (frame (bytes_request self_addr Fcode.rd_bytes mem_addr num)) rest
          (frame-IsBytes (bytes_request self_addr Fcode.rd_bytes mem_addr num)
            (ha, (omega arith, (hm.0, (hm.1, (hn, tt))))))
          hr;
    start = refl;
    long = omega arith;
    held = omega arith;
  }

  -- the handler on it
  fetched :
      (memory : RtuMemory)
      → IsWellFormed memory
      → Answered 249 memory (data16_to_word mem_addr) num
      → rtu_memory_pdu_cb memory Fcode.rd_bytes read_buffer 1 5 2
        ≡ done (
          memory,
          Fcode.rd_bytes
              ∷ mem_addr.high
              ∷ mem_addr.low
              ∷ num
              ∷ slice memory.bytes (data16_to_word mem_addr - memory.addr_begin) num,
        )
  unfolding rtu_memory_pdu_cb data16_to_word
  fetched memory w ok =
      read_n8-Answered memory read_buffer 1 5 2 w (data16_to_word mem_addr) num
        read_buffer-IsRequest (omega (arith, make_word-eq mem_addr.low mem_addr.high hm.0)) refl ok

module _ (s : State RtuMemoryImpl) (listening : IsListening s) (w : IsWellFormed s.user_data.memory)
    (contents : IsBytes s.rxbuf) (self : IsByte s.user_data.self_addr) where
  abbrev fetched_values : Data16 → ℕ → List ℕ
  fetched_values mem_addr num =
      slice s.user_data.memory.bytes (data16_to_word mem_addr - s.user_data.memory.addr_begin) num

  bytes_read :
      (mem_addr : Data16) (num : ℕ) (es : List Event)
      → IsData16 mem_addr
      → Answered 249 s.user_data.memory (data16_to_word mem_addr) num
      → AreArrivals es
      → received es ≡ frame (bytes_request s.user_data.self_addr Fcode.rd_bytes mem_addr num)
      → (s' : State RtuMemoryImpl) × (run rtu_memory_impl_pdu_cb s (frame_time es) ≡ done s')
        × (frames_sent s'.actions
            ≡ frame (
                bytes_request s.user_data.self_addr Fcode.rd_bytes mem_addr num
                ++ fetched_values mem_addr num)
              ∷ frames_sent s.actions)
        × (s'.user_data ≡ s.user_data)
  bytes_read mem_addr num es hm ok arrivals e =
      let impl = s.user_data in
      let hn : IsByte num = omega (arith, ok.1) in
      let req = bytes_request impl.self_addr Fcode.rd_bytes mem_addr num in
      let cb =
        own_write impl impl.memory Fcode.rd_bytes
          (read_buffer impl.self_addr mem_addr num (drop 7 s.rxbuf) self hm hn
            (drop-IsBytes 7 s.rxbuf contents))
          _ 5
          (fetched impl.self_addr mem_addr num (drop 7 s.rxbuf) self hm hn
            (drop-IsBytes 7 s.rxbuf contents) impl.memory w ok) in
      let r =
        frame_time-answered rtu_memory_impl_pdu_cb s listening es req impl
          (req ++ fetched_values mem_addr num) arrivals e (omega arith) (omega arith) cb
          (omega arith)
          (omega (
            arith,
            ok.1,
            length-slice num s.user_data.memory.bytes
                (data16_to_word mem_addr - s.user_data.memory.addr_begin) (omega (arith, w, ok.2)),
          )) in
      (r.0, r.1, r.2, r.3)

  pub rtu_master_rd_bytes-answered :
      (mem_addr : Data16) (num : ℕ) (rx_buf target : List ℕ)
      → IsData16 mem_addr
      → Answered 249 s.user_data.memory (data16_to_word mem_addr) num
      → length rx_buf ≡ 256
      → num ≤ length target
      → (s' : State RtuMemoryImpl) × (rtu_master_rd_bytes line_write line_read
            (s, [])
            s.user_data.self_addr
            mem_addr
            num
            rx_buf
            target
          ≡ done (
            (s', []),
            slice s.user_data.memory.bytes
                  (data16_to_word mem_addr - s.user_data.memory.addr_begin)
                  num
                ++ drop num target,
            some num,
          ))
        × (s'.user_data ≡ s.user_data)
  unfolding rtu_master_rd_bytes
  rtu_master_rd_bytes-answered mem_addr num rx_buf target hm ok size enough =
      let self_addr = s.user_data.self_addr in
      let req = bytes_request self_addr Fcode.rd_bytes mem_addr num in
      let values = fetched_values mem_addr num in
      let reply = req ++ values in
      let rest = drop (length (frame reply)) rx_buf in
      let r =
        bytes_read mem_addr num (arrivals (frame req)) hm ok (arrivals-AreArrivals (frame req))
          (received-arrivals (frame req)) in
      let n : length values ≡ num =
        length-slice num s.user_data.memory.bytes
          (data16_to_word mem_addr - s.user_data.memory.addr_begin) (omega (arith, w, ok.2)) in
      let long : length (frame reply) ≡ 5 + num + 2 = omega (arith, n, length-frame reply) in
      let parsed : parse_reply_rd_bytes (frame reply ++ rest) (5 + num + 2) ≡ done (some 0) =
        accepted _ 0 _
          (read_bytes_lem (frame reply ++ rest) num
            (omega (arith, long, length-append (frame reply) rest)))
          (
            refl,
            subst (HasCrc (frame reply ++ rest)) (sym (length-frame reply) ∙ long)
                (frame-HasCrc reply rest (omega arith)),
          ) in
      (
        r.0,
        read_data-answered line_write line_read (s, []) (r.0, frame reply) (r.0, []) req
              (frame reply) 5 num parse_reply_rd_bytes rx_buf target num
              (ground (arith, r.1, r.2, reply_since-cons (frames_sent s.actions) (frame reply)))
              (ground (arith, long, take-own (frame reply), drop-own (frame reply))) long
              (omega (arith, ok.1)) enough parsed
            ∙ ap (λ vs. done ((r.0, []), vs ++ drop num target, some num))
                (slice_bytes self_addr Fcode.rd_bytes mem_addr.high mem_addr.low num values
                  (crc_bytes (modbus_rtu_calc_crc reply)) rest num n),
        r.3,
      )
