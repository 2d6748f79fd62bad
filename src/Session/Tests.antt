-- ===== src/Session/Tests.antt =====
-- A slave of address 1 with the bytes 5, 6 and 7 at the addresses from 0 on, and a master that reads
-- and writes the first of them.
use modbus_c.Prelude.{
  ◌-◌, ◌*◌, ◌≤◌, ◌<◌, drop, ◌≡◌, refl, sym, ap, inl, true, false, some, List, [], ◌∷◌, ◌++◌, length,
  set, replicate, done, Ends, arith,
}
use modbus_c.Wire.{Data16, data16_to_word}
use modbus_c.Wire.Words.{make_word-eq}
use modbus_c.Crc.Detect.{crc_bytes}
use modbus_c.Crc.Frame.{frame}
use modbus_c.Crc.Tests.{write_request, write_request_crc}
use modbus_c.Memory.Window.{IsWellFormed, IsInside}
use modbus_c.Memory.Read.{Answered}
use modbus_c.Adapter.{RtuMemoryImpl, rtu_memory_impl_pdu_cb}
use modbus_c.Adapter.Serves.{IsServing, configured, run-IsServing}
use modbus_c.Rtu.{RtuState, null, State, modbus_rtu_init}
use modbus_c.Rtu.Timer.{timer_after}
use modbus_c.Rtu.Invariant.{zeros-AreBytes}
use modbus_c.Rtu.Process.{Good}
use modbus_c.Rtu.Schedule.{Event, receives, expires, polls, run}
use modbus_c.Rtu.Receive.{received, frames_sent}
use modbus_c.Rtu.Faults.{FaultsAt}
use modbus_c.Rtu.Answer.{IsListening, frame_time}
use modbus_c.Rtu.Tests.{arrivals}
use modbus_c.Master.Replies.{parse_reply_wr_register}
use modbus_c.MasterImpl.{rtu_master_rd_holding_registers}
use modbus_c.Memory.Loops.{expand, slice}
use modbus_c.Session.Line.{line_write, line_read, rtu_master_rd_holding_registers-answered}
use modbus_c.Session.Bytes.{with_values}
use modbus_c.Session.RoundTrip.{write_then_read, rd_bytes-wr_bytes}
use modbus_c.Session.{register_written}

abbrev impl : RtuMemoryImpl
impl = record {
  self_addr = 1;
  memory = record { addr_begin = 0; addr_end = 3; bytes = 5 ∷ 6 ∷ 7 ∷ [] };
}

abbrev slave : State RtuMemoryImpl
slave = record {
  timer_cb = null;
  has_suspend_cb = true;
  has_resume_cb = true;
  rxbuf = replicate 256 0;
  rxbuf_curr = 0;
  txbuf = replicate 256 0;
  txbuf_curr = 0;
  user_data = impl;
  stats = record { err_cntr = 0; serial_recv_err_cntr = 0; crc_err_cntr = 0 };
  status = record { updated = true; error = false; prev = RtuState.init; curr = RtuState.idle };
  actions = [];
}

slave-IsListening : IsListening slave
unfolding timer_after
slave-IsListening = record {
  rxbuf = refl;
  txbuf = (refl, refl);
  receiving = record {
    place = (refl, inl refl, refl);
    no_error = refl;
    rxbuf = refl;
    rxbuf_curr = refl;
    txbuf = (refl, refl);
    user_data = refl;
    callbacks = (refl, refl);
    sent = refl;
    stats = refl;
  };
}

impl-IsWellFormed : IsWellFormed impl.memory
impl-IsWellFormed = record { ends = omega arith; size = refl; contents = omega arith }

abbrev zero_field : Data16
zero_field = record { high = 0; low = 0 }

abbrev one_field : Data16
one_field = record { high = 0; low = 1 }

one_register : Answered 125 impl.memory (data16_to_word zero_field) (data16_to_word one_field)
unfolding data16_to_word
one_register = omega (arith, make_word-eq 0 0, make_word-eq 1 0)

abbrev write_arrivals : List Event
write_arrivals =
    receives 1
    ∷ receives 6
    ∷ polls
    ∷ receives 0
    ∷ receives 0
    ∷ receives 0
    ∷ receives 1
    ∷ polls
    ∷ receives 0x48
    ∷ receives 0x0a
    ∷ []

write_arrivals-frame : received write_arrivals ≡ frame write_request
write_arrivals-frame = ap (λ c. write_request ++ crc_bytes c) (sym write_request_crc)

first_address : IsInside impl.memory (data16_to_word zero_field) 1
unfolding data16_to_word
first_address = omega (arith, make_word-eq 0 0)

one_is_byte : data16_to_word one_field < 256
unfolding data16_to_word
one_is_byte = omega (arith, make_word-eq 1 0)

register_written_example :
    (s' : State RtuMemoryImpl) × (run rtu_memory_impl_pdu_cb slave (frame_time write_arrivals)
      ≡ done s')
    × (frames_sent s'.actions ≡ (1 ∷ 6 ∷ 0 ∷ 0 ∷ 0 ∷ 1 ∷ 0x48 ∷ 0x0a ∷ []) ∷ frames_sent [])
    × (s'.user_data.memory.bytes
        ≡ set impl.memory.bytes
            (data16_to_word zero_field - impl.memory.addr_begin)
            (data16_to_word one_field))
    × (parse_reply_wr_register (received write_arrivals) (length (received write_arrivals))
        ≡ done (some 0))
register_written_example =
    register_written slave slave-IsListening impl-IsWellFormed (zeros-AreBytes 256).1 (omega arith)
      write_arrivals tt zero_field one_field (omega arith) (omega arith) write_arrivals-frame
      first_address one_is_byte

run-IsServing_example :
    Ends
      (FaultsAt rtu_memory_impl_pdu_cb
        (modbus_rtu_init true true (configured 1 16 4))
        (polls ∷ expires ∷ arrivals 0x0a))
      (Good (Unit {0}) (IsServing 1 16 4) rtu_memory_impl_pdu_cb)
      (run rtu_memory_impl_pdu_cb
        (modbus_rtu_init true true (configured 1 16 4))
        (polls ∷ expires ∷ arrivals 0x0a))
run-IsServing_example =
    run-IsServing true true 1 16 4 (polls ∷ expires ∷ arrivals 0x0a) (omega arith) (omega arith)

one_fits : data16_to_word one_field * 2 ≤ 3
unfolding data16_to_word
one_fits = omega (arith, make_word-eq 1 0)

rtu_master_rd_holding_registers-answered_example :
    (s' : State RtuMemoryImpl) × (rtu_master_rd_holding_registers line_write line_read
        (slave, [])
        1
        zero_field
        one_field
        (replicate 256 0)
        (9 ∷ 9 ∷ 8 ∷ [])
      ≡ done (
        (s', []),
        expand (slice (5 ∷ 6 ∷ 7 ∷ []) (data16_to_word zero_field - 0) (data16_to_word one_field))
            ++ drop (data16_to_word one_field * 2) (9 ∷ 9 ∷ 8 ∷ []),
        some (data16_to_word one_field),
      ))
    × (s'.user_data ≡ impl)
rtu_master_rd_holding_registers-answered_example =
    rtu_master_rd_holding_registers-answered slave slave-IsListening impl-IsWellFormed
      (zeros-AreBytes 256).1 (omega arith) zero_field one_field (replicate 256 0) (9 ∷ 9 ∷ 8 ∷ [])
      (omega arith) (omega arith) one_register refl one_fits

-- two values for the last two addresses
one-IsInside : IsInside impl.memory (data16_to_word one_field) 2
unfolding data16_to_word
one-IsInside = omega (arith, make_word-eq 1 0)

rd_bytes-wr_bytes_example :
    (s' : State RtuMemoryImpl) × (write_then_read
        (slave, [])
        1
        one_field
        (200 ∷ 0 ∷ [])
        (replicate 256 0)
        (replicate 7 0)
        (replicate 256 0)
        (1 ∷ 2 ∷ 3 ∷ [])
      ≡ done ((s', []), 200 ∷ 0 ∷ 3 ∷ [], some 2))
    × (s'.user_data ≡ with_values impl one_field (200 ∷ 0 ∷ []))
rd_bytes-wr_bytes_example =
    rd_bytes-wr_bytes slave slave-IsListening impl-IsWellFormed (zeros-AreBytes 256).1 (omega arith)
      one_field (200 ∷ 0 ∷ []) (replicate 256 0) (replicate 7 0) (replicate 256 0) (1 ∷ 2 ∷ 3 ∷ [])
      (omega arith) (omega arith) (omega arith) (omega arith) one-IsInside refl refl refl
      (omega arith)
