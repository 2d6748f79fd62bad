-- ===== src/Rtu/Tests.antt =====
-- A slave of address 1 that answers a request by its first two bytes, and the request of
-- Crc/Tests.antt, with rounds of the loop here and there.
use modbus_c.Prelude.{
  some, ℕ, ◌+◌, ◌%◌, ◌^◌, ◌≡◌, refl, sym, ap, inl, true, false, List, [], ◌∷◌, ◌++◌, drop,
  replicate, done, Ends, arith,
}
use modbus_c.Wire.{RtuCrc}
use modbus_c.Crc.Detect.{crc_bytes}
use modbus_c.Crc.Frame.{frame, HasCrc}
use modbus_c.Crc.Tests.{request, request_crc}
use modbus_c.Rtu.{RtuState, null, State, PduCb, modbus_rtu_init}
use modbus_c.Rtu.Timer.{stopped, timer_after}
use modbus_c.Rtu.Invariant.{Inv, zeros-AreBytes}
use modbus_c.Rtu.Diagram.{Follows, step-Follows}
use modbus_c.Rtu.Process.{Answers, Good}
use modbus_c.Rtu.Schedule.{
  Event, receives, receive_fails, expires, sent, polls, step, run, run-init-Good,
}
use modbus_c.Rtu.Receive.{received, frames_sent}
use modbus_c.Rtu.Listen.{sent-IsListening}
use modbus_c.Rtu.Recover.{error-IsListening}
use modbus_c.Rtu.Answer.{IsListening, frame_time, frame_time-answered, frame_time-dropped}

abbrev pub echo : PduCb ℕ
echo user addr fcode src begin end curr = done (user + 1, addr ∷ 3 ∷ [])

abbrev slave : State ℕ
slave = record {
  timer_cb = null;
  has_suspend_cb = true;
  has_resume_cb = true;
  rxbuf = replicate 256 0;
  rxbuf_curr = 0;
  txbuf = replicate 256 0;
  txbuf_curr = 0;
  user_data = 0;
  stats = record { err_cntr = 0; serial_recv_err_cntr = 0; crc_err_cntr = 255 };
  status = record { updated = true; error = false; prev = RtuState.init; curr = RtuState.idle };
  actions = [];
}

slave-IsListening : IsListening slave
unfolding timer_after
slave-IsListening = record {
  rxbuf = refl;
  txbuf = (refl, refl);
  receiving = record {
    place = (refl, inl refl, refl);
    no_error = refl;
    rxbuf = refl;
    rxbuf_curr = refl;
    txbuf = (refl, refl);
    user_data = refl;
    callbacks = (refl, refl);
    sent = refl;
    stats = refl;
  };
}

-- the request, with its CRC or with another last byte
abbrev pub arrivals : ℕ → List Event
arrivals last =
    receives 1
    ∷ polls
    ∷ receives 3
    ∷ receives 0
    ∷ receives 0
    ∷ polls
    ∷ polls
    ∷ receives 0
    ∷ receives 1
    ∷ receives 0x84
    ∷ receives last
    ∷ polls
    ∷ []

pub arrivals-frame : received (arrivals 0x0a) ≡ frame request
arrivals-frame = ap (λ c. request ++ crc_bytes c) (sym request_crc)

frame_time-answered_example :
    (s' : State ℕ) × (run echo slave (frame_time (arrivals 0x0a)) ≡ done s')
    × (frames_sent s'.actions ≡ frame (1 ∷ 3 ∷ []) ∷ [])
    × (s'.user_data ≡ 1)
    × (s'.status.curr ≡ RtuState.busy)
    × (s'.status.error ≡ false)
    × (timer_after s'.actions ≡ some stopped)
unfolding frames_sent
frame_time-answered_example =
    frame_time-answered echo slave slave-IsListening (arrivals 0x0a) request 1 (1 ∷ 3 ∷ []) tt
      arrivals-frame (omega arith) (omega arith) refl (omega arith) (omega arith)

wrong_crc : ¬ HasCrc (received (arrivals 0x0b) ++ drop 8 slave.rxbuf) 8
wrong_crc v = absurd (omega (arith, v.high, ap (λ (c : RtuCrc). c.high) request_crc))

frame_time-dropped_example :
    (s' : State ℕ) × (run echo slave (frame_time (arrivals 0x0b)) ≡ done s')
    × (frames_sent s'.actions ≡ [])
    × (s'.user_data ≡ 0)
    × (s'.status.error ≡ true)
    × (s'.stats.crc_err_cntr ≡ 0)
unfolding frames_sent
frame_time-dropped_example =
    frame_time-dropped echo slave slave-IsListening (arrivals 0x0b) (zeros-AreBytes 256).1
      (omega arith) tt (omega arith) (omega arith) wrong_crc

-- a broken byte and a request that comes before the slave is ready
abbrev pub noise : List Event
noise =
    receives 7 ∷ polls ∷ expires ∷ receive_fails 3 ∷ polls ∷ expires ∷ polls ∷ sent ∷ arrivals 0x0a

pub echo-Answers : Answers ⊥ (λ (n : ℕ). Unit {0}) echo
echo-Answers user addr fcode src end w h v lo hi = (tt, (h, (omega arith, tt)), omega arith)

run-init-Good_example :
    Ends ⊥ (Good ⊥ (λ (n : ℕ). Unit {0}) echo) (run echo (modbus_rtu_init true false 5) noise)
run-init-Good_example =
    run-init-Good ⊥ (λ (n : ℕ). Unit {0}) echo echo-Answers true false 5 noise tt (omega arith)

abbrev busy_slave : State ℕ
busy_slave = record slave {
  txbuf_curr = 4;
  status = record { updated = false; error = false; prev = RtuState.idle; curr = RtuState.busy };
}

busy_slave_timer : timer_after [] ≡ some stopped
unfolding timer_after
busy_slave_timer = refl

sent-IsListening_example :
    (s' : State ℕ) × (run echo busy_slave (sent ∷ polls ∷ expires ∷ []) ≡ done s')
    × IsListening s'
    × (s'.user_data ≡ 0)
    × (frames_sent s'.actions ≡ frames_sent [])
sent-IsListening_example = sent-IsListening echo busy_slave refl refl busy_slave_timer

-- a slave with an error that no round of the loop has seen
abbrev failed_slave : State ℕ
failed_slave = record slave {
  stats = record { err_cntr = 255; serial_recv_err_cntr = 0; crc_err_cntr = 0 };
  status = record { updated = true; error = true; prev = RtuState.sof; curr = RtuState.recv };
}

error-IsListening_example :
    (s' : State ℕ) × (run echo failed_slave (polls ∷ expires ∷ []) ≡ done s')
    × IsListening s'
    × (s'.user_data ≡ 0)
    × (frames_sent s'.actions ≡ frames_sent [])
    × (s'.stats.err_cntr ≡ (255 + 1) % 2 ^ 8)
error-IsListening_example = error-IsListening echo failed_slave stopped refl refl busy_slave_timer

slave-Inv : Inv slave
unfolding timer_after
slave-Inv = record {
  rxbuf = zeros-AreBytes 256;
  rxbuf_curr = omega arith;
  txbuf = zeros-AreBytes 256;
  txbuf_curr = omega arith;
  phase = (refl, refl, inl refl);
}

step-Follows_example : Ends ⊥ (Follows slave (receives 1)) (step echo slave (receives 1))
step-Follows_example =
    step-Follows ⊥ (λ (n : ℕ). Unit {0}) echo echo-Answers slave (receives 1) (omega arith)
      (slave-Inv, tt)
