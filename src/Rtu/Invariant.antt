-- ===== src/Rtu/Invariant.antt =====
-- The invariant of the slave: its buffers are in bounds, its timer is the one that its state waits
-- for, and nothing is left to send but in the state BUSY.
use modbus_c.Prelude.{
  ℕ, zero, suc, ◌≤◌, ◌≡◌, refl, ◌⊎◌, inl, Bool, true, Option, some, replicate, length-set, IsByte,
  AreBytes, set-IsBytes, arith,
}
use modbus_c.Wire.{adu_capacity}
use modbus_c.Rtu.{
  RtuState, TimerCb, silent_interval, inter_frame_timeout, State, timer_silent_interval_cb,
  timer_inter_frame_timeout_cb, serial_recv_cb, serial_sent_cb, serial_recv_err_cb, modbus_rtu_init,
}
use modbus_c.Rtu.Timer.{Timer, stopped, running_1t5, running_3t5, timer_call, timer_after}

-- What holds in each state of the previous one, of the timer, of its callback, of the bytes to send
-- and of the mark for the event loop.
abbrev pub Phase : RtuState → RtuState → Option Timer → TimerCb → ℕ → Bool → Type 0
Phase RtuState.init prev timer cb tx updated =
    (tx ≡ 0)
    × (((timer ≡ some stopped) × (updated ≡ true))
        ⊎ ((timer ≡ some running_3t5) × (cb ≡ silent_interval)))
Phase RtuState.idle prev timer cb tx updated =
    (tx ≡ 0) × (timer ≡ some stopped) × ((prev ≡ RtuState.init) ⊎ (prev ≡ RtuState.eof))
Phase RtuState.sof prev timer cb tx updated =
    (tx ≡ 0) × (timer ≡ some running_1t5) × (cb ≡ inter_frame_timeout) × (prev ≡ RtuState.idle)
Phase RtuState.recv prev timer cb tx updated =
    (tx ≡ 0)
    × (timer ≡ some running_1t5)
    × (cb ≡ inter_frame_timeout)
    × ((prev ≡ RtuState.sof) ⊎ (prev ≡ RtuState.recv))
Phase RtuState.eof prev timer cb tx updated =
    (tx ≡ 0) × (timer ≡ some running_3t5) × (cb ≡ silent_interval) × (prev ≡ RtuState.recv)
Phase RtuState.busy prev timer cb tx updated =
    (2 ≤ tx) × (timer ≡ some stopped) × (prev ≡ RtuState.idle)

pub record Inv {U : Type 0} (s : State U) : Type 0 where
  pub rxbuf : AreBytes adu_capacity s.rxbuf
  pub rxbuf_curr : s.rxbuf_curr ≤ adu_capacity
  pub txbuf : AreBytes adu_capacity s.txbuf
  pub txbuf_curr : s.txbuf_curr ≤ adu_capacity
  pub phase :
      Phase s.status.curr s.status.prev
        (timer_after s.actions)
        s.timer_cb
        s.txbuf_curr
        s.status.updated

pub zeros-AreBytes : (n : ℕ) → AreBytes n (replicate n 0)
zeros-AreBytes zero = omega arith
zeros-AreBytes (suc n) = let h = zeros-AreBytes n in (omega arith, (omega arith, h.1))

module _ {U : Type 0} where
  pub init-Inv :
      (has_suspend has_resume : Bool) (user : U) → Inv (modbus_rtu_init has_suspend has_resume user)
  unfolding modbus_rtu_init timer_after
  init-Inv has_suspend has_resume user = record {
    rxbuf = zeros-AreBytes 256;
    rxbuf_curr = omega arith;
    txbuf = zeros-AreBytes 256;
    txbuf_curr = omega arith;
    phase = (refl, inl (refl, refl));
  }

  pub timer_silent_interval_cb-Inv : (s : State U) → Inv s → Inv (timer_silent_interval_cb s)
  unfolding timer_silent_interval_cb timer_after timer_call
  timer_silent_interval_cb-Inv s v = ground (arith, v, v.phase)

  pub timer_inter_frame_timeout_cb-Inv :
      (s : State U) → Inv s → Inv (timer_inter_frame_timeout_cb s)
  unfolding timer_inter_frame_timeout_cb timer_after timer_call
  timer_inter_frame_timeout_cb-Inv s v = ground (arith, v, v.phase)

  pub serial_recv_cb-Inv :
      (s : State U) (byte : ℕ) → IsByte byte → Inv s → Inv (serial_recv_cb s byte)
  unfolding serial_recv_cb timer_after timer_call
  serial_recv_cb-Inv s byte h v = ground (
    arith,
    v,
    v.phase,
    length-set s.rxbuf s.rxbuf_curr byte,
    set-IsBytes s.rxbuf s.rxbuf_curr byte,
  )

  pub serial_sent_cb-Inv : (s : State U) → Inv s → Inv (serial_sent_cb s)
  unfolding serial_sent_cb
  serial_sent_cb-Inv s v = ground (arith, v, v.phase)

  pub serial_recv_err_cb-Inv : (s : State U) (byte : ℕ) → Inv s → Inv (serial_recv_err_cb s byte)
  unfolding serial_recv_err_cb
  serial_recv_err_cb-Inv s byte v = ground (arith, v, v.phase)
