-- ===== src/Rtu/Listen.antt =====
-- How a slave comes to listen: after its start, and again after a reply has been sent.
use modbus_c.Prelude.{replicate, ◌≡◌, refl, inl, Bool, false, some, [], ◌∷◌, done, arith}
use modbus_c.Rtu.{
  RtuState, State, PduCb, modbus_rtu_init, serial_sent_cb, timer_silent_interval_cb, reset_rxbuf,
  reset_txbuf, restart, dispatch, modbus_rtu_event,
}
use modbus_c.Rtu.Timer.{stopped, timer_call, timer_after}
use modbus_c.Rtu.Schedule.{expires, sent, polls, step, run, expire, call_timer_cb}
use modbus_c.Rtu.Receive.{frames_sent}
use modbus_c.Rtu.Answer.{IsListening}

module _ {U : Type 0} (pdu_cb : PduCb U) where
  -- From `modbus_rtu_init` on, a round of the loop and the expiry of its timer bring a slave to
  -- listen, with the data it was given and no frame sent.
  pub init-IsListening :
      (has_suspend has_resume : Bool) (user : U)
      → (s : State U) × (run pdu_cb
            (modbus_rtu_init has_suspend has_resume user)
            (polls ∷ expires ∷ [])
          ≡ done s)
        × IsListening s
        × (s.user_data ≡ user)
        × (frames_sent s.actions ≡ [])
  unfolding run step expire call_timer_cb modbus_rtu_init modbus_rtu_event dispatch restart
      reset_rxbuf reset_txbuf timer_silent_interval_cb timer_after timer_call frames_sent
  init-IsListening has_suspend has_resume user = (
    _,
    refl,
    record {
      rxbuf = refl;
      txbuf = (refl, refl);
      receiving = record {
        place = (refl, inl refl, refl);
        no_error = refl;
        rxbuf = refl;
        rxbuf_curr = refl;
        txbuf = (refl, refl);
        user_data = refl;
        callbacks = (refl, refl);
        sent = refl;
        stats = refl;
      };
    },
    refl,
    refl,
  )

  -- the state behind the restart and the silent interval
  listening : State U → State U
  unfolding restart reset_rxbuf reset_txbuf
  listening s = timer_silent_interval_cb (
      restart (record (serial_sent_cb s) {
        status = record ((serial_sent_cb s).status) { updated = false };
      }))

  -- The restart has cleared the receive buffer.
  pub sent-fresh :
      (s : State U)
      → s.status.curr ≡ RtuState.busy
      → s.status.error ≡ false
      → timer_after s.actions ≡ some stopped
      → (s' : State U) × (run pdu_cb s (sent ∷ polls ∷ expires ∷ []) ≡ done s')
        × IsListening s'
        × (s'.user_data ≡ s.user_data)
        × (frames_sent s'.actions ≡ frames_sent s.actions)
        × (s'.rxbuf ≡ replicate 256 0)
  unfolding run step expire call_timer_cb modbus_rtu_event dispatch restart serial_sent_cb
      reset_rxbuf reset_txbuf timer_silent_interval_cb timer_after timer_call frames_sent listening
  sent-fresh s b e t = (
    listening s,
    ground (arith, b, e, t),
    record {
      rxbuf = ground (arith, b);
      txbuf = ground (arith, b);
      receiving = record {
        place = ground (arith, b, t);
        no_error = ground (arith, b, e);
        rxbuf = ground (arith, b);
        rxbuf_curr = ground (arith, b);
        txbuf = ground (arith, b);
        user_data = ground (arith, b);
        callbacks = ground (arith, b);
        sent = ground (arith, b);
        stats = ground (arith, b);
      };
    },
    ground (arith, b),
    ground (arith, b),
    ground (arith, b),
  )

  -- A slave that is busy without an error and with its timer stopped listens again behind the end
  -- of the transmission, a round of the loop and the expiry of its timer, with the same data and no
  -- further frame sent.
  pub sent-IsListening :
      (s : State U)
      → s.status.curr ≡ RtuState.busy
      → s.status.error ≡ false
      → timer_after s.actions ≡ some stopped
      → (s' : State U) × (run pdu_cb s (sent ∷ polls ∷ expires ∷ []) ≡ done s')
        × IsListening s'
        × (s'.user_data ≡ s.user_data)
        × (frames_sent s'.actions ≡ frames_sent s.actions)
  sent-IsListening s b e t = let r = sent-fresh s b e t in (r.0, r.1, r.2, r.3, r.4)
