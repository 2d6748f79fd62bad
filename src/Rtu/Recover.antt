-- ===== src/Rtu/Recover.antt =====
-- How a slave gets over an error: the restart of its core, and the silent interval behind it.
use modbus_c.Prelude.{◌+◌, ◌%◌, ◌^◌, ◌≡◌, refl, inl, true, false, some, [], ◌∷◌, done, arith}
use modbus_c.Rtu.{
  State, PduCb, timer_silent_interval_cb, reset_rxbuf, reset_txbuf, restart, error_restart,
  modbus_rtu_event,
}
use modbus_c.Rtu.Timer.{Timer, timer_call, timer_after}
use modbus_c.Rtu.Schedule.{expires, polls, step, run, expire, call_timer_cb}
use modbus_c.Rtu.Receive.{frames_sent}
use modbus_c.Rtu.Answer.{IsListening}

module _ {U : Type 0} (pdu_cb : PduCb U) where
  -- the state behind the restart for an error and the silent interval
  recovered : State U → State U
  unfolding error_restart restart reset_rxbuf reset_txbuf
  recovered s =
      timer_silent_interval_cb
        (error_restart (record s { status = record (s.status) { updated = false } }))

  -- A slave with an error that no round of the loop has seen, in any state and with a timer that no
  -- call has aborted, listens again behind a round of the loop and the expiry of its timer, with
  -- the same data, no further frame sent, and one error more counted, modulo 256.
  pub error-IsListening :
      (s : State U) (t : Timer)
      → s.status.updated ≡ true
      → s.status.error ≡ true
      → timer_after s.actions ≡ some t
      → (s' : State U) × (run pdu_cb s (polls ∷ expires ∷ []) ≡ done s')
        × IsListening s'
        × (s'.user_data ≡ s.user_data)
        × (frames_sent s'.actions ≡ frames_sent s.actions)
        × (s'.stats.err_cntr ≡ (s.stats.err_cntr + 1) % 2 ^ 8)
  unfolding run step expire call_timer_cb modbus_rtu_event restart error_restart reset_rxbuf
      reset_txbuf timer_silent_interval_cb timer_after timer_call frames_sent recovered
  error-IsListening s t u e k = (
    recovered s,
    ground (arith, u, e, k),
    record {
      rxbuf = refl;
      txbuf = (refl, refl);
      receiving = record {
        place = (refl, inl refl, ground (arith, k));
        no_error = refl;
        rxbuf = refl;
        rxbuf_curr = refl;
        txbuf = (refl, refl);
        user_data = refl;
        callbacks = (refl, refl);
        sent = refl;
        stats = refl;
      };
    },
    refl,
    refl,
    refl,
  )
