-- ===== src/RtuImpl/Log.antt =====
-- What the core does does not depend on the calls that it has made before.
use modbus_c.Prelude.{
  ℕ, ◌≡◌, refl, Bool, true, false, List, ◌++◌, ◌-◌, length, if◌then◌else◌, Exec, done, fault, stuck,
  ◌>>=◌, load, arith,
}
use modbus_c.Rtu.{
  Action, State, PduCb, timer_silent_interval_cb, timer_inter_frame_timeout_cb, rxbuf_append,
  serial_recv_cb, serial_recv_err_cb, serial_sent_cb, adu_check, reply, fill, adu_answer,
  adu_process, frame_end, restart, error_restart, dispatch, modbus_rtu_event, fail, act, suspended,
}
use modbus_c.Rtu.Schedule.{call_timer_cb}

-- the state with earlier calls behind its own
abbrev pub with_log : {U : Type 0} → List Action → State U → State U
with_log log s = record s { actions = s.actions ++ log }

abbrev pub then_log : {U : Type 0} → List Action → Exec (State U) → Exec (State U)
then_log log m = m >>= λ s. done (with_log log s)

module _ {U : Type 0} (log : List Action) (s : State U) where
  pub serial_recv_cb-with_log :
      (byte : ℕ) → serial_recv_cb (with_log log s) byte ≡ with_log log (serial_recv_cb s byte)
  unfolding serial_recv_cb rxbuf_append
  serial_recv_cb-with_log byte = ground arith

  pub serial_recv_err_cb-with_log :
      (byte : ℕ)
      → serial_recv_err_cb (with_log log s) byte ≡ with_log log (serial_recv_err_cb s byte)
  unfolding serial_recv_err_cb
  serial_recv_err_cb-with_log byte = refl

  pub serial_sent_cb-with_log : serial_sent_cb (with_log log s) ≡ with_log log (serial_sent_cb s)
  unfolding serial_sent_cb
  serial_sent_cb-with_log = ground arith

  pub call_timer_cb-with_log : call_timer_cb (with_log log s) ≡ then_log log (call_timer_cb s)
  unfolding call_timer_cb timer_silent_interval_cb timer_inter_frame_timeout_cb
  call_timer_cb-with_log = ground arith

  reply-with_log : reply (with_log log s) ≡ then_log log (reply s)
  unfolding reply
  reply-with_log = ground arith

  adu_check-with_log :
      adu_check (with_log log s) ≡ (adu_check s >>= λ out. done (with_log log out.0, out.1))
  unfolding adu_check
  adu_check-with_log = ground arith

  restart-with_log : restart (with_log log s) ≡ with_log log (restart s)
  unfolding restart
  restart-with_log = refl

  error_restart-with_log : error_restart (with_log log s) ≡ with_log log (error_restart s)
  unfolding error_restart restart
  error_restart-with_log = refl

  through :
      {A : Type 0} (m : Exec A) (f g : A → Exec (State U))
      → ((a : A) → f a ≡ then_log log (g a))
      → (m >>= f) ≡ then_log log (m >>= g)
  through (done a) f g h = h a
  through fault f g h = refl
  through stuck f g h = refl

module _ {U : Type 0} (log : List Action) (pdu_cb : PduCb U) where
  adu_answer-with_log :
      (s : State U) → adu_answer pdu_cb (with_log log s) ≡ then_log log (adu_answer pdu_cb s)
  unfolding adu_answer
  adu_answer-with_log s = through log s (load s.rxbuf 0) _ _ λ addr.
      through log s (load s.rxbuf 1) _ _ λ fcode.
        through log s (pdu_cb s.user_data addr fcode s.rxbuf 0 (s.rxbuf_curr - 2) 2) _ _ λ out.
          through log s (fill s.txbuf out.1) _ _ λ txbuf. ground (
            arith,
            reply-with_log log (record s {
              user_data = out.0;
              txbuf = txbuf;
              txbuf_curr = length out.1;
              rxbuf_curr = 0;
            }),
          )

  adu_process-with_log :
      (s : State U) → adu_process pdu_cb (with_log log s) ≡ then_log log (adu_process pdu_cb s)
  unfolding adu_process
  adu_process-with_log s = rw (adu_check-with_log log s) (checked (adu_check s))
    where
      checked :
          (m : Exec (State U × Bool))
          → (do
            (s', valid) ← m >>= λ out. done (with_log log out.0, out.1)
            if valid then adu_answer pdu_cb s' else done (fail s'))
            ≡ then_log log
                (do (s', valid) ← m; if valid then adu_answer pdu_cb s' else done (fail s'))
      checked fault = refl
      checked stuck = refl
      checked (done (s', true)) = adu_answer-with_log s'
      checked (done (s', false)) = refl

  frame_end-with_log :
      (s : State U) → frame_end pdu_cb (with_log log s) ≡ then_log log (frame_end pdu_cb s)
  unfolding frame_end
  frame_end-with_log s =
      ground (
        arith,
        adu_process-with_log s,
        error_restart-with_log log s,
        resumed (adu_process pdu_cb s),
      )
    where
      resumed :
          (m : Exec (State U))
          → (do s' ← then_log log m; done (if s'.has_resume_cb then act Action.resume s' else s'))
            ≡ then_log log (do s' ← m; done (if s'.has_resume_cb then act Action.resume s' else s'))
      resumed fault = refl
      resumed stuck = refl
      resumed (done s') = ground arith

  dispatch-with_log :
      (s : State U) → dispatch pdu_cb (with_log log s) ≡ then_log log (dispatch pdu_cb s)
  unfolding dispatch
  dispatch-with_log s = ground (
    arith,
    frame_end-with_log s,
    restart-with_log log s,
    error_restart-with_log log s,
    error_restart-with_log log (suspended s),
  )

  -- What a round of the event loop does does not depend on the calls that were made before.
  pub modbus_rtu_event-with_log :
      (s : State U)
      → modbus_rtu_event pdu_cb (with_log log s) ≡ then_log log (modbus_rtu_event pdu_cb s)
  unfolding modbus_rtu_event
  modbus_rtu_event-with_log s =
      let s' = record s { status = record (s.status) { updated = false } } in
      ground (arith, error_restart-with_log log s', dispatch-with_log s')
