-- ===== src/RtuImpl/Sends.antt =====
-- When the event loop of the core sends a frame: from the state BUSY only, and never twice.
use modbus_c.Prelude.{
  ◌≡◌, ◌⊎◌, false, [], ◌-◌, length, if◌then◌else◌, done, ◌>>=◌, load, Ends, Yields, Yields-bind,
  Yields-step, arith,
}
use modbus_c.Rtu.{
  RtuState, Action, State, PduCb, serial_sent_cb, adu_check, reply, fill, adu_answer, adu_process,
  frame_end, restart, error_restart, dispatch, modbus_rtu_event, act, suspended,
}
use modbus_c.Rtu.Receive.{frames_sent}

module _ {U : Type 0} where
  abbrev pub IsSilent : State U → Type 0
  IsSilent s = frames_sent s.actions ≡ []

  abbrev pub IsSilentOrBusy : State U → Type 0
  IsSilentOrBusy s = IsSilent s ⊎ (s.status.curr ≡ RtuState.busy)

  reply-busy : (s : State U) → Yields (λ s'. s'.status.curr ≡ RtuState.busy) (reply s)
  unfolding reply
  reply-busy s = ground arith

  adu_check-IsSilent : (s : State U) → IsSilent s → Yields (λ out. IsSilent out.0) (adu_check s)
  unfolding adu_check
  adu_check-IsSilent s h = ground arith

  restart-IsSilent : (s : State U) → IsSilent s → IsSilent (restart s)
  unfolding restart frames_sent
  restart-IsSilent s h = h

  error_restart-IsSilent : (s : State U) → IsSilent s → IsSilent (error_restart s)
  unfolding error_restart restart frames_sent
  error_restart-IsSilent s h = h

module _ {U : Type 0} (pdu_cb : PduCb U) where
  answer_busy : (s : State U) → IsSilent s → Yields IsSilentOrBusy (adu_answer pdu_cb s)
  unfolding adu_answer
  answer_busy s h = Yields-step IsSilentOrBusy (load s.rxbuf 0) _ λ addr.
      Yields-step IsSilentOrBusy (load s.rxbuf 1) _ λ fcode.
        Yields-step IsSilentOrBusy (pdu_cb s.user_data addr fcode s.rxbuf 0 (s.rxbuf_curr - 2) 2) _
          λ out. Yields-step IsSilentOrBusy (fill s.txbuf out.1) _ λ txbuf. ground (
            arith,
            reply-busy (record s {
              user_data = out.0;
              txbuf = txbuf;
              txbuf_curr = length out.1;
              rxbuf_curr = 0;
            }),
          )

  process_busy : (s : State U) → IsSilent s → Yields IsSilentOrBusy (adu_process pdu_cb s)
  unfolding adu_process
  process_busy s h =
      Yields-bind (λ out. IsSilent out.0) IsSilentOrBusy (adu_check s) _ (adu_check-IsSilent s h)
        λ out h'. ground (arith, answer_busy out.0 h')

  resumed_busy :
      (s : State U)
      → IsSilentOrBusy s
      → IsSilentOrBusy (if s.has_resume_cb then act Action.resume s else s)
  unfolding frames_sent
  resumed_busy s h = ground arith

  frame_end_busy : (s : State U) → IsSilent s → Yields IsSilentOrBusy (frame_end pdu_cb s)
  unfolding frame_end
  frame_end_busy s h =
      let processed : Yields IsSilentOrBusy (do
        s' ← adu_process pdu_cb s
        done (if s'.has_resume_cb then act Action.resume s' else s')) =
        Yields-bind IsSilentOrBusy IsSilentOrBusy (adu_process pdu_cb s) _ (process_busy s h)
          resumed_busy in
      ground (arith, processed, error_restart-IsSilent s h)

  dispatch_busy : (s : State U) → IsSilent s → Yields IsSilentOrBusy (dispatch pdu_cb s)
  unfolding dispatch frames_sent
  dispatch_busy s h = ground (
    arith,
    frame_end_busy s h,
    restart-IsSilent s h,
    error_restart-IsSilent s h,
    error_restart-IsSilent (suspended s),
  )

  -- A round of the loop that sends a frame leaves the core in the state BUSY.
  pub event_busy : (s : State U) → IsSilent s → Yields IsSilentOrBusy (modbus_rtu_event pdu_cb s)
  unfolding modbus_rtu_event
  event_busy s h =
      let s' = record s { status = record (s.status) { updated = false } } in
      ground (arith, error_restart-IsSilent s' h, dispatch_busy s' h)

  -- The round behind the end of a transmission sends nothing and does not fail.
  pub event_sent :
      (s : State U)
      → IsSilent s
      → s.status.curr ≡ RtuState.busy
      → Ends ⊥ IsSilent (modbus_rtu_event pdu_cb (serial_sent_cb s))
  unfolding modbus_rtu_event dispatch serial_sent_cb frames_sent error_restart restart
  event_sent s h e = ground arith
