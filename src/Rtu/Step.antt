-- ===== src/Rtu/Step.antt =====
-- The slave among its interrupts: any order of received bytes, errors, timer expiries, ends of a
-- transmission and rounds of the event loop keeps the invariant.
use modbus_c.Prelude.{
  ◌≡◌, ◌≢◌, refl, ◌⊎◌, inl, inr, true, false, ◌==◌, if◌then◌else◌, done, Ends, Ends-bind, arith,
}
use modbus_c.Rtu.{
  RtuState, Action, State, PduCb, adu_process, frame_end, error_restart, restart, dispatch,
  modbus_rtu_event, act,
}
use modbus_c.Rtu.Timer.{timer_call, timer_after}
use modbus_c.Rtu.Invariant.{Inv, zeros-AreBytes}
use modbus_c.Rtu.Process.{Answers, Good, adu_process-Good}

init-cases : (c : RtuState) → (c ≡ RtuState.init) ⊎ (c ≢ RtuState.init)
init-cases RtuState.init = inl refl
init-cases RtuState.idle = inr (λ e. cc)
init-cases RtuState.sof = inr (λ e. cc)
init-cases RtuState.recv = inr (λ e. cc)
init-cases RtuState.eof = inr (λ e. cc)
init-cases RtuState.busy = inr (λ e. cc)

module _ {U : Type 0} where
  -- the state with its update taken, as the event loop goes on with it
  abbrev taken : State U → State U
  taken s = record s { status = record (s.status) { updated = false } }

  taken-Inv : (s : State U) → Inv s → s.status.curr ≢ RtuState.init → Inv (taken s)
  taken-Inv s v e = ground (arith, v, v.phase)

  restart-taken-Inv :
      (s : State U) → Inv s → s.status.curr ≡ RtuState.init → Inv (restart (taken s))
  unfolding restart timer_after timer_call
  restart-taken-Inv s v e = ground (arith, v, v.phase, zeros-AreBytes 256)

  error_restart-taken-Inv : (s : State U) → Inv s → Inv (error_restart (taken s))
  unfolding error_restart timer_after timer_call
  error_restart-taken-Inv s v = ground (arith, v, v.phase, zeros-AreBytes 256)

  dispatch_init :
      (pdu_cb : PduCb U) (s : State U)
      → s.status.curr ≡ RtuState.init
      → dispatch pdu_cb s ≡ done (restart s)
  unfolding dispatch
  dispatch_init pdu_cb s e = ground arith

module _ {U : Type 0} (F : Type 0) (W : U → Type 0) (pdu_cb : PduCb U)
    (answers : Answers F W pdu_cb) where
  resumed-Good :
      (s : State U)
      → Good F W pdu_cb s
      → Good F W pdu_cb (if s.has_resume_cb then act Action.resume s else s)
  unfolding timer_after timer_call
  resumed-Good s v = ground (arith, v.0, v.0.phase)

  frame_end-Good :
      (s : State U)
      → Good F W pdu_cb s
      → s.status.curr ≡ RtuState.idle
      → Ends F (Good F W pdu_cb) (frame_end pdu_cb s)
  unfolding frame_end
  frame_end-Good s v e =
      let empty : (s.txbuf_curr == 0) ≡ true = ground (arith, v.0, v.0.phase) in
      rw (empty, Ends)
        (Ends-bind F (Good F W pdu_cb) (Good F W pdu_cb) (adu_process pdu_cb s) _
          (adu_process-Good F W pdu_cb answers s v e) resumed-Good)

  dispatch-Good :
      (s : State U)
      → Good F W pdu_cb s
      → s.status.curr ≢ RtuState.init
      → Ends F (Good F W pdu_cb) (dispatch pdu_cb s)
  unfolding dispatch timer_after timer_call
  dispatch-Good s v e = ground (arith, v.0, v.0.phase, frame_end-Good s v)

  -- One round of the event loop keeps the invariant, and meets no fault but the callback's.
  pub event-Good :
      (s : State U) → Good F W pdu_cb s → Ends F (Good F W pdu_cb) (modbus_rtu_event pdu_cb s)
  unfolding modbus_rtu_event
  event-Good s v = elim (init-cases s.status.curr) [
    | inl e ↦ ground (
      arith,
      v,
      restart-taken-Inv s v.0 e,
      error_restart-taken-Inv s v.0,
      dispatch_init pdu_cb (taken s) e,
    )
    | inr e ↦ ground (
      arith,
      v,
      error_restart-taken-Inv s v.0,
      dispatch-Good (taken s) (taken-Inv s v.0 e, v.1) e,
    )
  ]
