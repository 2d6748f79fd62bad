-- ===== src/Rtu/Diagram.antt =====
-- diagrams/state_machine.puml: the edges of the slave's state machine, and that rtu.c follows them.
use modbus_c.Prelude.{
  inl, Exec, done, fault, stuck, ℕ, ◌-◌, ◌≡◌, refl, ◌⊎◌, inr, Bool, true, false, ◌==◌, length, load,
  Ends, Yields, Yields-bind, Yields-step, Ends-Yields, arith,
}
use modbus_c.Rtu.{
  RtuState, State, PduCb, timer_silent_interval_cb, timer_inter_frame_timeout_cb, rxbuf_append,
  serial_recv_cb, serial_recv_err_cb, serial_sent_cb, adu_check, reply, fill, adu_answer,
  adu_process, frame_end, restart, error_restart, dispatch, modbus_rtu_event,
}
use modbus_c.Rtu.Invariant.{Inv}
use modbus_c.Rtu.Process.{Answers, Good}
use modbus_c.Rtu.Schedule.{
  Event, IsEvent, receives, receive_fails, expires, sent, polls, call_timer_cb, expire, step,
  step-Good,
}

-- The edges, each with the event that it is taken on and with the marks of an error before and behind
-- it.
pub data Edge : RtuState → Bool → Event → RtuState → Bool → Type 0 where
  silence : {e : Bool} → Edge RtuState.init e expires RtuState.idle e
  first_byte : {e e' : Bool} {byte : ℕ} → Edge RtuState.idle e (receives byte) RtuState.sof e'
  second_byte : {e e' : Bool} {byte : ℕ} → Edge RtuState.sof e (receives byte) RtuState.recv e'
  next_byte : {e e' : Bool} {byte : ℕ} → Edge RtuState.recv e (receives byte) RtuState.recv e'
  pause : {e : Bool} → Edge RtuState.recv e expires RtuState.eof e
  confirm : {e : Bool} → Edge RtuState.eof e expires RtuState.idle e
  answers : Edge RtuState.idle false polls RtuState.busy false
  completes : {e : Bool} → Edge RtuState.busy e sent RtuState.init e
  init_error : Edge RtuState.init true polls RtuState.init false
  sof_error : Edge RtuState.sof true polls RtuState.init false
  recv_error : Edge RtuState.recv true polls RtuState.init false
  eof_error : Edge RtuState.eof true polls RtuState.init false
  busy_error : Edge RtuState.busy true polls RtuState.init false

-- the one step of the code that the diagram has no edge for: an error restarts the slave from IDLE
pub data RestartsIdle : RtuState → Bool → Event → RtuState → Bool → Type 0 where
  idle_error : RestartsIdle RtuState.idle true polls RtuState.init false

-- the interrupts that the diagram has no edge for
pub data Unforeseen : RtuState → Event → Type 0 where
  broken : {c : RtuState} {byte : ℕ} → Unforeseen c (receive_fails byte)
  init_byte : {byte : ℕ} → Unforeseen RtuState.init (receives byte)
  eof_byte : {byte : ℕ} → Unforeseen RtuState.eof (receives byte)
  busy_byte : {byte : ℕ} → Unforeseen RtuState.busy (receives byte)
  short_frame : Unforeseen RtuState.sof expires
  init_sent : Unforeseen RtuState.init sent
  idle_sent : Unforeseen RtuState.idle sent
  sof_sent : Unforeseen RtuState.sof sent
  recv_sent : Unforeseen RtuState.recv sent
  eof_sent : Unforeseen RtuState.eof sent

-- A step follows an edge, or leaves the state, with an error marked behind an interrupt that the
-- diagram has no edge for.
abbrev pub Moves : {U : Type 0} → State U → Event → State U → Type 0
Moves s e s' =
    Edge s.status.curr s.status.error e s'.status.curr s'.status.error
    ⊎ ((s'.status.curr ≡ s.status.curr) × (Unforeseen s.status.curr e → s'.status.error ≡ true))

-- what a step does to the state and to the mark of an error
abbrev pub Follows : {U : Type 0} → State U → Event → State U → Type 0
Follows s e s' =
    Moves s e s' ⊎ RestartsIdle s.status.curr s.status.error e s'.status.curr s'.status.error

foreseen :
    {U : Type 0} (s : State U) (e : Event) (m : Exec (State U))
    → Yields (Moves s e) m
    → Yields (Follows s e) m
foreseen s e (done s') h = inl h
foreseen s e fault h = h
foreseen s e stuck h = h

ruleset edges = (
  silence, first_byte, second_byte, next_byte, pause, confirm, answers, completes, init_error,
  sof_error, recv_error, eof_error, busy_error, idle_error,
)

module _ {U : Type 0} where
  recv-Moves : (s : State U) (byte : ℕ) → Moves s (receives byte) (serial_recv_cb s byte)
  unfolding serial_recv_cb rxbuf_append
  recv-Moves s byte = grind (arith, edges)

  sent-Moves : (s : State U) → Moves s sent (serial_sent_cb s)
  unfolding serial_sent_cb
  sent-Moves s = grind (arith, edges)

  expire-Moves : (s : State U) → Inv s → Yields (Moves s expires) (expire s)
  unfolding expire call_timer_cb timer_silent_interval_cb timer_inter_frame_timeout_cb
  expire-Moves s v = grind (arith, v.phase, silence, pause, confirm)

-- what an answer does to the state and the mark
abbrev Replies : {U : Type 0} → State U → State U → Type 0
Replies s s' =
    (s'.status.curr ≡ s.status.curr)
    ⊎ ((s'.status.curr ≡ RtuState.busy) × (s'.status.error ≡ s.status.error))

abbrev Checks : {U : Type 0} → State U → State U × Bool → Type 0
Checks s out = out.0.status ≡ s.status

module _ {U : Type 0} (pdu_cb : PduCb U) where
  reply-Replies : (s : State U) → Yields (Replies s) (reply s)
  unfolding reply
  reply-Replies s = ground arith

  check-status : (s : State U) → Yields (Checks s) (adu_check s)
  unfolding adu_check
  check-status s = ground arith

  answer-Replies : (s : State U) → Yields (Replies s) (adu_answer pdu_cb s)
  unfolding adu_answer
  answer-Replies s = Yields-step (Replies s) (load s.rxbuf 0) _ λ addr.
      Yields-step (Replies s) (load s.rxbuf 1) _ λ fcode.
        Yields-step (Replies s) (pdu_cb s.user_data addr fcode s.rxbuf 0 (s.rxbuf_curr - 2) 2) _
          λ out. Yields-step (Replies s) (fill s.txbuf out.1) _ λ txbuf. ground (
            arith,
            reply-Replies (record s {
              user_data = out.0;
              txbuf = txbuf;
              txbuf_curr = length out.1;
              rxbuf_curr = 0;
            }),
          )

  process-Replies : (s : State U) → Yields (Replies s) (adu_process pdu_cb s)
  unfolding adu_process
  process-Replies s =
      Yields-bind (Checks s) (Replies s) (adu_check s) _ (check-status s)
        λ out h'. ground (arith, answer-Replies out.0)

  frame_end-Replies : (s : State U) → s.txbuf_curr ≡ 0 → Yields (Replies s) (frame_end pdu_cb s)
  unfolding frame_end
  frame_end-Replies s e =
      let empty : (s.txbuf_curr == 0) ≡ true = ground (arith, e) in
      rw (empty, Yields)
        (Yields-bind (Replies s) (Replies s) (adu_process pdu_cb s) _ (process-Replies s)
          λ s' h. ground arith)

not_polls : {c : RtuState} → ¬ Unforeseen c polls
not_polls h = elim h [ ]

module _ {U : Type 0} (pdu_cb : PduCb U) where
  event-Follows : (s : State U) → Inv s → Yields (Follows s polls) (modbus_rtu_event pdu_cb s)
  unfolding modbus_rtu_event dispatch error_restart restart
  event-Follows s v =
      let s' = record s { status = record (s.status) { updated = false } } in
      grind (arith, v.phase, frame_end-Replies pdu_cb s', not_polls, edges)

module _ {U : Type 0} (F : Type 0) (W : U → Type 0) (pdu_cb : PduCb U)
    (answers : Answers F W pdu_cb) where
  by_event : (s : State U) (e : Event) → Inv s → Yields (Follows s e) (step pdu_cb s e)
  unfolding step serial_recv_err_cb
  by_event s (receives byte) v = inl (recv-Moves s byte)
  by_event s (receive_fails byte) v = inl (inr (refl, λ h. refl))
  by_event s expires v = foreseen s expires (expire s) (expire-Moves s v)
  by_event s sent v = inl (sent-Moves s)
  by_event s polls v = event-Follows pdu_cb s v

  -- Under its invariant, and for a callback that answers requests with at most 254 bytes and keeps
  -- a property of the user's data, each byte, broken byte, expiry, end of a transmission and round
  -- of the loop takes the slave along an edge of the state diagram that belongs to it, or leaves it
  -- in its state, or is the one step that the diagram does not have: a round of the loop restarts
  -- the slave from IDLE, where it finds an error marked. A restart always finds an error marked and
  -- clears it; the slave becomes BUSY only from IDLE, without an error; and an interrupt that the
  -- diagram has no edge for leaves the state alone and an error marked. The step does not get
  -- stuck, and a fault can only be the callback's own.
  pub step-Follows :
      (s : State U) (e : Event)
      → IsEvent e
      → Good F W pdu_cb s
      → Ends F (Follows s e) (step pdu_cb s e)
  step-Follows s e h v =
      Ends-Yields F (Good F W pdu_cb) (Follows s e) (step pdu_cb s e)
        (step-Good F W pdu_cb answers s e h v) (by_event s e v.0)
