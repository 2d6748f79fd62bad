-- ===== src/Rtu/Schedule.antt =====
-- Schedules: what the interrupts and the main loop do to the slave, in any order.
use modbus_c.Prelude.{
  ℕ, ◌≡◌, ◌≢◌, ◌⊎◌, inl, inr, refl, Bool, Option, none, some, List, [], ◌∷◌, Exec, done, fault,
  ◌>>=◌, Ends, Ends-bind, IsByte, arith,
}
use modbus_c.Rtu.{
  TimerCb, null, silent_interval, inter_frame_timeout, State, PduCb, timer_silent_interval_cb,
  timer_inter_frame_timeout_cb, serial_recv_cb, serial_recv_err_cb, serial_sent_cb,
  modbus_rtu_event, modbus_rtu_init,
}
use modbus_c.Rtu.Timer.{Timer, stopped, running_1t5, running_3t5, timer_after}
use modbus_c.Rtu.Invariant.{
  Inv, init-Inv, timer_silent_interval_cb-Inv, timer_inter_frame_timeout_cb-Inv, serial_recv_cb-Inv,
  serial_recv_err_cb-Inv, serial_sent_cb-Inv,
}
use modbus_c.Rtu.Process.{Answers, Good}
use modbus_c.Rtu.Step.{event-Good}

-- A byte, a broken byte, the end of a timer's time, the end of a transmission, a round of the loop.
pub data Event : Type 0 where
  receives : ℕ → Event
  receive_fails : ℕ → Event
  expires sent polls : Event

abbrev pub IsEvent : Event → Type 0
IsEvent (receives byte) = IsByte byte
IsEvent (receive_fails byte) = IsByte byte
IsEvent expires = Unit
IsEvent sent = Unit
IsEvent polls = Unit

abbrev pub AreEvents : List Event → Type 0
AreEvents [] = Unit {0}
AreEvents (e ∷ es) = IsEvent e × AreEvents es

module _ {U : Type 0} where
  -- `state->timer_cb(state)`
  unfoldable pub call_timer_cb : State U → Exec (State U)
  call_timer_cb s = elim s.timer_cb [
    | null ↦ fault
    | silent_interval ↦ done (timer_silent_interval_cb s)
    | inter_frame_timeout ↦ done (timer_inter_frame_timeout_cb s)
  ]

  -- Only a timer that runs expires.
  unfoldable pub expire : State U → Exec (State U)
  expire s = elim (timer_after s.actions) [
    | none ↦ done s
    | some t ↦ elim t [ stopped ↦ done s | _ ↦ call_timer_cb s ]
  ]

  unfoldable pub step : PduCb U → State U → Event → Exec (State U)
  step pdu_cb s (receives byte) = done (serial_recv_cb s byte)
  step pdu_cb s (receive_fails byte) = done (serial_recv_err_cb s byte)
  step pdu_cb s expires = expire s
  step pdu_cb s sent = done (serial_sent_cb s)
  step pdu_cb s polls = modbus_rtu_event pdu_cb s

  unfoldable pub run : PduCb U → State U → List Event → Exec (State U)
  run pdu_cb s [] = done s
  run pdu_cb s (e ∷ es) = do s' ← step pdu_cb s e; run pdu_cb s' es

-- The interrupts leave the user's data alone.
module _ {U : Type 0} (s : State U) where
  user-timer_silent_interval_cb : (timer_silent_interval_cb s).user_data ≡ s.user_data
  unfolding timer_silent_interval_cb
  user-timer_silent_interval_cb = ground arith

  user-timer_inter_frame_timeout_cb : (timer_inter_frame_timeout_cb s).user_data ≡ s.user_data
  unfolding timer_inter_frame_timeout_cb
  user-timer_inter_frame_timeout_cb = ground arith

  user-serial_recv_cb : (byte : ℕ) → (serial_recv_cb s byte).user_data ≡ s.user_data
  unfolding serial_recv_cb
  user-serial_recv_cb byte = ground arith

  user-serial_sent_cb : (serial_sent_cb s).user_data ≡ s.user_data
  unfolding serial_sent_cb
  user-serial_sent_cb = ground arith

  user-serial_recv_err_cb : (byte : ℕ) → (serial_recv_err_cb s byte).user_data ≡ s.user_data
  unfolding serial_recv_err_cb
  user-serial_recv_err_cb byte = refl

module _ {U : Type 0} (F : Type 0) (W : U → Type 0) (pdu_cb : PduCb U)
    (answers : Answers F W pdu_cb) where
  call_timer_cb-Good :
      (s : State U) (cb : TimerCb)
      → Good F W pdu_cb s
      → s.timer_cb ≡ cb
      → cb ≢ null
      → Ends F (Good F W pdu_cb) (call_timer_cb s)
  unfolding call_timer_cb
  call_timer_cb-Good s null v e n = absurd (n refl)
  call_timer_cb-Good s silent_interval v e n =
      rw (e, Ends) (timer_silent_interval_cb-Inv s v.0, rw (user-timer_silent_interval_cb s) v.1)
  call_timer_cb-Good s inter_frame_timeout v e n =
      rw (e, Ends)
        (timer_inter_frame_timeout_cb-Inv s v.0, rw (user-timer_inter_frame_timeout_cb s) v.1)

  -- A timer that runs has a callback.
  running_has_cb :
      (s : State U)
      → Inv s
      → (timer_after s.actions ≡ some stopped)
        ⊎ ((t : Timer) × (timer_after s.actions ≡ some t) × (s.timer_cb ≢ null))
  running_has_cb s v = elim (timer_cases (timer_after s.actions)) [
    | inl e ↦ ground (arith, v.phase)
    | inr (inl e) ↦ inl e
    | inr (inr (t, e, n)) ↦ inr (t, e, λ c. ground (arith, v.phase))
  ]
    where
      timer_cases :
          (o : Option Timer)
          → (o ≡ none) ⊎ ((o ≡ some stopped) ⊎ ((t : Timer) × (o ≡ some t) × (t ≢ stopped)))
      timer_cases none = inl refl
      timer_cases (some stopped) = inr (inl refl)
      timer_cases (some running_1t5) = inr (inr (running_1t5, refl, λ e. cc))
      timer_cases (some running_3t5) = inr (inr (running_3t5, refl, λ e. cc))

  expire-Good : (s : State U) → Good F W pdu_cb s → Ends F (Good F W pdu_cb) (expire s)
  unfolding expire
  expire-Good s v = elim (running_has_cb s v.0) [
    | inl e ↦ rw (e, Ends) v
    | inr (t, e, n) ↦ started t e n
  ]
    where
      started :
          (t : Timer)
          → timer_after s.actions ≡ some t
          → s.timer_cb ≢ null
          → Ends F (Good F W pdu_cb) (expire s)
      started stopped e n = rw (e, expire, Ends) v
      started running_1t5 e n = rw (e, expire) (call_timer_cb-Good s s.timer_cb v refl n)
      started running_3t5 e n = rw (e, expire) (call_timer_cb-Good s s.timer_cb v refl n)

  pub step-Good :
      (s : State U) (e : Event)
      → IsEvent e
      → Good F W pdu_cb s
      → Ends F (Good F W pdu_cb) (step pdu_cb s e)
  unfolding step
  step-Good s (receives byte) h v =
      (serial_recv_cb-Inv s byte h v.0, rw (user-serial_recv_cb s byte) v.1)
  step-Good s (receive_fails byte) h v =
      (serial_recv_err_cb-Inv s byte v.0, rw (user-serial_recv_err_cb s byte) v.1)
  step-Good s expires h v = expire-Good s v
  step-Good s sent h v = (serial_sent_cb-Inv s v.0, rw (user-serial_sent_cb s) v.1)
  step-Good s polls h v = event-Good F W pdu_cb answers s v

  pub run-Good :
      (s : State U) (es : List Event)
      → AreEvents es
      → Good F W pdu_cb s
      → Ends F (Good F W pdu_cb) (run pdu_cb s es)
  unfolding run
  run-Good s [] h v = v
  run-Good s (e ∷ es) h v =
      Ends-bind F (Good F W pdu_cb) (Good F W pdu_cb) (step pdu_cb s e) _ (step-Good s e h.0 v)
        λ s' v'. run-Good s' es h.1 v'

  -- From `modbus_rtu_init` on, in any order of received bytes, broken bytes, expiries, ends of
  -- transmission and rounds of the loop, for a callback that answers requests with at most 254
  -- bytes and keeps a property of the user's data: the run does not get stuck, no access to a
  -- buffer and no null callback faults, the slave's invariant and the property hold at the end, and
  -- a fault can only be the callback's own.
  pub run-init-Good :
      (has_suspend has_resume : Bool) (user : U) (es : List Event)
      → W user
      → AreEvents es
      → Ends F (Good F W pdu_cb) (run pdu_cb (modbus_rtu_init has_suspend has_resume user) es)
  unfolding modbus_rtu_init
  run-init-Good has_suspend has_resume user es w h =
      run-Good (modbus_rtu_init has_suspend has_resume user) es h
        (init-Inv has_suspend has_resume user, w)
