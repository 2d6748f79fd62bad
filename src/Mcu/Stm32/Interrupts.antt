-- ===== src/Mcu/Stm32/Interrupts.antt =====
-- The interrupts of the STM32 do what a schedule of the core does.
use modbus_c.Prelude.{
  ◌∷◌, ℕ, length, fun_ext, ap, ◌≡◌, refl, sym, subst, Ends-bind, Option, none, Bool, true, false,
  if◌then◌else◌, some, List, [], Exec, done, fault, stuck, ◌>>=◌, Ends, IsByte, arith,
}
use modbus_c.Rtu.{
  Action, start_1t5, start_3t5, stop, reset, suspend, resume, send, State, PduCb, serial_recv_cb,
  serial_recv_err_cb, modbus_rtu_init,
}
use modbus_c.Rtu.Timer.{stopped, running_1t5, running_3t5, Timer, stopped, timer_after}
use modbus_c.Rtu.Invariant.{init-Inv}
use modbus_c.Rtu.Process.{Answers}
use modbus_c.Rtu.Schedule.{Event, receives, receive_fails, expires, call_timer_cb}
use modbus_c.Rtu.Receive.{frames_sent}
use modbus_c.RtuImpl.{cleared}
use modbus_c.Mcu.{TimerDriver, Stands}
use modbus_c.Mcu.Uart.{flush, IsFlushed, flush-IsFlushed}
use modbus_c.Mcu.Hardware.{Hardware, hardware_call}
use modbus_c.Mcu.Serial.{flushed-Simulates}
use modbus_c.Mcu.Machine.{
  Machine, Cause, rx, tim, tx, main_loop, with_timer, with_port, settle, machine_run,
}
use modbus_c.Mcu.Machine.Interrupts.{
  byte_event, events_of, AreCauses, Fits, Simulates, Handles, stays, recv-Simulates, sent-Simulates,
  event-Simulates, timer_cb-Simulates, run-Simulates,
}
use modbus_c.Mcu.Stm32.{
  Stm32, Stm32Shows, tim_init, tim_init-Stm32Shows, isr_tim2, Handled, isr_tim2-Handled,
  stm32_timer,
}
use modbus_c.Mcu.Stm32.Serial.{
  Usart, UsartDriver, rearm, port_init, flush_usart, UsartSet, rearm-UsartShows, isr-UsartSet,
  port_init-UsartShows, isr-load, stm32_port, handling_port,
}
use modbus_c.Mcu.Stm32.Handlers.{
  isr_tim, pass_on, rx_complete, tx_complete, stm32_handle, modbus_rtu_impl,
}

module _ {U T P : Type 0} (t : TimerDriver T) (d : UsartDriver P) (pdu_cb : PduCb U) where
  -- the calls are the same, whatever holds of the port
  handling_call :
      (x : Action) (hw : Hardware (Stm32 T) (Usart P))
      → hardware_call (stm32_timer t) (handling_port d) x hw
        ≡ hardware_call (stm32_timer t) (stm32_port d) x hw
  unfolding hardware_call
  handling_call start_1t5 hw = refl
  handling_call start_3t5 hw = refl
  handling_call stop hw = refl
  handling_call reset hw = refl
  handling_call suspend hw = refl
  handling_call resume hw = refl
  handling_call (send bytes) hw = refl

  handling_settle :
      (m : Machine U (Stm32 T) (Usart P)) (called : Exec (State U))
      → settle (stm32_timer t) (handling_port d) m called
        ≡ settle (stm32_timer t) (stm32_port d) m called
  unfolding settle
  handling_settle m called = rw (fun_ext (λ x. fun_ext (handling_call x))) refl

module _ {U T P : Type 0} (t : TimerDriver T) (d : UsartDriver P) (pdu_cb : PduCb U) (F : Type 0)
    (W : U → Type 0) (answers : Answers F W pdu_cb) where
  abbrev pub Stm32Simulates : State U → List Event → Exec (Machine U (Stm32 T) (Usart P)) → Type 0
  Stm32Simulates = Simulates (stm32_timer t) (stm32_port d) pdu_cb F W answers

  abbrev HandlingSimulates : State U → List Event → Exec (Machine U (Stm32 T) (Usart P)) → Type 0
  HandlingSimulates = Simulates (stm32_timer t) (handling_port d) pdu_cb F W answers

  rearmed :
      (s : State U) (es : List Event) (x : Exec (Machine U (Stm32 T) (Usart P)))
      → HandlingSimulates s es x
      → Stm32Simulates s es (x >>= λ m'. done (with_port (rearm d m'.hw.port) m'))
  rearmed s es (done m) h = (
    (
      (h.0).0,
      record {
        timer = (h.0).1.timer;
        port = rearm-UsartShows d (frames_sent m.core.actions) m.hw.port (h.0).1.port;
      },
    ),
    h.1,
  )
  rearmed s es fault h = h
  rearmed s es stuck h = h

  flush-UsartSet :
      (u : Usart P)
      → Ends ⊥
          (λ u'. (frames : List (List ℕ)) → UsartSet d frames u → UsartSet d frames u')
          (flush_usart d u)
  unfolding flush_usart
  flush-UsartSet u =
      Ends-bind ⊥ (IsFlushed d.uart u.usart1)
        (λ u'. (frames : List (List ℕ)) → UsartSet d frames u → UsartSet d frames u')
        (flush d.uart u.usart1) _ (flush-IsFlushed d.uart u.usart1)
        λ p h. λ frames s. ground (arith, s, h.1)

  pass_on-Simulates :
      (m : Machine U (Stm32 T) (Usart P)) (byte : ℕ) (fopn : Bool)
      → IsByte byte
      → Fits (stm32_timer t) (handling_port d) pdu_cb F W answers m
      → HandlingSimulates m.core (byte_event byte fopn ∷ []) (pass_on t d pdu_cb m byte fopn)
  unfolding pass_on
  pass_on-Simulates m byte false h v =
      subst (HandlingSimulates m.core (receives byte ∷ []))
        (handling_settle t d pdu_cb m (done (serial_recv_cb (cleared m.core) byte)))
        (recv-Simulates (stm32_timer t) (handling_port d) pdu_cb F W answers m byte h v)
  pass_on-Simulates m byte true h v =
      subst (HandlingSimulates m.core (receive_fails byte ∷ []))
        (ap (λ k. flush_usart d m.hw.port >>= k)
          (fun_ext λ port.
            handling_settle t d pdu_cb (with_port port m)
              (done (serial_recv_err_cb (cleared m.core) byte))))
        (flushed-Simulates (stm32_timer t) (handling_port d) pdu_cb F W answers m byte
          (flush_usart d m.hw.port) h v (flush-UsartSet m.hw.port))

  rx-Stm32Simulates :
      (m : Machine U (Stm32 T) (Usart P)) (byte : ℕ) (errors : Bool)
      → IsByte byte
      → Fits (stm32_timer t) (stm32_port d) pdu_cb F W answers m
      → Stm32Simulates m.core
          (byte_event byte errors ∷ [])
          (stm32_handle t d pdu_cb m (rx byte errors))
  unfolding stm32_handle rx_complete
  rx-Stm32Simulates m byte errors h v =
      let port = d.usart_rx_isr byte errors m.hw.port in
      let isr = isr-UsartSet d byte errors (frames_sent m.core.actions) m.hw.port v.1.port in
      subst (Stm32Simulates m.core (byte_event byte errors ∷ []))
        (sym (
          ap
            (λ x. x >>= λ b. pass_on t d pdu_cb (with_port port m) b port.rx_ctrl.fopn >>= λ m'.
              done (with_port (rearm d m'.hw.port) m'))
            (isr-load d byte errors (frames_sent m.core.actions) m.hw.port v.1.port)))
        (rearmed m.core (byte_event byte errors ∷ [])
          (pass_on t d pdu_cb (with_port port m) byte port.rx_ctrl.fopn)
          (subst
            (λ e.
              HandlingSimulates m.core (byte_event byte e ∷ [])
                (pass_on t d pdu_cb (with_port port m) byte port.rx_ctrl.fopn))
            isr.1
            (pass_on-Simulates (with_port port m) byte port.rx_ctrl.fopn h
              (v.0, record { timer = v.1.timer; port = isr.0 }))))

  tim-Stm32Simulates :
      (m : Machine U (Stm32 T) (Usart P))
      → Fits (stm32_timer t) (stm32_port d) pdu_cb F W answers m
      → Stm32Simulates m.core (expires ∷ []) (isr_tim t d pdu_cb m)
  unfolding isr_tim
  tim-Stm32Simulates m v = by_timer (timer_after m.core.actions) refl v.1.timer
    where
      handled :
          (u : Timer) (out : Exec (Stm32 T × Bool))
          → timer_after m.core.actions ≡ some u
          → Ends ⊥ (Handled t u m.hw.timer) out
          → Stm32Simulates m.core (expires ∷ []) (do
            (timer, calls) ← out
            let m' = with_timer timer m
            if calls
                then settle (stm32_timer t) (stm32_port d) m' (call_timer_cb (cleared m'.core))
                else done m')
      handled u fault e h = absurd h
      handled u stuck e h = absurd h
      handled u (done (timer, true)) e h =
          timer_cb-Simulates (stm32_timer t) (stm32_port d) pdu_cb F W answers (with_timer timer m)
            u e ((h.1).0 refl) (v.0, record { timer = rw e h.0; port = v.1.port })
      handled running_1t5 (done (timer, false)) e h = let q : false ≡ true = (h.1).1 (λ c. cc) in cc
      handled running_3t5 (done (timer, false)) e h = let q : false ≡ true = (h.1).1 (λ c. cc) in cc
      handled stopped (done (timer, false)) e h =
          stays (stm32_timer t) (stm32_port d) pdu_cb F W answers m (with_timer timer m) e refl
            (v.0, record { timer = rw e h.0; port = v.1.port })

      by_timer :
          (o : Option Timer)
          → timer_after m.core.actions ≡ o
          → Stm32Shows t o m.hw.timer
          → Stm32Simulates m.core (expires ∷ []) (isr_tim t d pdu_cb m)
      by_timer none e s = absurd s.0
      by_timer (some u) e s =
          handled u (isr_tim2 t m.hw.timer) e (isr_tim2-Handled t u m.hw.timer s)

  stm32_handle-Handles :
      Handles (stm32_timer t) (stm32_port d) pdu_cb F W answers (stm32_handle t d pdu_cb)
  unfolding stm32_handle tx_complete
  stm32_handle-Handles m (rx byte errors) h v = rx-Stm32Simulates m byte errors h v
  stm32_handle-Handles m tim h v = tim-Stm32Simulates m v
  stm32_handle-Handles m tx h v =
      sent-Simulates (stm32_timer t) (stm32_port d) pdu_cb F W answers m v
  stm32_handle-Handles m main_loop h v =
      event-Simulates (stm32_timer t) (stm32_port d) pdu_cb F W answers m v

  -- The adapter of the STM32, from `modbus_rtu_impl` on with its timer stopped, nothing sent, one
  -- byte in `rxbuf_` and no flag of an error, in any order of bytes with or without errors,
  -- interrupts of the timer, ends of transmission and rounds of the main loop, for a callback that
  -- answers requests with at most 254 bytes and keeps a property of the user's data: it does not
  -- get stuck, and a fault can only be the callback's own, so that no ASSERT of the timer's
  -- functions and its interrupt fails and the loop that empties the port ends. Its core ends where
  -- the schedule of the core ends that has for each of them the byte, the broken byte, the expiry,
  -- the end or the round, with its invariant; the port has been given the core's frames and no
  -- other, TIM2 stands or runs for the time that the core counts on, with `state_` set exactly
  -- where it runs, and USART1 is set up, receiving, and its control block ready for the next byte,
  -- without a flag of an error.
  pub modbus_rtu_impl-Stm32Simulates :
      (suspend_cb resume_cb : Bool) (user_data : U) (timer : Stm32 T) (port : Usart P)
      (cs : List Cause)
      → W user_data
      → Stands timer.has_state (t.regs timer.tim2)
      → (d.uart.regs port.usart1).sent ≡ []
      → length port.rxbuf ≡ 1
      → port.rx_ctrl.fopn ≡ false
      → AreCauses cs
      → Stm32Simulates (modbus_rtu_init suspend_cb resume_cb user_data) (events_of cs) (do
        m ← modbus_rtu_impl t d pdu_cb suspend_cb resume_cb user_data timer port
        machine_run (stm32_handle t d pdu_cb) m cs)
  unfolding modbus_rtu_impl modbus_rtu_init timer_after frames_sent
  modbus_rtu_impl-Stm32Simulates suspend_cb resume_cb user_data timer port cs w s e l f h =
      started (tim_init t timer) (tim_init-Stm32Shows t timer s)
    where
      started :
          (x : Exec (Stm32 T))
          → Ends ⊥ (Stm32Shows t (some stopped)) x
          → Stm32Simulates (modbus_rtu_init suspend_cb resume_cb user_data) (events_of cs) (do
            m ← do
              timer' ← x
              done (record {
                core = modbus_rtu_init suspend_cb resume_cb user_data;
                hw = record { timer = timer'; port = port_init d port };
              })
            machine_run (stm32_handle t d pdu_cb) m cs)
      started (done timer') shows =
          run-Simulates (stm32_timer t) (stm32_port d) pdu_cb F W answers (stm32_handle t d pdu_cb)
            stm32_handle-Handles _ cs h
            (
              (init-Inv suspend_cb resume_cb user_data, w),
              record { timer = shows; port = port_init-UsartShows d port e l f },
            )
      started fault shows = absurd shows
      started stuck shows = absurd shows
