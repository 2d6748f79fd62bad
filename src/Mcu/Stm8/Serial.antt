-- ===== src/Mcu/Stm8/Serial.antt =====
-- stm8s003f3/rtu_impl.c: the port UART1, the interrupts, and `modbus_rtu_impl`.
use modbus_c.Prelude.{
  ℕ, ◌≡◌, refl, not, Bool, true, false, if◌then◌else◌, List, [], Exec, done, ◌>>=◌,
}
use modbus_c.Rtu.{
  State, PduCb, serial_recv_cb, serial_recv_err_cb, serial_sent_cb, modbus_rtu_event,
  modbus_rtu_init,
}
use modbus_c.Rtu.Timer.{timer_after}
use modbus_c.Rtu.Invariant.{init-Inv}
use modbus_c.Rtu.Process.{Answers}
use modbus_c.Rtu.Schedule.{Event, call_timer_cb}
use modbus_c.Rtu.Receive.{frames_sent}
use modbus_c.RtuImpl.{cleared}
use modbus_c.Mcu.{TimerDriver, Stands}
use modbus_c.Mcu.Uart.{UartDriver, flush}
use modbus_c.Mcu.Serial.{
  PortShows, uart_port, interrupt, interrupt-Simulates, flushed-Simulates, flush-Keeps,
}
use modbus_c.Mcu.Machine.{
  Machine, Cause, rx, tim, tx, main_loop, with_timer, with_port, settle, machine_run,
}
use modbus_c.Mcu.Machine.Interrupts.{
  events_of, AreCauses, Simulates, Handles, recv-Simulates, sent-Simulates, event-Simulates,
  timer_cb-Simulates, run-Simulates,
}
use modbus_c.Mcu.Stm8.{tim_init, tim_init-TimShows, int_clear-TimShows, stm8_timer}

module _ {P : Type 0} (d : UartDriver P) where
  unfoldable pub uart_init : P → P
  uart_init p = d.tx_enable (d.rx_enable (d.parity_even (d.br 19200 p)))

  pub init-PortShows : (p : P) → (d.regs p).sent ≡ [] → PortShows d [] (d.async_recv (uart_init p))
  unfolding uart_init
  init-PortShows p e =
      simp (d.regs-async_recv, d.regs-tx_enable, d.regs-rx_enable, d.regs-parity_even, d.regs-br)
        (
          record { rate = refl; parity_even = refl; rx_on = refl; tx_on = refl; receiving = refl },
          e,
        )

module _ {U T P : Type 0} (t : TimerDriver T) (d : UartDriver P) (pdu_cb : PduCb U) where
  unfoldable pub tim_cb : Machine U T P → Exec (Machine U T P)
  tim_cb m =
      let m' = with_timer (t.int_clear m.hw.timer) m in
      settle (stm8_timer t) (uart_port d) m' (call_timer_cb (cleared m'.core))

  unfoldable pub uart_rx_recv_cb : Machine U T P → ℕ → Bool → Exec (Machine U T P)
  uart_rx_recv_cb m byte fopn =
      if not fopn
      then settle (stm8_timer t) (uart_port d) m (done (serial_recv_cb (cleared m.core) byte))
      else do
        port ← flush d m.hw.port
        let m' = with_port port m
        settle (stm8_timer t) (uart_port d) m' (done (serial_recv_err_cb (cleared m'.core) byte))

  unfoldable pub uart_tx_complete_cb : Machine U T P → Exec (Machine U T P)
  uart_tx_complete_cb m =
      settle (stm8_timer t) (uart_port d) m (done (serial_sent_cb (cleared m.core)))

  unfoldable pub stm8_handle : Machine U T P → Cause → Exec (Machine U T P)
  stm8_handle m (rx byte errors) = uart_rx_recv_cb m byte errors
  stm8_handle m tim = interrupt (t.regs m.hw.timer) m (tim_cb m)
  stm8_handle m tx = uart_tx_complete_cb m
  stm8_handle m main_loop =
      settle (stm8_timer t) (uart_port d) m (modbus_rtu_event pdu_cb (cleared m.core))

  unfoldable pub modbus_rtu_impl : Bool → Bool → U → T → P → Machine U T P
  modbus_rtu_impl suspend_cb resume_cb user_data timer port = record {
    core = modbus_rtu_init suspend_cb resume_cb user_data;
    hw = record { timer = tim_init t timer; port = d.async_recv (uart_init d port) };
  }

module _ {U T P : Type 0} (t : TimerDriver T) (d : UartDriver P) (pdu_cb : PduCb U) (F : Type 0)
    (W : U → Type 0) (answers : Answers F W pdu_cb) where
  abbrev pub Stm8Simulates : State U → List Event → Exec (Machine U T P) → Type 0
  Stm8Simulates = Simulates (stm8_timer t) (uart_port d) pdu_cb F W answers

  stm8_handle-Handles :
      Handles (stm8_timer t) (uart_port d) pdu_cb F W answers (stm8_handle t d pdu_cb)
  unfolding stm8_handle tim_cb uart_rx_recv_cb uart_tx_complete_cb
  stm8_handle-Handles m (rx byte false) h v =
      recv-Simulates (stm8_timer t) (uart_port d) pdu_cb F W answers m byte h v
  stm8_handle-Handles m (rx byte true) h v =
      flushed-Simulates (stm8_timer t) (uart_port d) pdu_cb F W answers m byte (flush d m.hw.port) h
        v (flush-Keeps d m.hw.port)
  stm8_handle-Handles m tim h v =
      interrupt-Simulates (stm8_timer t) (uart_port d) pdu_cb F W answers 47 110 t.clock_on
        (t.regs m.hw.timer) m (tim_cb t d pdu_cb m) v.1.timer.0 v
        (λ u e n.
          timer_cb-Simulates (stm8_timer t) (uart_port d) pdu_cb F W answers
            (with_timer (t.int_clear m.hw.timer) m) u e n
            (
              v.0,
              record {
                timer = int_clear-TimShows t (timer_after m.core.actions) m.hw.timer v.1.timer;
                port = v.1.port;
              },
            ))
  stm8_handle-Handles m tx h v = sent-Simulates (stm8_timer t) (uart_port d) pdu_cb F W answers m v
  stm8_handle-Handles m main_loop h v =
      event-Simulates (stm8_timer t) (uart_port d) pdu_cb F W answers m v

  -- The adapter of the STM8, from `modbus_rtu_impl` on with its timer stopped and nothing sent, in
  -- any order of bytes with or without errors, interrupts of the timer, ends of transmission and
  -- rounds of the main loop, for a callback that answers requests with at most 254 bytes and keeps
  -- a property of the user's data: it does not get stuck, and a fault can only be the callback's
  -- own, so that the interrupt of TIM4 meets no null callback and the loop that empties the port
  -- ends. Its core ends where the schedule of the core ends that has for each of them the byte, the
  -- broken byte, the expiry, the end or the round, with its invariant; the port has been given the
  -- core's frames and no other, TIM4, with its clock divided by 128, stands without a callback or
  -- runs to 47 or 110 with its interrupt and callback on, as the core counts on, and UART1 is set
  -- up and receiving.
  pub modbus_rtu_impl-Stm8Simulates :
      (suspend_cb resume_cb : Bool) (user_data : U) (timer : T) (port : P) (cs : List Cause)
      → W user_data
      → Stands (t.regs timer).has_cb (t.regs timer)
      → (d.regs port).sent ≡ []
      → AreCauses cs
      → Stm8Simulates (modbus_rtu_init suspend_cb resume_cb user_data) (events_of cs) (
          machine_run
            (stm8_handle t d pdu_cb)
            (modbus_rtu_impl t d pdu_cb suspend_cb resume_cb user_data timer port)
            cs)
  unfolding modbus_rtu_impl modbus_rtu_init timer_after frames_sent
  modbus_rtu_impl-Stm8Simulates suspend_cb resume_cb user_data timer port cs w s e h =
      run-Simulates (stm8_timer t) (uart_port d) pdu_cb F W answers (stm8_handle t d pdu_cb)
        stm8_handle-Handles (modbus_rtu_impl t d pdu_cb suspend_cb resume_cb user_data timer port)
        cs h
        (
          (init-Inv suspend_cb resume_cb user_data, w),
          record { timer = tim_init-TimShows t timer s; port = init-PortShows d port e },
        )
