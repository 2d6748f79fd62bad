-- ===== src/Mcu/Avr/Serial.antt =====
-- atmega328p/rtu_impl.c: the port USART0, the interrupts, and `modbus_rtu_impl`.
use modbus_c.Prelude.{ℕ, ◌≡◌, refl, not, Bool, true, false, if◌then◌else◌, [], Exec, done, ◌>>=◌}
use modbus_c.Rtu.{
  PduCb, serial_recv_cb, serial_recv_err_cb, serial_sent_cb, modbus_rtu_event, modbus_rtu_init,
}
use modbus_c.Rtu.Process.{Answers}
use modbus_c.Rtu.Schedule.{call_timer_cb}
use modbus_c.RtuImpl.{cleared}
use modbus_c.Mcu.{TimerDriver}
use modbus_c.Mcu.Uart.{UartDriver, flush}
use modbus_c.Mcu.Serial.{
  PortShows, uart_port, interrupt, interrupt-Simulates, flushed-Simulates, flush-Keeps,
}
use modbus_c.Mcu.Machine.{Machine, Cause, rx, tim, tx, main_loop, with_port, settle}
use modbus_c.Mcu.Machine.Interrupts.{
  Handles, recv-Simulates, sent-Simulates, event-Simulates, timer_cb-Simulates,
}
use modbus_c.Mcu.Avr.{tmr_init, avr_timer}

module _ {P : Type 0} (d : UartDriver P) where
  unfoldable pub usart_init : P → P
  usart_init p = d.tx_enable (d.rx_enable (d.parity_even (d.br 19200 p)))

  pub init-PortShows : (p : P) → (d.regs p).sent ≡ [] → PortShows d [] (d.async_recv (usart_init p))
  unfolding usart_init
  init-PortShows p e =
      simp (d.regs-async_recv, d.regs-tx_enable, d.regs-rx_enable, d.regs-parity_even, d.regs-br)
        (
          record { rate = refl; parity_even = refl; rx_on = refl; tx_on = refl; receiving = refl },
          e,
        )

module _ {U T P : Type 0} (t : TimerDriver T) (d : UartDriver P) (pdu_cb : PduCb U) where
  unfoldable pub tmr_cb : Machine U T P → Exec (Machine U T P)
  tmr_cb m = settle (avr_timer t) (uart_port d) m (call_timer_cb (cleared m.core))

  unfoldable pub usart_rx_recv_cb : Machine U T P → ℕ → Bool → Exec (Machine U T P)
  usart_rx_recv_cb m byte fop_errors =
      if not fop_errors
      then settle (avr_timer t) (uart_port d) m (done (serial_recv_cb (cleared m.core) byte))
      else do
        port ← flush d m.hw.port
        let m' = with_port port m
        settle (avr_timer t) (uart_port d) m' (done (serial_recv_err_cb (cleared m'.core) byte))

  unfoldable pub usart_tx_complete_cb : Machine U T P → Exec (Machine U T P)
  usart_tx_complete_cb m =
      settle (avr_timer t) (uart_port d) m (done (serial_sent_cb (cleared m.core)))

  unfoldable pub avr_handle : Machine U T P → Cause → Exec (Machine U T P)
  avr_handle m (rx byte errors) = usart_rx_recv_cb m byte errors
  avr_handle m tim = interrupt (t.regs m.hw.timer) m (tmr_cb m)
  avr_handle m tx = usart_tx_complete_cb m
  avr_handle m main_loop =
      settle (avr_timer t) (uart_port d) m (modbus_rtu_event pdu_cb (cleared m.core))

  unfoldable pub modbus_rtu_impl : Bool → Bool → U → T → P → Machine U T P
  modbus_rtu_impl suspend_cb resume_cb user_data timer port = record {
    core = modbus_rtu_init suspend_cb resume_cb user_data;
    hw = record { timer = tmr_init t timer; port = d.async_recv (usart_init d port) };
  }

module _ {U T P : Type 0} (t : TimerDriver T) (d : UartDriver P) (pdu_cb : PduCb U) (F : Type 0)
    (W : U → Type 0) (answers : Answers F W pdu_cb) where
  pub avr_handle-Handles :
      Handles (avr_timer t) (uart_port d) pdu_cb F W answers (avr_handle t d pdu_cb)
  unfolding avr_handle tmr_cb usart_rx_recv_cb usart_tx_complete_cb
  avr_handle-Handles m (rx byte false) h v =
      recv-Simulates (avr_timer t) (uart_port d) pdu_cb F W answers m byte h v
  avr_handle-Handles m (rx byte true) h v =
      flushed-Simulates (avr_timer t) (uart_port d) pdu_cb F W answers m byte (flush d m.hw.port) h
        v (flush-Keeps d m.hw.port)
  avr_handle-Handles m tim h v =
      interrupt-Simulates (avr_timer t) (uart_port d) pdu_cb F W answers 47 110 t.clock_on
        (t.regs m.hw.timer) m (tmr_cb t d pdu_cb m) v.1.timer.0 v
        (λ u e n. timer_cb-Simulates (avr_timer t) (uart_port d) pdu_cb F W answers m u e n v)
  avr_handle-Handles m tx h v = sent-Simulates (avr_timer t) (uart_port d) pdu_cb F W answers m v
  avr_handle-Handles m main_loop h v =
      event-Simulates (avr_timer t) (uart_port d) pdu_cb F W answers m v
