-- ===== src/Mcu/Stm32/Handlers.antt =====
-- stm32f103c8/rtu_impl.c: the interrupts and `modbus_rtu_impl`. `isrUSART1`, which only calls the
-- driver, is left out.
use modbus_c.Prelude.{ℕ, load, not, Bool, if◌then◌else◌, Exec, done, ◌>>=◌}
use modbus_c.Rtu.{
  PduCb, serial_recv_cb, serial_recv_err_cb, serial_sent_cb, modbus_rtu_event, modbus_rtu_init,
}
use modbus_c.Rtu.Schedule.{call_timer_cb}
use modbus_c.RtuImpl.{cleared}
use modbus_c.Mcu.{TimerDriver}
use modbus_c.Mcu.Machine.{Machine, Cause, rx, tim, tx, main_loop, with_timer, with_port, settle}
use modbus_c.Mcu.Stm32.{Stm32, tim_init, isr_tim2, stm32_timer}
use modbus_c.Mcu.Stm32.Serial.{Usart, UsartDriver, rearm, port_init, flush_usart, stm32_port}

module _ {U T P : Type 0} (t : TimerDriver T) (d : UsartDriver P) (pdu_cb : PduCb U) where
  unfoldable pub isr_tim : Machine U (Stm32 T) (Usart P) → Exec (Machine U (Stm32 T) (Usart P))
  isr_tim m = do
    (timer, calls) ← isr_tim2 t m.hw.timer
    let m' = with_timer timer m
    if calls
        then settle (stm32_timer t) (stm32_port d) m' (call_timer_cb (cleared m'.core))
        else done m'

  -- `rx_complete`, up to the reception of the next byte
  unfoldable pub pass_on :
      Machine U (Stm32 T) (Usart P) → ℕ → Bool → Exec (Machine U (Stm32 T) (Usart P))
  pass_on m byte fopn =
      if not fopn
      then settle (stm32_timer t) (stm32_port d) m (done (serial_recv_cb (cleared m.core) byte))
      else do
        port ← flush_usart d m.hw.port
        let m' = with_port port m
        settle (stm32_timer t) (stm32_port d) m' (done (serial_recv_err_cb (cleared m'.core) byte))

  unfoldable pub rx_complete : Machine U (Stm32 T) (Usart P) → Exec (Machine U (Stm32 T) (Usart P))
  unfolding pass_on
  rx_complete m = do
    byte ← load m.hw.port.rxbuf m.hw.port.rx_ctrl.begin
    m' ← pass_on m byte m.hw.port.rx_ctrl.fopn
    done (with_port (rearm d m'.hw.port) m')

  unfoldable pub tx_complete : Machine U (Stm32 T) (Usart P) → Exec (Machine U (Stm32 T) (Usart P))
  tx_complete m = settle (stm32_timer t) (stm32_port d) m (done (serial_sent_cb (cleared m.core)))

  unfoldable pub stm32_handle :
      Machine U (Stm32 T) (Usart P) → Cause → Exec (Machine U (Stm32 T) (Usart P))
  stm32_handle m (rx byte errors) = rx_complete (with_port (d.usart_rx_isr byte errors m.hw.port) m)
  stm32_handle m tim = isr_tim m
  stm32_handle m tx = tx_complete m
  stm32_handle m main_loop =
      settle (stm32_timer t) (stm32_port d) m (modbus_rtu_event pdu_cb (cleared m.core))

  unfoldable pub modbus_rtu_impl :
      Bool → Bool → U → Stm32 T → Usart P → Exec (Machine U (Stm32 T) (Usart P))
  modbus_rtu_impl suspend_cb resume_cb user_data timer port = do
    timer' ← tim_init t timer
    done (record {
      core = modbus_rtu_init suspend_cb resume_cb user_data;
      hw = record { timer = timer'; port = port_init d port };
    })
