-- ===== src/Mcu/Tests.antt =====
-- Drivers that are their registers, and a frame of two bytes with a broken one behind it.
use modbus_c.Prelude.{
  ℕ, ◌+◌, ◌-◌, refl, true, false, List, [], ◌∷◌, set, if◌then◌else◌, ltb, ltb→lt, ◌>>=◌, Ends,
  arith,
}
use modbus_c.Rtu.{modbus_rtu_init}
use modbus_c.Rtu.Timer.{running_1t5}
use modbus_c.Rtu.Tests.{echo, echo-Answers}
use modbus_c.Mcu.{TimerRegs, TimerDriver}
use modbus_c.Mcu.Uart.{PortRegs, UartDriver}
use modbus_c.Mcu.Machine.{Cause, rx, tim, tx, main_loop, machine_run}
use modbus_c.Mcu.Machine.Interrupts.{events_of}
use modbus_c.Adapter.Serves.{configured}
use modbus_c.Mcu.Avr.Program.{avr_main, program_handle, ProgramSimulates, avr_main-ProgramSimulates}
use modbus_c.Mcu.Stm8.Serial.{
  modbus_rtu_impl as stm8_impl, stm8_handle, Stm8Simulates, modbus_rtu_impl-Stm8Simulates,
}
use modbus_c.Mcu.Stm32.{Stm32, Handled, isr_tim2, isr_tim2-Handled}
use modbus_c.Mcu.Stm32.Serial.{Usart, UsartDriver}
use modbus_c.Mcu.Stm32.Handlers.{modbus_rtu_impl as stm32_impl, stm32_handle}
use modbus_c.Mcu.Stm32.Interrupts.{Stm32Simulates, modbus_rtu_impl-Stm32Simulates}

abbrev registers : TimerDriver TimerRegs
registers = record {
  regs = λ h. h;
  set_cb = λ b h. record h { has_cb = b };
  wr_top = λ n h. record h { top = n };
  wr_cntr = λ n h. record h { cntr = n };
  int_enable = λ h. record h { int_enabled = true };
  int_disable = λ h. record h { int_enabled = false };
  int_clear = λ h. record h { int_pending = false };
  clock_on = 4;
  clock_wr = λ n h. record h { clock = n };
  mode_ctc = λ h. record h { ctc = true };
  preload_enable = λ h. record h { preload = true };
  clk_div = λ n h. record h { divider = n };
  clock_runs = omega arith;
  regs-set_cb = λ b h. refl;
  regs-wr_top = λ n h. refl;
  regs-wr_cntr = λ n h. refl;
  regs-int_enable = λ h. refl;
  regs-int_disable = λ h. refl;
  regs-int_clear = λ h. refl;
  regs-clock_wr = λ n h. refl;
  regs-mode_ctc = λ h. refl;
  regs-preload_enable = λ h. refl;
  regs-clk_div = λ n h. refl;
}

abbrev at_rest : TimerRegs
at_rest = record {
  top = 0;
  cntr = 0;
  int_enabled = false;
  int_pending = false;
  clock = 0;
  has_cb = false;
  ctc = false;
  preload = false;
  divider = 0;
}

abbrev stm32 : Stm32 TimerRegs
stm32 = record { tim2 = at_rest; has_state = false; tim2spurious = 0 }

-- the timer behind the first byte of a frame, with its time over
abbrev expired : Stm32 TimerRegs
expired = record {
  tim2 = record {
    top = 75;
    cntr = 75;
    int_enabled = true;
    int_pending = true;
    clock = 4;
    has_cb = false;
    ctc = false;
    preload = true;
    divider = 359;
  };
  has_state = true;
  tim2spurious = 7;
}

-- a port with a queue of so many bytes
record Port : Type 0 where
  regs : PortRegs
  queue : ℕ

abbrev port_driver : UartDriver Port
port_driver = record {
  regs = λ p. p.regs;
  br = λ n p. record p { regs = record (p.regs) { rate = n } };
  enable = λ p. record p { regs = record (p.regs) { enabled = true } };
  parity_even = λ p. record p { regs = record (p.regs) { parity_even = true } };
  parity_enable = λ p. record p { regs = record (p.regs) { parity_on = true } };
  rx_enable = λ p. record p { regs = record (p.regs) { rx_on = true } };
  tx_enable = λ p. record p { regs = record (p.regs) { tx_on = true } };
  async_recv = λ p. record p { regs = record (p.regs) { receiving = true } };
  async_send = λ bytes p. record p { regs = record (p.regs) { sent = bytes ∷ p.regs.sent } };
  rx_ready = λ p. ltb 0 p.queue;
  rd = λ p. record p { queue = p.queue - 1 };
  queued = λ p. p.queue;
  regs-br = λ n p. refl;
  regs-enable = λ p. refl;
  regs-parity_even = λ p. refl;
  regs-parity_enable = λ p. refl;
  regs-rx_enable = λ p. refl;
  regs-tx_enable = λ p. refl;
  regs-async_recv = λ p. refl;
  regs-async_send = λ bytes p. refl;
  regs-rd = λ p. refl;
  rx_ready-queued = λ p h. ltb→lt 0 p.queue h;
  queued-rd = λ p h. omega arith;
}

abbrev off_port : Port
off_port = record {
  regs = record {
    rate = 0;
    enabled = false;
    parity_even = false;
    parity_on = false;
    rx_on = false;
    tx_on = false;
    receiving = false;
    sent = [];
  };
  queue = 2;
}

abbrev usart_driver : UsartDriver Port
usart_driver = record {
  uart = port_driver;
  usart_rx_isr = λ byte errors u. record u {
    usart1 = record (u.usart1) { regs = record (u.usart1.regs) { receiving = false } };
    rxbuf = set u.rxbuf u.rx_ctrl.next byte;
    rx_ctrl = record (u.rx_ctrl) {
      next = u.rx_ctrl.next + 1;
      fopn = if errors then true else u.rx_ctrl.fopn;
    };
  };
  receives = λ byte errors u h. (refl, refl, refl);
}

abbrev off_usart : Usart Port
off_usart = record {
  usart1 = off_port;
  rx_ctrl = record { begin = 0; end = 0; next = 0; fopn = false };
  rxbuf = 0 ∷ [];
  tx_ctrl = [];
}

abbrev causes : List Cause
causes =
    main_loop
    ∷ tim
    ∷ tim
    ∷ main_loop
    ∷ rx 1 false
    ∷ main_loop
    ∷ rx 3 false
    ∷ rx 0 true
    ∷ main_loop
    ∷ tim
    ∷ tx
    ∷ main_loop
    ∷ []

avr_main-ProgramSimulates_example :
    ProgramSimulates registers port_driver 16 3 1
      (modbus_rtu_init false false (configured 1 16 3))
      (events_of causes)
      (machine_run
        (program_handle registers port_driver)
        (avr_main registers port_driver 16 3 1 at_rest off_port)
        causes)
avr_main-ProgramSimulates_example =
    avr_main-ProgramSimulates registers port_driver 16 3 1 at_rest off_port causes (omega arith)
      (record { clock = refl; int_enabled = refl; int_pending = refl; cb = refl }) refl
      (omega arith)

modbus_rtu_impl-Stm8Simulates_example :
    Stm8Simulates registers port_driver echo ⊥
      (λ (n : ℕ). Unit {0})
      echo-Answers
      (modbus_rtu_init true false 5)
      (events_of causes)
      (machine_run
        (stm8_handle registers port_driver echo)
        (stm8_impl registers port_driver echo true false 5 at_rest off_port)
        causes)
modbus_rtu_impl-Stm8Simulates_example =
    modbus_rtu_impl-Stm8Simulates registers port_driver echo ⊥ (λ (n : ℕ). Unit {0}) echo-Answers
      true false 5 at_rest off_port causes tt
      (record { clock = refl; int_enabled = refl; int_pending = refl; cb = refl }) refl
      (omega arith)

modbus_rtu_impl-Stm32Simulates_example :
    Stm32Simulates registers usart_driver echo ⊥
      (λ (n : ℕ). Unit {0})
      echo-Answers
      (modbus_rtu_init true false 5)
      (events_of causes)
      (stm32_impl registers usart_driver echo true false 5 stm32 off_usart >>= λ m.
        machine_run (stm32_handle registers usart_driver echo) m causes)
modbus_rtu_impl-Stm32Simulates_example =
    modbus_rtu_impl-Stm32Simulates registers usart_driver echo ⊥ (λ (n : ℕ). Unit {0}) echo-Answers
      true false 5 stm32 off_usart causes tt
      (record { clock = refl; int_enabled = refl; int_pending = refl; cb = refl }) refl refl refl
      (omega arith)

isr_tim2-Handled_example :
    Ends ⊥ (Handled registers running_1t5 expired) (isr_tim2 registers expired)
isr_tim2-Handled_example =
    isr_tim2-Handled registers running_1t5 expired
      (record { top = refl; clock = refl; int_enabled = refl; cb = refl }, refl, refl)
