-- ===== src/Mcu/Stm32/Serial.antt =====
-- stm32f103c8/rtu_impl.c: the port USART1 with its control blocks. The pins and clocks, which are
-- switched on besides, are left out.
use modbus_c.Prelude.{
  ℕ, ◌+◌, ◌<◌, length, set, length-set, load, ◌≡◌, refl, Bool, true, false, if◌then◌else◌, List, [],
  ◌∷◌, Exec, done, ◌>>=◌, arith,
}
use modbus_c.Mcu.Uart.{UartDriver, flush}
use modbus_c.Mcu.Hardware.{SerialPort}

-- `usart_rx_ctrl_t`, with places in `rxbuf_`, and the bit `errors.fopn` of its flags
pub record RxCtrl : Type 0 where
  pub begin : ℕ
  pub end : ℕ
  pub next : ℕ
  pub fopn : Bool

-- the port with `rx_ctrl_`, `rxbuf_`, and the range of `tx_ctrl_`
pub record Usart (P : Type 0) : Type 0 where
  pub usart1 : P
  pub rx_ctrl : RxCtrl
  pub rxbuf : List ℕ
  pub tx_ctrl : List ℕ

-- The driver: `usart_rx_isr`, with the byte that came and whether it has errors, stores it at `next`,
-- adds the errors to the flags, and calls `complete_cb` where `next` has come to `end`. It may
-- stop the reception, and leaves alone what was sent and how the port is set up.
pub record UsartDriver (P : Type 0) : Type 0 where
  pub uart : UartDriver P
  pub usart_rx_isr : ℕ → Bool → Usart P → Usart P
  pub receives :
      (byte : ℕ) (errors : Bool) (u : Usart P)
      → u.rx_ctrl.next < length u.rxbuf
      → let u' = usart_rx_isr byte errors u in
        (u'.rx_ctrl ≡ record (u.rx_ctrl) {
          next = u.rx_ctrl.next + 1;
          fopn = if errors then true else u.rx_ctrl.fopn;
        })
        × (u'.rxbuf ≡ set u.rxbuf u.rx_ctrl.next byte)
        × (uart.regs u'.usart1
            ≡ record (uart.regs u.usart1) { receiving = (uart.regs u'.usart1).receiving })

load-set : (buf : List ℕ) (b : ℕ) → length buf ≡ 1 → load (set buf 0 b) 0 ≡ done b
unfolding load
load-set [] b h = absurd (omega arith)
load-set (x ∷ xs) b h = refl

module _ {P : Type 0} (d : UsartDriver P) where
  unfoldable pub usart_init : P → P
  usart_init p =
      let p' = d.uart.parity_enable (d.uart.parity_even (d.uart.enable p)) in
      d.uart.rx_enable (d.uart.tx_enable (d.uart.br 19200 p'))

  unfoldable pub serial_send : List ℕ → Usart P → Usart P
  serial_send frame u =
      let u' = record u { tx_ctrl = frame } in
      record u' { usart1 = d.uart.async_send u'.tx_ctrl u'.usart1 }

  -- the reception of the next byte
  unfoldable pub rearm : Usart P → Usart P
  rearm u =
      let ctrl = record (u.rx_ctrl) { begin = 0 } in
      let ctrl' = record ctrl { next = ctrl.begin; fopn = false } in
      record u { rx_ctrl = ctrl'; usart1 = d.uart.async_recv u.usart1 }

  -- the port and its control block, as `modbus_rtu_impl` sets them
  unfoldable pub port_init : Usart P → Usart P
  unfolding usart_init
  port_init u =
      let ctrl = record (u.rx_ctrl) { begin = 0; end = 1 } in
      let ctrl' = record ctrl { next = ctrl.begin } in
      record u { usart1 = d.uart.async_recv (usart_init u.usart1); rx_ctrl = ctrl' }

  unfoldable pub flush_usart : Usart P → Exec (Usart P)
  flush_usart u = do usart1 ← flush d.uart u.usart1; done (record u { usart1 = usart1 })

  -- A port that is set up, with one byte of room for the reception.
  pub record UsartSet (frames : List (List ℕ)) (u : Usart P) : Type 0 where
    pub rate : (d.uart.regs u.usart1).rate ≡ 19200
    pub enabled : (d.uart.regs u.usart1).enabled ≡ true
    pub parity_even : (d.uart.regs u.usart1).parity_even ≡ true
    pub parity_on : (d.uart.regs u.usart1).parity_on ≡ true
    pub rx_on : (d.uart.regs u.usart1).rx_on ≡ true
    pub tx_on : (d.uart.regs u.usart1).tx_on ≡ true
    pub sent : (d.uart.regs u.usart1).sent ≡ frames
    pub begin : u.rx_ctrl.begin ≡ 0
    pub end : u.rx_ctrl.end ≡ 1
    pub rxbuf : length u.rxbuf ≡ 1

  -- It is ready for a byte, too.
  pub record UsartShows (frames : List (List ℕ)) (u : Usart P) : Type 0 where
    pub is_set : UsartSet frames u
    pub receiving : (d.uart.regs u.usart1).receiving ≡ true
    pub next : u.rx_ctrl.next ≡ 0
    pub fopn : u.rx_ctrl.fopn ≡ false

  pub send-UsartSet :
      (bytes : List ℕ) (frames : List (List ℕ)) (u : Usart P)
      → UsartSet frames u
      → UsartSet (bytes ∷ frames) (serial_send bytes u)
  unfolding serial_send
  send-UsartSet bytes frames u h = ground (arith, h, d.uart.regs-async_send bytes u.usart1)

  pub send-UsartShows :
      (bytes : List ℕ) (frames : List (List ℕ)) (u : Usart P)
      → UsartShows frames u
      → UsartShows (bytes ∷ frames) (serial_send bytes u)
  unfolding serial_send
  send-UsartShows bytes frames u h = record {
    is_set = send-UsartSet bytes frames u h.is_set;
    receiving = rw (d.uart.regs-async_send bytes u.usart1) h.receiving;
    next = h.next;
    fopn = h.fopn;
  }

  pub rearm-UsartShows :
      (frames : List (List ℕ)) (u : Usart P) → UsartSet frames u → UsartShows frames (rearm u)
  unfolding rearm
  rearm-UsartShows frames u h = ground (arith, h, d.uart.regs-async_recv u.usart1)

  -- what the interrupt leaves for `rx_complete`
  pub isr-UsartSet :
      (byte : ℕ) (errors : Bool) (frames : List (List ℕ)) (u : Usart P)
      → UsartShows frames u
      → let u' = d.usart_rx_isr byte errors u in
        UsartSet frames u' × (u'.rx_ctrl.fopn ≡ errors) × (u'.rxbuf ≡ set u.rxbuf 0 byte)
  isr-UsartSet byte errors frames u h =
      ground (arith, h, h.is_set, length-set u.rxbuf u.rx_ctrl.next byte, d.receives byte errors u)

  init-regs :
      (p : P)
      → d.uart.regs (d.uart.async_recv (usart_init p)) ≡ record (d.uart.regs p) {
        rate = 19200;
        enabled = true;
        parity_even = true;
        parity_on = true;
        rx_on = true;
        tx_on = true;
        receiving = true;
      }
  unfolding usart_init
  init-regs p = simp (
    d.uart.regs-async_recv, d.uart.regs-rx_enable, d.uart.regs-tx_enable, d.uart.regs-br,
    d.uart.regs-parity_enable, d.uart.regs-parity_even, d.uart.regs-enable,
  )

  pub port_init-UsartShows :
      (u : Usart P)
      → (d.uart.regs u.usart1).sent ≡ []
      → length u.rxbuf ≡ 1
      → u.rx_ctrl.fopn ≡ false
      → UsartShows [] (port_init u)
  unfolding port_init
  port_init-UsartShows u e l f = ground (arith, init-regs u.usart1)

  -- `*ctrl->begin`
  pub isr-load :
      (byte : ℕ) (errors : Bool) (frames : List (List ℕ)) (u : Usart P)
      → UsartShows frames u
      → let u' = d.usart_rx_isr byte errors u in load u'.rxbuf u'.rx_ctrl.begin ≡ done byte
  isr-load byte errors frames u h =
      let isr = isr-UsartSet byte errors frames u h in
      rw (isr.2, isr.0.begin) (load-set u.rxbuf byte h.is_set.rxbuf)

  abbrev pub stm32_port : SerialPort (Usart P)
  stm32_port = record { serial_send = serial_send; Shows = UsartShows; keeps = send-UsartShows }

  -- the same port while a byte is handled
  abbrev pub handling_port : SerialPort (Usart P)
  handling_port = record { serial_send = serial_send; Shows = UsartSet; keeps = send-UsartSet }
