-- ===== src/Mcu/Serial.antt =====
-- What the serial ports of the microcontrollers have in common.
use modbus_c.Prelude.{
  [], ℕ, ◌≡◌, ◌≢◌, refl, ap, not, if◌then◌else◌, Option, none, some, List, ◌∷◌, Exec, done, fault,
  stuck, ◌>>=◌, Ends, IsByte,
}
use modbus_c.Rtu.{PduCb, serial_recv_err_cb}
use modbus_c.Rtu.Timer.{Timer, stopped, running_1t5, running_3t5, timer_after}
use modbus_c.Rtu.Schedule.{receive_fails, expires}
use modbus_c.Rtu.Process.{Answers}
use modbus_c.Rtu.Port.{TimerPort}
use modbus_c.RtuImpl.{cleared}
use modbus_c.Mcu.{TimerRegs, ShowsRegs}
use modbus_c.Mcu.Uart.{UartDriver, IsOpen, flush, IsFlushed, flush-IsFlushed}
use modbus_c.Mcu.Hardware.{SerialPort}
use modbus_c.Mcu.Machine.{Machine, with_port, settle}
use modbus_c.Mcu.Machine.Interrupts.{Fits, Simulates, stays, recv_err-Simulates}

module _ {P : Type 0} (d : UartDriver P) where
  abbrev pub PortShows : List (List ℕ) → P → Type 0
  PortShows frames p = IsOpen (d.regs p) × ((d.regs p).sent ≡ frames)

  pub send-PortShows :
      (bytes : List ℕ) (frames : List (List ℕ)) (p : P)
      → PortShows frames p
      → PortShows (bytes ∷ frames) (d.async_send bytes p)
  send-PortShows bytes frames p h = rw (d.regs-async_send bytes p) (
    record {
      rate = h.0.rate;
      parity_even = h.0.parity_even;
      rx_on = h.0.rx_on;
      tx_on = h.0.tx_on;
      receiving = h.0.receiving;
    },
    ap (λ fs. bytes ∷ fs) h.1,
  )

  abbrev pub uart_port : SerialPort P
  uart_port = record { serial_send = d.async_send; Shows = PortShows; keeps = send-PortShows }

-- A broken byte, whose handler empties the port's queue: what this needs to keep of the port.
module _ {U T P : Type 0} (t : TimerPort T) (port : SerialPort P) (pdu_cb : PduCb U) (F : Type 0)
    (W : U → Type 0) (answers : Answers F W pdu_cb) where
  pub flushed-Simulates :
      (m : Machine U T P) (byte : ℕ) (x : Exec P)
      → IsByte byte
      → Fits t port pdu_cb F W answers m
      → Ends ⊥ (λ p. (frames : List (List ℕ)) → port.Shows frames m.hw.port → port.Shows frames p) x
      → Simulates t port pdu_cb F W answers m.core (receive_fails byte ∷ []) (do
        p ← x
        let m' = with_port p m
        settle t port m' (done (serial_recv_err_cb (cleared m'.core) byte)))
  flushed-Simulates m byte (done p) h v keeps =
      recv_err-Simulates t port pdu_cb F W answers (with_port p m) byte h
        (v.0, record { timer = v.1.timer; port = keeps _ v.1.port })
  flushed-Simulates m byte fault h v keeps = absurd keeps
  flushed-Simulates m byte stuck h v keeps = absurd keeps

-- The interrupt of a timer comes where it is on; its driver calls the callback that is set.
unfoldable pub interrupt :
    {U T P : Type 0} → TimerRegs → Machine U T P → Exec (Machine U T P) → Exec (Machine U T P)
interrupt r m called = if not r.int_enabled then done m else if r.has_cb then called else fault

module _ {U T P : Type 0} (t : TimerPort T) (port : SerialPort P) (pdu_cb : PduCb U) (F : Type 0)
    (W : U → Type 0) (answers : Answers F W pdu_cb) where
  -- It comes only where the core counts on a timer, and meets no null callback.
  pub interrupt-Simulates :
      (top_1t5 top_3t5 on : ℕ) (r : TimerRegs) (m : Machine U T P) (called : Exec (Machine U T P))
      → ShowsRegs top_1t5 top_3t5 on (timer_after m.core.actions) r.has_cb r
      → Fits t port pdu_cb F W answers m
      → ((u : Timer)
          → timer_after m.core.actions ≡ some u
          → u ≢ stopped
          → Simulates t port pdu_cb F W answers m.core (expires ∷ []) called)
      → Simulates t port pdu_cb F W answers m.core (expires ∷ []) (interrupt r m called)
  unfolding interrupt
  interrupt-Simulates top_1t5 top_3t5 on r m called s v k =
      by_timer (timer_after m.core.actions) refl s
    where
      by_timer :
          (o : Option Timer)
          → timer_after m.core.actions ≡ o
          → ShowsRegs top_1t5 top_3t5 on o r.has_cb r
          → Simulates t port pdu_cb F W answers m.core (expires ∷ []) (interrupt r m called)
      by_timer none e s = absurd s
      by_timer (some stopped) e s =
          rw (s.int_enabled, interrupt) (stays t port pdu_cb F W answers m m e refl v)
      by_timer (some running_1t5) e s =
          rw (s.int_enabled, s.cb, interrupt) (k running_1t5 e (λ c. cc))
      by_timer (some running_3t5) e s =
          rw (s.int_enabled, s.cb, interrupt) (k running_3t5 e (λ c. cc))

module _ {P : Type 0} (d : UartDriver P) where
  abbrev Keeps : P → P → Type 0
  Keeps p q = (frames : List (List ℕ)) → PortShows d frames p → PortShows d frames q

  -- the queue of a port is emptied
  pub flush-Keeps : (p : P) → Ends ⊥ (Keeps p) (flush d p)
  flush-Keeps p = keeps (flush d p) (flush-IsFlushed d p)
    where
      keeps : (x : Exec P) → Ends ⊥ (IsFlushed d p) x → Ends ⊥ (Keeps p) x
      keeps (done q) h = λ frames s. rw h.1 s
      keeps fault h = h
      keeps stuck h = h
