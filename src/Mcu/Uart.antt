-- ===== src/Mcu/Uart.antt =====
-- The drivers of the microcontrollers' serial ports, and the loop of the adapters that empties one.
--
-- The drivers are not part of the repository. They are the argument `UartDriver`, with what each
-- macro and function does to the configuration of the port, its queue and what it was given to send.
use modbus_c.Prelude.{
  ℕ, zero, suc, ◌≤◌, ◌<◌, ◌≡◌, Bool, true, false, List, ◌∷◌, Exec, done, stuck, Ends, if◌then◌else◌,
  arith,
}

-- `receiving` says whether bytes are passed on, and `sent` has the buffers given to the port, the
-- last first.
pub record PortRegs : Type 0 where
  pub rate : ℕ
  pub enabled : Bool
  pub parity_even : Bool
  pub parity_on : Bool
  pub rx_on : Bool
  pub tx_on : Bool
  pub receiving : Bool
  pub sent : List (List ℕ)

pub record UartDriver (P : Type 0) : Type 0 where
  pub regs : P → PortRegs
  pub br : ℕ → P → P
  pub enable : P → P
  pub parity_even : P → P
  pub parity_enable : P → P
  pub rx_enable : P → P
  pub tx_enable : P → P
  pub async_recv : P → P
  pub async_send : List ℕ → P → P
  pub rx_ready : P → Bool
  pub rd : P → P
  pub queued : P → ℕ
  pub regs-br : (n : ℕ) (p : P) → regs (br n p) ≡ record (regs p) { rate = n }
  pub regs-enable : (p : P) → regs (enable p) ≡ record (regs p) { enabled = true }
  pub regs-parity_even : (p : P) → regs (parity_even p) ≡ record (regs p) { parity_even = true }
  pub regs-parity_enable : (p : P) → regs (parity_enable p) ≡ record (regs p) { parity_on = true }
  pub regs-rx_enable : (p : P) → regs (rx_enable p) ≡ record (regs p) { rx_on = true }
  pub regs-tx_enable : (p : P) → regs (tx_enable p) ≡ record (regs p) { tx_on = true }
  pub regs-async_recv : (p : P) → regs (async_recv p) ≡ record (regs p) { receiving = true }
  pub regs-async_send :
      (bytes : List ℕ) (p : P)
      → regs (async_send bytes p) ≡ record (regs p) { sent = bytes ∷ (regs p).sent }
  pub regs-rd : (p : P) → regs (rd p) ≡ regs p
  pub rx_ready-queued : (p : P) → rx_ready p ≡ true → 0 < queued p
  pub queued-rd : (p : P) → 0 < queued p → queued (rd p) < queued p

-- A port that is set up as the adapters' timers count on, and passes bytes on.
pub record IsOpen (r : PortRegs) : Type 0 where
  pub rate : r.rate ≡ 19200
  pub parity_even : r.parity_even ≡ true
  pub rx_on : r.rx_on ≡ true
  pub tx_on : r.tx_on ≡ true
  pub receiving : r.receiving ≡ true

module _ {P : Type 0} (d : UartDriver P) where
  -- `while (RX_READY()) (void)RD();`, at most `n` rounds
  unfoldable pub flush_rounds : ℕ → P → Exec P
  flush_rounds zero p = if d.rx_ready p then stuck else done p
  flush_rounds (suc n) p = elim (d.rx_ready p) [ true ↦ flush_rounds n (d.rd p) | false ↦ done p ]

  -- each round takes one byte out of the queue
  unfoldable pub flush : P → Exec P
  flush p = flush_rounds (d.queued p) p

  abbrev pub IsFlushed : P → P → Type 0
  IsFlushed p q = (d.rx_ready q ≡ false) × (d.regs q ≡ d.regs p)

  rounds-IsFlushed : (n : ℕ) (p : P) → d.queued p ≤ n → Ends ⊥ (IsFlushed p) (flush_rounds n p)
  unfolding flush_rounds
  rounds-IsFlushed zero p h = ground (arith, d.rx_ready-queued p)
  rounds-IsFlushed (suc n) p h =
      ground (arith, d.rx_ready-queued p, d.queued-rd p, d.regs-rd p, rounds-IsFlushed n (d.rd p))

  pub flush-IsFlushed : (p : P) → Ends ⊥ (IsFlushed p) (flush p)
  unfolding flush
  flush-IsFlushed p = rounds-IsFlushed (d.queued p) p (omega arith)
