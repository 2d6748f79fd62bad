-- ===== src/Mcu.antt =====
-- The adapters for microcontrollers: atmega328p/rtu_impl.c, stm8s003f3/rtu_impl.c and
-- stm32f103c8/rtu_impl.c.
--
-- The drivers, whose macros write the registers, are not part of the repository. They are the
-- argument `TimerDriver`, with what each macro does to the registers that it names.
pub mod Uart
pub mod Hardware
pub mod Machine
pub mod Serial
pub mod Avr
pub mod Stm8
pub mod Stm32
pub mod Tests
use modbus_c.Prelude.{ℕ, ◌≡◌, ◌<◌, Bool, true, false, Option, none, some}
use modbus_c.Rtu.Timer.{Timer, stopped, running_1t5, running_3t5}

-- The registers of a timer: `clock` is its clock select, 0 where it stands, `has_cb` says whether its
-- interrupt calls back, and the last three are its mode.
pub record TimerRegs : Type 0 where
  pub top : ℕ
  pub cntr : ℕ
  pub int_enabled : Bool
  pub int_pending : Bool
  pub clock : ℕ
  pub has_cb : Bool
  pub ctc : Bool
  pub preload : Bool
  pub divider : ℕ

-- A driver; `clock_on` is the clock select that lets the timer run.
pub record TimerDriver (H : Type 0) : Type 0 where
  pub regs : H → TimerRegs
  pub set_cb : Bool → H → H
  pub wr_top : ℕ → H → H
  pub wr_cntr : ℕ → H → H
  pub int_enable : H → H
  pub int_disable : H → H
  pub int_clear : H → H
  pub clock_on : ℕ
  pub clock_wr : ℕ → H → H
  pub mode_ctc : H → H
  pub preload_enable : H → H
  pub clk_div : ℕ → H → H
  pub clock_runs : 0 < clock_on
  pub regs-set_cb : (b : Bool) (h : H) → regs (set_cb b h) ≡ record (regs h) { has_cb = b }
  pub regs-wr_top : (n : ℕ) (h : H) → regs (wr_top n h) ≡ record (regs h) { top = n }
  pub regs-wr_cntr : (n : ℕ) (h : H) → regs (wr_cntr n h) ≡ record (regs h) { cntr = n }
  pub regs-int_enable : (h : H) → regs (int_enable h) ≡ record (regs h) { int_enabled = true }
  pub regs-int_disable : (h : H) → regs (int_disable h) ≡ record (regs h) { int_enabled = false }
  pub regs-int_clear : (h : H) → regs (int_clear h) ≡ record (regs h) { int_pending = false }
  pub regs-clock_wr : (n : ℕ) (h : H) → regs (clock_wr n h) ≡ record (regs h) { clock = n }
  pub regs-mode_ctc : (h : H) → regs (mode_ctc h) ≡ record (regs h) { ctc = true }
  pub regs-preload_enable : (h : H) → regs (preload_enable h) ≡ record (regs h) { preload = true }
  pub regs-clk_div : (n : ℕ) (h : H) → regs (clk_div n h) ≡ record (regs h) { divider = n }

-- A timer that runs: to its target, on the clock, and with its interrupt on.
pub record Runs (target on : ℕ) (called : Bool) (r : TimerRegs) : Type 0 where
  pub top : r.top ≡ target
  pub clock : r.clock ≡ on
  pub int_enabled : r.int_enabled ≡ true
  pub cb : called ≡ true

-- A timer that stands: no interrupt comes of it.
pub record Stands (called : Bool) (r : TimerRegs) : Type 0 where
  pub clock : r.clock ≡ 0
  pub int_enabled : r.int_enabled ≡ false
  pub int_pending : r.int_pending ≡ false
  pub cb : called ≡ false

abbrev pub ShowsRegs : ℕ → ℕ → ℕ → Option Timer → Bool → TimerRegs → Type 0
ShowsRegs top_1t5 top_3t5 on none cb r = ⊥
ShowsRegs top_1t5 top_3t5 on (some stopped) cb r = Stands cb r
ShowsRegs top_1t5 top_3t5 on (some running_1t5) cb r = Runs top_1t5 on cb r
ShowsRegs top_1t5 top_3t5 on (some running_3t5) cb r = Runs top_3t5 on cb r
