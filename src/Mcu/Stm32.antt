-- ===== src/Mcu/Stm32.antt =====
-- stm32f103c8/rtu_impl.c: the timer TIM2, which an enable bit starts and stops, and the pointer
-- `state_`, which is set while it runs; a failed ASSERT is a `fault`.
pub mod Serial
pub mod Handlers
pub mod Interrupts
use modbus_c.Prelude.{
  ℕ, ◌+◌, ◌%◌, ◌^◌, ◌==◌, ◌≡◌, ◌≢◌, ◌↔◌, if◌then◌else◌, fault, Bool, true, false, Option, some,
  Exec, done, Ends, arith,
}
use modbus_c.Rtu.{Action, start_1t5, start_3t5, stop, reset}
use modbus_c.Rtu.Timer.{Timer, stopped, timer_call}
use modbus_c.Rtu.Port.{TimerPort}
use modbus_c.Mcu.{TimerDriver, Stands, ShowsRegs}

-- the timer, whether `state_` is set, and `tim2spurious_`
pub record Stm32 (H : Type 0) : Type 0 where
  pub tim2 : H
  pub has_state : Bool
  pub tim2spurious : ℕ

module _ {H : Type 0} (d : TimerDriver H) where
  -- The clock of TIM2 and the line of its interrupt are switched on besides.
  unfoldable pub tim_init : Stm32 H → Exec (Stm32 H)
  tim_init m =
      if m.has_state
      then fault
      else done (record m { tim2 = d.clk_div 359 (d.preload_enable m.tim2) })

  abbrev started : ℕ → H → H
  started target h =
      let h' = d.wr_cntr 0 (d.wr_top target h) in
      d.clock_wr d.clock_on (d.int_clear (d.int_enable h'))

  unfoldable pub tim_start_1t5 : Stm32 H → Exec (Stm32 H)
  tim_start_1t5 m =
      if m.has_state then fault else done (record m { tim2 = started 75 m.tim2; has_state = true })

  unfoldable pub tim_start_3t5 : Stm32 H → Exec (Stm32 H)
  tim_start_3t5 m =
      if m.has_state then fault else done (record m { tim2 = started 175 m.tim2; has_state = true })

  unfoldable pub tim_stop : Stm32 H → Stm32 H
  tim_stop m = record m {
    tim2 = d.int_clear (d.int_disable (d.clock_wr 0 m.tim2));
    has_state = false;
  }

  unfoldable pub tim_reset : Stm32 H → Stm32 H
  tim_reset m = record m {
    tim2 = d.clock_wr d.clock_on (d.int_clear (d.wr_cntr 0 (d.clock_wr 0 m.tim2)));
  }

  -- the interrupt of the timer, with whether it calls `timer_cb`
  unfoldable pub isr_tim2 : Stm32 H → Exec (Stm32 H × Bool)
  isr_tim2 m =
      let m' = record m { tim2 = d.int_clear m.tim2 } in
      if (d.regs m'.tim2).clock == 0
      then done (record m' { tim2spurious = (m'.tim2spurious + 1) % 2 ^ 32 }, false)
      else if m'.has_state
      then done (m', true)
      else fault

  -- the functions that `modbus_rtu_impl` gives the core
  unfoldable pub tim_call : Action → Stm32 H → Exec (Stm32 H)
  unfolding tim_start_1t5 tim_start_3t5 tim_stop tim_reset
  tim_call start_1t5 m = tim_start_1t5 m
  tim_call start_3t5 m = tim_start_3t5 m
  tim_call stop m = done (tim_stop m)
  tim_call reset m = done (tim_reset m)
  tim_call _ m = done m

  abbrev pub Stm32Shows : Option Timer → Stm32 H → Type 0
  Stm32Shows o m =
      ShowsRegs 75 175 d.clock_on o m.has_state (d.regs m.tim2)
      × ((d.regs m.tim2).preload ≡ true)
      × ((d.regs m.tim2).divider ≡ 359)

  started-regs :
      (target : ℕ) (h : H)
      → d.regs (started target h) ≡ record (d.regs h) {
        top = target;
        cntr = 0;
        int_enabled = true;
        int_pending = false;
        clock = d.clock_on;
      }
  started-regs target h =
      simp (d.regs-clock_wr, d.regs-int_clear, d.regs-int_enable, d.regs-wr_cntr, d.regs-wr_top)

  stop-regs :
      (m : Stm32 H)
      → d.regs (tim_stop m).tim2
        ≡ record (d.regs m.tim2) { int_enabled = false; int_pending = false; clock = 0 }
  unfolding tim_stop
  stop-regs m = simp (d.regs-clock_wr, d.regs-int_disable, d.regs-int_clear)

  reset-regs :
      (m : Stm32 H)
      → d.regs (tim_reset m).tim2
        ≡ record (d.regs m.tim2) { cntr = 0; int_pending = false; clock = d.clock_on }
  unfolding tim_reset
  reset-regs m = simp (d.regs-clock_wr, d.regs-wr_cntr, d.regs-int_clear)

  pub call-Stm32Shows :
      (x : Action) (u v : Timer) (m : Stm32 H)
      → timer_call x u ≡ some v
      → Stm32Shows (some u) m
      → Ends ⊥ (Stm32Shows (some v)) (tim_call x m)
  unfolding tim_call timer_call tim_start_1t5 tim_start_3t5 tim_stop tim_reset
  call-Stm32Shows x u v m e s =
      ground (arith, started-regs 75 m.tim2, started-regs 175 m.tim2, stop-regs m, reset-regs m)

  init-regs :
      (h : H)
      → d.regs (d.clk_div 359 (d.preload_enable h))
        ≡ record (d.regs h) { preload = true; divider = 359 }
  init-regs h = simp (d.regs-clk_div, d.regs-preload_enable)

  pub tim_init-Stm32Shows :
      (m : Stm32 H)
      → Stands m.has_state (d.regs m.tim2)
      → Ends ⊥ (Stm32Shows (some stopped)) (tim_init m)
  unfolding tim_init
  tim_init-Stm32Shows m s = ground (arith, s, init-regs m.tim2)

  abbrev pub stm32_timer : TimerPort (Stm32 H)
  stm32_timer = record {
    call = tim_call;
    Shows = Stm32Shows;
    shows_some = λ m s. s.0;
    keeps = call-Stm32Shows;
  }

  -- what the interrupt does on a timer in the state `u`
  abbrev pub Handled : Timer → Stm32 H → Stm32 H × Bool → Type 0
  Handled u m out =
      Stm32Shows (some u) out.0
      × ((out.1 ≡ true) ↔ (u ≢ stopped))
      × (out.0.tim2spurious ≡ (if out.1 then m.tim2spurious else (m.tim2spurious + 1) % 2 ^ 32))

  -- The interrupt of the STM32's timer, on a timer that is in a state that the core counts on: no
  -- ASSERT fails, the timer stays in that state, `timer_cb` is called exactly where the timer runs,
  -- and otherwise the interrupt is counted as spurious, modulo 2 ^ 32.
  pub isr_tim2-Handled :
      (u : Timer) (m : Stm32 H) → Stm32Shows (some u) m → Ends ⊥ (Handled u m) (isr_tim2 m)
  unfolding isr_tim2
  isr_tim2-Handled u m s = ground (arith, d.regs-int_clear m.tim2, d.clock_runs)
