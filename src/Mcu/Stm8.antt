-- ===== src/Mcu/Stm8.antt =====
-- stm8s003f3/rtu_impl.c: the timer TIM4, which an enable bit starts and stops.
pub mod Serial
use modbus_c.Prelude.{◌≡◌, refl, true, false, Option, some, Exec, done, Ends, arith}
use modbus_c.Rtu.{Action, start_1t5, start_3t5, stop, reset}
use modbus_c.Rtu.Timer.{Timer, stopped, timer_call}
use modbus_c.Rtu.Port.{TimerPort}
use modbus_c.Mcu.{TimerDriver, Stands, ShowsRegs}

module _ {H : Type 0} (d : TimerDriver H) where
  unfoldable pub tim_init : H → H
  tim_init h = d.clk_div 128 (d.preload_enable h)

  unfoldable pub tim_start_1t5 : H → H
  tim_start_1t5 h =
      let h' = d.wr_cntr 0 (d.wr_top 47 (d.set_cb true h)) in
      d.clock_wr d.clock_on (d.int_clear (d.int_enable h'))

  unfoldable pub tim_start_3t5 : H → H
  tim_start_3t5 h =
      let h' = d.wr_cntr 0 (d.wr_top 110 (d.set_cb true h)) in
      d.clock_wr d.clock_on (d.int_clear (d.int_enable h'))

  unfoldable pub tim_stop : H → H
  tim_stop h = d.set_cb false (d.int_clear (d.int_disable (d.clock_wr 0 h)))

  unfoldable pub tim_reset : H → H
  tim_reset h = d.clock_wr d.clock_on (d.int_clear (d.wr_cntr 0 (d.clock_wr 0 h)))

  -- the functions that `modbus_rtu_impl` gives the core
  unfoldable pub tim_call : Action → H → Exec H
  unfolding tim_start_1t5 tim_start_3t5 tim_stop tim_reset
  tim_call start_1t5 h = done (tim_start_1t5 h)
  tim_call start_3t5 h = done (tim_start_3t5 h)
  tim_call stop h = done (tim_stop h)
  tim_call reset h = done (tim_reset h)
  tim_call _ h = done h

  abbrev pub TimShows : Option Timer → H → Type 0
  TimShows o h =
      ShowsRegs 47 110 d.clock_on o (d.regs h).has_cb (d.regs h)
      × ((d.regs h).preload ≡ true)
      × ((d.regs h).divider ≡ 128)

  start_1t5-regs :
      (h : H)
      → d.regs (tim_start_1t5 h) ≡ record (d.regs h) {
        top = 47;
        cntr = 0;
        int_enabled = true;
        int_pending = false;
        clock = d.clock_on;
        has_cb = true;
      }
  unfolding tim_start_1t5
  start_1t5-regs h = simp (
    d.regs-clock_wr, d.regs-int_clear, d.regs-int_enable, d.regs-wr_cntr, d.regs-wr_top,
    d.regs-set_cb,
  )

  start_3t5-regs :
      (h : H)
      → d.regs (tim_start_3t5 h) ≡ record (d.regs h) {
        top = 110;
        cntr = 0;
        int_enabled = true;
        int_pending = false;
        clock = d.clock_on;
        has_cb = true;
      }
  unfolding tim_start_3t5
  start_3t5-regs h = simp (
    d.regs-clock_wr, d.regs-int_clear, d.regs-int_enable, d.regs-wr_cntr, d.regs-wr_top,
    d.regs-set_cb,
  )

  stop-regs :
      (h : H)
      → d.regs (tim_stop h)
        ≡ record (d.regs h) { int_enabled = false; int_pending = false; clock = 0; has_cb = false }
  unfolding tim_stop
  stop-regs h = simp (d.regs-clock_wr, d.regs-int_disable, d.regs-int_clear, d.regs-set_cb)

  reset-regs :
      (h : H)
      → d.regs (tim_reset h)
        ≡ record (d.regs h) { cntr = 0; int_pending = false; clock = d.clock_on }
  unfolding tim_reset
  reset-regs h = simp (d.regs-clock_wr, d.regs-wr_cntr, d.regs-int_clear)

  pub call-TimShows :
      (x : Action) (u v : Timer) (h : H)
      → timer_call x u ≡ some v
      → TimShows (some u) h
      → Ends ⊥ (TimShows (some v)) (tim_call x h)
  unfolding tim_call timer_call
  call-TimShows x u v h e s =
      ground (arith, start_1t5-regs h, start_3t5-regs h, stop-regs h, reset-regs h)

  init-regs : (h : H) → d.regs (tim_init h) ≡ record (d.regs h) { preload = true; divider = 128 }
  unfolding tim_init
  init-regs h = simp (d.regs-clk_div, d.regs-preload_enable)

  pub int_clear-TimShows : (o : Option Timer) (h : H) → TimShows o h → TimShows o (d.int_clear h)
  int_clear-TimShows o h s = ground (arith, d.regs-int_clear h)

  pub tim_init-TimShows :
      (h : H) → Stands (d.regs h).has_cb (d.regs h) → TimShows (some stopped) (tim_init h)
  tim_init-TimShows h s = rw (init-regs h) (
    record { clock = s.clock; int_enabled = s.int_enabled; int_pending = s.int_pending; cb = s.cb },
    refl,
    refl,
  )

  abbrev pub stm8_timer : TimerPort H
  stm8_timer = record {
    call = tim_call;
    Shows = TimShows;
    shows_some = λ h s. s.0;
    keeps = call-TimShows;
  }
