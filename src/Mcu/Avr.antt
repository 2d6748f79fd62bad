-- ===== src/Mcu/Avr.antt =====
-- atmega328p/rtu_impl.c: the timer TMR0, whose clock select starts and stops it.
pub mod Serial
pub mod Program
use modbus_c.Prelude.{◌≡◌, refl, true, false, Option, some, Exec, done, Ends, arith}
use modbus_c.Rtu.{Action, start_1t5, start_3t5, stop, reset}
use modbus_c.Rtu.Timer.{Timer, stopped, timer_call}
use modbus_c.Rtu.Port.{TimerPort}
use modbus_c.Mcu.{TimerDriver, Stands, ShowsRegs}

module _ {H : Type 0} (d : TimerDriver H) where
  unfoldable pub tmr_init : H → H
  tmr_init h = d.mode_ctc h

  unfoldable pub tmr_start_1t5 : H → H
  tmr_start_1t5 h =
      d.clock_wr d.clock_on (d.int_enable (d.wr_cntr 0 (d.wr_top 47 (d.set_cb true h))))

  unfoldable pub tmr_start_3t5 : H → H
  tmr_start_3t5 h =
      d.clock_wr d.clock_on (d.int_enable (d.wr_cntr 0 (d.wr_top 110 (d.set_cb true h))))

  unfoldable pub tmr_stop : H → H
  tmr_stop h = d.set_cb false (d.int_clear (d.int_disable (d.clock_wr 0 h)))

  unfoldable pub tmr_reset : H → H
  tmr_reset h =
      let value = (d.regs h).clock in d.clock_wr value (d.int_clear (d.wr_cntr 0 (d.clock_wr 0 h)))

  -- the functions that `modbus_rtu_impl` gives the core
  unfoldable pub tmr_call : Action → H → Exec H
  unfolding tmr_start_1t5 tmr_start_3t5 tmr_stop tmr_reset
  tmr_call start_1t5 h = done (tmr_start_1t5 h)
  tmr_call start_3t5 h = done (tmr_start_3t5 h)
  tmr_call stop h = done (tmr_stop h)
  tmr_call reset h = done (tmr_reset h)
  tmr_call _ h = done h

  abbrev pub TmrShows : Option Timer → H → Type 0
  TmrShows o h =
      ShowsRegs 47 110 d.clock_on o (d.regs h).has_cb (d.regs h) × ((d.regs h).ctc ≡ true)

  start_1t5-regs :
      (h : H)
      → d.regs (tmr_start_1t5 h) ≡ record (d.regs h) {
        top = 47;
        cntr = 0;
        int_enabled = true;
        clock = d.clock_on;
        has_cb = true;
      }
  unfolding tmr_start_1t5
  start_1t5-regs h =
      simp (d.regs-clock_wr, d.regs-int_enable, d.regs-wr_cntr, d.regs-wr_top, d.regs-set_cb)

  start_3t5-regs :
      (h : H)
      → d.regs (tmr_start_3t5 h) ≡ record (d.regs h) {
        top = 110;
        cntr = 0;
        int_enabled = true;
        clock = d.clock_on;
        has_cb = true;
      }
  unfolding tmr_start_3t5
  start_3t5-regs h =
      simp (d.regs-clock_wr, d.regs-int_enable, d.regs-wr_cntr, d.regs-wr_top, d.regs-set_cb)

  stop-regs :
      (h : H)
      → d.regs (tmr_stop h)
        ≡ record (d.regs h) { int_enabled = false; int_pending = false; clock = 0; has_cb = false }
  unfolding tmr_stop
  stop-regs h = simp (d.regs-clock_wr, d.regs-int_disable, d.regs-int_clear, d.regs-set_cb)

  reset-regs : (h : H) → d.regs (tmr_reset h) ≡ record (d.regs h) { cntr = 0; int_pending = false }
  unfolding tmr_reset
  reset-regs h = simp (d.regs-clock_wr, d.regs-wr_cntr, d.regs-int_clear)

  pub call-TmrShows :
      (x : Action) (u v : Timer) (h : H)
      → timer_call x u ≡ some v
      → TmrShows (some u) h
      → Ends ⊥ (TmrShows (some v)) (tmr_call x h)
  unfolding tmr_call timer_call
  call-TmrShows x u v h e s =
      ground (arith, start_1t5-regs h, start_3t5-regs h, stop-regs h, reset-regs h)

  pub tmr_init-TmrShows :
      (h : H) → Stands (d.regs h).has_cb (d.regs h) → TmrShows (some stopped) (tmr_init h)
  unfolding tmr_init
  tmr_init-TmrShows h s = rw (d.regs-mode_ctc h) (
    record { clock = s.clock; int_enabled = s.int_enabled; int_pending = s.int_pending; cb = s.cb },
    refl,
  )

  abbrev pub avr_timer : TimerPort H
  avr_timer = record {
    call = tmr_call;
    Shows = TmrShows;
    shows_some = λ h s. s.0;
    keeps = call-TmrShows;
  }
