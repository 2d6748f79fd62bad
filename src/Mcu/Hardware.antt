-- ===== src/Mcu/Hardware.antt =====
-- A microcontroller as the core drives it: a timer and a serial port.
use modbus_c.Prelude.{
  ℕ, ◌≡◌, ◌≢◌, refl, subst, Option, none, some, List, [], ◌∷◌, ◌++◌, Exec, done, ◌>>=◌, Ends,
  Ends-bind,
}
use modbus_c.Rtu.{Action, start_1t5, start_3t5, stop, reset, suspend, resume, send}
use modbus_c.Rtu.Timer.{Timer, timer_call, timer_after}
use modbus_c.Rtu.Receive.{frames_sent}
use modbus_c.Rtu.Port.{TimerPort, play}

pub record Hardware (T P : Type 0) : Type 0 where
  pub timer : T
  pub port : P

-- A serial port of an adapter. `Shows frames p` says that it was given the frames to send, the last
-- first, and is ready for the next one.
pub record SerialPort (P : Type 0) : Type 1 where
  pub serial_send : List ℕ → P → P
  pub Shows : List (List ℕ) → P → Type 0
  pub keeps :
      (bytes : List ℕ) (frames : List (List ℕ)) (p : P)
      → Shows frames p
      → Shows (bytes ∷ frames) (serial_send bytes p)

module _ {T P : Type 0} (t : TimerPort T) (s : SerialPort P) where
  -- one of the functions that the core was given
  unfoldable pub hardware_call : Action → Hardware T P → Exec (Hardware T P)
  hardware_call (send bytes) hw = done (record hw { port = s.serial_send bytes hw.port })
  hardware_call start_1t5 hw = do
    timer ← t.call start_1t5 hw.timer
    done (record hw { timer = timer })
  hardware_call start_3t5 hw = do
    timer ← t.call start_3t5 hw.timer
    done (record hw { timer = timer })
  hardware_call stop hw = do timer ← t.call stop hw.timer; done (record hw { timer = timer })
  hardware_call reset hw = do timer ← t.call reset hw.timer; done (record hw { timer = timer })
  hardware_call suspend hw = done hw
  hardware_call resume hw = done hw

  -- the hardware is as the core counts on behind the calls that it has made
  pub record HardwareShows (log : List Action) (hw : Hardware T P) : Type 0 where
    pub timer : t.Shows (timer_after log) hw.timer
    pub port : s.Shows (frames_sent log) hw.port

  timer-HardwareShows :
      (x : Action) (log : List Action) (u v : Timer) (hw : Hardware T P)
      → timer_after log ≡ some u
      → timer_call x u ≡ some v
      → frames_sent (x ∷ log) ≡ frames_sent log
      → HardwareShows log hw
      → Ends ⊥
          (HardwareShows (x ∷ log))
          (do timer ← t.call x hw.timer; done (record hw { timer = timer }))
  unfolding timer_after
  timer-HardwareShows x log u v hw e c f h =
      Ends-bind ⊥ (t.Shows (some v)) (HardwareShows (x ∷ log)) (t.call x hw.timer) _
        (t.keeps x u v hw.timer c (subst (λ o. t.Shows o hw.timer) e h.timer))
        λ timer shows. record { timer = rw (e, c) shows; port = rw f h.port }

  call-HardwareShows :
      (x : Action) (log : List Action) (u v : Timer) (hw : Hardware T P)
      → timer_after log ≡ some u
      → timer_call x u ≡ some v
      → HardwareShows log hw
      → Ends ⊥ (HardwareShows (x ∷ log)) (hardware_call x hw)
  unfolding hardware_call frames_sent timer_after timer_call
  call-HardwareShows (send bytes) log u v hw e c h = record {
    timer = rw e (subst (λ o. t.Shows o hw.timer) e h.timer);
    port = s.keeps bytes (frames_sent log) hw.port h.port;
  }
  call-HardwareShows suspend log u v hw e c h = record {
    timer = rw e (subst (λ o. t.Shows o hw.timer) e h.timer);
    port = h.port;
  }
  call-HardwareShows resume log u v hw e c h = record {
    timer = rw e (subst (λ o. t.Shows o hw.timer) e h.timer);
    port = h.port;
  }
  call-HardwareShows start_1t5 log u v hw e c h =
      timer-HardwareShows start_1t5 log u v hw e c refl h
  call-HardwareShows start_3t5 log u v hw e c h =
      timer-HardwareShows start_3t5 log u v hw e c refl h
  call-HardwareShows stop log u v hw e c h = timer-HardwareShows stop log u v hw e c refl h
  call-HardwareShows reset log u v hw e c h = timer-HardwareShows reset log u v hw e c refl h

  one_more :
      (x : Action) (log : List Action) (o : Option Timer) (m : Exec (Hardware T P))
      → timer_after log ≡ o
      → Ends ⊥ (HardwareShows log) m
      → timer_after (x ∷ log) ≢ none
      → Ends ⊥ (HardwareShows (x ∷ log)) (m >>= hardware_call x)
  unfolding timer_after
  one_more x log none m e h n = absurd (n (rw e refl))
  one_more x log (some u) m e h n =
      Ends-bind ⊥ (HardwareShows log) (HardwareShows (x ∷ log)) m _ h
        λ hw shows. with_timer (timer_call x u) refl hw shows
    where
      with_timer :
          (o : Option Timer)
          → timer_call x u ≡ o
          → (hw : Hardware T P) → HardwareShows log hw
          → Ends ⊥ (HardwareShows (x ∷ log)) (hardware_call x hw)
      with_timer none c hw shows = absurd (n (rw e c))
      with_timer (some v) c hw shows = call-HardwareShows x log u v hw e c shows

  -- Calls that the core may make meet no failed assertion.
  pub play-HardwareShows :
      (new old : List Action) (hw : Hardware T P)
      → HardwareShows old hw
      → timer_after (new ++ old) ≢ none
      → Ends ⊥ (HardwareShows (new ++ old)) (play hardware_call new hw)
  unfolding play timer_after
  play-HardwareShows [] old hw h n = h
  play-HardwareShows (x ∷ new) old hw h n =
      one_more x (new ++ old) (timer_after (new ++ old)) (play hardware_call new hw) refl
        (play-HardwareShows new old hw h λ e. n (rw e refl)) n
