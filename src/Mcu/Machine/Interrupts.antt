-- ===== src/Mcu/Machine/Interrupts.antt =====
-- What an adapter's handlers do is what a schedule of the core does, in any order of interrupts.
use modbus_c.Prelude.{
  Bool, ℕ, false, true, ◌≡◌, ◌≢◌, refl, subst, ap, ◌∙◌, ℕ, some, List, [], ◌∷◌, ◌++◌, Exec, done,
  fault, stuck, ◌>>=◌, Ends, IsByte,
}
use modbus_c.Rtu.{
  State, PduCb, serial_recv_cb, serial_recv_err_cb, serial_sent_cb, modbus_rtu_event,
}
use modbus_c.Rtu.Timer.{Timer, stopped, running_1t5, running_3t5, timer_after}
use modbus_c.Rtu.Process.{Answers, Good}
use modbus_c.Rtu.Schedule.{
  Event, receives, receive_fails, expires, sent, polls, IsEvent, step, run, expire, call_timer_cb,
  step-Good,
}
use modbus_c.Rtu.Frames.{run-append}
use modbus_c.Rtu.Port.{TimerPort, play, timer_set}
use modbus_c.RtuImpl.{cleared}
use modbus_c.RtuImpl.Log.{
  with_log, then_log, serial_recv_cb-with_log, serial_recv_err_cb-with_log, serial_sent_cb-with_log,
  call_timer_cb-with_log, modbus_rtu_event-with_log,
}
use modbus_c.Mcu.Hardware.{Hardware, SerialPort, hardware_call, HardwareShows, play-HardwareShows}
use modbus_c.Mcu.Machine.{tim, tx, main_loop, Machine, Cause, rx, settle, machine_run}

abbrev pub IsCause : Cause → Type 0
IsCause (rx byte errors) = IsByte byte
IsCause _ = Unit

abbrev pub AreCauses : List Cause → Type 0
AreCauses [] = Unit {0}
AreCauses (c ∷ cs) = IsCause c × AreCauses cs

abbrev pub byte_event : ℕ → Bool → Event
byte_event byte false = receives byte
byte_event byte true = receive_fails byte

-- what each of them is for the core
abbrev pub event_of : Cause → Event
event_of (rx byte errors) = byte_event byte errors
event_of tim = expires
event_of tx = sent
event_of main_loop = polls

abbrev pub events_of : List Cause → List Event
events_of [] = []
events_of (c ∷ cs) = event_of c ∷ events_of cs

module _ {U T P : Type 0} (t : TimerPort T) (port : SerialPort P) (pdu_cb : PduCb U) (F : Type 0)
    (W : U → Type 0) (answers : Answers F W pdu_cb) where
  -- the core keeps its invariant, and the hardware is as the core counts on
  abbrev pub Fits : Machine U T P → Type 0
  Fits m = Good F W pdu_cb m.core × HardwareShows t port m.core.actions m.hw

  -- A run ends so, in the core that the schedule from the core `s` ends in.
  abbrev pub Simulates : State U → List Event → Exec (Machine U T P) → Type 0
  Simulates s es = Ends F λ m. Fits m × (run pdu_cb s es ≡ done m.core)

  played :
      (m : Machine U T P) (core : State U)
      → Fits m
      → Good F W pdu_cb (with_log m.core.actions core)
      → Ends ⊥
          (HardwareShows t port (core.actions ++ m.core.actions))
          (play (hardware_call t port) core.actions m.hw)
  played m core v g =
      play-HardwareShows t port core.actions m.core.actions m.hw v.1
        (timer_set (with_log m.core.actions core) g.0)

  settle-Simulates :
      (m : Machine U T P) (e : Event) (called : Exec (State U))
      → Fits m
      → IsEvent e
      → step pdu_cb m.core e ≡ then_log m.core.actions called
      → Simulates m.core (e ∷ []) (settle t port m called)
  unfolding settle run
  settle-Simulates m e called v h same =
      at called same (step-Good F W pdu_cb answers m.core e h v.0)
    where
      settled :
          (core : State U) (x : Exec (Hardware T P))
          → Good F W pdu_cb (with_log m.core.actions core)
          → step pdu_cb m.core e ≡ done (with_log m.core.actions core)
          → Ends ⊥ (HardwareShows t port (core.actions ++ m.core.actions)) x
          → Simulates m.core
              (e ∷ [])
              (do hw ← x; done (record { core = with_log m.core.actions core; hw = hw }))
      settled core (done hw) g q s = ((g, s), rw q refl)
      settled core fault g q s = absurd s
      settled core stuck g q s = absurd s

      at :
          (x : Exec (State U))
          → step pdu_cb m.core e ≡ then_log m.core.actions x
          → Ends F (Good F W pdu_cb) (step pdu_cb m.core e)
          → Simulates m.core (e ∷ []) (settle t port m x)
      at fault q g = subst (Ends F (Good F W pdu_cb)) q g
      at stuck q g = subst (Ends F (Good F W pdu_cb)) q g
      at (done core) q g =
          let g' : Good F W pdu_cb (with_log m.core.actions core) =
            subst (Ends F (Good F W pdu_cb)) q g in
          settled core (play (hardware_call t port) core.actions m.hw) g' q (played m core v g')

  -- an expiry of a timer that stands
  pub stays :
      (m m' : Machine U T P)
      → timer_after m.core.actions ≡ some stopped
      → m'.core ≡ m.core
      → Fits m'
      → Simulates m.core (expires ∷ []) (done m')
  unfolding run step expire
  stays m m' k e v = (v, rw (k, expire, e) refl)

  -- the callbacks for a byte
  pub recv-Simulates :
      (m : Machine U T P) (byte : ℕ)
      → IsByte byte
      → Fits m
      → Simulates m.core
          (receives byte ∷ [])
          (settle t port m (done (serial_recv_cb (cleared m.core) byte)))
  unfolding step
  recv-Simulates m byte h v =
      settle-Simulates m (receives byte) (done (serial_recv_cb (cleared m.core) byte)) v h
        (ap done (serial_recv_cb-with_log m.core.actions (cleared m.core) byte))

  pub recv_err-Simulates :
      (m : Machine U T P) (byte : ℕ)
      → IsByte byte
      → Fits m
      → Simulates m.core
          (receive_fails byte ∷ [])
          (settle t port m (done (serial_recv_err_cb (cleared m.core) byte)))
  unfolding step
  recv_err-Simulates m byte h v =
      settle-Simulates m (receive_fails byte) (done (serial_recv_err_cb (cleared m.core) byte)) v h
        (ap done (serial_recv_err_cb-with_log m.core.actions (cleared m.core) byte))

  pub sent-Simulates :
      (m : Machine U T P)
      → Fits m
      → Simulates m.core (sent ∷ []) (settle t port m (done (serial_sent_cb (cleared m.core))))
  unfolding step
  sent-Simulates m v =
      settle-Simulates m sent (done (serial_sent_cb (cleared m.core))) v tt
        (ap done (serial_sent_cb-with_log m.core.actions (cleared m.core)))

  pub event-Simulates :
      (m : Machine U T P)
      → Fits m
      → Simulates m.core (polls ∷ []) (settle t port m (modbus_rtu_event pdu_cb (cleared m.core)))
  unfolding step
  event-Simulates m v =
      settle-Simulates m polls (modbus_rtu_event pdu_cb (cleared m.core)) v tt
        (modbus_rtu_event-with_log m.core.actions pdu_cb (cleared m.core))

  -- where the core counts on a timer, its interrupt is an expiry
  expire-with_log :
      (s : State U) (u : Timer)
      → timer_after s.actions ≡ some u
      → u ≢ stopped
      → expire s ≡ then_log s.actions (call_timer_cb (cleared s))
  unfolding expire
  expire-with_log s stopped e n = absurd (n refl)
  expire-with_log s running_1t5 e n = rw (e, expire) (call_timer_cb-with_log s.actions (cleared s))
  expire-with_log s running_3t5 e n = rw (e, expire) (call_timer_cb-with_log s.actions (cleared s))

  pub timer_cb-Simulates :
      (m : Machine U T P) (u : Timer)
      → timer_after m.core.actions ≡ some u
      → u ≢ stopped
      → Fits m
      → Simulates m.core (expires ∷ []) (settle t port m (call_timer_cb (cleared m.core)))
  unfolding step
  timer_cb-Simulates m u e n v =
      settle-Simulates m expires (call_timer_cb (cleared m.core)) v tt
        (expire-with_log m.core u e n)

  -- handlers that do what a schedule does
  abbrev pub Handles : (Machine U T P → Cause → Exec (Machine U T P)) → Type 0
  Handles handle =
      (m : Machine U T P) (c : Cause)
      → IsCause c
      → Fits m
      → Simulates m.core (event_of c ∷ []) (handle m c)

  pub run-Simulates :
      (handle : Machine U T P → Cause → Exec (Machine U T P))
      → Handles handle
      → (m : Machine U T P) (cs : List Cause) → AreCauses cs
      → Fits m
      → Simulates m.core (events_of cs) (machine_run handle m cs)
  unfolding machine_run run
  run-Simulates handle hs m [] h v = (v, refl)
  run-Simulates handle hs m (c ∷ cs) h v =
      then_run (handle m c) (hs m c h.0 v) λ m' v'. run-Simulates handle hs m' cs h.1 v'
    where
      after :
          (m' : Machine U T P) (x : Exec (Machine U T P))
          → run pdu_cb m.core (event_of c ∷ []) ≡ done m'.core
          → Simulates m'.core (events_of cs) x
          → Simulates m.core (event_of c ∷ events_of cs) x
      after m' (done m'') q (v'', r) =
          (v'', run-append pdu_cb (event_of c ∷ []) (events_of cs) m.core ∙ rw q r)
      after m' fault q s = s
      after m' stuck q s = s

      then_run :
          (x : Exec (Machine U T P))
          → Simulates m.core (event_of c ∷ []) x
          → ((m' : Machine U T P)
              → Fits m'
              → Simulates m'.core (events_of cs) (machine_run handle m' cs))
          → Simulates m.core (events_of (c ∷ cs)) (x >>= λ m'. machine_run handle m' cs)
      then_run fault s k = s
      then_run stuck s k = s
      then_run (done m') (v', q) k = after m' (machine_run handle m' cs) q (k m' v')
