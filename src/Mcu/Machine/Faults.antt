-- ===== src/Mcu/Machine/Faults.antt =====
-- Where an adapter's handlers fault: where the schedule of the core comes to a fault of the callback.
use modbus_c.Prelude.{◌≡◌, refl, ◌∙◌, List, [], ◌∷◌, Exec, done, fault, stuck, ◌>>=◌, Ends}
use modbus_c.Rtu.{State, PduCb}
use modbus_c.Rtu.Process.{Answers}
use modbus_c.Rtu.Schedule.{Event, run, step}
use modbus_c.Rtu.Frames.{run-append}
use modbus_c.Rtu.Port.{TimerPort}
use modbus_c.Rtu.Faults.{Blames, FaultsAt, faults_now, faults_later}
use modbus_c.Mcu.Hardware.{SerialPort}
use modbus_c.Mcu.Machine.{Machine, Cause, machine_run}
use modbus_c.Mcu.Machine.Interrupts.{IsCause, event_of, AreCauses, events_of, Fits}

one_step :
    {U : Type 0} (pdu_cb : PduCb U) (s s' : State U) (e : Event)
    → run pdu_cb s (e ∷ []) ≡ done s'
    → step pdu_cb s e ≡ done s'
unfolding run
one_step {U = U} pdu_cb s s' e q = same (step pdu_cb s e) ∙ q
  where
    same : (x : Exec (State U)) → x ≡ (x >>= λ s''. done s'')
    same (done s'') = refl
    same fault = refl
    same stuck = refl

module _ {U T P : Type 0} (t : TimerPort T) (port : SerialPort P) (pdu_cb : PduCb U)
    (W : U → Type 0) (answers : Answers (Unit {0}) W pdu_cb) where
  -- what a run ends in: the core that the schedule from `s` ends in, with its hardware
  abbrev pub Reaches : State U → List Event → Machine U T P → Type 0
  Reaches s es m = Fits t port pdu_cb (Unit {0}) W answers m × (run pdu_cb s es ≡ done m.core)

  -- A run ends so, or the schedule comes to a round of the loop in which the callback faults.
  abbrev pub Locates : State U → List Event → Exec (Machine U T P) → Type 0
  Locates s es = Ends (FaultsAt pdu_cb s es) (Reaches s es)

  -- handlers that fault only where the callback does
  abbrev pub HandlesOrBlames : (Machine U T P → Cause → Exec (Machine U T P)) → Type 0
  HandlesOrBlames handle =
      (m : Machine U T P) (c : Cause)
      → IsCause c
      → Fits t port pdu_cb (Unit {0}) W answers m
      → Ends (Blames pdu_cb m.core (event_of c)) (Reaches m.core (event_of c ∷ [])) (handle m c)

  pub run-Locates :
      (handle : Machine U T P → Cause → Exec (Machine U T P))
      → HandlesOrBlames handle
      → (m : Machine U T P) (cs : List Cause) → AreCauses cs
      → Fits t port pdu_cb (Unit {0}) W answers m
      → Locates m.core (events_of cs) (machine_run handle m cs)
  unfolding machine_run run
  run-Locates handle hs m [] h v = (v, refl)
  run-Locates handle hs m (c ∷ cs) h v =
      then_run (handle m c) (hs m c h.0 v) λ m' v'. run-Locates handle hs m' cs h.1 v'
    where
      after :
          (m' : Machine U T P) (x : Exec (Machine U T P))
          → run pdu_cb m.core (event_of c ∷ []) ≡ done m'.core
          → Locates m'.core (events_of cs) x
          → Locates m.core (event_of c ∷ events_of cs) x
      after m' (done m'') q (v'', r) =
          (v'', run-append pdu_cb (event_of c ∷ []) (events_of cs) m.core ∙ rw q r)
      after m' fault q f =
          faults_later pdu_cb m.core m'.core (event_of c) (events_of cs)
            (one_step pdu_cb m.core m'.core (event_of c) q) f
      after m' stuck q s = s

      then_run :
          (x : Exec (Machine U T P))
          → Ends (Blames pdu_cb m.core (event_of c)) (Reaches m.core (event_of c ∷ [])) x
          → ((m' : Machine U T P)
              → Fits t port pdu_cb (Unit {0}) W answers m'
              → Locates m'.core (events_of cs) (machine_run handle m' cs))
          → Locates m.core (events_of (c ∷ cs)) (x >>= λ m'. machine_run handle m' cs)
      then_run fault b k = faults_now pdu_cb m.core (event_of c) (events_of cs) b
      then_run stuck s k = s
      then_run (done m') (v', q) k = after m' (machine_run handle m' cs) q (k m' v')
