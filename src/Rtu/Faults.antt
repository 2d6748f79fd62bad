-- ===== src/Rtu/Faults.antt =====
-- Where a run of the slave faults: the callback faults, on the request that the slave has received.
use modbus_c.Prelude.{
  ℕ, ◌-◌, ◌≤◌, ◌≡◌, refl, subst, ap, Bool, true, false, List, [], ◌∷◌, ◌++◌, ltb, if◌then◌else◌,
  length, get_or, Exec, done, fault, stuck, ◌>>=◌, Ends, load_in, IsBytes, arith,
}
use modbus_c.Rtu.{
  State, PduCb, adu_check, adu_answer, adu_process, frame_end, dispatch, modbus_rtu_event,
}
use modbus_c.Memory.Fields.{get_or-IsByte}
use modbus_c.Rtu.Process.{Answers, Good}
use modbus_c.Rtu.Schedule.{
  Event, receives, receive_fails, expires, sent, polls, IsEvent, AreEvents, step, run, step-Good,
}

-- The slave holds a frame of four bytes at least, and the callback faults on it.
abbrev pub CallFaults : {U : Type 0} → PduCb U → State U → Type 0
CallFaults pdu_cb s =
    (4 ≤ s.rxbuf_curr)
    × (pdu_cb s.user_data (get_or s.rxbuf 0 0) (get_or s.rxbuf 1 0) s.rxbuf 0 (s.rxbuf_curr - 2) 2
        ≡ fault)

-- Only a round of the loop can fault, and only so.
abbrev pub Blames : {U : Type 0} → PduCb U → State U → Event → Type 0
Blames pdu_cb s polls = CallFaults pdu_cb s
Blames pdu_cb s _ = ⊥

-- A schedule comes to a round of the loop in which the callback faults.
pub record FaultsAt {U : Type 0} (pdu_cb : PduCb U) (s : State U) (es : List Event) : Type 0 where
  pub before : List Event
  pub later : List Event
  pub reached : State U
  pub schedule : es ≡ before ++ polls ∷ later
  pub comes : run pdu_cb s before ≡ done reached
  pub call : CallFaults pdu_cb reached

pub Ends-map : {A F G : Type 0} (P : A → Type 0) (m : Exec A) → (F → G) → Ends F P m → Ends G P m
Ends-map P (done a) f h = h
Ends-map P fault f h = f h
Ends-map P stuck f h = h

-- a callback that answers nothing
abbrev pub silent : {U : Type 0} → PduCb U
silent user addr fcode src begin end curr = done (user, [])

pub silent-Answers : {U : Type 0} (W : U → Type 0) → Answers ⊥ W silent
silent-Answers W user addr fcode src end w a b lo hi = (w, tt, omega arith)

-- the callback's answer to the request of `s`, whatever it is asked
abbrev pub fixed : {U : Type 0} → PduCb U → State U → PduCb U
fixed pdu_cb s user addr fcode src begin end curr =
    if ltb s.rxbuf_curr 4
    then done (user, [])
    else pdu_cb s.user_data (get_or s.rxbuf 0 0) (get_or s.rxbuf 1 0) s.rxbuf 0 (s.rxbuf_curr - 2) 2

module _ {U : Type 0} (pdu_cb : PduCb U) where
  answer-fixed :
      (s : State U)
      → length s.rxbuf ≡ 256
      → 4 ≤ s.rxbuf_curr
      → adu_answer (fixed pdu_cb s) s ≡ adu_answer pdu_cb s
  unfolding adu_answer
  answer-fixed s full long =
      let short : ltb s.rxbuf_curr 4 ≡ false = ground (arith, long) in
      rw (load_in s.rxbuf 0 (omega (arith, full)), load_in s.rxbuf 1 (omega (arith, full)), short)
        refl

  process-fixed :
      (s : State U) → length s.rxbuf ≡ 256 → adu_process (fixed pdu_cb s) s ≡ adu_process pdu_cb s
  unfolding adu_process adu_check
  process-fixed s full = ground (
    arith,
    answer-fixed s full,
    load_in s.rxbuf (s.rxbuf_curr - 2),
    load_in s.rxbuf (s.rxbuf_curr - 1),
  )

  pub event-fixed :
      (s : State U)
      → length s.rxbuf ≡ 256
      → modbus_rtu_event (fixed pdu_cb s) s ≡ modbus_rtu_event pdu_cb s
  unfolding modbus_rtu_event dispatch frame_end
  event-fixed s full =
      let s' = record s { status = record (s.status) { updated = false } } in
      ground (arith, process-fixed s' full)

module _ {U : Type 0} (W : U → Type 0) (pdu_cb : PduCb U)
    (answers : Answers (Unit {0}) W pdu_cb) where
  pub fixed-Answers :
      (s : State U) → Good (Unit {0}) W pdu_cb s → Answers (CallFaults pdu_cb s) W (fixed pdu_cb s)
  fixed-Answers s v user addr fcode src end w a b lo hi =
      by_length (ltb s.rxbuf_curr 4) (ground arith)
    where
      called :
          (x : Exec (U × List ℕ))
          → 4 ≤ s.rxbuf_curr
          → pdu_cb s.user_data
              (get_or s.rxbuf 0 0)
              (get_or s.rxbuf 1 0)
              s.rxbuf
              0
              (s.rxbuf_curr - 2)
              2
            ≡ x
          → Ends (Unit {0}) (λ out. W out.0 × IsBytes out.1 × (length out.1 ≤ 254)) x
          → Ends (CallFaults pdu_cb s) (λ out. W out.0 × IsBytes out.1 × (length out.1 ≤ 254)) x
      called (done out) long q h = h
      called fault long q h = (long, q)
      called stuck long q h = h

      by_length :
          (short : Bool)
          → (short ≡ false → 4 ≤ s.rxbuf_curr)
          → Ends
              (CallFaults pdu_cb s)
              (λ out. W out.0 × IsBytes out.1 × (length out.1 ≤ 254))
              (if short
                then done (user, [])
                else pdu_cb s.user_data
                    (get_or s.rxbuf 0 0)
                    (get_or s.rxbuf 1 0)
                    s.rxbuf
                    0
                    (s.rxbuf_curr - 2)
                    2)
      by_length true k = (w, tt, omega arith)
      by_length false k = called _ (k refl) refl (
          answers s.user_data _ _ s.rxbuf (s.rxbuf_curr - 2) v.1
            (get_or-IsByte s.rxbuf 0 v.0.rxbuf.1) v.0.rxbuf (omega (arith, k refl))
            (omega (arith, v.0, k refl)))

  step-Blames :
      (s : State U) (e : Event)
      → IsEvent e
      → Good (Unit {0}) W pdu_cb s
      → Ends (Blames pdu_cb s e) (Good (Unit {0}) W pdu_cb) (step pdu_cb s e)
  unfolding step
  step-Blames s (receives byte) h v = step-Good ⊥ W silent (silent-Answers W) s (receives byte) h v
  step-Blames s (receive_fails byte) h v =
      step-Good ⊥ W silent (silent-Answers W) s (receive_fails byte) h v
  step-Blames s expires h v = step-Good ⊥ W silent (silent-Answers W) s expires h v
  step-Blames s sent h v = step-Good ⊥ W silent (silent-Answers W) s sent h v
  step-Blames s polls h v =
      subst (Ends (CallFaults pdu_cb s) (Good (Unit {0}) W pdu_cb))
        (event-fixed pdu_cb s v.0.rxbuf.0)
        (step-Good (CallFaults pdu_cb s) W (fixed pdu_cb s) (fixed-Answers s v) s polls h v)

module _ {U : Type 0} (pdu_cb : PduCb U) where
  pub faults_now :
      (s : State U) (e : Event) (es : List Event) → Blames pdu_cb s e → FaultsAt pdu_cb s (e ∷ es)
  unfolding run
  faults_now s polls es h = record {
    before = [];
    later = es;
    reached = s;
    schedule = refl;
    comes = refl;
    call = h;
  }
  faults_now s (receives byte) es h = absurd h
  faults_now s (receive_fails byte) es h = absurd h
  faults_now s expires es h = absurd h
  faults_now s sent es h = absurd h

  pub faults_later :
      (s s' : State U) (e : Event) (es : List Event)
      → step pdu_cb s e ≡ done s'
      → FaultsAt pdu_cb s' es
      → FaultsAt pdu_cb s (e ∷ es)
  unfolding run
  faults_later s s' e es q f = record {
    before = e ∷ f.before;
    later = f.later;
    reached = f.reached;
    schedule = ap (λ rest. e ∷ rest) f.schedule;
    comes = rw q f.comes;
    call = f.call;
  }

module _ {U : Type 0} (W : U → Type 0) (pdu_cb : PduCb U)
    (answers : Answers (Unit {0}) W pdu_cb) where
  -- A run from a state that is well formed ends in one, or comes to a round in which the callback
  -- faults.
  pub run-FaultsAt :
      (s : State U) (es : List Event)
      → AreEvents es
      → Good (Unit {0}) W pdu_cb s
      → Ends (FaultsAt pdu_cb s es) (Good (Unit {0}) W pdu_cb) (run pdu_cb s es)
  unfolding run
  run-FaultsAt s [] h v = v
  run-FaultsAt s (e ∷ es) h v =
      stepped (step pdu_cb s e) refl (step-Blames W pdu_cb answers s e h.0 v)
        λ s' g. run-FaultsAt s' es h.1 g
    where
      stepped :
          (x : Exec (State U))
          → step pdu_cb s e ≡ x
          → Ends (Blames pdu_cb s e) (Good (Unit {0}) W pdu_cb) x
          → ((s' : State U)
              → Good (Unit {0}) W pdu_cb s'
              → Ends (FaultsAt pdu_cb s' es) (Good (Unit {0}) W pdu_cb) (run pdu_cb s' es))
          → Ends
              (FaultsAt pdu_cb s (e ∷ es))
              (Good (Unit {0}) W pdu_cb)
              (x >>= λ s'. run pdu_cb s' es)
      stepped (done s') q g k =
          Ends-map (Good (Unit {0}) W pdu_cb) (run pdu_cb s' es) (faults_later pdu_cb s s' e es q)
            (k s' g)
      stepped fault q g k = faults_now pdu_cb s e es g
      stepped stuck q g k = g
