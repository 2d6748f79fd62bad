-- ===== src/RtuImpl/Follows.antt =====
-- What it is for the loop of linux/rtu_impl.c to do what a schedule of the core does.
use modbus_c.Prelude.{
  ℕ, ◌+◌, ◌≡◌, ◌≢◌, refl, subst, ◌∙◌, ap, ap₂, List, [], ◌∷◌, ◌++◌, length, Exec, done, fault,
  stuck, ◌>>=◌, Ends,
}
use modbus_c.Rtu.{State, PduCb}
use modbus_c.Rtu.Timer.{timer_after}
use modbus_c.Rtu.Process.{Answers, Good}
use modbus_c.Rtu.Schedule.{
  Event, receives, receive_fails, expires, sent, polls, IsEvent, AreEvents, step, run, step-Good,
}
use modbus_c.Rtu.Receive.{received}
use modbus_c.Rtu.Frames.{run-append}
use modbus_c.RtuImpl.{RtuImpl, ImplTimer, perform_call, perform_all}
use modbus_c.RtuImpl.Log.{with_log, then_log}
use modbus_c.RtuImpl.Clock.{Agrees, impl_timer}
use modbus_c.Rtu.Port.{play, timer_set, play-Shows}

pub AreEvents-append : (es fs : List Event) → AreEvents es → AreEvents fs → AreEvents (es ++ fs)
AreEvents-append [] fs h k = k
AreEvents-append (e ∷ es) fs h k = (h.0, AreEvents-append es fs h.1 k)

received-append : (es fs : List Event) → received (es ++ fs) ≡ received es ++ received fs
received-append [] fs = refl
received-append (receives b ∷ es) fs = ap (λ bs. b ∷ bs) (received-append es fs)
received-append (receive_fails b ∷ es) fs = received-append es fs
received-append (expires ∷ es) fs = received-append es fs
received-append (sent ∷ es) fs = received-append es fs
received-append (polls ∷ es) fs = received-append es fs

module _ {U : Type 0} (clock : ℕ → ℕ) (tty_write : ℕ → List ℕ → ℕ) (pdu_cb : PduCb U) (F : Type 0)
    (W : U → Type 0) (answers : Answers F W pdu_cb)
    (takes : (n : ℕ) (frame : List ℕ) → tty_write n frame ≢ length frame → F) (a b : ℕ) where
  -- the core keeps its invariant, and the timer is in the state that the core counts on
  abbrev pub Sound : RtuImpl U → Type 0
  Sound l = Good F W pdu_cb l.core × Agrees a b (timer_after l.core.actions) l.timer

  -- A run ends soundly, in the core that a schedule with the bytes `bs` from the core `s` ends in.
  abbrev pub Follows : List ℕ → State U → Exec (RtuImpl U) → Type 0
  Follows bs s = Ends F λ l.
      Sound l
      × ((es : List Event) × AreEvents es × (received es ≡ bs) × (run pdu_cb s es ≡ done l.core))

  -- the calls of one step of the core
  played :
      (l : RtuImpl U) (core : State U)
      → Sound l
      → Good F W pdu_cb (with_log l.core.actions core)
      → (l' : RtuImpl U) × (perform_all clock tty_write pdu_cb l core ≡ done l')
        × Sound l'
        × (l'.core ≡ with_log l.core.actions core)
  unfolding perform_all
  played l core v g = at (play (perform_call (clock l.reads)) core.actions l.timer) (
      play-Shows (impl_timer a b (clock l.reads)) core.actions l.core.actions l.timer v.1
        (timer_set (with_log l.core.actions core) g.0))
    where
      at :
          (m : Exec ImplTimer)
          → Ends ⊥ (Agrees a b (timer_after (core.actions ++ l.core.actions))) m
          → (l' : RtuImpl U) × ((do
            timer ← m
            done (record {
              core = with_log l.core.actions core;
              timer = timer;
              reads = l.reads + 1;
            }))
              ≡ done l')
            × Sound l'
            × (l'.core ≡ with_log l.core.actions core)
      at (done t) h = (
        record { core = with_log l.core.actions core; timer = t; reads = l.reads + 1 },
        refl,
        (g, h),
        refl,
      )
      at fault h = absurd h
      at stuck h = absurd h

  after_Follows :
      (s s' : State U) (es : List Event) (bs cs : List ℕ) (m : Exec (RtuImpl U))
      → AreEvents es
      → received es ≡ bs
      → run pdu_cb s es ≡ done s'
      → Follows cs s' m
      → Follows (bs ++ cs) s m
  after_Follows s s' es bs cs fault are r e h = h
  after_Follows s s' es bs cs stuck are r e h = h
  after_Follows s s' es bs cs (done l') are r e (v', (fs, are', r', e')) = (
    v',
    (
      es ++ fs,
      AreEvents-append es fs are are',
      received-append es fs ∙ ap₂ ◌++◌ r r',
      run-append pdu_cb es fs s ∙ rw e e',
    ),
  )

  pub then_Follows :
      (bs cs : List ℕ) (s : State U) (m : Exec (RtuImpl U)) (f : RtuImpl U → Exec (RtuImpl U))
      → Follows bs s m
      → ((l : RtuImpl U) → Sound l → Follows cs l.core (f l))
      → Follows (bs ++ cs) s (m >>= f)
  then_Follows bs cs s fault f h k = h
  then_Follows bs cs s stuck f h k = h
  then_Follows bs cs s (done l) f (v, (es, are, r, e)) k =
      after_Follows s l.core es bs cs (f l) are r e (k l v)

  pub stays : (l : RtuImpl U) → Sound l → Follows [] l.core (done l)
  unfolding run
  stays l v = (v, ([], tt, refl, refl))

  -- an event that reaches the core by a call `m` on the core without its earlier calls
  pub stepped :
      (l : RtuImpl U) (e : Event) (m : Exec (State U)) (f : State U → RtuImpl U → Exec (RtuImpl U))
      (cs : List ℕ)
      → Sound l
      → IsEvent e
      → step pdu_cb l.core e ≡ then_log l.core.actions m
      → ((core : State U) (l' : RtuImpl U)
          → m ≡ done core
          → l'.core ≡ with_log l.core.actions core
          → Sound l'
          → Follows cs l'.core (f core l'))
      → Follows
          (received (e ∷ []) ++ cs)
          l.core
          (m >>= λ core. perform_all clock tty_write pdu_cb l core >>= f core)
  unfolding run
  stepped l e m f cs v h same k = at m same (step-Good F W pdu_cb answers l.core e h v.0) k
    where
      at :
          (m : Exec (State U))
          → step pdu_cb l.core e ≡ then_log l.core.actions m
          → Ends F (Good F W pdu_cb) (step pdu_cb l.core e)
          → ((core : State U) (l' : RtuImpl U)
              → m ≡ done core
              → l'.core ≡ with_log l.core.actions core
              → Sound l'
              → Follows cs l'.core (f core l'))
          → Follows
              (received (e ∷ []) ++ cs)
              l.core
              (m >>= λ core. perform_all clock tty_write pdu_cb l core >>= f core)
      at fault q g k = subst (Ends F (Good F W pdu_cb)) q g
      at stuck q g k = subst (Ends F (Good F W pdu_cb)) q g
      at (done core) q g k =
          let g' : Good F W pdu_cb (with_log l.core.actions core) =
            subst (Ends F (Good F W pdu_cb)) q g in
          let (l', p, v', c) = played l core v g' in
          rw p (
            after_Follows l.core l'.core (e ∷ []) (received (e ∷ [])) cs (f core l') (h, tt) refl
              (rw (q, c) refl) (k core l' refl c v'))
