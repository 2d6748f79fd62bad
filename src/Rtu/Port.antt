-- ===== src/Rtu/Port.antt =====
-- What the platforms' timers have in common: functions that the core calls, and the timer that it
-- counts on (Rtu/Timer.antt).
use modbus_c.Prelude.{
  ◌≡◌, ◌≢◌, refl, Option, none, some, List, [], ◌∷◌, ◌++◌, Exec, done, ◌>>=◌, Ends, Ends-bind,
  arith,
}
use modbus_c.Rtu.{Action, State}
use modbus_c.Rtu.Timer.{Timer, timer_call, timer_after}
use modbus_c.Rtu.Invariant.{Inv}

-- The functions of a platform whose timer is the state `H`. `Shows o h` says that the timer `h` is
-- in the state `o`; `keeps` asks this of each call that the core may make there.
pub record TimerPort (H : Type 0) : Type 1 where
  pub call : Action → H → Exec H
  pub Shows : Option Timer → H → Type 0
  pub shows_some : (h : H) → ¬ Shows none h
  pub keeps :
      (x : Action) (u v : Timer) (h : H)
      → timer_call x u ≡ some v
      → Shows (some u) h
      → Ends ⊥ (Shows (some v)) (call x h)

-- calls, the last first
unfoldable pub play : {H : Type 0} → (Action → H → Exec H) → List Action → H → Exec H
play call [] h = done h
play call (a ∷ rest) h = do h' ← play call rest h; call a h'

pub timer_set : {U : Type 0} (s : State U) → Inv s → timer_after s.actions ≢ none
timer_set s v e = ground (arith, v.phase)

module _ {H : Type 0} (port : TimerPort H) where
  call-Shows :
      (x : Action) (u : Timer) (o : Option Timer) (h : H)
      → timer_call x u ≡ o
      → o ≢ none
      → port.Shows (some u) h
      → Ends ⊥ (port.Shows o) (port.call x h)
  call-Shows x u none h e n s = absurd (n refl)
  call-Shows x u (some v) h e n s = port.keeps x u v h e s

  -- Calls that the core may make meet no failed assertion.
  pub play-Shows :
      (new old : List Action) (h : H)
      → port.Shows (timer_after old) h
      → timer_after (new ++ old) ≢ none
      → Ends ⊥ (port.Shows (timer_after (new ++ old))) (play port.call new h)
  unfolding play timer_after
  play-Shows [] old h s n = s
  play-Shows (x ∷ new) old h s n = one_more (timer_after (new ++ old)) (play-Shows new old h s) n
    where
      one_more :
          (o : Option Timer)
          → (o ≢ none → Ends ⊥ (port.Shows o) (play port.call new h))
          → elim o [ none ↦ none | some u ↦ timer_call x u ] ≢ none
          → Ends ⊥
              (port.Shows (elim o [ none ↦ none | some u ↦ timer_call x u ]))
              (play port.call new h >>= port.call x)
      one_more none k n' = absurd (n' refl)
      one_more (some u) k n' =
          Ends-bind ⊥ (port.Shows (some u)) (port.Shows (timer_call x u)) (play port.call new h) _
            (k λ e. cc) λ h' s'. call-Shows x u (timer_call x u) h' refl n' s'
