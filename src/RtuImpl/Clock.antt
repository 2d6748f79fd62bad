-- ===== src/RtuImpl/Clock.antt =====
-- The timer of linux/rtu_impl.c against the timer that the core counts on (Rtu/Timer.antt).
use modbus_c.Prelude.{ℕ, ◌≡◌, Option, none, some, Ends, arith}
use modbus_c.Rtu.{Action}
use modbus_c.Rtu.Timer.{Timer, stopped, running_1t5, running_3t5, timer_call}
use modbus_c.Rtu.Port.{TimerPort}
use modbus_c.RtuImpl.{
  ImplTimer, timer_start_1t5, timer_start_3t5, timer_stop, timer_reset, perform_call,
}

-- A timer of the times `a` and `b` is in the state that the core counts on.
abbrev pub Agrees : ℕ → ℕ → Option Timer → ImplTimer → Type 0
Agrees a b none t = ⊥
Agrees a b (some stopped) t =
    (t.timeout_us ≡ none) × (t.timeout_1t5_us ≡ a) × (t.timeout_3t5_us ≡ b)
Agrees a b (some running_1t5) t =
    (t.timeout_us ≡ some a) × (t.timeout_1t5_us ≡ a) × (t.timeout_3t5_us ≡ b)
Agrees a b (some running_3t5) t =
    (t.timeout_us ≡ some b) × (t.timeout_1t5_us ≡ a) × (t.timeout_3t5_us ≡ b)

pub call-Agrees :
    (a b now : ℕ) (x : Action) (u v : Timer) (t : ImplTimer)
    → timer_call x u ≡ some v
    → Agrees a b (some u) t
    → Ends ⊥ (Agrees a b (some v)) (perform_call now x t)
unfolding perform_call timer_call timer_start_1t5 timer_start_3t5 timer_stop timer_reset
call-Agrees a b now x u v t e h = ground arith

-- the timer of the process, for the times `a` and `b`, at the time `now`
abbrev pub impl_timer : ℕ → ℕ → ℕ → TimerPort ImplTimer
impl_timer a b now = record {
  call = perform_call now;
  Shows = Agrees a b;
  shows_some = λ t h. h;
  keeps = call-Agrees a b now;
}
