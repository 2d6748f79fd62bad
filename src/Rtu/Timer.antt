-- ===== src/Rtu/Timer.antt =====
-- The timer of a platform, as its functions leave it. The Linux adapter aborts where a timer is
-- started that runs, and where one is reset that does not (`CHECK` in linux/rtu_impl.c): `none`.
use modbus_c.Prelude.{Option, none, some, List, [], ◌∷◌}
use modbus_c.Rtu.{Action, start_1t5, start_3t5, stop, reset, suspend, resume, send}

pub data Timer : Type 0 where
  stopped running_1t5 running_3t5 : Timer

-- one call, on a timer that no call has aborted
unfoldable pub timer_call : Action → Timer → Option Timer
timer_call start_1t5 stopped = some running_1t5
timer_call start_1t5 _ = none
timer_call start_3t5 stopped = some running_3t5
timer_call start_3t5 _ = none
timer_call stop _ = some stopped
timer_call reset stopped = none
timer_call reset t = some t
timer_call suspend t = some t
timer_call resume t = some t
timer_call (send _) t = some t

-- the calls of a run, the last first, from a stopped timer on
unfoldable pub timer_after : List Action → Option Timer
timer_after [] = some stopped
timer_after (a ∷ rest) = elim (timer_after rest) [ none ↦ none | some t ↦ timer_call a t ]
