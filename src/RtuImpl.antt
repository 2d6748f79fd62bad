-- ===== src/RtuImpl.antt =====
-- linux/rtu_impl.c: the slave on Linux, its timer on the clock of the system, and its loop.
--
-- `clock n` is what the reading number `n` of the clock gives, and `tty_write n frame` how many bytes
-- of a frame the tty takes when the clock has been read `n` times. A failed CHECK, which aborts, is a
-- `fault`. What the core asks for during a call is played back on the timer behind it, in order; a
-- call asks for the clock at most once. `send_impl` runs the event loop again from inside it.
pub mod Log
pub mod Sends
pub mod Clock
pub mod Follows
pub mod Refine
pub mod Run
pub mod Tests
use modbus_c.Prelude.{
  ℕ, zero, suc, ◌+◌, ◌%◌, ◌^◌, Bool, false, not, Option, none, some, List, [], ◌∷◌, ◌++◌, leb, ◌==◌,
  if◌then◌else◌, length, Exec, done, fault, stuck, ◌>>=◌,
}
use modbus_c.Rtu.{
  Action, start_1t5, start_3t5, stop, reset, State, PduCb, serial_recv_cb, serial_sent_cb,
  modbus_rtu_event, modbus_rtu_init,
}
use modbus_c.Rtu.Schedule.{call_timer_cb}
use modbus_c.Rtu.Port.{play}
use modbus_c.Rtu.Receive.{frames_sent}
use modbus_c.Timing.{Speed, calc_1t5_us, calc_3t5_us}

-- `timer` of `rtu_impl_t`; `timeout_us` is `none` for -1.
pub record ImplTimer : Type 0 where
  pub timeout_1t5_us : ℕ
  pub timeout_3t5_us : ℕ
  pub timestamp_us : ℕ
  pub timeout_us : Option ℕ
  pub start_cntr : ℕ
  pub stop_cntr : ℕ
  pub reset_cntr : ℕ

abbrev pub u64 : ℕ → ℕ
u64 n = n % 2 ^ 64

-- The timer functions; `now` is the time that they read.
unfoldable pub timer_start_1t5 : ℕ → ImplTimer → Exec ImplTimer
timer_start_1t5 now t = elim t.timeout_us [
  | some _ ↦ fault
  | none ↦ done (record t {
    timestamp_us = now;
    timeout_us = some t.timeout_1t5_us;
    start_cntr = u64 (t.start_cntr + 1);
  })
]

unfoldable pub timer_start_3t5 : ℕ → ImplTimer → Exec ImplTimer
timer_start_3t5 now t = elim t.timeout_us [
  | some _ ↦ fault
  | none ↦ done (record t {
    timestamp_us = now;
    timeout_us = some t.timeout_3t5_us;
    start_cntr = u64 (t.start_cntr + 1);
  })
]

unfoldable pub timer_stop : ImplTimer → ImplTimer
timer_stop t = elim t.timeout_us [
  | none ↦ t
  | some _ ↦ record t { timeout_us = none; stop_cntr = u64 (t.stop_cntr + 1) }
]

unfoldable pub timer_reset : ℕ → ImplTimer → Exec ImplTimer
timer_reset now t = elim t.timeout_us [
  | none ↦ fault
  | some _ ↦ done (record t { timestamp_us = now; reset_cntr = u64 (t.reset_cntr + 1) })
]

-- One call of the core at the time `now`. The callbacks for suspend and resume are null, and a frame
-- is left to `send_impl`.
unfoldable pub perform_call : ℕ → Action → ImplTimer → Exec ImplTimer
unfolding timer_start_1t5 timer_start_3t5 timer_stop timer_reset
perform_call now start_1t5 t = timer_start_1t5 now t
perform_call now start_3t5 t = timer_start_3t5 now t
perform_call now stop t = done (timer_stop t)
perform_call now reset t = timer_reset now t
perform_call now _ t = done t

-- `modbus_rtu_state_t` and `rtu_impl_t`, with the number of readings of the clock
pub record RtuImpl (U : Type 0) : Type 0 where
  pub core : State U
  pub timer : ImplTimer
  pub reads : ℕ

-- what the tty brings in a round of the loop, and whether the user's event ends it
pub record Round : Type 0 where
  pub bytes : List ℕ
  pub stops : Bool

-- an argument for a timeout, `none` for -1, or the timeout of the rate
abbrev pub timeout_or : Option ℕ → ℕ → ℕ
timeout_or none t = t
timeout_or (some t) _ = t

-- the core without its earlier calls
abbrev pub cleared : {U : Type 0} → State U → State U
cleared s = record s { actions = [] }

module _ {U : Type 0} (clock : ℕ → ℕ) (tty_write : ℕ → List ℕ → ℕ) (pdu_cb : PduCb U) where
  -- the core with its calls made, from a state with none
  unfoldable pub perform_all : RtuImpl U → State U → Exec (RtuImpl U)
  perform_all l core = do
    timer ← play (perform_call (clock l.reads)) core.actions l.timer
    done (record {
      core = record core { actions = core.actions ++ l.core.actions };
      timer = timer;
      reads = l.reads + 1;
    })

  -- `modbus_rtu_event`, with the functions of this file. `fuel` bounds how deep it runs inside itself.
  unfoldable pub event_impl : ℕ → RtuImpl U → Exec (RtuImpl U)
  event_impl zero l = stuck
  event_impl (suc fuel) l = do
    core ← modbus_rtu_event pdu_cb (cleared l.core)
    l' ← perform_all l core
    elim (frames_sent core.actions) [
      | [] ↦ done l'
      | frame ∷ _ ↦
          if not (tty_write l'.reads frame == length frame)
          then fault
          else do l'' ← perform_all l' (serial_sent_cb (cleared l'.core)); event_impl fuel l''
    ]

  -- the loop of `recv_impl` over the bytes that were read
  unfoldable pub recv_bytes : List ℕ → RtuImpl U → Exec (RtuImpl U)
  recv_bytes [] l = done l
  recv_bytes (byte ∷ bytes) l = do
    l' ← perform_all l (serial_recv_cb (cleared l.core) byte)
    l'' ← event_impl 2 l'
    recv_bytes bytes l''

  unfoldable pub timeout_impl : RtuImpl U → Exec (RtuImpl U)
  timeout_impl l = elim l.timer.timeout_us [
    | none ↦ done l
    | some timeout_us ↦
        let now = clock l.reads in
        let later = record l { reads = l.reads + 1 } in
        if not (leb (l.timer.timestamp_us + timeout_us) now)
        then done later
        else do core ← call_timer_cb (cleared l.core); l' ← perform_all later core; event_impl 2 l'
  ]

  unfoldable pub round : Round → RtuImpl U → Exec (RtuImpl U)
  round r l = do l' ← recv_bytes r.bytes l; timeout_impl l'

  -- the loop of `modbus_rtu_run`, for as many rounds as are given
  unfoldable pub rounds : List Round → RtuImpl U → Exec (RtuImpl U)
  rounds [] l = done l
  rounds (r ∷ rs) l = do l' ← round r l; if r.stops then done l' else rounds rs l'

  unfoldable pub start_impl : Speed → Option ℕ → Option ℕ → U → RtuImpl U
  start_impl rate timeout_1t5_us timeout_3t5_us user_data = record {
    core = modbus_rtu_init false false user_data;
    timer = record {
      timeout_1t5_us = timeout_or timeout_1t5_us (calc_1t5_us rate);
      timeout_3t5_us = timeout_or timeout_3t5_us (calc_3t5_us rate);
      timestamp_us = clock 0;
      timeout_us = none;
      start_cntr = 0;
      stop_cntr = 0;
      reset_cntr = 0;
    };
    reads = 1;
  }

  unfoldable pub modbus_rtu_run : Speed → Option ℕ → Option ℕ → U → List Round → Exec (RtuImpl U)
  modbus_rtu_run rate timeout_1t5_us timeout_3t5_us user_data rs = do
    l ← event_impl 2 (start_impl rate timeout_1t5_us timeout_3t5_us user_data)
    rounds rs l
