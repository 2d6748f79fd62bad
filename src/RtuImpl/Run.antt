-- ===== src/RtuImpl/Run.antt =====
-- `modbus_rtu_run` of linux/rtu_impl.c refines the schedules of the core.
use modbus_c.Prelude.{
  ℕ, ◌≡◌, ◌≢◌, refl, false, Option, List, [], length, fault, stuck, Exec, done, Ends,
}
use modbus_c.Rtu.{PduCb, modbus_rtu_init}
use modbus_c.Rtu.Timer.{timer_after}
use modbus_c.Rtu.Invariant.{init-Inv}
use modbus_c.Rtu.Process.{Answers}
use modbus_c.Rtu.Schedule.{Event, AreEvents, run}
use modbus_c.Rtu.Receive.{received}
use modbus_c.Timing.{Speed, calc_1t5_us, calc_3t5_us}
use modbus_c.RtuImpl.{timeout_or, RtuImpl, Round, event_impl, rounds, start_impl, modbus_rtu_run}
use modbus_c.RtuImpl.Clock.{Agrees}
use modbus_c.RtuImpl.Follows.{Follows, then_Follows}
use modbus_c.RtuImpl.Refine.{AreRounds, bytes_taken, event-Follows, rounds-Follows}

-- The end `l` of a run of the slave against the core: it is where a schedule with the bytes of the
-- rounds ends, and the timer of the process runs for what the core waits for.
pub record Refines {U : Type 0} (pdu_cb : PduCb U) (rate : Speed)
    (timeout_1t5_us timeout_3t5_us : Option ℕ) (user : U) (rs : List Round) (l : RtuImpl U)
    : Type 0 where
  pub events : List Event
  pub are : AreEvents events
  pub bytes : received events ≡ bytes_taken rs
  pub core : run pdu_cb (modbus_rtu_init false false user) events ≡ done l.core
  pub timer :
      Agrees
        (timeout_or timeout_1t5_us (calc_1t5_us rate))
        (timeout_or timeout_3t5_us (calc_3t5_us rate))
        (timer_after l.core.actions)
        l.timer

module _ {U : Type 0} (clock : ℕ → ℕ) (tty_write : ℕ → List ℕ → ℕ) (pdu_cb : PduCb U) (F : Type 0)
    (W : U → Type 0) (answers : Answers F W pdu_cb)
    (takes : (n : ℕ) (frame : List ℕ) → tty_write n frame ≢ length frame → F) (rate : Speed)
    (timeout_1t5_us timeout_3t5_us : Option ℕ) (user : U) (rs : List Round) where
  from_Follows :
      (m : Exec (RtuImpl U))
      → Follows clock tty_write pdu_cb F W answers takes
          (timeout_or timeout_1t5_us (calc_1t5_us rate))
          (timeout_or timeout_3t5_us (calc_3t5_us rate))
          (bytes_taken rs)
          (modbus_rtu_init false false user)
          m
      → Ends F (Refines pdu_cb rate timeout_1t5_us timeout_3t5_us user rs) m
  from_Follows fault h = h
  from_Follows stuck h = h
  from_Follows (done l) (v, (es, are, r, e)) = record {
    events = es;
    are = are;
    bytes = r;
    core = e;
    timer = v.1;
  }

  -- The slave on Linux, at any rate and with any timeouts, for any rounds of bytes, on any clock,
  -- with a callback that answers requests with at most 254 bytes and keeps a property of the user's
  -- data: `modbus_rtu_run` never gets stuck, so that it runs `modbus_rtu_event` inside itself once
  -- at most, and none of its CHECKs fails but for a frame that the tty does not take as a whole.
  -- Any other fault is the callback's own. Where it ends, its core is where some schedule of the
  -- core ends that receives the bytes of the rounds that were run, all and in order, and its timer
  -- stands, or runs for the time, that the core counts on.
  pub modbus_rtu_run-Refines :
      AreRounds rs
      → W user
      → Ends F
          (Refines pdu_cb rate timeout_1t5_us timeout_3t5_us user rs)
          (modbus_rtu_run clock tty_write pdu_cb rate timeout_1t5_us timeout_3t5_us user rs)
  unfolding modbus_rtu_run start_impl modbus_rtu_init timer_after
  modbus_rtu_run-Refines h w =
      let a = timeout_or timeout_1t5_us (calc_1t5_us rate) in
      let b = timeout_or timeout_3t5_us (calc_3t5_us rate) in
      let l = start_impl clock tty_write pdu_cb rate timeout_1t5_us timeout_3t5_us user in
      from_Follows
        (modbus_rtu_run clock tty_write pdu_cb rate timeout_1t5_us timeout_3t5_us user rs)
        (then_Follows clock tty_write pdu_cb F W answers takes a b [] (bytes_taken rs) l.core
          (event_impl clock tty_write pdu_cb 2 l) (rounds clock tty_write pdu_cb rs)
          (event-Follows clock tty_write pdu_cb F W answers takes a b l
            ((init-Inv false false user, w), (refl, refl, refl)))
          λ l' v'. rounds-Follows clock tty_write pdu_cb F W answers takes a b rs l' h v')
