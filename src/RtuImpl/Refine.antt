-- ===== src/RtuImpl/Refine.antt =====
-- The loop of linux/rtu_impl.c does what a schedule of the core does, function by function.
use modbus_c.Prelude.{
  Yields, ℕ, ◌+◌, ◌≡◌, ◌≢◌, refl, sym, subst, ◌∙◌, ap, inl, inr, not, Option, none, some, List, [],
  ◌∷◌, ◌++◌, leb, ◌==◌, length, if◌then◌else◌, ◌⊎◌, IsBytes, Exec, done, fault, ◌>>=◌, Ends, arith,
}
use modbus_c.Prelude.Behind.{append_nil}
use modbus_c.Rtu.{RtuState, Action, State, PduCb, serial_recv_cb, serial_sent_cb, modbus_rtu_event}
use modbus_c.Rtu.Timer.{Timer, stopped, running_1t5, running_3t5, timer_after}
use modbus_c.Rtu.Process.{Answers}
use modbus_c.Rtu.Schedule.{receives, expires, sent, polls, IsEvent, step, expire, call_timer_cb}
use modbus_c.Rtu.Receive.{frames_sent}
use modbus_c.RtuImpl.{
  Round, round, rounds, RtuImpl, perform_all, cleared, event_impl, recv_bytes, timeout_impl,
}
use modbus_c.RtuImpl.Log.{
  with_log, then_log, serial_recv_cb-with_log, serial_sent_cb-with_log, call_timer_cb-with_log,
  modbus_rtu_event-with_log,
}
use modbus_c.RtuImpl.Sends.{IsSilent, IsSilentOrBusy, event_busy, event_sent}
use modbus_c.RtuImpl.Clock.{Agrees}
use modbus_c.RtuImpl.Follows.{Sound, Follows, stays, then_Follows, stepped}

-- the bytes of the rounds up to the one that ends the loop
abbrev pub bytes_taken : List Round → List ℕ
bytes_taken [] = []
bytes_taken (r ∷ rs) = r.bytes ++ (if r.stops then [] else bytes_taken rs)

abbrev pub AreRounds : List Round → Type 0
AreRounds [] = Unit {0}
AreRounds (r ∷ rs) = IsBytes r.bytes × AreRounds rs

-- The call behind the end of a transmission makes no calls of its own.
sent_core :
    {U : Type 0} (s core s' : State U) (log : List Action)
    → Exec.done (serial_sent_cb (cleared s)) ≡ Exec.done core
    → s' ≡ with_log log core
    → cleared s' ≡ serial_sent_cb (cleared s)
unfolding serial_sent_cb
sent_core s core s' log e c = ground arith

module _ {U : Type 0} (clock : ℕ → ℕ) (tty_write : ℕ → List ℕ → ℕ) (pdu_cb : PduCb U) (F : Type 0)
    (W : U → Type 0) (answers : Answers F W pdu_cb)
    (takes : (n : ℕ) (frame : List ℕ) → tty_write n frame ≢ length frame → F) (a b : ℕ) where
  -- `serial_recv_cb` for a byte
  receive-Follows :
      (l : RtuImpl U) (byte : ℕ) (f : RtuImpl U → Exec (RtuImpl U)) (cs : List ℕ)
      → Sound clock tty_write pdu_cb F W answers takes a b l
      → IsEvent (receives byte)
      → ((l' : RtuImpl U)
          → Sound clock tty_write pdu_cb F W answers takes a b l'
          → Follows clock tty_write pdu_cb F W answers takes a b cs l'.core (f l'))
      → Follows clock tty_write pdu_cb F W answers takes a b
          (byte ∷ cs)
          l.core
          (perform_all clock tty_write pdu_cb l (serial_recv_cb (cleared l.core) byte) >>= f)
  unfolding step
  receive-Follows l byte f cs v h k =
      stepped clock tty_write pdu_cb F W answers takes a b l (receives byte)
        (done (serial_recv_cb (cleared l.core) byte)) (λ core. f) cs v h
        (ap done (serial_recv_cb-with_log l.core.actions (cleared l.core) byte))
        λ core l' e c v'. k l' v'

  -- The nested call of the loop, behind a frame that was sent.
  nested-Follows :
      (l : RtuImpl U)
      → Sound clock tty_write pdu_cb F W answers takes a b l
      → l.core.status.curr ≡ RtuState.busy
      → Follows clock tty_write pdu_cb F W answers takes a b [] l.core (do
        l' ← perform_all clock tty_write pdu_cb l (serial_sent_cb (cleared l.core))
        event_impl clock tty_write pdu_cb 1 l')
  unfolding step event_impl frames_sent
  nested-Follows l v busy =
      stepped clock tty_write pdu_cb F W answers takes a b l sent
        (done (serial_sent_cb (cleared l.core))) (λ core. event_impl clock tty_write pdu_cb 1) [] v
        tt (ap done (serial_sent_cb-with_log l.core.actions (cleared l.core)))
        λ core l' e c v'.
          stepped clock tty_write pdu_cb F W answers takes a b l' polls
            (modbus_rtu_event pdu_cb (cleared l'.core)) _ [] v' tt
            (modbus_rtu_event-with_log l'.core.actions pdu_cb (cleared l'.core))
            λ core' l'' e' c' v''.
              let quiet : IsSilent core' =
                subst (Ends ⊥ IsSilent)
                  (ap (modbus_rtu_event pdu_cb)
                      (sym (sent_core l.core core l'.core l.core.actions e c))
                    ∙ e')
                  (event_sent pdu_cb (cleared l.core) refl busy) in
              rw quiet (stays clock tty_write pdu_cb F W answers takes a b l'' v'')

  -- what `event_impl` does behind the core's own event
  sent_or_not-Follows :
      (l : RtuImpl U) (frames : List (List ℕ))
      → Sound clock tty_write pdu_cb F W answers takes a b l
      → ((frames ≡ []) ⊎ (l.core.status.curr ≡ RtuState.busy))
      → Follows clock tty_write pdu_cb F W answers takes a b [] l.core (elim frames [
        | [] ↦ done l
        | frame ∷ _ ↦ if not (tty_write l.reads frame == length frame) then fault else do
          l' ← perform_all clock tty_write pdu_cb l (serial_sent_cb (cleared l.core))
          event_impl clock tty_write pdu_cb 1 l'
      ])
  sent_or_not-Follows l [] v h = stays clock tty_write pdu_cb F W answers takes a b l v
  sent_or_not-Follows l (frame ∷ frames) v (inl e) = cc
  sent_or_not-Follows l (frame ∷ frames) v (inr busy) =
      ground (arith, nested-Follows l v busy, takes l.reads frame)

  -- `modbus_rtu_event` runs inside itself once at most.
  pub event-Follows :
      (l : RtuImpl U)
      → Sound clock tty_write pdu_cb F W answers takes a b l
      → Follows clock tty_write pdu_cb F W answers takes a b [] l.core
          (event_impl clock tty_write pdu_cb 2 l)
  unfolding step event_impl frames_sent
  event-Follows l v =
      stepped clock tty_write pdu_cb F W answers takes a b l polls
        (modbus_rtu_event pdu_cb (cleared l.core)) _ [] v tt
        (modbus_rtu_event-with_log l.core.actions pdu_cb (cleared l.core))
        λ core l' e c v'. sent_or_not-Follows l' (frames_sent core.actions) v' (
          busy core l' c
            (subst (Yields IsSilentOrBusy) e (event_busy pdu_cb (cleared l.core) refl)))
    where
      busy :
          (core : State U) (l' : RtuImpl U)
          → l'.core ≡ with_log l.core.actions core
          → IsSilentOrBusy core
          → IsSilent core ⊎ (l'.core.status.curr ≡ RtuState.busy)
      busy core l' c h = ground arith

  recv_bytes-Follows :
      (bytes : List ℕ) (l : RtuImpl U)
      → IsBytes bytes
      → Sound clock tty_write pdu_cb F W answers takes a b l
      → Follows clock tty_write pdu_cb F W answers takes a b bytes l.core
          (recv_bytes clock tty_write pdu_cb bytes l)
  unfolding recv_bytes
  recv_bytes-Follows [] l h v = stays clock tty_write pdu_cb F W answers takes a b l v
  recv_bytes-Follows (byte ∷ bytes) l h v = receive-Follows l byte _ bytes v h.0 λ l' v'.
      then_Follows clock tty_write pdu_cb F W answers takes a b [] bytes l'.core
        (event_impl clock tty_write pdu_cb 2 l') _ (event-Follows l' v')
        λ l'' v''. recv_bytes-Follows bytes l'' h.1 v''

  -- where the adapter's timer runs, so does the core's
  expire-with_log :
      (l : RtuImpl U)
      → Sound clock tty_write pdu_cb F W answers takes a b l
      → l.timer.timeout_us ≢ none
      → expire l.core ≡ then_log l.core.actions (call_timer_cb (cleared l.core))
  unfolding expire
  expire-with_log l v n =
      by_timer (timer_after l.core.actions) v.1
        (call_timer_cb-with_log l.core.actions (cleared l.core))
    where
      by_timer :
          (o : Option Timer)
          → Agrees a b o l.timer
          → {m n : Exec (State U)} → m ≡ n
          → elim o [ none ↦ done l.core | some t ↦ elim t [ stopped ↦ done l.core | _ ↦ m ] ] ≡ n
      by_timer none h e = absurd h
      by_timer (some stopped) h e = absurd (n h.0)
      by_timer (some running_1t5) h e = e
      by_timer (some running_3t5) h e = e

  timeout_impl-Follows :
      (l : RtuImpl U)
      → Sound clock tty_write pdu_cb F W answers takes a b l
      → Follows clock tty_write pdu_cb F W answers takes a b [] l.core
          (timeout_impl clock tty_write pdu_cb l)
  unfolding timeout_impl step
  timeout_impl-Follows l v = by_timeout l.timer.timeout_us refl
    where
      by_timeout :
          (o : Option ℕ)
          → l.timer.timeout_us ≡ o
          → Follows clock tty_write pdu_cb F W answers takes a b [] l.core (elim o [
            | none ↦ done l
            | some timeout_us ↦
                let now = clock l.reads in
                let later = record l { reads = l.reads + 1 } in
                if not (leb (l.timer.timestamp_us + timeout_us) now) then done later else do
                  core ← call_timer_cb (cleared l.core)
                  l' ← perform_all clock tty_write pdu_cb later core
                  event_impl clock tty_write pdu_cb 2 l'
          ])
      by_timeout none e = stays clock tty_write pdu_cb F W answers takes a b l v
      by_timeout (some t) e =
          let later = record l { reads = l.reads + 1 } in
          ground (
            arith,
            stays clock tty_write pdu_cb F W answers takes a b later v,
            stepped clock tty_write pdu_cb F W answers takes a b later expires
                (call_timer_cb (cleared l.core)) _ [] v tt (expire-with_log l v λ e'. cc)
                λ core l' e' c v'. event-Follows l' v',
          )

  round-Follows :
      (r : Round) (l : RtuImpl U)
      → IsBytes r.bytes
      → Sound clock tty_write pdu_cb F W answers takes a b l
      → Follows clock tty_write pdu_cb F W answers takes a b r.bytes l.core
          (round clock tty_write pdu_cb r l)
  unfolding round
  round-Follows r l h v =
      subst
        (λ bs.
          Follows clock tty_write pdu_cb F W answers takes a b bs l.core
            (round clock tty_write pdu_cb r l))
        (append_nil r.bytes)
        (then_Follows clock tty_write pdu_cb F W answers takes a b r.bytes [] l.core
          (recv_bytes clock tty_write pdu_cb r.bytes l) _ (recv_bytes-Follows r.bytes l h v)
          timeout_impl-Follows)

  pub rounds-Follows :
      (rs : List Round) (l : RtuImpl U)
      → AreRounds rs
      → Sound clock tty_write pdu_cb F W answers takes a b l
      → Follows clock tty_write pdu_cb F W answers takes a b
          (bytes_taken rs)
          l.core
          (rounds clock tty_write pdu_cb rs l)
  unfolding rounds
  rounds-Follows [] l h v = stays clock tty_write pdu_cb F W answers takes a b l v
  rounds-Follows (r ∷ rs) l h v =
      then_Follows clock tty_write pdu_cb F W answers takes a b r.bytes
        (if r.stops then [] else bytes_taken rs) l.core (round clock tty_write pdu_cb r l) _
        (round-Follows r l h.0 v)
        λ l' v'. ground (
          arith,
          stays clock tty_write pdu_cb F W answers takes a b l' v',
          rounds-Follows rs l' h.1 v',
        )
