-- ===== src/Rtu/Receive.antt =====
-- The reception of a frame, byte by byte, with rounds of the event loop anywhere between.
use modbus_c.Prelude.{
  ℕ, suc, ◌+◌, ◌≤◌, ◌<◌, ◌≡◌, refl, ◌⊎◌, inl, inr, true, false, some, List, [], ◌∷◌, ◌++◌, length,
  length-append, drop, get_or, set, drop-cons, done, Bool-cases, arith,
}
use modbus_c.Prelude.Behind.{append_assoc, append_nil, set_behind}
use modbus_c.Rtu.{
  RtuState, inter_frame_timeout, Action, State, PduCb, rxbuf_append, serial_recv_cb, dispatch,
  modbus_rtu_event, suspended,
}
use modbus_c.Rtu.Timer.{stopped, running_1t5, timer_call, timer_after}
use modbus_c.Rtu.Schedule.{Event, receives, receive_fails, polls, expires, sent, step, run}

-- bytes and rounds of the loop, in any order, and the bytes alone
abbrev pub AreArrivals : List Event → Type 0
AreArrivals [] = Unit {0}
AreArrivals (receives b ∷ es) = AreArrivals es
AreArrivals (polls ∷ es) = AreArrivals es
AreArrivals (_ ∷ es) = ⊥

abbrev pub received : List Event → List ℕ
received [] = []
received (receives b ∷ es) = b ∷ received es
received (_ ∷ es) = received es

-- the frames that were sent, the last first
unfoldable pub frames_sent : List Action → List (List ℕ)
frames_sent [] = []
frames_sent (Action.send frame ∷ rest) = frame ∷ frames_sent rest
frames_sent (_ ∷ rest) = frames_sent rest

-- where the bytes that have come put the status and the timer
abbrev pub Place : {U : Type 0} → List ℕ → State U → Type 0
Place [] s =
    (s.status.curr ≡ RtuState.idle)
    × ((s.status.prev ≡ RtuState.init) ⊎ (s.status.updated ≡ false))
    × (timer_after s.actions ≡ some stopped)
Place (_ ∷ []) s =
    (s.status.curr ≡ RtuState.sof)
    × (s.status.prev ≡ RtuState.idle)
    × (s.timer_cb ≡ inter_frame_timeout)
    × (timer_after s.actions ≡ some running_1t5)
Place (_ ∷ _ ∷ _) s =
    (s.status.curr ≡ RtuState.recv)
    × (s.timer_cb ≡ inter_frame_timeout)
    × (timer_after s.actions ≡ some running_1t5)

-- A slave that listened in the state `s0`, behind the bytes `bs`.
pub record Receiving {U : Type 0} (s0 : State U) (bs : List ℕ) (s : State U) : Type 0 where
  pub place : Place bs s
  pub no_error : s.status.error ≡ false
  pub rxbuf : s.rxbuf ≡ bs ++ drop (length bs) s0.rxbuf
  pub rxbuf_curr : s.rxbuf_curr ≡ length bs
  pub txbuf : (s.txbuf ≡ s0.txbuf) × (s.txbuf_curr ≡ s0.txbuf_curr)
  pub user_data : s.user_data ≡ s0.user_data
  pub callbacks : (s.has_suspend_cb ≡ s0.has_suspend_cb) × (s.has_resume_cb ≡ s0.has_resume_cb)
  pub sent : frames_sent s.actions ≡ frames_sent s0.actions
  pub stats : s.stats ≡ s0.stats

module _ {U : Type 0} (s0 : State U) (size : length s0.rxbuf ≡ 256) where
  -- the buffer with one more byte
  one_more :
      (bs : List ℕ) (b : ℕ)
      → length bs < 256
      → set (bs ++ drop (length bs) s0.rxbuf) (length bs) b
        ≡ (bs ++ b ∷ []) ++ drop (length (bs ++ b ∷ [])) s0.rxbuf
  one_more bs b h = ground (
    arith,
    drop-cons s0.rxbuf (length bs),
    set_behind bs (drop (suc (length bs)) s0.rxbuf) (get_or s0.rxbuf (length bs) 0) b,
    length-append bs (b ∷ []),
    append_assoc bs (b ∷ []) (drop (suc (length bs)) s0.rxbuf),
  )

  byte-Receiving :
      (bs : List ℕ) (b : ℕ) (s : State U)
      → length bs < 256
      → Receiving s0 bs s
      → Receiving s0 (bs ++ b ∷ []) (serial_recv_cb s b)
  unfolding serial_recv_cb rxbuf_append timer_after timer_call frames_sent
  byte-Receiving [] b s h v = ground (arith, v, v.place, one_more [] b)
  byte-Receiving (x ∷ []) b s h v = ground (arith, v, v.place, one_more (x ∷ []) b)
  byte-Receiving (x ∷ y ∷ bs) b s h v =
      ground (arith, v, v.place, one_more (x ∷ y ∷ bs) b h, length-append bs (b ∷ []))

  poll-Receiving :
      (pdu_cb : PduCb U) (bs : List ℕ) (s : State U)
      → Receiving s0 bs s
      → (s' : State U) × (modbus_rtu_event pdu_cb s ≡ done s') × Receiving s0 bs s'
  unfolding modbus_rtu_event dispatch timer_after timer_call frames_sent
  poll-Receiving pdu_cb bs s v = elim (Bool-cases s.status.updated) [
    | inr e ↦ (s, ground (arith, e), v)
    | inl e ↦ updated bs e v
  ]
    where
      taken : State U
      taken = record s { status = record (s.status) { updated = false } }

      updated :
          (bs : List ℕ)
          → s.status.updated ≡ true
          → Receiving s0 bs s
          → (s' : State U) × (modbus_rtu_event pdu_cb s ≡ done s') × Receiving s0 bs s'
      updated [] e v = (taken, ground (arith, e, v, v.place), ground (arith, v, v.place))
      updated (x ∷ []) e v =
          (suspended taken, ground (arith, e, v, v.place), ground (arith, v, v.place))
      updated (x ∷ y ∷ bs) e v = (taken, ground (arith, e, v, v.place), ground (arith, v, v.place))

  -- A slave behind the bytes `bs` of a frame is sent more, with rounds of its loop anywhere between
  -- them, up to 256 in all. The run ends, and the receive buffer starts with all the bytes in order
  -- and is as before behind them; the user's data, what was sent and the counters stay, and there
  -- is no error.
  pub run-Receiving :
      (pdu_cb : PduCb U) (es : List Event) (bs : List ℕ) (s : State U)
      → AreArrivals es
      → length bs + length (received es) ≤ 256
      → Receiving s0 bs s
      → (s' : State U) × (run pdu_cb s es ≡ done s') × Receiving s0 (bs ++ received es) s'
  unfolding run step
  run-Receiving pdu_cb [] bs s a h v = (s, refl, rw (append_nil bs) v)
  run-Receiving pdu_cb (receives b ∷ es) bs s a h v =
      let r =
        run-Receiving pdu_cb es (bs ++ b ∷ []) (serial_recv_cb s b) a
          (omega (arith, length-append bs (b ∷ []))) (byte-Receiving bs b s (omega arith) v) in
      (r.0, r.1, rw (← append_assoc bs (b ∷ []) (received es)) r.2)
  run-Receiving pdu_cb (polls ∷ es) bs s a h v =
      let p = poll-Receiving pdu_cb bs s v in
      let r = run-Receiving pdu_cb es bs p.0 a h p.2 in (r.0, rw (p.1) r.1, r.2)
  run-Receiving pdu_cb (receive_fails _ ∷ es) bs s a h v = elim a [ ]
  run-Receiving pdu_cb (expires ∷ es) bs s a h v = elim a [ ]
  run-Receiving pdu_cb (sent ∷ es) bs s a h v = elim a [ ]
