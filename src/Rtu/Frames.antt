-- ===== src/Rtu/Frames.antt =====
-- From the first byte of a frame to its answer: the reception, the two timers, and the processing.
use modbus_c.Prelude.{
  some, ℕ, ◌≤◌, ◌≡◌, refl, ◌∙◌, true, false, List, [], ◌∷◌, ◌++◌, length, drop, Exec, done, fault,
  stuck, ◌>>=◌, if◌then◌else◌, arith,
}
use modbus_c.Rtu.{
  RtuState, Action, State, PduCb, dispatch, frame_end, adu_process, modbus_rtu_event,
  timer_silent_interval_cb, timer_inter_frame_timeout_cb, act,
}
use modbus_c.Rtu.Timer.{stopped, timer_call, timer_after}
use modbus_c.Rtu.Schedule.{Event, polls, expires, step, run, expire, call_timer_cb}
use modbus_c.Rtu.Receive.{AreArrivals, received, frames_sent, Receiving, run-Receiving}

pub run-append :
    {U : Type 0} (pdu_cb : PduCb U) (es fs : List Event) (s : State U)
    → run pdu_cb s (es ++ fs) ≡ (run pdu_cb s es >>= λ s'. run pdu_cb s' fs)
unfolding run
run-append pdu_cb [] fs s = refl
run-append pdu_cb (e ∷ es) fs s =
    through pdu_cb es fs (step pdu_cb s e) λ s'. run-append pdu_cb es fs s'
  where
    through :
        {U : Type 0} (pdu_cb : PduCb U) (es fs : List Event) (m : Exec (State U))
        → ((s' : State U)
            → run pdu_cb s' (es ++ fs) ≡ (run pdu_cb s' es >>= λ s''. run pdu_cb s'' fs))
        → (m >>= λ s'. run pdu_cb s' (es ++ fs))
          ≡ ((m >>= λ s'. run pdu_cb s' es) >>= λ s''. run pdu_cb s'' fs)
    through pdu_cb es fs (done s') h = h s'
    through pdu_cb es fs fault h = refl
    through pdu_cb es fs stuck h = refl

-- the end of a frame: the two timers, with a round of the loop between them
abbrev pub silence : List Event
silence = expires ∷ polls ∷ expires ∷ []

-- A slave behind a frame `bs` that the loop has not seen yet; `s0` is the state it listened in.
pub record Arrived {U : Type 0} (s0 : State U) (bs : List ℕ) (s : State U) : Type 0 where
  pub curr : s.status.curr ≡ RtuState.idle
  pub prev : s.status.prev ≡ RtuState.eof
  pub updated : s.status.updated ≡ true
  pub no_error : s.status.error ≡ false
  pub timer : timer_after s.actions ≡ some stopped
  pub rxbuf : s.rxbuf ≡ bs ++ drop (length bs) s0.rxbuf
  pub rxbuf_curr : s.rxbuf_curr ≡ length bs
  pub txbuf : (s.txbuf ≡ s0.txbuf) × (s.txbuf_curr ≡ s0.txbuf_curr)
  pub user_data : s.user_data ≡ s0.user_data
  pub sent : frames_sent s.actions ≡ frames_sent s0.actions
  pub stats : s.stats ≡ s0.stats

module _ {U : Type 0} (s0 : State U) (pdu_cb : PduCb U) where
  silence-Arrived :
      (x y : ℕ) (bs : List ℕ) (s : State U)
      → Receiving s0 (x ∷ y ∷ bs) s
      → (s' : State U) × (run pdu_cb s silence ≡ done s') × Arrived s0 (x ∷ y ∷ bs) s'
  unfolding run step expire call_timer_cb timer_inter_frame_timeout_cb timer_silent_interval_cb
      modbus_rtu_event dispatch timer_after timer_call frames_sent
  silence-Arrived x y bs s v =
      let s1 = timer_inter_frame_timeout_cb s in
      let s2 = record s1 { status = record (s1.status) { updated = false } } in
      (timer_silent_interval_cb s2, ground (arith, v, v.place), ground (arith, v, v.place))

  -- A run over the bytes of a frame and the silence behind it.
  pub frame-Arrived :
      (es : List Event)
      → length s0.rxbuf ≡ 256
      → Receiving s0 [] s0
      → AreArrivals es
      → 2 ≤ length (received es)
      → length (received es) ≤ 256
      → (s' : State U) × (run pdu_cb s0 (es ++ silence) ≡ done s') × Arrived s0 (received es) s'
  frame-Arrived es size v a lo hi =
      let r = run-Receiving s0 size pdu_cb es [] s0 a (omega arith) v in
      let q = at_end (received es) r.0 lo r.2 in
      (q.0, run-append pdu_cb es silence s0 ∙ rw (r.1) q.1, q.2)
    where
      at_end :
          (bs : List ℕ) (s : State U)
          → 2 ≤ length bs
          → Receiving s0 bs s
          → (s' : State U) × (run pdu_cb s silence ≡ done s') × Arrived s0 bs s'
      at_end [] s h v = absurd (omega arith)
      at_end (x ∷ []) s h v = absurd (omega arith)
      at_end (x ∷ y ∷ bs) s h v = silence-Arrived x y bs s v

  -- what the last round of the loop makes of the frame
  pub frame_end-event :
      (bs : List ℕ) (s s' : State U)
      → Arrived s0 bs s
      → s0.txbuf_curr ≡ 0
      → adu_process pdu_cb (record s { status = record (s.status) { updated = false } }) ≡ done s'
      → modbus_rtu_event pdu_cb s ≡ done (if s'.has_resume_cb then act Action.resume s' else s')
  unfolding modbus_rtu_event dispatch frame_end
  frame_end-event bs s s' v t e = ground (arith, v, e)
