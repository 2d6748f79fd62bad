-- ===== src/Rtu/Answer.antt =====
-- A slave that listens, over the whole of a frame's time.
use modbus_c.Prelude.{
  some, ℕ, ◌+◌, ◌≤◌, ◌≡◌, refl, ap, ◌∙◌, true, false, List, [], ◌∷◌, ◌++◌, length, length-append,
  length-drop, drop, get_or, done, if◌then◌else◌, IsBytes, IsBytes-append, arith,
}
use modbus_c.Wire.{u8}
use modbus_c.Crc.Frame.{frame, length-frame, HasCrc, frame-HasCrc}
use modbus_c.Rtu.{RtuState, Status, Action, State, PduCb, adu_process, modbus_rtu_event, act, fail}
use modbus_c.Rtu.Process.{drop-IsBytes}
use modbus_c.Rtu.Timer.{stopped, timer_call, timer_after}
use modbus_c.Rtu.Schedule.{Event, polls, step, run}
use modbus_c.Rtu.Receive.{AreArrivals, received, frames_sent, Receiving}
use modbus_c.Rtu.Serve.{sending, adu_process-sending, adu_process-crc_error}
use modbus_c.Rtu.Frames.{run-append, silence, Arrived, frame-Arrived, frame_end-event}

-- A slave that waits for a frame, with buffers of their size and nothing to send.
pub record IsListening {U : Type 0} (s : State U) : Type 0 where
  pub rxbuf : length s.rxbuf ≡ 256
  pub txbuf : (length s.txbuf ≡ 256) × (s.txbuf_curr ≡ 0)
  pub receiving : Receiving s [] s

-- the bytes of a frame, the silence behind it, and a round of the loop
abbrev pub frame_time : List Event → List Event
frame_time es = (es ++ silence) ++ polls ∷ []

module _ {U : Type 0} (s : State U) where
  abbrev resumed : State U → State U
  resumed t = if t.has_resume_cb then act Action.resume t else t

  resumed-keeps :
      (t : State U)
      → (frames_sent (resumed t).actions ≡ frames_sent t.actions)
        × ((resumed t).user_data ≡ t.user_data)
        × ((resumed t).status ≡ t.status)
        × ((resumed t).stats ≡ t.stats)
        × (timer_after (resumed t).actions ≡ timer_after t.actions)
  unfolding frames_sent timer_after timer_call
  resumed-keeps t = ground arith

  last_round :
      (pdu_cb : PduCb U) (es : List Event) (t t' : State U)
      → run pdu_cb s (es ++ silence) ≡ done t
      → modbus_rtu_event pdu_cb t ≡ done t'
      → run pdu_cb s (frame_time es) ≡ done t'
  unfolding run step
  last_round pdu_cb es t t' e f = run-append pdu_cb (es ++ silence) (polls ∷ []) s ∙ rw (e, f) refl

abbrev seen : {U : Type 0} → State U → State U
seen s = record s { status = record (s.status) { updated = false } }

module _ {U : Type 0} (pdu_cb : PduCb U) (s : State U) (listening : IsListening s) where
  processed :
      (req : List ℕ) (t : State U) (user : U) (bytes : List ℕ)
      → Arrived s (frame req) t
      → 2 ≤ length req
      → length req ≤ 254
      → pdu_cb s.user_data
          (get_or req 0 0)
          (get_or req 1 0)
          (frame req ++ drop (length req + 2) s.rxbuf)
          0
          (length req)
          2
        ≡ done (user, bytes)
      → 1 ≤ length bytes
      → length bytes ≤ 254
      → adu_process pdu_cb (seen t)
        ≡ done (sending bytes (record (seen t) { user_data = user; rxbuf_curr = 0 }))
  processed [] t user bytes a lo hi cb any few = absurd (omega arith)
  processed (x ∷ []) t user bytes a lo hi cb any few = absurd (omega arith)
  processed (x ∷ y ∷ r) t user bytes a lo hi cb any few =
      let req = x ∷ y ∷ r in
      let rest = drop (length req + 2) s.rxbuf in
      let n = length-frame req in
      adu_process-sending pdu_cb (seen t) user bytes (omega (arith, a.rxbuf_curr, n))
        (omega (
          arith,
          a.rxbuf_curr,
          n,
          listening,
          length-append (frame req) rest,
          length-drop (length req + 2) s.rxbuf,
          ap length (has_frame req t a),
        ))
        (ground (arith, a.rxbuf_curr, n, has_frame req t a, frame-HasCrc req rest))
        (ground (arith, a.rxbuf_curr, a.user_data, n, has_frame req t a, cb)) any
        (omega (arith, listening.txbuf, ap length (a.txbuf.0)))
    where
      has_frame :
          (req : List ℕ) (t : State U)
          → Arrived s (frame req) t
          → t.rxbuf ≡ frame req ++ drop (length req + 2) s.rxbuf
      has_frame req t a = ground (arith, a.rxbuf, length-frame req)

  answered_at :
      (es : List Event) (req : List ℕ) (t : State U) (user : U) (bytes : List ℕ)
      → run pdu_cb s (es ++ silence) ≡ done t
      → Arrived s (frame req) t
      → adu_process pdu_cb (seen t)
        ≡ done (sending bytes (record (seen t) { user_data = user; rxbuf_curr = 0 }))
      → (s' : State U) × (run pdu_cb s (frame_time es) ≡ done s')
        × (frames_sent s'.actions ≡ frame bytes ∷ frames_sent s.actions)
        × (s'.user_data ≡ user)
        × (s'.status.curr ≡ RtuState.busy)
        × (s'.status.error ≡ false)
        × (timer_after s'.actions ≡ some stopped)
  unfolding sending frames_sent timer_after timer_call
  answered_at es req t user bytes e a p =
      let t' = sending bytes (record (seen t) { user_data = user; rxbuf_curr = 0 }) in
      let k = resumed-keeps s t' in
      (
        resumed s t',
        last_round s pdu_cb es t (resumed s t') e
            (frame_end-event s pdu_cb (frame req) t t' a listening.txbuf.1 p),
        k.0 ∙ ap (λ fs. frame bytes ∷ fs) a.sent,
        k.1,
        ap (λ (q : Status). q.curr) k.2,
        ap (λ (q : Status). q.error) k.2 ∙ a.no_error,
        ground (arith, k.4, a.timer),
      )

  -- A slave that listens is sent a frame of 4 to 256 bytes, with rounds of its loop anywhere
  -- between the bytes, then the two timers expire and the loop runs. If the callback answers the
  -- request with 1 to 254 bytes, the slave sends exactly one frame, that reply with its CRC, has
  -- the callback's data, and is busy, without an error and with its timer stopped.
  pub frame_time-answered :
      (es : List Event) (req : List ℕ) (user : U) (bytes : List ℕ)
      → AreArrivals es
      → received es ≡ frame req
      → 2 ≤ length req
      → length req ≤ 254
      → pdu_cb s.user_data
          (get_or req 0 0)
          (get_or req 1 0)
          (frame req ++ drop (length req + 2) s.rxbuf)
          0
          (length req)
          2
        ≡ done (user, bytes)
      → 1 ≤ length bytes
      → length bytes ≤ 254
      → (s' : State U) × (run pdu_cb s (frame_time es) ≡ done s')
        × (frames_sent s'.actions ≡ frame bytes ∷ frames_sent s.actions)
        × (s'.user_data ≡ user)
        × (s'.status.curr ≡ RtuState.busy)
        × (s'.status.error ≡ false)
        × (timer_after s'.actions ≡ some stopped)
  frame_time-answered es req user bytes arrivals e lo hi cb any few =
      let n = length-frame req in
      let m : length (received es) ≡ length req + 2 = rw (e) n in
      let a =
        frame-Arrived s pdu_cb es listening.rxbuf listening.receiving arrivals (omega (arith, m))
          (omega (arith, m)) in
      let v = as_frame a.0 (received es) (frame req) e a.2 in
      answered_at es req a.0 user bytes a.1 v (processed req a.0 user bytes v lo hi cb any few)
    where
      as_frame : (t : State U) (bs cs : List ℕ) → bs ≡ cs → Arrived s bs t → Arrived s cs t
      as_frame t bs cs e a = rw (← e) a

  -- A slave that listens is sent 4 to 256 bytes that do not end with the CRC of those before it,
  -- with rounds of its loop anywhere between them, then the two timers expire and the loop runs.
  -- The user's data stays, nothing is sent, the counter of CRC errors goes up by one modulo 256,
  -- and the error is left marked for a later round.
  pub frame_time-dropped :
      (es : List Event)
      → IsBytes s.rxbuf
      → IsBytes (received es)
      → AreArrivals es
      → 4 ≤ length (received es)
      → length (received es) ≤ 256
      → ¬ HasCrc (received es ++ drop (length (received es)) s.rxbuf) (length (received es))
      → (s' : State U) × (run pdu_cb s (frame_time es) ≡ done s')
        × (frames_sent s'.actions ≡ frames_sent s.actions)
        × (s'.user_data ≡ s.user_data)
        × (s'.status.error ≡ true)
        × (s'.stats.crc_err_cntr ≡ u8 (s.stats.crc_err_cntr + 1))
  frame_time-dropped es b0 b arrivals lo hi bad =
      let n = length (received es) in
      let a =
        frame-Arrived s pdu_cb es listening.rxbuf listening.receiving arrivals (omega arith) hi in
      let t = a.0 in
      let v = a.2 in
      let rest = drop n s.rxbuf in
      let t' = fail (record (seen t) {
        stats = record (t.stats) { crc_err_cntr = u8 (t.stats.crc_err_cntr + 1) };
      }) in
      let p : adu_process pdu_cb (seen t) ≡ done t' =
        adu_process-crc_error pdu_cb (seen t) (omega (arith, v.rxbuf_curr))
          (omega (arith, v.rxbuf_curr, ap length v.rxbuf, length-append (received es) rest))
          (rw (v.rxbuf) (IsBytes-append (received es) rest b (drop-IsBytes n s.rxbuf b0)))
          (λ h. bad (ground (arith, h, v.rxbuf, v.rxbuf_curr))) in
      let k = resumed-keeps s t' in
      (
        resumed s t',
        last_round s pdu_cb es t (resumed s t') a.1
            (frame_end-event s pdu_cb (received es) t t' v listening.txbuf.1 p),
        k.0 ∙ v.sent,
        k.1 ∙ v.user_data,
        ap (λ (q : Status). q.error) k.2,
        ground (arith, k.3, v.stats),
      )
