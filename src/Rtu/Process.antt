-- ===== src/Rtu/Process.antt =====
-- The processing of a received ADU keeps the invariant and meets no fault of its own: a fault can
-- only be that of the callback (`F`).
use modbus_c.Prelude.{
  ℕ, zero, suc, ◌+◌, ◌-◌, ◌≤◌, ◌≡◌, refl, ap, ◌∙◌, Bool, true, false, some, List, [], ◌∷◌, ◌++◌,
  ◌==◌, if◌then◌else◌, length, length-append, length-drop, take, drop, set, length-set, get_or,
  done, ◌>>=◌, Ends, Ends-bind, load_in, store_in, IsByte, IsBytes, AreBytes, set-IsBytes,
  IsBytes-append, arith,
}
use modbus_c.Memory.Fields.{get_or-IsByte}
use modbus_c.Crc.{modbus_rtu_calc_crc}
use modbus_c.Crc.Table.{calc_crc-IsPair}
use modbus_c.Rtu.{RtuState, State, PduCb, adu_check, fill, reply, adu_answer, adu_process, fail}
use modbus_c.Rtu.Timer.{stopped, timer_call, timer_after}
use modbus_c.Rtu.Invariant.{Inv}

pub fill-eq :
    (buf bs : List ℕ) → length bs ≤ length buf → fill buf bs ≡ done (bs ++ drop (length bs) buf)
unfolding fill
fill-eq buf [] h = refl
fill-eq [] (b ∷ bs) h = absurd (omega arith)
fill-eq (x ∷ buf) (b ∷ bs) h = rw (fill-eq buf bs (omega arith))

pub drop-IsBytes : (n : ℕ) (bs : List ℕ) → IsBytes bs → IsBytes (drop n bs)
drop-IsBytes zero bs h = h
drop-IsBytes (suc n) [] h = tt
drop-IsBytes (suc n) (b ∷ bs) h = drop-IsBytes n bs h.1

pub take-IsBytes : (n : ℕ) (bs : List ℕ) → IsBytes bs → IsBytes (take n bs)
take-IsBytes zero bs h = tt
take-IsBytes (suc n) [] h = tt
take-IsBytes (suc n) (b ∷ bs) h = (h.0, take-IsBytes n bs h.1)

-- What is asked of a callback for requests in a buffer of 256 bytes: that it does not loop, keeps a
-- property `W` of the user's data, and answers with at most 254 bytes. `F` holds where it faults.
abbrev pub Answers : {U : Type 0} → Type 0 → (U → Type 0) → PduCb U → Type 0
Answers {U} F W pdu_cb =
    (user : U) (addr fcode : ℕ) (rxbuf : List ℕ) (end : ℕ)
    → W user
    → IsByte addr
    → AreBytes 256 rxbuf
    → 2 ≤ end
    → end + 2 ≤ 256
    → Ends F (λ out. W out.0 × IsBytes out.1 × (length out.1 ≤ 254))
        (pdu_cb user addr fcode rxbuf 0 end 2)

module _ {U : Type 0} (F : Type 0) (W : U → Type 0) (pdu_cb : PduCb U) where
  abbrev pub Good : State U → Type 0
  Good s = Inv s × W s.user_data

  -- what `adu_check` leaves alone
  abbrev Checked : State U → State U × Bool → Type 0
  Checked s out = Good out.0 × (out.0.status ≡ s.status) × ((out.1 ≡ true) → 4 ≤ out.0.rxbuf_curr)

  adu_check-Checked : (s : State U) → Good s → Ends F (Checked s) (adu_check s)
  unfolding adu_check
  adu_check-Checked s v = ground (
    arith,
    v.0,
    v.0.phase,
    load_in s.rxbuf (s.rxbuf_curr - 2),
    load_in s.rxbuf (s.rxbuf_curr - 1),
  )

  -- a state in which a reply of `txbuf_curr` bytes stands in the buffer
  record IsReady (s : State U) : Type 0 where
    rxbuf : AreBytes 256 s.rxbuf
    rxbuf_curr : s.rxbuf_curr ≤ 256
    txbuf : AreBytes 256 s.txbuf
    txbuf_curr : s.txbuf_curr ≤ 254
    curr : s.status.curr ≡ RtuState.idle
    timer : timer_after s.actions ≡ some stopped
    user : W s.user_data

  reply-Good : (s : State U) → IsReady s → Ends F Good (reply s)
  unfolding reply timer_after timer_call
  reply-Good s v =
      let crc = modbus_rtu_calc_crc (take s.txbuf_curr s.txbuf) in
      let is =
        calc_crc-IsPair (take s.txbuf_curr s.txbuf) (take-IsBytes s.txbuf_curr s.txbuf v.txbuf.1) in
      let first = set s.txbuf s.txbuf_curr crc.low in
      ground (
        arith,
        is,
        v,
        store_in s.txbuf s.txbuf_curr crc.low,
        length-set s.txbuf s.txbuf_curr crc.low,
        set-IsBytes s.txbuf s.txbuf_curr crc.low v.txbuf.1 is.0,
        store_in first (s.txbuf_curr + 1) crc.high,
        length-set first (s.txbuf_curr + 1) crc.high,
        set-IsBytes first (s.txbuf_curr + 1) crc.high,
      )

module _ {U : Type 0} (F : Type 0) (W : U → Type 0) (pdu_cb : PduCb U)
    (answers : Answers F W pdu_cb) where
  -- the state behind a callback that wrote `bytes`
  answered-Good :
      (s : State U) (user : U) (bytes : List ℕ)
      → Good F W pdu_cb s
      → s.status.curr ≡ RtuState.idle
      → W user
      → IsBytes bytes
      → length bytes ≤ 254
      → Ends F (Good F W pdu_cb) (do
        txbuf ← fill s.txbuf bytes
        let s' = record s {
          user_data = user;
          txbuf = txbuf;
          txbuf_curr = length bytes;
          rxbuf_curr = 0;
        }
        if s'.txbuf_curr == 0 then done s' else reply s')
  answered-Good s user bytes v e w h few =
      let rest = drop (length bytes) s.txbuf in
      ground (
        arith,
        v.0,
        v.0.phase,
        fill-eq s.txbuf bytes (omega (arith, v.0)),
        length-append bytes rest,
        length-drop (length bytes) s.txbuf,
        IsBytes-append bytes rest h (drop-IsBytes (length bytes) s.txbuf v.0.txbuf.1),
        reply-Good F W pdu_cb (record s {
          user_data = user;
          txbuf = bytes ++ rest;
          txbuf_curr = length bytes;
          rxbuf_curr = 0;
        }),
      )

  pub adu_answer-Good :
      (s : State U)
      → Good F W pdu_cb s
      → s.status.curr ≡ RtuState.idle
      → 4 ≤ s.rxbuf_curr
      → Ends F (Good F W pdu_cb) (adu_answer pdu_cb s)
  unfolding adu_answer
  adu_answer-Good s v e long =
      rw (load_in s.rxbuf 0 (omega (arith, v.0)), load_in s.rxbuf 1 (omega (arith, v.0)), Ends)
        (Ends-bind F (λ out. W out.0 × IsBytes out.1 × (length out.1 ≤ 254)) (Good F W pdu_cb)
          (pdu_cb s.user_data (get_or s.rxbuf 0 0) (get_or s.rxbuf 1 0) s.rxbuf 0 (s.rxbuf_curr - 2)
            2)
          _
          (answers s.user_data _ _ s.rxbuf (s.rxbuf_curr - 2) v.1
            (get_or-IsByte s.rxbuf 0 v.0.rxbuf.1) v.0.rxbuf (omega arith) (omega (arith, v.0)))
          λ out h. answered-Good s out.0 out.1 v e h.0 h.1 h.2)

  pub adu_process-Good :
      (s : State U)
      → Good F W pdu_cb s
      → s.status.curr ≡ RtuState.idle
      → Ends F (Good F W pdu_cb) (adu_process pdu_cb s)
  unfolding adu_process
  adu_process-Good s v e =
      Ends-bind F (Checked F W pdu_cb s) (Good F W pdu_cb) (adu_check s) _
        (adu_check-Checked F W pdu_cb s v) checked
    where
      checked :
          (out : State U × Bool)
          → Checked F W pdu_cb s out
          → Ends F (Good F W pdu_cb) (if out.1 then adu_answer pdu_cb out.0 else done (fail out.0))
      checked (s', true) h = adu_answer-Good s' h.0 (ap (λ t. t.curr) h.1 ∙ e) (h.2 refl)
      checked (s', false) h = ground (arith, h.0.0, h.0.0.phase, h.0.1)
