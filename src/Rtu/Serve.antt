-- ===== src/Rtu/Serve.antt =====
-- The processing of a frame: what is answered, and what is dropped.
use modbus_c.Prelude.{
  ℕ, ◌+◌, ◌-◌, ◌≤◌, ◌<◌, ◌≡◌, refl, true, List, [], ◌∷◌, ◌++◌, length, length-append, length-drop,
  take, drop, get_or, done, load_in, store_in, IsBytes, arith,
}
use modbus_c.Prelude.Behind.{append_assoc, set_behind, take_behind, drop-drop}
use modbus_c.Wire.{u8, crc_to_word}
use modbus_c.Crc.{modbus_rtu_calc_crc}
use modbus_c.Crc.Frame.{frame, length-frame, HasCrc}
use modbus_c.Rtu.{
  RtuState, Action, State, PduCb, act, update, fail, adu_check, reply, adu_answer, adu_process,
}
use modbus_c.Rtu.Process.{fill-eq, take-IsBytes}
use modbus_c.Crc.Table.{calc_crc-IsPair}
use modbus_c.Memory.Fields.{get_or-IsByte}
use modbus_c.Wire.Words.{make_word-eq}

-- what a slave does to send `bytes` with their CRC
unfoldable pub sending : {U : Type 0} → List ℕ → State U → State U
sending bytes s = act (Action.send (frame bytes)) (
    update RtuState.busy (record s {
      txbuf = frame bytes ++ drop (length bytes + 2) s.txbuf;
      txbuf_curr = length bytes + 2;
    }))

module _ {U : Type 0} (s : State U) where
  pub adu_check-accepts :
      4 ≤ s.rxbuf_curr
      → s.rxbuf_curr ≤ length s.rxbuf
      → HasCrc s.rxbuf s.rxbuf_curr
      → adu_check s ≡ done (s, true)
  unfolding adu_check
  adu_check-accepts h k v =
      ground (arith, v, load_in s.rxbuf (s.rxbuf_curr - 2), load_in s.rxbuf (s.rxbuf_curr - 1))

  reply-sending :
      (bytes rest : List ℕ)
      → s.txbuf ≡ bytes ++ rest
      → s.txbuf_curr ≡ length bytes
      → 2 ≤ length rest
      → reply s
        ≡ done (
            act (Action.send (frame bytes)) (
              update RtuState.busy
                (record s { txbuf = frame bytes ++ drop 2 rest; txbuf_curr = length bytes + 2 })))
  unfolding reply
  reply-sending bytes [] e n h = absurd (omega arith)
  reply-sending bytes (x ∷ []) e n h = absurd (omega arith)
  reply-sending bytes (x ∷ y ∷ rest) e n h =
      let crc = modbus_rtu_calc_crc bytes in
      ground (
        arith,
        take_behind bytes (x ∷ y ∷ rest),
        store_in (bytes ++ x ∷ y ∷ rest) (length bytes) crc.low,
        length-append bytes (x ∷ y ∷ rest),
        set_behind bytes (y ∷ rest) x crc.low,
        append_assoc bytes (crc.low ∷ []) (y ∷ rest),
        length-append bytes (crc.low ∷ []),
        store_in (bytes ++ crc.low ∷ y ∷ rest) (length bytes + 1) crc.high,
        length-append bytes (crc.low ∷ y ∷ rest),
        set_behind (bytes ++ crc.low ∷ []) rest y crc.high,
        append_assoc bytes (crc.low ∷ []) (crc.high ∷ rest),
        append_assoc bytes (crc.low ∷ crc.high ∷ []) rest,
        length-frame bytes,
        take_behind (frame bytes) rest,
      )

module _ {U : Type 0} (pdu_cb : PduCb U) (s : State U) where
  -- A frame of at least four bytes in the receive buffer is given to the callback, without its CRC,
  -- and the callback's reply of 1 to 254 bytes is sent with a CRC of its own.
  pub adu_process-sending :
      (user : U) (bytes : List ℕ)
      → 4 ≤ s.rxbuf_curr
      → s.rxbuf_curr ≤ length s.rxbuf
      → HasCrc s.rxbuf s.rxbuf_curr
      → pdu_cb s.user_data (get_or s.rxbuf 0 0) (get_or s.rxbuf 1 0) s.rxbuf 0 (s.rxbuf_curr - 2) 2
        ≡ done (user, bytes)
      → 1 ≤ length bytes
      → length bytes + 2 ≤ length s.txbuf
      → adu_process pdu_cb s ≡ done (sending bytes (record s { user_data = user; rxbuf_curr = 0 }))
  unfolding adu_process adu_answer sending
  adu_process-sending user bytes h k v e lo hi =
      let rest = drop (length bytes) s.txbuf in
      ground (
        arith,
        adu_check-accepts s h k v,
        load_in s.rxbuf 0 (omega arith),
        load_in s.rxbuf 1 (omega arith),
        e,
        fill-eq s.txbuf bytes (omega arith),
        length-drop (length bytes) s.txbuf,
        drop-drop 2 (length bytes) s.txbuf,
        reply-sending
            (record s {
              user_data = user;
              txbuf = bytes ++ rest;
              txbuf_curr = length bytes;
              rxbuf_curr = 0;
            })
            bytes rest refl refl (omega (arith, length-drop (length bytes) s.txbuf)),
      )

  -- A frame that the callback leaves alone is dropped without a reply.
  pub adu_process-ignored :
      (user : U)
      → 4 ≤ s.rxbuf_curr
      → s.rxbuf_curr ≤ length s.rxbuf
      → HasCrc s.rxbuf s.rxbuf_curr
      → pdu_cb s.user_data (get_or s.rxbuf 0 0) (get_or s.rxbuf 1 0) s.rxbuf 0 (s.rxbuf_curr - 2) 2
        ≡ done (user, [])
      → adu_process pdu_cb s ≡ done (record s { user_data = user; rxbuf_curr = 0; txbuf_curr = 0 })
  unfolding adu_process adu_answer
  adu_process-ignored user h k v e = ground (
    arith,
    adu_check-accepts s h k v,
    load_in s.rxbuf 0 (omega arith),
    load_in s.rxbuf 1 (omega arith),
    e,
    fill-eq s.txbuf [] (omega arith),
  )

  -- An ADU of four bytes or more with a wrong CRC is counted and dropped: the callback does not see
  -- it, nothing is sent, and the error is marked for the next round.
  pub adu_process-crc_error :
      4 ≤ s.rxbuf_curr
      → s.rxbuf_curr ≤ length s.rxbuf
      → IsBytes s.rxbuf
      → ¬ HasCrc s.rxbuf s.rxbuf_curr
      → adu_process pdu_cb s
        ≡ done (
            fail (record s {
              stats = record (s.stats) { crc_err_cntr = u8 (s.stats.crc_err_cntr + 1) };
            }))
  unfolding adu_process adu_check crc_to_word
  adu_process-crc_error h k b v =
      let crc = modbus_rtu_calc_crc (take (s.rxbuf_curr - 2) s.rxbuf) in
      let low = get_or s.rxbuf (s.rxbuf_curr - 2) 0 in
      let high = get_or s.rxbuf (s.rxbuf_curr - 1) 0 in
      let is = calc_crc-IsPair _ (take-IsBytes (s.rxbuf_curr - 2) s.rxbuf b) in
      let differs : ¬ ((low ≡ crc.low) × (high ≡ crc.high)) =
        λ e. v (record { long = omega arith; low = e.0; high = e.1 }) in
      ground (
        arith,
        load_in s.rxbuf (s.rxbuf_curr - 2),
        load_in s.rxbuf (s.rxbuf_curr - 1),
        is,
        get_or-IsByte s.rxbuf (s.rxbuf_curr - 2) b,
        get_or-IsByte s.rxbuf (s.rxbuf_curr - 1) b,
        make_word-eq low high,
        make_word-eq crc.low crc.high,
        differs,
      )

  -- An ADU of less than four bytes is dropped and not counted.
  pub adu_process-short : s.rxbuf_curr < 4 → adu_process pdu_cb s ≡ done (fail s)
  unfolding adu_process adu_check
  adu_process-short h = ground arith
