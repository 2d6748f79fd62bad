-- ===== src/Rtu.antt =====
-- rtu.h and rtu.c: the state machine of a slave.
--
-- What the core asks of its platform through function pointers is recorded in `actions`, the last
-- first. The callback for a PDU is the parameter `pdu_cb`; it gets the receive buffer with the indices
-- begin, end and curr, and returns the bytes that it wrote from `dst_begin` on.
pub mod Timer
pub mod Invariant
pub mod Process
pub mod Step
pub mod Schedule
pub mod Receive
pub mod Port
pub mod Serve
pub mod Frames
pub mod Answer
pub mod Faults
pub mod Listen
pub mod Recover
pub mod Diagram
pub mod Tests
use modbus_c.Prelude.{
  ℕ, ◌+◌, ◌-◌, Bool, true, false, not, List, [], ◌∷◌, ltb, ◌==◌, if◌then◌else◌, set, take, length,
  replicate, Exec, done, fault, ◌>>=◌, load, store,
}
use modbus_c.Wire.{u8, RtuCrc, crc_to_word, adu_capacity, adu_min_size}
use modbus_c.Crc.{modbus_rtu_calc_crc}

pub data RtuState : Type 0 where
  init idle sof recv eof busy : RtuState

-- `modbus_rtu_status_t`
pub record Status : Type 0 where
  pub updated : Bool
  pub error : Bool
  pub prev : RtuState
  pub curr : RtuState

-- `timer_cb`
pub data TimerCb : Type 0 where
  null silent_interval inter_frame_timeout : TimerCb

-- the calls of the platform's functions
pub data Action : Type 0 where
  start_1t5 start_3t5 stop reset suspend resume : Action
  send : List ℕ → Action

pub record Stats : Type 0 where
  pub err_cntr : ℕ
  pub serial_recv_err_cntr : ℕ
  pub crc_err_cntr : ℕ

-- `struct modbus_rtu_state`; the callbacks for suspend and resume may be null.
pub record State (U : Type 0) : Type 0 where
  pub timer_cb : TimerCb
  pub has_suspend_cb : Bool
  pub has_resume_cb : Bool
  pub rxbuf : List ℕ
  pub rxbuf_curr : ℕ
  pub txbuf : List ℕ
  pub txbuf_curr : ℕ
  pub user_data : U
  pub stats : Stats
  pub status : Status
  pub actions : List Action

-- a user's answer to a PDU
abbrev pub PduCb : Type 0 → Type 0
PduCb U = U → ℕ → ℕ → List ℕ → ℕ → ℕ → ℕ → Exec (U × List ℕ)

-- `RTU_STATE_UPDATE` and `RTU_STATE_ERROR`
abbrev pub state_update : Status → RtuState → Status
state_update status next = record status { updated = true; prev = status.curr; curr = next }

abbrev pub state_error : Status → Status
state_error status = record status { updated = true; error = true }

module _ {U : Type 0} where
  abbrev pub act : Action → State U → State U
  act a s = record s { actions = a ∷ s.actions }

  abbrev pub update : RtuState → State U → State U
  update next s = record s { status = state_update s.status next }

  abbrev pub fail : State U → State U
  fail s = record s { status = state_error s.status }

  unfoldable pub reset_rxbuf : State U → State U
  reset_rxbuf s = record s { rxbuf = replicate adu_capacity 0; rxbuf_curr = 0 }

  unfoldable pub reset_txbuf : State U → State U
  reset_txbuf s = record s { txbuf = replicate adu_capacity 0; txbuf_curr = 0 }

  unfoldable pub timer_silent_interval_cb : State U → State U
  timer_silent_interval_cb s = elim s.status.curr [
    | RtuState.init ↦ act stop (update RtuState.idle s)
    | RtuState.eof ↦ elim s.status.prev [
      | RtuState.recv ↦ act stop (update RtuState.idle s)
      | _ ↦ fail s
    ]
    | _ ↦ fail s
  ]

  unfoldable pub timer_inter_frame_timeout_cb : State U → State U
  timer_inter_frame_timeout_cb s = elim s.status.curr [
    | RtuState.recv ↦
        act start_3t5 (record (act stop (update RtuState.eof s)) { timer_cb = silent_interval })
    | _ ↦ fail s
  ]

  unfoldable pub rxbuf_append : State U → ℕ → State U
  rxbuf_append s byte =
      if ltb s.rxbuf_curr adu_capacity
      then record s { rxbuf = set s.rxbuf s.rxbuf_curr byte; rxbuf_curr = s.rxbuf_curr + 1 }
      else fail s

  unfoldable pub serial_recv_cb : State U → ℕ → State U
  unfolding rxbuf_append
  serial_recv_cb s byte = elim s.status.curr [
    | RtuState.idle ↦
        act start_1t5
          (record (rxbuf_append (update RtuState.sof s) byte) { timer_cb = inter_frame_timeout })
    | RtuState.sof ↦ act reset (rxbuf_append (update RtuState.recv s) byte)
    | RtuState.recv ↦ act reset (rxbuf_append (update RtuState.recv s) byte)
    | _ ↦ fail s
  ]

  unfoldable pub serial_sent_cb : State U → State U
  serial_sent_cb s = elim s.status.curr [
    | RtuState.busy ↦ update RtuState.init (record s { txbuf_curr = 0 })
    | _ ↦ fail s
  ]

  unfoldable pub serial_recv_err_cb : State U → ℕ → State U
  serial_recv_err_cb s byte = fail (record s {
    stats = record (s.stats) { serial_recv_err_cntr = u8 (s.stats.serial_recv_err_cntr + 1) };
  })

  unfoldable pub modbus_rtu_init : Bool → Bool → U → State U
  unfolding reset_rxbuf reset_txbuf
  modbus_rtu_init suspend_cb resume_cb user_data = record {
    timer_cb = null;
    has_suspend_cb = suspend_cb;
    has_resume_cb = resume_cb;
    rxbuf = replicate adu_capacity 0;
    rxbuf_curr = 0;
    txbuf = replicate adu_capacity 0;
    txbuf_curr = 0;
    user_data = user_data;
    stats = record { err_cntr = 0; serial_recv_err_cntr = 0; crc_err_cntr = 0 };
    status = record { updated = true; error = false; prev = RtuState.init; curr = RtuState.init };
    actions = [];
  }

  -- the label `restart` of `modbus_rtu_event`
  unfoldable pub restart : State U → State U
  unfolding reset_rxbuf reset_txbuf
  restart s =
      act start_3t5 (record (act stop (reset_txbuf (reset_rxbuf s))) { timer_cb = silent_interval })

  -- the label `error`
  unfoldable pub error_restart : State U → State U
  unfolding restart
  error_restart s = restart (record s {
    stats = record (s.stats) { err_cntr = u8 (s.stats.err_cntr + 1) };
    status = record (state_update s.status RtuState.init) { updated = false; error = false };
  })

  abbrev pub suspended : State U → State U
  suspended s = if s.has_suspend_cb then act suspend s else s

  -- the length of the ADU, and then its CRC
  unfoldable pub adu_check : State U → Exec (State U × Bool)
  adu_check s = if ltb s.rxbuf_curr adu_min_size then done (s, false) else do
    low ← load s.rxbuf (s.rxbuf_curr - 2)
    high ← load s.rxbuf (s.rxbuf_curr - 1)
    let received : RtuCrc = record { low = low; high = high }
    let calculated = modbus_rtu_calc_crc (take (s.rxbuf_curr - 2) s.rxbuf)
    if crc_to_word received == crc_to_word calculated
        then done (s, true)
        else done (
          record s { stats = record (s.stats) { crc_err_cntr = u8 (s.stats.crc_err_cntr + 1) } },
          false,
        )

  -- the CRC behind a reply of `txbuf_curr` bytes, and its transmission
  unfoldable pub reply : State U → Exec (State U)
  reply s =
      let crc = modbus_rtu_calc_crc (take s.txbuf_curr s.txbuf) in
      do
        txbuf ← store s.txbuf s.txbuf_curr crc.low
        txbuf' ← store txbuf (s.txbuf_curr + 1) crc.high
        let sent = update RtuState.busy (record s { txbuf = txbuf'; txbuf_curr = s.txbuf_curr + 2 })
        done (act (send (take sent.txbuf_curr sent.txbuf)) sent)

-- the bytes that a callback writes from the start of a buffer on
unfoldable pub fill : List ℕ → List ℕ → Exec (List ℕ)
fill buf [] = done buf
fill [] (b ∷ bs) = fault
fill (x ∷ buf) (b ∷ bs) = do rest ← fill buf bs; done (b ∷ rest)

module _ {U : Type 0} (pdu_cb : PduCb U) where
  unfoldable pub adu_answer : State U → Exec (State U)
  adu_answer s = do
    addr ← load s.rxbuf 0
    fcode ← load s.rxbuf 1
    (user_data, bytes) ← pdu_cb s.user_data addr fcode s.rxbuf 0 (s.rxbuf_curr - 2) 2
    txbuf ← fill s.txbuf bytes
    let s' = record s {
      user_data = user_data;
      txbuf = txbuf;
      txbuf_curr = length bytes;
      rxbuf_curr = 0;
    }
    if s'.txbuf_curr == 0 then done s' else reply s'

  unfoldable pub adu_process : State U → Exec (State U)
  adu_process s = do (s', valid) ← adu_check s; if valid then adu_answer s' else done (fail s')

  -- a confirmed end of frame
  unfoldable pub frame_end : State U → Exec (State U)
  unfolding error_restart
  frame_end s =
      if not (s.txbuf_curr == 0)
      then done (error_restart s)
      else do s' ← adu_process s; done (if s'.has_resume_cb then act resume s' else s')

  -- the branches of `modbus_rtu_event` on an update without error
  unfoldable pub dispatch : State U → Exec (State U)
  unfolding error_restart
  dispatch s = elim s.status.curr [
    | RtuState.init ↦ done (restart s)
    | RtuState.idle ↦ elim s.status.prev [
      | RtuState.init ↦ done s
      | RtuState.eof ↦ frame_end s
      | _ ↦ done (error_restart s)
    ]
    | RtuState.sof ↦ elim s.status.prev [
      | RtuState.idle ↦ done (suspended s)
      | _ ↦ done (error_restart (suspended s))
    ]
    | RtuState.recv ↦ done s
    | RtuState.eof ↦ elim s.status.prev [ RtuState.recv ↦ done s | _ ↦ done (error_restart s) ]
    | RtuState.busy ↦ done s
  ]

  unfoldable pub modbus_rtu_event : State U → Exec (State U)
  unfolding error_restart
  modbus_rtu_event s =
      if not s.status.updated
      then done s
      else let s' = record s { status = record (s.status) { updated = false } } in
        if s.status.error then done (error_restart s') else dispatch s'

abbrev pub modbus_rtu_idle : {U : Type 0} → State U → Bool
modbus_rtu_idle s = elim s.status.curr [ RtuState.idle ↦ true | _ ↦ false ]
