-- ===== src/Mcu/Avr/Program.antt =====
-- atmega328p/rtu_main.c: the program of the ATmega328p, a slave with the memory adapter.
use modbus_c.Prelude.{
  ℕ, ◌+◌, ◌<◌, ◌^◌, ◌≡◌, refl, sym, subst, true, false, if◌then◌else◌, List, [], ◌∷◌, Exec, done,
  fault, stuck, ◌>>=◌, Ends, arith,
}
use modbus_c.Adapter.{
  RtuMemoryImpl, rtu_memory_impl_clear, rtu_memory_impl_init, rtu_memory_impl_pdu_cb,
}
use modbus_c.Adapter.Serves.{
  IsServing, configured, configured-IsServing, rtu_memory_impl_pdu_cb-Answers,
}
use modbus_c.Rtu.{State, PduCb, modbus_rtu_idle, modbus_rtu_init, modbus_rtu_event}
use modbus_c.Rtu.Invariant.{init-Inv}
use modbus_c.Rtu.Process.{Answers}
use modbus_c.Rtu.Timer.{timer_after}
use modbus_c.Rtu.Receive.{frames_sent}
use modbus_c.Rtu.Schedule.{Event, run, step}
use modbus_c.Rtu.Faults.{
  Blames, CallFaults, silent, silent-Answers, fixed, fixed-Answers, event-fixed,
}
use modbus_c.RtuImpl.{cleared}
use modbus_c.Mcu.{TimerDriver, Stands}
use modbus_c.Mcu.Uart.{UartDriver}
use modbus_c.Mcu.Serial.{uart_port}
use modbus_c.Mcu.Machine.{Machine, Cause, rx, tim, tx, main_loop, machine_run, settle}
use modbus_c.Mcu.Machine.Interrupts.{event_of, AreCauses, events_of, Fits}
use modbus_c.Mcu.Machine.Faults.{Reaches, Locates, HandlesOrBlames, run-Locates}
use modbus_c.Mcu.Avr.{avr_timer, tmr_init-TmrShows}
use modbus_c.Mcu.Avr.Serial.{
  modbus_rtu_impl, avr_handle, avr_handle-Handles, init-PortShows, tmr_cb, usart_rx_recv_cb,
  usart_tx_complete_cb,
}

module _ {T P : Type 0} (t : TimerDriver T) (d : UartDriver P) where
  -- `main`, up to its loop, for a build's RTU_MEMORY_ADDR and RTU_MEMORY_SIZE and the byte of the
  -- EEPROM that holds the address
  unfoldable pub avr_main : ℕ → ℕ → ℕ → T → P → Machine RtuMemoryImpl T P
  unfolding modbus_rtu_impl
  avr_main addr size eeprom timer port =
      let impl = rtu_memory_impl_init addr size (rtu_memory_impl_clear size) in
      modbus_rtu_impl t d rtu_memory_impl_pdu_cb false false (record impl { self_addr = eeprom })
        timer port

  -- `dispatch`, whose body is empty
  abbrev pub dispatch : Machine RtuMemoryImpl T P → Machine RtuMemoryImpl T P
  dispatch m = m

  -- a round of its loop, which ends asleep
  unfoldable pub main_round : Machine RtuMemoryImpl T P → Exec (Machine RtuMemoryImpl T P)
  main_round m = do
    m' ← avr_handle t d rtu_memory_impl_pdu_cb m main_loop
    let is_idle = modbus_rtu_idle m'.core
    done (if is_idle then dispatch m' else m')

  unfoldable pub program_handle :
      Machine RtuMemoryImpl T P → Cause → Exec (Machine RtuMemoryImpl T P)
  program_handle m (rx byte errors) = avr_handle t d rtu_memory_impl_pdu_cb m (rx byte errors)
  program_handle m tim = avr_handle t d rtu_memory_impl_pdu_cb m tim
  program_handle m tx = avr_handle t d rtu_memory_impl_pdu_cb m tx
  program_handle m main_loop = main_round m

  round_event :
      (m : Machine RtuMemoryImpl T P)
      → main_round m ≡ avr_handle t d rtu_memory_impl_pdu_cb m main_loop
  unfolding main_round
  round_event m = same (avr_handle t d rtu_memory_impl_pdu_cb m main_loop)
    where
      same :
          (x : Exec (Machine RtuMemoryImpl T P))
          → (x >>= λ m'. done (if modbus_rtu_idle m'.core then dispatch m' else m')) ≡ x
      same (done m') = ground arith
      same fault = refl
      same stuck = refl

module _ {U T P : Type 0} (t : TimerDriver T) (d : UartDriver P) (pdu_cb : PduCb U) (W : U → Type 0)
    (answers : Answers (Unit {0}) W pdu_cb) where
  abbrev BlamesOrReaches : Machine U T P → Cause → Exec (Machine U T P) → Type 0
  BlamesOrReaches m c =
      Ends (Blames pdu_cb m.core (event_of c))
        (Reaches (avr_timer t) (uart_port d) pdu_cb W answers m.core (event_of c ∷ []))

  -- The handlers fault only where the callback does.
  avr_handle-HandlesOrBlames :
      HandlesOrBlames (avr_timer t) (uart_port d) pdu_cb W answers (avr_handle t d pdu_cb)
  unfolding avr_handle tmr_cb usart_rx_recv_cb usart_tx_complete_cb run step
  avr_handle-HandlesOrBlames m (rx byte false) h v =
      avr_handle-Handles t d silent ⊥ W (silent-Answers W) m (rx byte false) h v
  avr_handle-HandlesOrBlames m (rx byte true) h v =
      avr_handle-Handles t d silent ⊥ W (silent-Answers W) m (rx byte true) h v
  avr_handle-HandlesOrBlames m tim h v =
      avr_handle-Handles t d silent ⊥ W (silent-Answers W) m tim h v
  avr_handle-HandlesOrBlames m tx h v =
      avr_handle-Handles t d silent ⊥ W (silent-Answers W) m tx h v
  avr_handle-HandlesOrBlames m main_loop h v =
      let full = v.0.0.rxbuf.0 in
      let called = event-fixed pdu_cb (cleared m.core) full in
      subst
        (λ x.
          Ends (CallFaults pdu_cb m.core)
            (λ (m' : Machine U T P).
              Fits (avr_timer t) (uart_port d) pdu_cb (Unit {0}) W answers m'
              × ((x >>= λ s'. done s') ≡ done m'.core))
            (settle (avr_timer t) (uart_port d) m (modbus_rtu_event pdu_cb (cleared m.core))))
        (event-fixed pdu_cb m.core full)
        (subst
          (λ x.
            Ends (CallFaults pdu_cb m.core)
              (λ (m' : Machine U T P).
                Fits (avr_timer t) (uart_port d) pdu_cb (Unit {0}) W answers m'
                × ((modbus_rtu_event (fixed pdu_cb m.core) m.core >>= λ s'. done s')
                    ≡ done m'.core))
              (settle (avr_timer t) (uart_port d) m x))
          called
          (avr_handle-Handles t d (fixed pdu_cb m.core) (CallFaults pdu_cb m.core) W
            (fixed-Answers W pdu_cb answers m.core v.0) m main_loop h v))

module _ {T P : Type 0} (t : TimerDriver T) (d : UartDriver P) (addr size eeprom : ℕ) where
  -- the slave of the program, whose memory keeps its address, window, size and form
  abbrev pub ProgramSimulates :
      State RtuMemoryImpl → List Event → Exec (Machine RtuMemoryImpl T P) → Type 0
  ProgramSimulates =
      Locates (avr_timer t) (uart_port d) rtu_memory_impl_pdu_cb (IsServing eeprom addr size)
        (rtu_memory_impl_pdu_cb-Answers eeprom addr size)

  program_handle-HandlesOrBlames :
      HandlesOrBlames
        (avr_timer t)
        (uart_port d)
        rtu_memory_impl_pdu_cb
        (IsServing eeprom addr size)
        (rtu_memory_impl_pdu_cb-Answers eeprom addr size)
        (program_handle t d)
  unfolding program_handle
  program_handle-HandlesOrBlames m c h v = by_cause c (
      avr_handle-HandlesOrBlames t d rtu_memory_impl_pdu_cb (IsServing eeprom addr size)
        (rtu_memory_impl_pdu_cb-Answers eeprom addr size) m c h v)
    where
      by_cause :
          (c : Cause)
          → BlamesOrReaches t d rtu_memory_impl_pdu_cb
              (IsServing eeprom addr size)
              (rtu_memory_impl_pdu_cb-Answers eeprom addr size)
              m
              c
              (avr_handle t d rtu_memory_impl_pdu_cb m c)
          → BlamesOrReaches t d rtu_memory_impl_pdu_cb
              (IsServing eeprom addr size)
              (rtu_memory_impl_pdu_cb-Answers eeprom addr size)
              m
              c
              (program_handle t d m c)
      by_cause (rx byte errors) k = k
      by_cause tim k = k
      by_cause tx k = k
      by_cause main_loop k =
          subst
            (BlamesOrReaches t d rtu_memory_impl_pdu_cb (IsServing eeprom addr size)
              (rtu_memory_impl_pdu_cb-Answers eeprom addr size) m main_loop)
            (sym (round_event t d m)) k

  -- The program of the ATmega328p, a slave with the memory adapter whose window ends below 65536,
  -- from `main` on with its timer stopped and nothing sent, in any order of bytes with or without
  -- errors, interrupts of the timer, ends of transmission and rounds of the loop: it does not get
  -- stuck, so that the loop that empties the port ends. If it faults, then some events of the
  -- core's schedule, without a fault, bring the core to a state before a round of the loop in which
  -- it holds a frame of four bytes at least and the adapter's callback faults on this frame.
  -- Otherwise its core ends where the schedule of the core ends that has for each of them the byte,
  -- the broken byte, the expiry, the end or the round, with its invariant; the memory has the
  -- address of the EEPROM and keeps its window, size and well-formedness; the port has been given
  -- the core's frames and no other; TMR0, in its mode CTC, stands without a callback or runs to 47
  -- or 110 with its interrupt and callback on, as the core counts on, and USART0 is set up and
  -- receiving.
  pub avr_main-ProgramSimulates :
      (timer : T) (port : P) (cs : List Cause)
      → addr + size < 2 ^ 16
      → Stands (t.regs timer).has_cb (t.regs timer)
      → (d.regs port).sent ≡ []
      → AreCauses cs
      → ProgramSimulates
          (modbus_rtu_init false false (configured eeprom addr size))
          (events_of cs)
          (machine_run (program_handle t d) (avr_main t d addr size eeprom timer port) cs)
  unfolding avr_main modbus_rtu_impl modbus_rtu_init timer_after frames_sent
  avr_main-ProgramSimulates timer port cs fits stands none h =
      run-Locates (avr_timer t) (uart_port d) rtu_memory_impl_pdu_cb (IsServing eeprom addr size)
        (rtu_memory_impl_pdu_cb-Answers eeprom addr size) (program_handle t d)
        program_handle-HandlesOrBlames (avr_main t d addr size eeprom timer port) cs h
        (
          (init-Inv false false _, configured-IsServing eeprom addr size fits),
          record { timer = tmr_init-TmrShows t timer stands; port = init-PortShows d port none },
        )
