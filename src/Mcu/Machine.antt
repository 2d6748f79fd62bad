-- ===== src/Mcu/Machine.antt =====
-- The core of a slave with its hardware, under interrupts and the main loop.
--
-- An interrupt of the serial port passes a byte on, with whether it came with errors, or the end of a
-- transmission. What an adapter does on each is its handler, in Mcu/Avr, Mcu/Stm8 and Mcu/Stm32.
pub mod Interrupts
pub mod Faults
use modbus_c.Prelude.{ℕ, Bool, List, [], ◌∷◌, ◌++◌, Exec, done, ◌>>=◌}
use modbus_c.Rtu.{State}
use modbus_c.Rtu.Port.{TimerPort, play}
use modbus_c.Mcu.Hardware.{Hardware, SerialPort, hardware_call}

pub record Machine (U T P : Type 0) : Type 0 where
  pub core : State U
  pub hw : Hardware T P

-- a received byte with whether it has errors, the timer, the end of a transmission, and a round of
-- the main loop
pub data Cause : Type 0 where
  rx : ℕ → Bool → Cause
  tim tx main_loop : Cause

module _ {U T P : Type 0} where
  abbrev pub with_timer : T → Machine U T P → Machine U T P
  with_timer timer m = record m { hw = record (m.hw) { timer = timer } }

  abbrev pub with_port : P → Machine U T P → Machine U T P
  with_port port m = record m { hw = record (m.hw) { port = port } }

  -- the calls that the core makes in one function, on its hardware
  unfoldable pub settle :
      TimerPort T → SerialPort P → Machine U T P → Exec (State U) → Exec (Machine U T P)
  settle t s m called = do
    core ← called
    hw ← play (hardware_call t s) core.actions m.hw
    done (record { core = record core { actions = core.actions ++ m.core.actions }; hw = hw })

  unfoldable pub machine_run :
      (Machine U T P → Cause → Exec (Machine U T P))
      → Machine U T P
      → List Cause
      → Exec (Machine U T P)
  machine_run handle m [] = done m
  machine_run handle m (c ∷ cs) = do m' ← handle m c; machine_run handle m' cs
