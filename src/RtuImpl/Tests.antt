-- ===== src/RtuImpl/Tests.antt =====
-- The slave of Rtu/Tests.antt on a clock that gives 250 microseconds more at each reading, for the
-- request of Crc/Tests.antt in two rounds and silence behind it.
use modbus_c.Prelude.{
  ℕ, ◌*◌, refl, true, false, none, List, [], ◌∷◌, ◌++◌, replicate, length, Ends, arith,
}
use modbus_c.Rtu.Tests.{echo, echo-Answers}
use modbus_c.Timing.{Speed}
use modbus_c.RtuImpl.{Round, modbus_rtu_run}
use modbus_c.RtuImpl.Run.{Refines, modbus_rtu_run-Refines}

abbrev clock : ℕ → ℕ
clock n = 250 * n

abbrev writes_all : ℕ → List ℕ → ℕ
writes_all n frame = length frame

abbrev quiet : Round
quiet = record { bytes = []; stops = false }

abbrev line : List Round
line =
    replicate 8 quiet
    ++ record { bytes = 1 ∷ 3 ∷ 0 ∷ []; stops = false }
      ∷ record { bytes = 0 ∷ 0 ∷ 1 ∷ 0x84 ∷ 0x0a ∷ []; stops = false }
      ∷ replicate 12 quiet
    ++ record { bytes = []; stops = true } ∷ []

modbus_rtu_run-Refines_example :
    Ends ⊥
      (Refines echo Speed.b19200 none none 0 line)
      (modbus_rtu_run clock writes_all echo Speed.b19200 none none 0 line)
modbus_rtu_run-Refines_example =
    modbus_rtu_run-Refines clock writes_all echo ⊥ (λ (n : ℕ). Unit {0}) echo-Answers
      (λ n frame h. h refl) Speed.b19200 none none 0 line (omega arith) tt
