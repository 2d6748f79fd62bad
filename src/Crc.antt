-- ===== src/Crc.antt =====
-- crc.h and linux/crc.c: the CRC of a frame, bit by bit (`crc16_update`) and by the tables
-- (`modbus_rtu_calc_crc`). A range of bytes `[begin, end)` is the list of its bytes. The null
-- pointers that `modbus_rtu_calc_crc` tests for give what the empty range gives.
pub mod Tables
pub mod Rounds
pub mod Table
pub mod Detect
pub mod Frame
pub mod Mcu
pub mod Tests
use modbus_c.Prelude.{
  ℕ, zero, suc, ◌/◌, bit_and, bit_xor, List, [], ◌∷◌, ◌==◌, if◌then◌else◌, get_or,
}
use modbus_c.Wire.{RtuCrc, word_to_crc, crc_to_word}
use Tables.{hcrc16, lcrc16}

-- one round of the loop of `crc16_update`, and `n` of them
pub crc16_round : ℕ → ℕ
crc16_round crc16 = if bit_and crc16 1 == 0 then crc16 / 2 else bit_xor (crc16 / 2) 0xa001

pub crc16_rounds : ℕ → ℕ → ℕ
crc16_rounds zero crc16 = crc16
crc16_rounds (suc n) crc16 = crc16_rounds n (crc16_round crc16)

pub crc16_update : RtuCrc → ℕ → RtuCrc
crc16_update crc byte = word_to_crc (crc16_rounds 8 (bit_xor (crc_to_word crc) byte))

-- `crc16_update` over a range, the loop that the other targets run
pub update_all : RtuCrc → List ℕ → RtuCrc
update_all crc [] = crc
update_all crc (byte ∷ bytes) = update_all (crc16_update crc byte) bytes

-- the body of the `while` of `modbus_rtu_calc_crc`
pub table_step : RtuCrc → ℕ → RtuCrc
table_step crc byte =
    let i = bit_xor crc.low byte in
    record { low = bit_xor crc.high (get_or hcrc16 i 0); high = get_or lcrc16 i 0 }

pub table_loop : RtuCrc → List ℕ → RtuCrc
table_loop crc [] = crc
table_loop crc (byte ∷ bytes) = table_loop (table_step crc byte) bytes

abbrev pub crc_init : RtuCrc
crc_init = record { low = 0xff; high = 0xff }

pub modbus_rtu_calc_crc : List ℕ → RtuCrc
modbus_rtu_calc_crc bytes = table_loop crc_init bytes
