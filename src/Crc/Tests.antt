-- ===== src/Crc/Tests.antt =====
-- The CRC of a request for one register at address 0 of slave 1.
use modbus_c.Prelude.{ℕ, ◌≡◌, refl, List, [], ◌∷◌, arith}
use modbus_c.Wire.{word_to_crc}
use modbus_c.Crc.{crc_init, table_loop, table_step, update_all, modbus_rtu_calc_crc}
use modbus_c.Crc.Tables.{hcrc16, lcrc16}
use modbus_c.Crc.Table.{calc_crc-eq-update_all}
use modbus_c.Crc.Mcu.{calc_crc, calc_crc-eq-tables}

abbrev pub request : List ℕ
request = 1 ∷ 3 ∷ 0 ∷ 0 ∷ 0 ∷ 1 ∷ []

pub request_crc : modbus_rtu_calc_crc request ≡ record { low = 0x84; high = 0x0a }
unfolding modbus_rtu_calc_crc table_loop table_step hcrc16 lcrc16
request_crc = refl

-- and that of a write of 1 to it
abbrev pub write_request : List ℕ
write_request = 1 ∷ 6 ∷ 0 ∷ 0 ∷ 0 ∷ 1 ∷ []

pub write_request_crc : modbus_rtu_calc_crc write_request ≡ record { low = 0x48; high = 0x0a }
unfolding modbus_rtu_calc_crc table_loop table_step hcrc16 lcrc16
write_request_crc = refl

calc_crc-eq-update_all_example : modbus_rtu_calc_crc request ≡ update_all crc_init request
calc_crc-eq-update_all_example = calc_crc-eq-update_all request (omega arith)

calc_crc-eq-tables_example : word_to_crc (calc_crc request) ≡ modbus_rtu_calc_crc request
calc_crc-eq-tables_example = calc_crc-eq-tables request (omega arith)
