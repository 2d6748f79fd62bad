-- ===== src/Master/Tests.antt =====
-- Requests to slave 1 in a buffer of twelve bytes, and replies.
use modbus_c.Prelude.{ℕ, ◌*◌, ◌≤◌, ◌≡◌, none, List, [], ◌∷◌, ◌++◌, length, replicate, done, arith}
use modbus_c.Wire.{Data16, data16_to_word}
use modbus_c.Wire.Words.{make_word-eq}
use modbus_c.Crc.{modbus_rtu_calc_crc}
use modbus_c.Crc.Detect.{crc_bytes}
use modbus_c.Master.{valid_crc, data16s_bytes}
use modbus_c.Master.Parse.{valid_crc-burst}

abbrev buffer : List ℕ
buffer = replicate 12 0

abbrev field : ℕ → Data16
field n = record { high = 0; low = n }

-- one register
enough : data16_to_word (field 1) * 2 ≤ length (data16s_bytes (field 8 ∷ []))
unfolding data16_to_word
enough = omega (arith, make_word-eq 1 0)

-- the reply to a read of one register, and a reply to a write of it
abbrev read_adu : List ℕ
read_adu = 1 ∷ 3 ∷ 2 ∷ 0 ∷ 5 ∷ 0x78 ∷ 0x47 ∷ []

abbrev write_adu : List ℕ
write_adu = 1 ∷ 6 ∷ 0 ∷ 0 ∷ 0 ∷ 1 ∷ 0x48 ∷ 0x0a ∷ []

-- the byte 7 in place of the address
valid_crc-burst_example :
    valid_crc
      ((1 ∷ 3 ∷ 0 ∷ 7 ∷ 0 ∷ 1 ∷ []) ++ crc_bytes (modbus_rtu_calc_crc (1 ∷ 3 ∷ 0 ∷ 0 ∷ 0 ∷ 1 ∷ [])))
      8
    ≡ done none
valid_crc-burst_example =
    valid_crc-burst (1 ∷ 3 ∷ []) (0 ∷ 1 ∷ []) 0 0 0 7 (omega arith) (omega arith) (omega arith)
      (omega arith) (omega arith)
