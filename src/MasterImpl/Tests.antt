-- ===== src/MasterImpl/Tests.antt =====
-- A line that takes every request and holds the bytes of one reply.
use modbus_c.Prelude.{
  ℕ, ◌+◌, ◌*◌, ◌≤◌, ◌<◌, ◌≡◌, refl, some, List, [], ◌∷◌, ◌++◌, length, length-take, take, get_or,
  replicate, fault, arith,
}
use modbus_c.Wire.{u8, Data16, data16_to_word}
use modbus_c.Wire.Words.{make_word-eq}
use modbus_c.Crc.Frame.{HasCrc}
use modbus_c.Rtu.Invariant.{zeros-AreBytes}
use modbus_c.Master.{wr_registers_request_header, mem_access_request, data16s_bytes}
use modbus_c.MasterImpl.{rtu_master_rd_holding_registers, rtu_master_wr_registers}
use modbus_c.MasterImpl.Reads.{
  Transaction, IsBounded, rtu_master_rd_holding_registers_lem,
  rtu_master_rd_holding_registers-overflows,
}
use modbus_c.MasterImpl.Writes.{Confirmed, rtu_master_wr_registers_lem}

abbrev sends : List ℕ → List ℕ → List ℕ × ℕ
sends dev bytes = (dev, length bytes)

abbrev brings : List ℕ → ℕ → List ℕ × List ℕ
brings dev n = (dev, take n dev)

brings-IsBounded : IsBounded brings
brings-IsBounded dev n = omega (arith, length-take n dev)

-- replies with the bytes 0 and 5, to a read of one register and to one of two bytes
abbrev register_reply : List ℕ
register_reply = 1 ∷ 3 ∷ 2 ∷ 0 ∷ 5 ∷ 0x78 ∷ 0x47 ∷ []

abbrev bytes_reply : List ℕ
bytes_reply = 1 ∷ 65 ∷ 0 ∷ 17 ∷ 2 ∷ 0 ∷ 5 ∷ 0 ∷ 0 ∷ []

abbrev local : List ℕ
local = replicate 256 0

abbrev field : ℕ → Data16
field n = record { high = 0; low = n }

word_of_field : (n : ℕ) → n < 256 → data16_to_word (field n) ≡ n
unfolding data16_to_word
word_of_field n h = omega (arith, make_word-eq n 0)

rtu_master_rd_holding_registers_lem_example :
    Transaction sends brings register_reply
      (mem_access_request 1 3 (field 17) (field 1))
      3
      (data16_to_word (field 1) * 2)
      (λ rx.
        (get_or rx 2 0 ≡ data16_to_word (field 1) * 2)
        × HasCrc rx (3 + data16_to_word (field 1) * 2 + 2))
      local
      (9 ∷ 9 ∷ [])
      (data16_to_word (field 1))
      (rtu_master_rd_holding_registers sends brings register_reply 1
        (field 17)
        (field 1)
        local
        (9 ∷ 9 ∷ []))
rtu_master_rd_holding_registers_lem_example =
    rtu_master_rd_holding_registers_lem sends brings brings-IsBounded register_reply 1 (field 17)
      (field 1) local (9 ∷ 9 ∷ []) (omega (arith, word_of_field 1)) refl
      (omega (arith, word_of_field 1))

-- A line with 400 bytes, and a read of 126 registers.
abbrev many : List ℕ
many = replicate 400 0

brings_257 :
    length (take (3 + data16_to_word (field 126) * 2 + 2) many)
    ≡ 3 + data16_to_word (field 126) * 2 + 2
brings_257 = omega (
  arith,
  word_of_field 126,
  length-take (3 + data16_to_word (field 126) * 2 + 2) many,
  (zeros-AreBytes 400).0,
)

rtu_master_rd_holding_registers-overflows_example :
    rtu_master_rd_holding_registers sends brings many 1 (field 17) (field 126) local [] ≡ fault
rtu_master_rd_holding_registers-overflows_example =
    rtu_master_rd_holding_registers-overflows sends brings many 1 (field 17) (field 126) local []
      (omega (arith, word_of_field 126)) refl refl brings_257

rtu_master_wr_registers_lem_example :
    Confirmed sends brings
      (1 ∷ 16 ∷ [])
      ((data16_to_word (field 1) ≤ 123) × (data16_to_word (field 1) * 2 + 9 ≤ 256))
      ((wr_registers_request_header 1 16 (field 17) (field 1) (u8 (data16_to_word (field 1) * 2)))
        ++ take (data16_to_word (field 1) * 2) (data16s_bytes (field 5 ∷ [])))
      8
      (replicate 8 0)
      (data16_to_word (field 1))
      (rtu_master_wr_registers sends brings
        (1 ∷ 16 ∷ [])
        1
        (field 17)
        (field 1)
        (some (field 5 ∷ []))
        local
        (replicate 8 0))
rtu_master_wr_registers_lem_example =
    rtu_master_wr_registers_lem sends brings brings-IsBounded (1 ∷ 16 ∷ []) 1 (field 17) (field 1)
      (field 5 ∷ []) local (replicate 8 0) refl refl (omega (arith, word_of_field 1))
