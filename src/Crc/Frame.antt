-- ===== src/Crc/Frame.antt =====
-- A frame as it goes over the line: a message and its CRC.
use modbus_c.Prelude.{
  ℕ, ◌+◌, ◌-◌, ◌≤◌, ◌<◌, ◌≡◌, List, [], ◌∷◌, ◌++◌, length, length-append, take, get_or, IsBytes,
  IsBytes-append, arith,
}
use modbus_c.Prelude.Behind.{append_assoc, take_behind, get_behind}
use modbus_c.Wire.{RtuCrc}
use modbus_c.Crc.{modbus_rtu_calc_crc}
use modbus_c.Crc.Detect.{crc_bytes}
use modbus_c.Crc.Table.{calc_crc-IsPair}

-- a frame: a message and its CRC
abbrev pub frame : List ℕ → List ℕ
frame bytes = bytes ++ crc_bytes (modbus_rtu_calc_crc bytes)

pub length-frame : (bytes : List ℕ) → length (frame bytes) ≡ length bytes + 2
length-frame bytes = length-append bytes (crc_bytes (modbus_rtu_calc_crc bytes))

pub frame-IsBytes : (bytes : List ℕ) → IsBytes bytes → IsBytes (frame bytes)
frame-IsBytes bytes h = let c = calc_crc-IsPair bytes h in IsBytes-append bytes _ h (c.0, (c.1, tt))

-- The first `n` bytes are a message of at least one byte and its CRC.
pub record HasCrc (adu : List ℕ) (n : ℕ) : Type 0 where
  pub long : 2 < n
  pub low : get_or adu (n - 2) 0 ≡ (modbus_rtu_calc_crc (take (n - 2) adu)).low
  pub high : get_or adu (n - 1) 0 ≡ (modbus_rtu_calc_crc (take (n - 2) adu)).high

-- a message and a CRC at the start of a buffer
module _ (bytes rest : List ℕ) (crc : RtuCrc) where
  message : take (length bytes) ((bytes ++ crc_bytes crc) ++ rest) ≡ bytes
  message =
      ground
        (arith, append_assoc bytes (crc_bytes crc) rest, take_behind bytes (crc_bytes crc ++ rest))

  low_at : get_or ((bytes ++ crc_bytes crc) ++ rest) (length bytes) 0 ≡ crc.low
  low_at =
      ground
        (arith, append_assoc bytes (crc_bytes crc) rest, get_behind bytes (crc.high ∷ rest) crc.low)

  high_at : get_or ((bytes ++ crc_bytes crc) ++ rest) (length bytes + 1) 0 ≡ crc.high
  high_at = ground (
    arith,
    append_assoc bytes (crc_bytes crc) rest,
    append_assoc bytes (crc.low ∷ []) (crc.high ∷ rest),
    length-append bytes (crc.low ∷ []),
    get_behind (bytes ++ crc.low ∷ []) rest crc.high,
  )

  -- The CRC that is found is the one that stands there.
  pub HasCrc-only :
      HasCrc ((bytes ++ crc_bytes crc) ++ rest) (length bytes + 2) → modbus_rtu_calc_crc bytes ≡ crc
  HasCrc-only v = ground (arith, v, message, low_at, high_at)

-- A frame is found in a buffer that starts with it.
pub frame-HasCrc :
    (bytes rest : List ℕ) → 1 ≤ length bytes → HasCrc (frame bytes ++ rest) (length bytes + 2)
frame-HasCrc bytes rest h =
    let crc = modbus_rtu_calc_crc bytes in
    record {
      long = omega arith;
      low = ground (arith, message bytes rest crc, low_at bytes rest crc);
      high = ground (arith, message bytes rest crc, high_at bytes rest crc);
    }
