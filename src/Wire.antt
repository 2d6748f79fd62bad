-- ===== src/Wire.antt =====
-- rtu.h: the constants of the protocol, the two-byte fields of a frame and their conversions.
pub mod Fcode
pub mod Ecode
pub mod Words
use modbus_c.Prelude.{ℕ, ◌*◌, ◌/◌, ◌%◌, ◌^◌, bit_and, bit_or}

-- `uint8_t` and `uint16_t` conversions
abbrev pub u8 : ℕ → ℕ
u8 n = n % 2 ^ 8

abbrev pub u16 : ℕ → ℕ
u16 n = n % 2 ^ 16

-- `MAKE_WORD`, `LOW_BYTE`, `HIGH_BYTE`
pub make_word : ℕ → ℕ → ℕ
make_word low high = bit_or (u16 high * 2 ^ 8) (bit_and (u16 low) 0xff)

pub low_byte : ℕ → ℕ
low_byte word = u8 (bit_and (u16 word) 0xff)

pub high_byte : ℕ → ℕ
high_byte word = u8 (u16 word / 2 ^ 8)

-- `modbus_rtu_crc_t`: the low byte goes first.
pub record RtuCrc : Type 0 where
  pub low : ℕ
  pub high : ℕ

-- `modbus_rtu_data16_t`, also the memory addresses and the counts: the high byte goes first.
pub record Data16 : Type 0 where
  pub high : ℕ
  pub low : ℕ

unfoldable pub word_to_crc : ℕ → RtuCrc
word_to_crc word = record { low = low_byte word; high = high_byte word }

unfoldable pub crc_to_word : RtuCrc → ℕ
crc_to_word crc = make_word crc.low crc.high

unfoldable pub word_to_data16 : ℕ → Data16
word_to_data16 word = record { high = high_byte word; low = low_byte word }

unfoldable pub data16_to_word : Data16 → ℕ
data16_to_word data16 = make_word data16.low data16.high

abbrev pub adu_capacity : ℕ
adu_capacity = 256

abbrev pub adu_min_size : ℕ
adu_min_size = 4
