-- ===== src/Wire/Words.antt =====
-- The conversions between words and pairs of bytes are inverse to one another.
use modbus_c.Prelude.{ℕ, ◌+◌, ◌*◌, ◌/◌, ◌%◌, ◌^◌, ◌<◌, bit_and, ◌≡◌, arith}
use modbus_c.Prelude.Xor.{or_fields, and_byte}
use modbus_c.Wire.{
  make_word, low_byte, high_byte, RtuCrc, word_to_crc, crc_to_word, word_to_data16, data16_to_word,
}

pub make_word-eq : (low high : ℕ) → high < 256 → make_word low high ≡ high * 256 + low % 256
unfolding make_word
make_word-eq low high h = omega (
  arith,
  and_byte (low % 2 ^ 16),
  or_fields 8 (high % 2 ^ 16) (bit_and (low % 2 ^ 16) 255) (omega (arith, and_byte (low % 2 ^ 16))),
)

pub low_byte-eq : (w : ℕ) → low_byte w ≡ w % 256
unfolding low_byte
low_byte-eq w = omega (arith, and_byte (w % 2 ^ 16))

pub high_byte-eq : (w : ℕ) → high_byte w ≡ w / 256 % 256
unfolding high_byte
high_byte-eq w = omega arith

-- A 16-bit word survives the trip through the two bytes of a CRC field.
pub crc_to_word-word_to_crc : (w : ℕ) → w < 2 ^ 16 → crc_to_word (word_to_crc w) ≡ w
unfolding crc_to_word word_to_crc
crc_to_word-word_to_crc w h = omega (
  arith,
  make_word-eq (low_byte w) (high_byte w) (omega (arith, high_byte-eq w)),
  low_byte-eq w,
  high_byte-eq w,
)

pub word_to_crc-crc_to_word :
    (c : RtuCrc) → c.low < 256 → c.high < 256 → word_to_crc (crc_to_word c) ≡ c
unfolding crc_to_word word_to_crc
word_to_crc-crc_to_word c hl hh = ground (
  arith,
  make_word-eq c.low c.high hh,
  low_byte-eq (make_word c.low c.high),
  high_byte-eq (make_word c.low c.high),
)

-- A 16-bit word survives the trip through the two bytes of a data field.
pub data16_to_word-word_to_data16 : (w : ℕ) → w < 2 ^ 16 → data16_to_word (word_to_data16 w) ≡ w
unfolding data16_to_word word_to_data16
data16_to_word-word_to_data16 w h = omega (
  arith,
  make_word-eq (low_byte w) (high_byte w) (omega (arith, high_byte-eq w)),
  low_byte-eq w,
  high_byte-eq w,
)
