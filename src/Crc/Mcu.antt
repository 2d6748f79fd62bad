-- ===== src/Crc/Mcu.antt =====
-- stm8s003f3/crc.c and stm32f103c8/crc.c (the same text): the CRC as one word, bit by bit; and
-- atmega328p/crc.c, whose step is `_crc16_update` of avr-libc.
use modbus_c.Prelude.{ℕ, ◌^◌, ◌<◌, bit_xor, List, [], ◌∷◌, ◌≡◌, refl, sym, ap, ◌∙◌, IsBytes, arith}
use modbus_c.Prelude.Xor.{xor_lt}
use modbus_c.Wire.{RtuCrc, word_to_crc}
use modbus_c.Wire.Words.{crc_to_word-word_to_crc, low_byte-eq, high_byte-eq}
use modbus_c.Crc.{crc16_rounds, update_all, crc_init, modbus_rtu_calc_crc}
use modbus_c.Crc as Linux
use modbus_c.Crc.Rounds.{rounds-lt}
use modbus_c.Crc.Table.{calc_crc-eq-update_all}

pub crc16_update : ℕ → ℕ → ℕ
crc16_update crc byte = crc16_rounds 8 (bit_xor crc byte)

-- the loop of `modbus_rtu_calc_crc`
pub update_words : ℕ → List ℕ → ℕ
update_words crc16 [] = crc16
update_words crc16 (byte ∷ bytes) = update_words (crc16_update crc16 byte) bytes

pub calc_crc : List ℕ → ℕ
calc_crc bytes = update_words 0xffff bytes

crc16_update-lt : (w d : ℕ) → w < 2 ^ 16 → d < 256 → crc16_update w d < 2 ^ 16
unfolding crc16_update
crc16_update-lt w d h k = rounds-lt 8 (bit_xor w d) (xor_lt 16 w d h (omega arith))

update_words-eq :
    (w : ℕ) (bytes : List ℕ)
    → w < 2 ^ 16
    → IsBytes bytes
    → word_to_crc (update_words w bytes) ≡ update_all (word_to_crc w) bytes
unfolding update_words crc16_update update_all Linux.crc16_update
update_words-eq w [] h v = refl
update_words-eq w (d ∷ ds) h v =
    update_words-eq (crc16_update w d) ds (crc16_update-lt w d h v.0) v.1
    ∙ ap (λ x. update_all (word_to_crc (crc16_rounds 8 (bit_xor x d))) ds)
        (sym (crc_to_word-word_to_crc w h))

word_to_crc-init : word_to_crc 0xffff ≡ crc_init
unfolding word_to_crc
word_to_crc-init = ground (arith, low_byte-eq 0xffff, high_byte-eq 0xffff)

-- On bytes, the CRC that the microcontrollers STM8 and STM32 compute as one word is, as two bytes,
-- the one of the Linux tables.
pub calc_crc-eq-tables :
    (bytes : List ℕ) → IsBytes bytes → word_to_crc (calc_crc bytes) ≡ modbus_rtu_calc_crc bytes
unfolding calc_crc
calc_crc-eq-tables bytes v =
    update_words-eq 0xffff bytes (omega arith) v
    ∙ ap (λ c. update_all c bytes) word_to_crc-init
    ∙ sym (calc_crc-eq-update_all bytes v)

-- `step` is `_crc16_update` of avr-libc.
module _ (step : ℕ → ℕ → ℕ) where
  pub avr_loop : ℕ → List ℕ → ℕ
  avr_loop crc [] = crc
  avr_loop crc (byte ∷ bytes) = avr_loop (step crc byte) bytes

  pub avr_calc_crc : List ℕ → RtuCrc
  avr_calc_crc bytes = word_to_crc (avr_loop 0xffff bytes)

-- What the manual of avr-libc says of it: it computes what the C code of `crc16_update` does.
abbrev pub IsDocumented : (ℕ → ℕ → ℕ) → Type 0
IsDocumented step =
    (crc byte : ℕ) → crc < 2 ^ 16 → byte < 256 → step crc byte ≡ crc16_update crc byte

module _ (step : ℕ → ℕ → ℕ) (documented : IsDocumented step) where
  avr_loop-eq :
      (w : ℕ) (bytes : List ℕ)
      → w < 2 ^ 16
      → IsBytes bytes
      → avr_loop step w bytes ≡ update_words w bytes
  unfolding avr_loop update_words
  avr_loop-eq w [] h v = refl
  avr_loop-eq w (d ∷ ds) h v =
      rw (documented w d h v.0) (avr_loop-eq (crc16_update w d) ds (crc16_update-lt w d h v.0) v.1)

  -- On bytes, with a step that does what avr-libc documents, the ATmega328p computes the CRC of the
  -- Linux tables.
  pub avr_calc_crc-eq-tables :
      (bytes : List ℕ) → IsBytes bytes → avr_calc_crc step bytes ≡ modbus_rtu_calc_crc bytes
  unfolding avr_calc_crc calc_crc
  avr_calc_crc-eq-tables bytes v =
      ap word_to_crc (avr_loop-eq 0xffff bytes (omega arith) v) ∙ calc_crc-eq-tables bytes v
