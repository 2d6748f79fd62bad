-- ===== src/Crc/Table.antt =====
-- `modbus_rtu_calc_crc` computes, by its tables, what `crc16_update` computes bit by bit.
use modbus_c.Prelude.{
  ℕ, ◌+◌, ◌*◌, ◌^◌, ◌<◌, bit_xor, ◌≡◌, refl, ap, ◌∙◌, ◌==◌, ◌&&◌, Bool, true, ltb, List, [], ◌∷◌,
  get_or, IsBytes, holds_below, holds_below-at, arith,
}
use modbus_c.Prelude.Xor.{xor_fields, xor_assoc, xor_comm, xor_lt}
use modbus_c.Wire.{RtuCrc, word_to_crc, crc_to_word, make_word}
use modbus_c.Wire.Words.{make_word-eq, low_byte-eq, high_byte-eq}
use modbus_c.Crc.{
  crc16_round, crc16_rounds, crc16_update, table_step, table_loop, update_all, crc_init,
  modbus_rtu_calc_crc,
}
use modbus_c.Crc.Tables.{hcrc16, lcrc16}
use modbus_c.Crc.Rounds.{rounds_xor, rounds_shift}

abbrev pub IsPair : RtuCrc → Type 0
IsPair c = (c.low < 256) × (c.high < 256)

entry_agrees : ℕ → Bool
entry_agrees i =
    (crc16_rounds 8 i == get_or lcrc16 i 0 * 256 + get_or hcrc16 i 0)
    && (ltb (get_or lcrc16 i 0) 256 && ltb (get_or hcrc16 i 0) 256)

entries_agree : holds_below entry_agrees 256 ≡ true
unfolding holds_below entry_agrees crc16_rounds crc16_round hcrc16 lcrc16
entries_agree = refl

-- Entry `i` of the two tables is what eight rounds make of `i`.
pub tables-eq-rounds :
    (i : ℕ)
    → i < 256
    → (crc16_rounds 8 i ≡ get_or lcrc16 i 0 * 256 + get_or hcrc16 i 0)
      × (get_or lcrc16 i 0 < 256)
      × (get_or hcrc16 i 0 < 256)
unfolding entry_agrees
tables-eq-rounds i h = ground (arith, holds_below-at entry_agrees 256 i entries_agree h)

-- The low byte of the word shifts out; the high byte stays beside what the tables give.
module _ (h l d : ℕ) (hh : h < 256) (hl : l < 256) (hd : d < 256) where
  index : ℕ
  index = bit_xor l d

  index-lt : index < 256
  unfolding index
  index-lt = xor_lt 8 l d hl hd

  word_xor : bit_xor (h * 256 + l) d ≡ bit_xor (h * 256) index
  unfolding index
  word_xor = cc (xor_fields 8 h l hl, xor_assoc (h * 2 ^ 8) l d)

  rounds_split :
      crc16_rounds 8 (bit_xor (h * 256 + l) d)
      ≡ get_or lcrc16 index 0 * 256 + bit_xor h (get_or hcrc16 index 0)
  rounds_split = cc (
    word_xor,
    rounds_xor 8 (h * 256) index,
    rounds_shift 8 h,
    (tables-eq-rounds index index-lt).0,
    xor_fields 8 (get_or lcrc16 index 0) (get_or hcrc16 index 0)
        (tables-eq-rounds index index-lt).2,
    xor_comm h (bit_xor (get_or lcrc16 index 0 * 2 ^ 8) (get_or hcrc16 index 0)),
    xor_assoc (get_or lcrc16 index 0 * 2 ^ 8) (get_or hcrc16 index 0) h,
    xor_comm (get_or hcrc16 index 0) h,
    xor_fields 8 (get_or lcrc16 index 0) (bit_xor h (get_or hcrc16 index 0))
        (xor_lt 8 h (get_or hcrc16 index 0) hh (tables-eq-rounds index index-lt).2),
  )

pub table_step-IsPair : (c : RtuCrc) (d : ℕ) → IsPair c → d < 256 → IsPair (table_step c d)
unfolding table_step
table_step-IsPair c d v h =
    let i = bit_xor c.low d in
    let t = tables-eq-rounds i (xor_lt 8 c.low d v.0 h) in
    (xor_lt 8 c.high (get_or hcrc16 i 0) v.1 t.2, t.1)

-- One step by the tables is one step bit by bit.
pub table_step-eq-crc16_update :
    (c : RtuCrc) (d : ℕ) → IsPair c → d < 256 → table_step c d ≡ crc16_update c d
unfolding table_step crc16_update crc_to_word word_to_crc index
table_step-eq-crc16_update c d v h =
    let w = crc16_rounds 8 (bit_xor (make_word c.low c.high) d) in
    let i = bit_xor c.low d in
    let t = tables-eq-rounds i (xor_lt 8 c.low d v.0 h) in
    let e : w ≡ get_or lcrc16 i 0 * 256 + bit_xor c.high (get_or hcrc16 i 0) =
      ap (λ x. crc16_rounds 8 (bit_xor x d)) word ∙ rounds_split c.high c.low d v.1 v.0 h in
    ground (arith, e, t, low_byte-eq w, high_byte-eq w, xor_lt 8 c.high (get_or hcrc16 i 0))
  where
    word : make_word c.low c.high ≡ c.high * 256 + c.low
    word = omega (arith, make_word-eq c.low c.high v.1)

pub table_loop-eq-update_all :
    (c : RtuCrc) (bytes : List ℕ)
    → IsPair c
    → IsBytes bytes
    → table_loop c bytes ≡ update_all c bytes
unfolding table_loop update_all
table_loop-eq-update_all c [] v h = refl
table_loop-eq-update_all c (b ∷ bs) v h =
    rw (← table_step-eq-crc16_update c b v h.0)
      (table_loop-eq-update_all (table_step c b) bs (table_step-IsPair c b v h.0) h.1)

-- On bytes, the CRC by the tables of linux/crc.c is the CRC bit by bit, from the same initial
-- value.
pub calc_crc-eq-update_all :
    (bytes : List ℕ) → IsBytes bytes → modbus_rtu_calc_crc bytes ≡ update_all crc_init bytes
unfolding modbus_rtu_calc_crc
calc_crc-eq-update_all bytes h = table_loop-eq-update_all crc_init bytes (omega arith) h

pub table_loop-IsPair :
    (c : RtuCrc) (bytes : List ℕ) → IsPair c → IsBytes bytes → IsPair (table_loop c bytes)
unfolding table_loop
table_loop-IsPair c [] v h = v
table_loop-IsPair c (b ∷ bs) v h =
    table_loop-IsPair (table_step c b) bs (table_step-IsPair c b v h.0) h.1

pub calc_crc-IsPair : (bytes : List ℕ) → IsBytes bytes → IsPair (modbus_rtu_calc_crc bytes)
unfolding modbus_rtu_calc_crc
calc_crc-IsPair bytes h = table_loop-IsPair crc_init bytes (omega arith) h
