-- ===== src/Crc/Rounds.antt =====
-- The rounds of `crc16_update` are linear over exclusive or, keep 16 bits, and lose nothing.
use modbus_c.Prelude.{ℕ, zero, suc, ◌*◌, ◌/◌, ◌%◌, ◌^◌, ◌<◌, bit_xor, ◌≡◌, refl, arith, inl, inr}
use modbus_c.Prelude.Xor.{
  xor_parts, xor_assoc, xor_comm, xor_xor_cancel, xor_lt, and_one, digit-cases, shift_half,
}
use modbus_c.Crc.{crc16_round, crc16_rounds}

-- A round as a sum over the digit that it shifts out.
round_even : (x : ℕ) → x % 2 ≡ 0 → crc16_round x ≡ x / 2
unfolding crc16_round
round_even x h = ground (arith, and_one x)

round_odd : (x : ℕ) → x % 2 ≡ 1 → crc16_round x ≡ bit_xor (x / 2) 0xa001
unfolding crc16_round
round_odd x h = ground (arith, and_one x)

module _ (a b : ℕ) where
  round_xor_00 :
      a % 2 ≡ 0 → b % 2 ≡ 0 → crc16_round (bit_xor a b) ≡ bit_xor (crc16_round a) (crc16_round b)
  round_xor_00 p q = cc (
    round_even (bit_xor a b) (omega (arith, xor_parts a b)),
    (xor_parts a b).0,
    round_even a p,
    round_even b q,
  )

  round_xor_01 :
      a % 2 ≡ 0 → b % 2 ≡ 1 → crc16_round (bit_xor a b) ≡ bit_xor (crc16_round a) (crc16_round b)
  round_xor_01 p q = cc (
    round_odd (bit_xor a b) (omega (arith, xor_parts a b)),
    (xor_parts a b).0,
    round_even a p,
    round_odd b q,
    xor_assoc (a / 2) (b / 2) 0xa001,
  )

  round_xor_11 :
      a % 2 ≡ 1 → b % 2 ≡ 1 → crc16_round (bit_xor a b) ≡ bit_xor (crc16_round a) (crc16_round b)
  round_xor_11 p q = cc (
    round_even (bit_xor a b) (omega (arith, xor_parts a b)),
    (xor_parts a b).0,
    round_odd a p,
    round_odd b q,
    xor_comm (a / 2) 0xa001,
    xor_comm (b / 2) 0xa001,
    xor_xor_cancel (a / 2) (b / 2) 0xa001,
  )

pub round_xor : (a b : ℕ) → crc16_round (bit_xor a b) ≡ bit_xor (crc16_round a) (crc16_round b)
round_xor a b = elim (digit-cases a) [
  | inl a0 ↦ elim (digit-cases b) [
    | inl b0 ↦ round_xor_00 a b a0 b0
    | inr b1 ↦ round_xor_01 a b a0 b1
  ]
  | inr a1 ↦ elim (digit-cases b) [
    | inl b0 ↦ cc (round_xor_01 b a b0 a1, xor_comm a b, xor_comm (crc16_round a) (crc16_round b))
    | inr b1 ↦ round_xor_11 a b a1 b1
  ]
]

pub round-lt : (x : ℕ) → x < 2 ^ 16 → crc16_round x < 2 ^ 16
unfolding crc16_round
round-lt x h = ground (arith, xor_lt 16 (x / 2) 0xa001)

pub rounds_xor :
    (n a b : ℕ) → crc16_rounds n (bit_xor a b) ≡ bit_xor (crc16_rounds n a) (crc16_rounds n b)
unfolding crc16_rounds
rounds_xor zero a b = refl
rounds_xor (suc n) a b = rw (round_xor a b) (rounds_xor n (crc16_round a) (crc16_round b))

pub rounds-lt : (n x : ℕ) → x < 2 ^ 16 → crc16_rounds n x < 2 ^ 16
unfolding crc16_rounds
rounds-lt zero x h = h
rounds-lt (suc n) x h = rounds-lt n (crc16_round x) (round-lt x h)

-- What lies above the digits shifted out only moves down.
pub rounds_shift : (n q : ℕ) → crc16_rounds n (q * 2 ^ n) ≡ q
unfolding crc16_rounds
rounds_shift zero q = omega arith
rounds_shift (suc n) q =
    rw (round_even (q * 2 ^ suc n) (shift_half n q).1, (shift_half n q).0) (rounds_shift n q)
