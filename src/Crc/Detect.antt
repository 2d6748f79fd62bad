-- ===== src/Crc/Detect.antt =====
-- What the CRC of linux/crc.c detects: a frame with its CRC appended leaves no remainder, and no
-- change within two neighbouring bytes keeps the CRC.
use modbus_c.Prelude.{
  ℕ, ◌*◌, ◌^◌, ◌<◌, bit_xor, ◌≡◌, refl, ap, ◌∙◌, sym, ◌==◌, ◌||◌, not, Bool, true, List, [], ◌∷◌,
  ◌++◌, get_or, IsBytes, holds_below, holds_below-at, arith,
}
use modbus_c.Prelude.Xor.{
  xor_self, xor_zero, xor_eq_zero, xor_lt, xor_fields, xor_xor_cancel, xor_cancel_right,
  xor_cancel_left,
}
use modbus_c.Wire.{RtuCrc}
use modbus_c.Crc.{crc16_rounds, table_step, table_loop, crc_init, modbus_rtu_calc_crc}
use modbus_c.Crc.Tables.{hcrc16, lcrc16}
use modbus_c.Crc.Rounds.{rounds_xor}
use modbus_c.Crc.Table.{IsPair, tables-eq-rounds, table_step-IsPair, table_loop-IsPair}

pub table_loop-append :
    (c : RtuCrc) (xs ys : List ℕ) → table_loop c (xs ++ ys) ≡ table_loop (table_loop c xs) ys
unfolding table_loop
table_loop-append c [] ys = refl
table_loop-append c (x ∷ xs) ys = table_loop-append (table_step c x) xs ys

-- the two bytes in the order in which a frame carries them
abbrev pub crc_bytes : RtuCrc → List ℕ
crc_bytes c = c.low ∷ c.high ∷ []

-- A byte equal to the low byte shifts it out and leaves nothing.
step_self : (l h : ℕ) → table_step (record { low = l; high = h }) l ≡ record { low = h; high = 0 }
unfolding table_step hcrc16 lcrc16
step_self l h = rw (xor_self l, xor_zero h)

own_crc : (c : RtuCrc) → table_loop c (crc_bytes c) ≡ record { low = 0; high = 0 }
unfolding table_loop
own_crc c = rw (step_self c.low c.high) (step_self c.high 0)

-- The CRC over a message and its CRC appended, low byte first, is zero.
pub calc_crc_residue :
    (bytes : List ℕ)
    → modbus_rtu_calc_crc (bytes ++ crc_bytes (modbus_rtu_calc_crc bytes))
      ≡ record { low = 0; high = 0 }
unfolding modbus_rtu_calc_crc
calc_crc_residue bytes =
    table_loop-append crc_init bytes (crc_bytes (table_loop crc_init bytes))
    ∙ own_crc (table_loop crc_init bytes)

only_zero : ℕ → Bool
only_zero i = i == 0 || not (get_or lcrc16 i 0 == 0)

only_zero_below : holds_below only_zero 256 ≡ true
unfolding holds_below only_zero lcrc16
only_zero_below = refl

lcrc16_zero : (i : ℕ) → i < 256 → get_or lcrc16 i 0 ≡ 0 → i ≡ 0
unfolding only_zero
lcrc16_zero i h e = ground (arith, holds_below-at only_zero 256 i only_zero_below h)

-- No two entries of `lcrc16` agree.
module _ (i j : ℕ) (hi : i < 256) (hj : j < 256) (e : get_or lcrc16 i 0 ≡ get_or lcrc16 j 0) where
  differ_low :
      bit_xor (crc16_rounds 8 i) (crc16_rounds 8 j)
      ≡ bit_xor (get_or hcrc16 i 0) (get_or hcrc16 j 0)
  differ_low = cc (
    (tables-eq-rounds i hi).0,
    (tables-eq-rounds j hj).0,
    xor_fields 8 (get_or lcrc16 i 0) (get_or hcrc16 i 0) (tables-eq-rounds i hi).2,
    xor_fields 8 (get_or lcrc16 j 0) (get_or hcrc16 j 0) (tables-eq-rounds j hj).2,
    xor_xor_cancel (get_or hcrc16 i 0) (get_or hcrc16 j 0) (get_or lcrc16 i 0 * 2 ^ 8),
  )

  lcrc16-injective : i ≡ j
  lcrc16-injective =
      let k = bit_xor i j in
      let hk : k < 256 = xor_lt 8 i j hi hj in
      let low =
        xor_lt 8 (get_or hcrc16 i 0) (get_or hcrc16 j 0) (tables-eq-rounds i hi).2
          (tables-eq-rounds j hj).2 in
      xor_eq_zero i j (
        lcrc16_zero k hk
          (omega (arith, low, differ_low, rounds_xor 8 i j, (tables-eq-rounds k hk).0)))

-- The high byte after a step tells which entry was used.
step_index :
    (c c' : RtuCrc) (a a' : ℕ)
    → IsPair c
    → IsPair c'
    → a < 256
    → a' < 256
    → (table_step c a).high ≡ (table_step c' a').high
    → bit_xor c.low a ≡ bit_xor c'.low a'
unfolding table_step
step_index c c' a a' v v' h h' e =
    lcrc16-injective _ _ (xor_lt 8 c.low a v.0 h) (xor_lt 8 c'.low a' v'.0 h') e

-- So a step with a known byte loses nothing of the CRC before it.
step-injective :
    (c c' : RtuCrc) (b : ℕ)
    → IsPair c
    → IsPair c'
    → b < 256
    → table_step c b ≡ table_step c' b
    → c ≡ c'
unfolding table_step
step-injective c c' b v v' h e =
    let index = step_index c c' b b v v' h h (ap (λ r. r.high) e) in
    let high : c.high ≡ c'.high =
      xor_cancel_right _ _ (get_or hcrc16 (bit_xor c.low b) 0)
        (ap (λ r. r.low) e ∙ ap (λ i. bit_xor c'.high (get_or hcrc16 i 0)) (sym index)) in
    cc (xor_cancel_right _ _ b index, high)

loop-injective :
    (bytes : List ℕ) (c c' : RtuCrc)
    → IsPair c
    → IsPair c'
    → IsBytes bytes
    → table_loop c bytes ≡ table_loop c' bytes
    → c ≡ c'
unfolding table_loop
loop-injective [] c c' v v' h e = e
loop-injective (b ∷ bs) c c' v v' h e = step-injective c c' b v v' h.0 (
    loop-injective bs (table_step c b) (table_step c' b) (table_step-IsPair c b v h.0)
      (table_step-IsPair c' b v' h.0) h.1 e)

module _ (c : RtuCrc) (a b a' b' : ℕ) (v : IsPair c) (ha : a < 256) (hb : b < 256) (ha' : a' < 256)
    (hb' : b' < 256) (e : table_step (table_step c a) b ≡ table_step (table_step c a') b') where
  second_index : bit_xor (table_step c a).low b ≡ bit_xor (table_step c a').low b'
  second_index =
      step_index (table_step c a) (table_step c a') b b' (table_step-IsPair c a v ha)
        (table_step-IsPair c a' v ha') hb hb' (ap (λ r. r.high) e)

  first_high : (table_step c a).high ≡ (table_step c a').high
  unfolding table_step
  first_high = xor_cancel_right _ _ (get_or hcrc16 (bit_xor (table_step c a).low b) 0) (
      ap (λ r. r.low) e
      ∙ ap (λ i. bit_xor (table_step c a').high (get_or hcrc16 i 0)) (sym second_index))

  two_steps-injective : (a ≡ a') × (b ≡ b')
  two_steps-injective =
      let first : a ≡ a' = xor_cancel_left c.low a a' (step_index c c a a' v v ha ha' first_high) in
      (
        first,
        xor_cancel_left (table_step c a).low b b'
            (second_index ∙ ap (λ x. bit_xor (table_step c x).low b') (sym first)),
      )

-- Messages that differ only within two neighbouring bytes have different CRCs.
pub calc_crc-burst :
    (xs ys : List ℕ) (a b a' b' : ℕ)
    → IsBytes xs
    → IsBytes ys
    → a < 256
    → b < 256
    → a' < 256
    → b' < 256
    → modbus_rtu_calc_crc (xs ++ a ∷ b ∷ ys) ≡ modbus_rtu_calc_crc (xs ++ a' ∷ b' ∷ ys)
    → (a ≡ a') × (b ≡ b')
unfolding modbus_rtu_calc_crc table_loop
calc_crc-burst xs ys a b a' b' hx hy ha hb ha' hb' e =
    two_steps-injective c a b a' b' v ha hb ha' hb' (
      loop-injective ys _ _ (twice a b ha hb) (twice a' b' ha' hb') hy (
        sym (table_loop-append crc_init xs (a ∷ b ∷ ys))
        ∙ e
        ∙ table_loop-append crc_init xs (a' ∷ b' ∷ ys)))
  where
    c : RtuCrc
    c = table_loop crc_init xs

    v : IsPair c
    v = table_loop-IsPair crc_init xs (omega arith) hx

    twice : (a b : ℕ) → a < 256 → b < 256 → IsPair (table_step (table_step c a) b)
    twice a b p q = table_step-IsPair (table_step c a) b (table_step-IsPair c a v p) q
