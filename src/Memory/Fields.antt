-- ===== src/Memory/Fields.antt =====
-- The two-byte fields of a PDU: what `rd16` reads inside the buffer and what `wr16` writes.
use modbus_c.Prelude.{
  ℕ, zero, suc, ◌+◌, ◌*◌, ◌^◌, ◌≤◌, ◌<◌, bit_and, ◌≡◌, ◌==◌, true, false, List, [], ◌∷◌, length,
  get_or, done, load_in, IsBytes, arith,
}
use modbus_c.Prelude.Xor.{or_fields, and_high_byte}
use modbus_c.Memory.{rd16}

pub get_or-IsByte : (src : List ℕ) (p : ℕ) → IsBytes src → get_or src p 0 < 256
get_or-IsByte [] p v = omega arith
get_or-IsByte (x ∷ xs) zero v = v.0
get_or-IsByte (x ∷ xs) (suc p) v = get_or-IsByte xs p v.1

-- the word at index `p`, high byte first
abbrev pub word_at : List ℕ → ℕ → ℕ
word_at src p = get_or src p 0 * 256 + get_or src (p + 1) 0

pub word_at-lt : (src : List ℕ) (p : ℕ) → IsBytes src → word_at src p < 2 ^ 16
word_at-lt src p v = omega (arith, get_or-IsByte src p v, get_or-IsByte src (p + 1) v)

pub rd16_in :
    (src : List ℕ) (p : ℕ) → IsBytes src → p + 1 < length src → rd16 src p ≡ done (word_at src p)
unfolding rd16
rd16_in src p v h = ground (
  arith,
  load_in src p,
  load_in src (p + 1),
  get_or-IsByte src p v,
  get_or-IsByte src (p + 1) v,
  or_fields 8 (get_or src p 0) (get_or src (p + 1) 0),
)

-- The test for a register value that does not fit a byte.
pub high_byte_clear : (w : ℕ) → w < 256 → (bit_and 0xff00 w == 0) ≡ true
high_byte_clear w h = ground (arith, and_high_byte w)

pub high_byte_set : (w : ℕ) → w < 2 ^ 16 → 256 ≤ w → (bit_and 0xff00 w == 0) ≡ false
high_byte_set w h k = ground (arith, and_high_byte w)
