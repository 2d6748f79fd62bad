-- ===== src/Memory/Loops.antt =====
-- The loops of the handlers: with fuel for one round more than there are bytes they read and write
-- exactly the range, and inside the array they meet no fault.
use modbus_c.Prelude.{
  ℕ, zero, suc, ◌+◌, ◌*◌, ◌^◌, ◌≤◌, ◌<◌, ◌≡◌, true, List, [], ◌∷◌, ◌++◌, length, get_or, set, take,
  drop, done, load_in, store_in, drop-cons, length-set, IsBytes, arith,
}
use modbus_c.Wire.{u16}
use modbus_c.Memory.Fields.{word_at, rd16_in, high_byte_clear}
use modbus_c.Memory.{wr16, read_registers, read_bytes, write_registers, write_bytes}

-- registers as they go over the wire: each byte behind a zero
abbrev pub expand : List ℕ → List ℕ
expand [] = []
expand (b ∷ bs) = wr16 b ++ expand bs

-- `n` bytes from index `i` on
abbrev pub slice : List ℕ → ℕ → ℕ → List ℕ
slice bytes i n = take n (drop i bytes)

-- `values` in place of the bytes from index `i` on
abbrev pub splice : List ℕ → ℕ → List ℕ → List ℕ
splice bytes i [] = bytes
splice bytes i (v ∷ vs) = splice (set bytes i v) (suc i) vs

pub read_bytes-slice :
    (n : ℕ) (bytes : List ℕ) (i e : ℕ)
    → i + n ≤ length bytes
    → e ≡ i + n
    → e < 2 ^ 16
    → read_bytes (suc n) bytes i e ≡ done (slice bytes i n)
unfolding read_bytes
read_bytes-slice zero bytes i e h p q = ground arith
read_bytes-slice (suc n) bytes i e h p q = ground (
  arith,
  load_in bytes i,
  drop-cons bytes i,
  read_bytes-slice n bytes (u16 (i + 1)) e (omega arith) (omega arith) q,
)

pub read_registers-slice :
    (n : ℕ) (bytes : List ℕ) (i e : ℕ)
    → i + n ≤ length bytes
    → e ≡ i + n
    → e < 2 ^ 16
    → read_registers (suc n) bytes i e ≡ done (expand (slice bytes i n))
unfolding read_registers
read_registers-slice zero bytes i e h p q = ground arith
read_registers-slice (suc n) bytes i e h p q = ground (
  arith,
  load_in bytes i,
  drop-cons bytes i,
  read_registers-slice n bytes (u16 (i + 1)) e (omega arith) (omega arith) q,
)

pub add_one : (i : ℕ) → suc i ≡ i + 1
add_one i = omega arith

pub write_bytes-splice :
    (n : ℕ) (bytes src : List ℕ) (c i e : ℕ)
    → c + n ≤ length src
    → i + n ≤ length bytes
    → e ≡ i + n
    → e < 2 ^ 16
    → write_bytes (suc n) bytes src c i e ≡ done (splice bytes i (slice src c n))
unfolding write_bytes
write_bytes-splice zero bytes src c i e s h p q = ground arith
write_bytes-splice (suc n) bytes src c i e s h p q =
    let v = get_or src c 0 in
    ground (
      arith,
      load_in src c,
      drop-cons src c,
      store_in bytes i v,
      add_one i,
      length-set bytes i v,
      write_bytes-splice n (set bytes i v) src (c + 1) (u16 (i + 1)) e (omega arith)
          (omega (arith, length-set bytes i v)) (omega arith) q,
    )

-- the `n` words from index `c` on
abbrev pub words : List ℕ → ℕ → ℕ → List ℕ
words src c zero = []
words src c (suc n) = word_at src c ∷ words src (c + 2) n

pub write_registers-splice :
    (n : ℕ) (bytes src : List ℕ) (c i e : ℕ)
    → IsBytes src
    → c + n * 2 ≤ length src
    → IsBytes (words src c n)
    → i + n ≤ length bytes
    → e ≡ i + n
    → e < 2 ^ 16
    → write_registers (suc n) bytes src c i e ≡ done (splice bytes i (words src c n), true)
unfolding write_registers
write_registers-splice zero bytes src c i e v s w h p q = ground arith
write_registers-splice (suc n) bytes src c i e v s w h p q =
    let x = word_at src c in
    ground (
      arith,
      rd16_in src c v,
      high_byte_clear x w.0,
      store_in bytes i x,
      add_one i,
      length-set bytes i x,
      write_registers-splice n (set bytes i x) src (c + 2) (u16 (i + 1)) e v (omega arith) w.1
          (omega (arith, length-set bytes i x)) (omega arith) q,
    )
