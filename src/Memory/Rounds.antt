-- ===== src/Memory/Rounds.antt =====
-- The loops of the handlers end: a counter of 16 bits that starts `n` rounds before the end meets it
-- with fuel left. On the way they read and write bytes, and keep the length of the array.
use modbus_c.Prelude.{
  ℕ, zero, suc, ◌+◌, ◌*◌, ◌^◌, ◌<◌, bit_and, ◌≡◌, refl, ◌==◌, Bool, false, List, ◌++◌, length,
  length-append, Ensures, Ensures-bind, load, store, IsByte, IsBytes, IsBytes-append, AreBytes,
  load-IsByte, store-AreBytes, Bool-cases, inl, inr, arith,
}
use modbus_c.Wire.{u8, u16}
use modbus_c.Memory.{rd16, wr16, read_registers, read_bytes, write_registers, write_bytes}

abbrev pub IsWord : ℕ → Type 0
IsWord w = w < 2 ^ 16

pub rd16-IsWord : (src : List ℕ) (p : ℕ) → IsBytes src → Ensures IsWord (rd16 src p)
unfolding rd16
rd16-IsWord src p v = Ensures-bind IsByte IsWord (load src p) _ (load-IsByte src p v) λ high hh.
    Ensures-bind IsByte IsWord (load src (p + 1)) _ (load-IsByte src (p + 1) v)
      λ low hl. omega arith

pub wr16-AreBytes : (w : ℕ) → AreBytes 2 (wr16 w)
unfolding wr16
wr16-AreBytes w = omega arith

append-AreBytes :
    (n m : ℕ) (xs ys : List ℕ) → AreBytes n xs → AreBytes m ys → AreBytes (n + m) (xs ++ ys)
append-AreBytes n m xs ys h k = (omega (arith, length-append xs ys), IsBytes-append xs ys h.1 k.1)

pub read_bytes-AreBytes :
    (n : ℕ) (bytes : List ℕ) (i e : ℕ)
    → IsBytes bytes
    → IsWord i
    → IsWord n
    → e ≡ u16 (i + n)
    → Ensures (AreBytes n) (read_bytes (suc n) bytes i e)
unfolding read_bytes
read_bytes-AreBytes zero bytes i e v hi hn q = ground arith
read_bytes-AreBytes (suc n) bytes i e v hi hn q =
    let more : (i == e) ≡ false = ground arith in
    rw (more, read_bytes, Ensures)
      (Ensures-bind IsByte (AreBytes (suc n)) (load bytes i) _ (load-IsByte bytes i v) λ b hb.
        Ensures-bind (AreBytes n) (AreBytes (suc n)) (read_bytes (suc n) bytes (u16 (i + 1)) e) _
          (read_bytes-AreBytes n bytes (u16 (i + 1)) e v (omega arith) (omega arith) (omega arith))
          λ bs h. (omega arith, (hb, h.1)))

pub read_registers-AreBytes :
    (n : ℕ) (bytes : List ℕ) (i e : ℕ)
    → IsBytes bytes
    → IsWord i
    → IsWord n
    → e ≡ u16 (i + n)
    → Ensures (AreBytes (n * 2)) (read_registers (suc n) bytes i e)
unfolding read_registers
read_registers-AreBytes zero bytes i e v hi hn q = ground arith
read_registers-AreBytes (suc n) bytes i e v hi hn q =
    let more : (i == e) ≡ false = ground arith in
    let P = AreBytes (suc n * 2) in
    rw (more, read_registers, Ensures)
      (Ensures-bind IsByte P (load bytes i) _ (load-IsByte bytes i v) λ b hb.
        Ensures-bind (AreBytes (n * 2)) P (read_registers (suc n) bytes (u16 (i + 1)) e) _
          (read_registers-AreBytes n bytes (u16 (i + 1)) e v (omega arith) (omega arith)
            (omega arith))
          λ bs h.
            let both = append-AreBytes 2 (n * 2) (wr16 b) bs (wr16-AreBytes b) h in
            (omega (arith, both.0), both.1))

pub write_bytes-AreBytes :
    (n : ℕ) (bytes src : List ℕ) (c i e : ℕ)
    → IsBytes bytes
    → IsBytes src
    → IsWord i
    → IsWord n
    → e ≡ u16 (i + n)
    → Ensures (AreBytes (length bytes)) (write_bytes (suc n) bytes src c i e)
unfolding write_bytes
write_bytes-AreBytes zero bytes src c i e v s hi hn q = ground arith
write_bytes-AreBytes (suc n) bytes src c i e v s hi hn q =
    let more : (i == e) ≡ false = ground arith in
    let P = AreBytes (length bytes) in
    rw (more, write_bytes, Ensures)
      (Ensures-bind IsByte P (load src c) _ (load-IsByte src c s) λ b hb.
        Ensures-bind P P (store bytes i b) _ (store-AreBytes bytes i b v hb) λ bs h. rw (← h.0) (
          write_bytes-AreBytes n bs src (c + 1) (u16 (i + 1)) e h.1 s (omega arith) (omega arith)
            (omega arith)))

-- the array behind the loop of `write_n16`
abbrev pub Kept : ℕ → List ℕ × Bool → Type 0
Kept n out = AreBytes n out.0

pub write_registers-Kept :
    (n : ℕ) (bytes src : List ℕ) (c i e : ℕ)
    → IsBytes bytes
    → IsBytes src
    → IsWord i
    → IsWord n
    → e ≡ u16 (i + n)
    → Ensures (Kept (length bytes)) (write_registers (suc n) bytes src c i e)
unfolding write_registers
write_registers-Kept zero bytes src c i e v s hi hn q = ground arith
write_registers-Kept (suc n) bytes src c i e v s hi hn q =
    let more : (i == e) ≡ false = ground arith in
    let P = Kept (length bytes) in
    rw (more, write_registers, Ensures)
      (Ensures-bind IsWord P (rd16 src c) _ (rd16-IsWord src c s) λ w hw.
        elim (Bool-cases (bit_and 0xff00 w == 0)) [
          | inl fits ↦
              rw (fits, Ensures)
                (Ensures-bind (AreBytes (length bytes)) P (store bytes i (u8 w)) _
                  (store-AreBytes bytes i (u8 w) v (omega arith))
                  λ bs h. rw (← h.0) (
                    write_registers-Kept n bs src (c + 2) (u16 (i + 1)) e h.1 s (omega arith)
                      (omega arith) (omega arith)))
          | inr high ↦ rw (high, Ensures) (refl, v)
        ])
