-- ===== src/Hexdump.antt =====
-- linux/util.c: `hexdump`.
pub mod Tests
use modbus_c.Prelude.{
  ℕ, zero, suc, ◌+◌, ◌-◌, ◌*◌, ◌/◌, ◌%◌, ◌<◌, ◌≡◌, refl, ap, ap₂, ◌∙◌, Bool, true, holds_below,
  holds_below-at, List, [], ◌∷◌, ◌++◌, ◌==◌, ltb, if◌then◌else◌, take, drop, length, length-append,
  set, get_or, Exec, done, fault, ◌>>=◌, load, load_in, store, store_in, store_out, IsByte, IsBytes,
  arith,
}
use modbus_c.Rtu.Process.{take-IsBytes}
use modbus_c.Prelude.Behind.{append_assoc, set_behind}

abbrev lookup : List ℕ
lookup =
    0x30 ∷ 0x31 ∷ 0x32 ∷ 0x33 ∷ 0x34 ∷ 0x35 ∷ 0x36 ∷ 0x37 ∷ 0x38 ∷ 0x39 ∷ 0x41 ∷ 0x42 ∷ 0x43 ∷ 0x44
    ∷ 0x45 ∷ 0x46 ∷ []

-- the loop, with `begin` at the index `i`; a byte of the source adds two to the result
unfoldable pub hexdump_from : ℕ → List ℕ → ℕ → List ℕ → Exec (List ℕ × ℕ)
hexdump_from capacity dst i [] = done (dst, 0)
hexdump_from capacity dst i (b ∷ bs) = if i == capacity then done (dst, 0) else do
  high ← load lookup (b / 16)
  dst' ← store dst i high
  low ← load lookup (b % 16)
  dst'' ← store dst' (i + 1) low
  (text, written) ← hexdump_from capacity dst'' (i + 2) bs
  done (text, written + 2)

-- into an object of `capacity` bytes
unfoldable pub hexdump : List ℕ → List ℕ → Exec (List ℕ × ℕ)
hexdump dst src = hexdump_from (length dst) dst 0 src

abbrev digit : ℕ → ℕ
digit n = get_or lookup n 0

-- two digits for each byte
abbrev pub hex_of : List ℕ → List ℕ
hex_of [] = []
hex_of (b ∷ bs) = digit (b / 16) ∷ digit (b % 16) ∷ hex_of bs

-- the value of a digit, and the bytes of a text
abbrev value : ℕ → ℕ
value c = if ltb c 0x3a then c - 0x30 else c - 0x37

abbrev pub bytes_of : List ℕ → List ℕ
bytes_of [] = []
bytes_of (c ∷ []) = []
bytes_of (c ∷ d ∷ cs) = (value c * 16 + value d) ∷ bytes_of cs

abbrev is_value : ℕ → Bool
is_value n = value (digit n) == n

digits_are : holds_below is_value 16 ≡ true
unfolding holds_below
digits_are = refl

value-digit : (n : ℕ) → n < 16 → value (digit n) ≡ n
value-digit n h = ground (arith, holds_below-at is_value 16 n digits_are h)

bytes_of-hex_of : (bs : List ℕ) → IsBytes bs → bytes_of (hex_of bs) ≡ bs
bytes_of-hex_of [] h = refl
bytes_of-hex_of (b ∷ bs) h =
    ap₂ (λ x xs. x ∷ xs)
      (omega (arith, value-digit (b / 16) (omega (arith, h.0)), value-digit (b % 16) (omega arith)))
      (bytes_of-hex_of bs h.1)

set_second :
    (pre rest : List ℕ) (d y v : ℕ)
    → set (pre ++ d ∷ y ∷ rest) (suc (length pre)) v ≡ pre ++ d ∷ v ∷ rest
set_second [] rest d y v = refl
set_second (p ∷ pre) rest d y v = ap (λ xs. p ∷ xs) (set_second pre rest d y v)

-- one byte, in front of `rest`
step_in :
    (capacity b x y : ℕ) (bs pre rest : List ℕ)
    → IsByte b
    → length pre < capacity
    → hexdump_from capacity (pre ++ x ∷ y ∷ rest) (length pre) (b ∷ bs) ≡ (
        hexdump_from capacity
          ((pre ++ digit (b / 16) ∷ digit (b % 16) ∷ []) ++ rest)
          (length (pre ++ digit (b / 16) ∷ digit (b % 16) ∷ []))
          bs
        >>= λ out. done (out.0, out.1 + 2))
unfolding hexdump_from
step_in capacity b x y bs pre rest h room =
    let high = digit (b / 16) in
    let low = digit (b % 16) in
    ground (
      arith,
      load_in lookup (b / 16),
      load_in lookup (b % 16),
      length-append pre (x ∷ y ∷ rest),
      length-append pre (high ∷ y ∷ rest),
      length-append pre (high ∷ low ∷ []),
      store_in (pre ++ x ∷ y ∷ rest) (length pre) high,
      set_behind pre (y ∷ rest) x high,
      store_in (pre ++ high ∷ y ∷ rest) (suc (length pre)) low,
      set_second pre rest high y low,
      append_assoc pre (high ∷ low ∷ []) rest,
    )

from_nil : (capacity i : ℕ) (dst : List ℕ) → hexdump_from capacity dst i [] ≡ done (dst, 0)
unfolding hexdump_from
from_nil capacity i dst = refl

from_end :
    (capacity i : ℕ) (dst src : List ℕ)
    → i ≡ capacity
    → hexdump_from capacity dst i src ≡ done (dst, 0)
unfolding hexdump_from
from_end capacity i dst [] e = refl
from_end capacity i dst (b ∷ bs) e = ground arith

from_last :
    (capacity b x : ℕ) (bs pre : List ℕ)
    → IsByte b
    → capacity ≡ length pre + 1
    → hexdump_from capacity (pre ++ x ∷ []) (length pre) (b ∷ bs) ≡ fault
unfolding hexdump_from
from_last capacity b x bs pre h e =
    let high = digit (b / 16) in
    ground (
      arith,
      load_in lookup (b / 16),
      load_in lookup (b % 16),
      length-append pre (x ∷ []),
      length-append pre (high ∷ []),
      store_in (pre ++ x ∷ []) (length pre) high,
      set_behind pre [] x high,
      store_out (pre ++ high ∷ []) (length pre + 1) (digit (b % 16)),
    )

from_even :
    (k capacity : ℕ) (src pre rest : List ℕ)
    → IsBytes src
    → length rest ≡ 2 * k
    → capacity ≡ length pre + 2 * k
    → hexdump_from capacity (pre ++ rest) (length pre) src
      ≡ done (
        pre ++ (hex_of (take k src) ++ drop (2 * length (take k src)) rest),
        2 * length (take k src),
      )
from_even zero capacity src pre rest h e c =
    ground (arith, from_end capacity (length pre) (pre ++ rest) src)
from_even (suc k) capacity [] pre rest h e c = from_nil capacity (length pre) (pre ++ rest)
from_even (suc k) capacity (b ∷ bs) pre [] h e c = absurd (omega arith)
from_even (suc k) capacity (b ∷ bs) pre (x ∷ []) h e c = absurd (omega arith)
from_even (suc k) capacity (b ∷ bs) pre (x ∷ y ∷ rest) h e c =
    let digits = digit (b / 16) ∷ digit (b % 16) ∷ [] in
    let n = 2 * length (take k bs) in
    let twice : suc (suc n) ≡ 2 * suc (length (take k bs)) = omega arith in
    let tail =
      from_even k capacity bs (pre ++ digits) rest h.1 (omega arith)
        (omega (arith, length-append pre digits)) in
    step_in capacity b x y bs pre rest h.0 (omega arith)
    ∙ ap (λ m. m >>= λ out. done (out.0, out.1 + 2)) tail
    ∙ ap₂ (λ (t : List ℕ) (m : ℕ). Exec.done (t, m))
        (append_assoc pre digits (hex_of (take k bs) ++ drop n rest)
          ∙ ap (λ j. pre ++ (digits ++ (hex_of (take k bs) ++ drop j (x ∷ y ∷ rest)))) twice)
        (omega arith)

-- `hexdump` into an object of `2 * k` bytes: it writes two digits for each of the first `k` bytes
-- of the source, or for all if there are fewer, leaves the rest of the object and returns how many
-- it wrote. The digits read back give the bytes.
pub hexdump-even :
    (k : ℕ) (dst src : List ℕ)
    → IsBytes src
    → length dst ≡ 2 * k
    → (hexdump dst src
        ≡ done (hex_of (take k src) ++ drop (2 * length (take k src)) dst, 2 * length (take k src)))
      × (bytes_of (hex_of (take k src)) ≡ take k src)
unfolding hexdump
hexdump-even k dst src h e = (
  from_even k (length dst) src [] dst h e (omega arith),
  bytes_of-hex_of (take k src) (take-IsBytes k src h),
)

from_odd :
    (k capacity : ℕ) (src pre rest : List ℕ)
    → IsBytes src
    → length rest ≡ 2 * k + 1
    → capacity ≡ length pre + (2 * k + 1)
    → k < length src
    → hexdump_from capacity (pre ++ rest) (length pre) src ≡ fault
from_odd k capacity [] pre rest h e c more = absurd (omega arith)
from_odd k capacity (b ∷ bs) pre [] h e c more = absurd (omega arith)
from_odd zero capacity (b ∷ bs) pre (x ∷ []) h e c more = from_last capacity b x bs pre h.0 c
from_odd zero capacity (b ∷ bs) pre (x ∷ y ∷ rest) h e c more = absurd (omega arith)
from_odd (suc k) capacity (b ∷ bs) pre (x ∷ []) h e c more = absurd (omega arith)
from_odd (suc k) capacity (b ∷ bs) pre (x ∷ y ∷ rest) h e c more =
    let digits = digit (b / 16) ∷ digit (b % 16) ∷ [] in
    step_in capacity b x y bs pre rest h.0 (omega arith)
    ∙ ap (λ m. m >>= λ out. done (out.0, out.1 + 2))
        (from_odd k capacity bs (pre ++ digits) rest h.1 (omega arith)
          (omega (arith, length-append pre digits)) (omega arith))

-- `hexdump` into an object of `2 * k + 1` bytes, from a source of more than `k` bytes, writes
-- outside the object.
pub hexdump-odd :
    (k : ℕ) (dst src : List ℕ)
    → IsBytes src
    → length dst ≡ 2 * k + 1
    → k < length src
    → hexdump dst src ≡ fault
unfolding hexdump
hexdump-odd k dst src h e more = from_odd k (length dst) src [] dst h e (omega arith) more
