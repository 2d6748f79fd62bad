-- ===== src/Tty/Debug.antt =====
-- linux/tty.c: `dump` and `debug`, which append a text to a buffer with `snprintf`.
pub mod Room
pub mod Words
pub mod Text
use modbus_c.Prelude.{
  ℕ, zero, suc, ◌+◌, ◌-◌, ◌/◌, ◌%◌, Bool, true, false, not, List, [], ◌∷◌, ◌++◌, length, take, ltb,
  ◌==◌, if◌then◌else◌, ◌&&◌, Exec, done, ◌>>=◌,
}
use modbus_c.Master.{memcpy}

-- a buffer with the place where the next text goes
pub record Cursor : Type 0 where
  pub buf : List ℕ
  pub dst : ℕ

-- a number that may be negative
pub data Int64 : Type 0 where
  nonneg minus : ℕ → Int64

-- `%d`; each round divides by ten, at most `fuel` times
unfoldable pub decimal_digits : ℕ → ℕ → List ℕ → List ℕ
decimal_digits zero n out = out
decimal_digits (suc fuel) n out =
    let rest = decimal_digits fuel (n / 10) ((b'0' + n % 10) ∷ out) in
    if ltb n 10 then (b'0' + n) ∷ out else rest

unfoldable pub decimal : ℕ → List ℕ
decimal n = decimal_digits (suc n) n []

abbrev pub signed : Int64 → List ℕ
signed (nonneg n) = decimal n
signed (minus n) = b'-' ∷ decimal n

abbrev pub hex_digit : ℕ → ℕ
hex_digit n = if ltb n 10 then b'0' + n else b'a' + (n - 10)

-- `%02x` of a byte
abbrev pub hex_02 : ℕ → List ℕ
hex_02 n = hex_digit (n / 16) ∷ hex_digit (n % 16) ∷ []

-- `snprintf` into `room` bytes from `dst` on: what fits of the text, and a zero; its value is the
-- length of the whole text.
unfoldable pub snprintf : List ℕ → ℕ → ℕ → List ℕ → Exec (List ℕ × ℕ)
snprintf buf dst room text =
    if room == 0
    then done (buf, length text)
    else do buf' ← memcpy buf dst (take (room - 1) text ++ 0 ∷ []); done (buf', length text)

abbrev pub min : ℕ → ℕ → ℕ
min a b = if ltb a b then a else b

-- `len = snprintf(dst, dst_end - dst, ...); dst += min(len, dst_end - dst);`
unfoldable pub print : Cursor → List ℕ → Exec Cursor
print c text = do
  (buf, len) ← snprintf c.buf c.dst (length c.buf - c.dst) text
  done (record { buf = buf; dst = c.dst + min len (length c.buf - c.dst) })

abbrev pub is_empty : List ℕ → Bool
is_empty [] = true
is_empty (_ ∷ _) = false

-- `num` zeros, which `more` bytes follow or not
unfoldable pub print_zeros : Cursor → ℕ → Bool → Exec Cursor
print_zeros c num more = do
  c' ← if ltb 1 num then print c (decimal num ++ b'x' ∷ []) else done c
  c'' ← print c' (hex_02 0)
  if more then print c'' (b' ' ∷ []) else done c''

-- what a byte that ends a run of zeros writes, and the zeros before it
unfoldable pub print_byte : Cursor → ℕ → ℕ → Bool → Exec Cursor
print_byte c zeros value more = do
  c1 ← if ltb 0 zeros then print_zeros c zeros more else done c
  c2 ← if not (value == 0) then print c1 (hex_02 value) else done c1
  if more then print c2 (b' ' ∷ []) else done c2

-- the loop of `dump`, with `num` zeros not yet written
unfoldable pub dump_from : Cursor → ℕ → List ℕ → Exec Cursor
dump_from c num [] = done c
dump_from c num (value ∷ rest) =
    let more = not (is_empty rest) in
    elim ((value == 0) && more) [
      | true ↦ dump_from c (num + 1) rest
      | false ↦ do
        c' ← print_byte c (if value == 0 then num + 1 else num) value more
        dump_from c' 0 rest
    ]

unfoldable pub dump : Cursor → List ℕ → Exec Cursor
dump c bytes = dump_from c 0 bytes

abbrev pub debug_head : List ℕ → Int64 → Int64 → ℕ → List ℕ
debug_head tag timeout_us duration_us count =
    let counted = b'u' ∷ b's' ∷ b' ' ∷ b'(' ∷ (decimal count ++ b')' ∷ b' ' ∷ []) in
    tag ++ b' ' ∷ (signed duration_us ++ b'u' ∷ b's' ∷ b'/' ∷ (signed timeout_us ++ counted))

abbrev pub debug_timeout : List ℕ
debug_timeout = b' ' ∷ b't' ∷ b'i' ∷ b'm' ∷ b'e' ∷ b'o' ∷ b'u' ∷ b't' ∷ []

-- `debug`, behind the test for a buffer: `count` bytes were read or written
unfoldable pub debug : Cursor → List ℕ → Int64 → Int64 → List ℕ → ℕ → Exec Cursor
debug c tag timeout_us duration_us bytes count = do
  c' ← print c (debug_head tag timeout_us duration_us count)
  c'' ← dump c' bytes
  print c'' (if count == 0 then debug_timeout else [])
