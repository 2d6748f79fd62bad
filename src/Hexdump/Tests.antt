-- ===== src/Hexdump/Tests.antt =====
-- Two bytes into the room for one and a half, and for two.
use modbus_c.Prelude.{
  ℕ, ◌*◌, ◌≡◌, refl, List, [], ◌∷◌, ◌++◌, take, drop, length, replicate, done, fault, arith,
}
use modbus_c.Hexdump.{hexdump, hex_of, bytes_of, hexdump-even, hexdump-odd}

abbrev two_bytes : List ℕ
two_bytes = 0x1f ∷ 0xa0 ∷ []

hexdump-even_example :
    (hexdump (replicate 6 0) two_bytes
      ≡ done (
        hex_of (take 3 two_bytes) ++ drop (2 * length (take 3 two_bytes)) (replicate 6 0),
        2 * length (take 3 two_bytes),
      ))
    × (bytes_of (hex_of (take 3 two_bytes)) ≡ take 3 two_bytes)
hexdump-even_example = hexdump-even 3 (replicate 6 0) two_bytes (omega arith) refl

hexdump-odd_example : hexdump (replicate 3 0) two_bytes ≡ fault
hexdump-odd_example = hexdump-odd 1 (replicate 3 0) two_bytes (omega arith) refl (omega arith)
