-- ===== src/Wire/Fcode.antt =====
-- rtu.h: the function codes, `FCODE_*`.
use Prim.Native.Nat.{ℕ}

abbrev pub rd_coils : ℕ
rd_coils = 1

abbrev pub rd_holding_registers : ℕ
rd_holding_registers = 3

abbrev pub wr_coil : ℕ
wr_coil = 5

abbrev pub wr_register : ℕ
wr_register = 6

abbrev pub wr_registers : ℕ
wr_registers = 16

abbrev pub rd_bytes : ℕ
rd_bytes = 65

abbrev pub wr_bytes : ℕ
wr_bytes = 66
