-- ===== src/Wire/Ecode.antt =====
-- rtu.h: the exception codes, `ECODE_*`.
use Prim.Native.Nat.{ℕ}

abbrev pub illegal_function : ℕ
illegal_function = 1

abbrev pub illegal_data_address : ℕ
illegal_data_address = 2

abbrev pub illegal_data_value : ℕ
illegal_data_value = 3

abbrev pub format_error : ℕ
format_error = 0x80
