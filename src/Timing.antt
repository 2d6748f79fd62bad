-- ===== src/Timing.antt =====
-- linux/rtu_impl.c: the timeouts of a line, by its rate (`tty_bps` of linux/tty.c).
pub mod Bounds
pub mod Tests
use modbus_c.Prelude.{ℕ, ◌+◌, ◌*◌, ◌/◌, ◌%◌, ◌^◌, ltb, if◌then◌else◌}

-- `speed_t`, the rates that `tty_bps` supports; it aborts on any other.
pub data Speed : Type 0 where
  b1200 b2400 b4800 b9600 b19200 b38400 b57600 b115200 : Speed

unfoldable pub tty_bps : Speed → ℕ
tty_bps b1200 = 1200
tty_bps b2400 = 2400
tty_bps b4800 = 4800
tty_bps b9600 = 9600
tty_bps b19200 = 19200
tty_bps b38400 = 38400
tty_bps b57600 = 57600
tty_bps b115200 = 115200

pub calc_1t5_us : Speed → ℕ
calc_1t5_us rate = let bps = tty_bps rate in if ltb bps 19200 then 8250000 / bps else 750

pub calc_3t5_us : Speed → ℕ
calc_3t5_us rate = let bps = tty_bps rate in if ltb bps 19200 then 19250000 / bps else 1750

-- `size_t` has 64 bits; for the sizes of frames the result fits an `int`.
pub calc_tmin_ms : Speed → ℕ → ℕ
calc_tmin_ms rate size = ((size * 11000) % 2 ^ 64) / tty_bps rate

pub calc_tmax_ms : Speed → ℕ → ℕ
calc_tmax_ms rate size = 10 + calc_tmin_ms rate size
