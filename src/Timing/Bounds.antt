-- ===== src/Timing/Bounds.antt =====
-- The timeouts of linux/rtu_impl.c are in order and near the times of the characters.
use modbus_c.Prelude.{ℕ, ◌+◌, ◌*◌, ◌^◌, ◌≤◌, ◌<◌, ◌≡◌, ◌⊎◌, arith}
use modbus_c.Wire.{adu_capacity}
use modbus_c.Timing.{
  Speed, b1200, b2400, b4800, b9600, b19200, b38400, b57600, b115200, tty_bps, calc_1t5_us,
  calc_3t5_us, calc_tmin_ms, calc_tmax_ms,
}

-- the time `t` is `n / bps` rounded down
abbrev pub IsQuotient : ℕ → ℕ → ℕ → Type 0
IsQuotient n bps t = (t * bps ≤ n) × (n < (t + 1) * bps)

-- At each rate and for each size up to that of the longest frame: the time of 1.5 characters is
-- less than that of 3.5, both are more than zero and fit 16 bits, they are 750 and 1750
-- microseconds from 19200 bits per second on and below that the quotients by the rate rounded down,
-- and the time that is allowed for a transfer is more than the time that its bits of 11 a character
-- take, by at most 10 milliseconds.
pub timeouts_lem :
    (rate : Speed) (size : ℕ)
    → size ≤ adu_capacity
    → (calc_1t5_us rate < calc_3t5_us rate)
      × (0 < calc_1t5_us rate)
      × (calc_3t5_us rate < 2 ^ 16)
      × ((tty_bps rate < 19200) × IsQuotient 8250000 (tty_bps rate) (calc_1t5_us rate)
          ⊎ ((19200 ≤ tty_bps rate) × (calc_1t5_us rate ≡ 750)))
      × ((tty_bps rate < 19200) × IsQuotient 19250000 (tty_bps rate) (calc_3t5_us rate)
          ⊎ ((19200 ≤ tty_bps rate) × (calc_3t5_us rate ≡ 1750)))
      × (size * 11000 < calc_tmax_ms rate size * tty_bps rate)
      × (calc_tmax_ms rate size * tty_bps rate ≤ size * 11000 + 10 * tty_bps rate)
unfolding calc_1t5_us calc_3t5_us calc_tmin_ms calc_tmax_ms tty_bps
timeouts_lem b1200 size h = ground arith
timeouts_lem b2400 size h = ground arith
timeouts_lem b4800 size h = ground arith
timeouts_lem b9600 size h = ground arith
timeouts_lem b19200 size h = ground arith
timeouts_lem b38400 size h = ground arith
timeouts_lem b57600 size h = ground arith
timeouts_lem b115200 size h = ground arith
