-- ===== src/Timing/Tests.antt =====
-- The timeouts of a line of 9600 bits per second, for a frame of eight bytes.
use modbus_c.Prelude.{◌+◌, ◌*◌, ◌^◌, ◌≤◌, ◌<◌, ◌≡◌, ◌⊎◌, arith}
use modbus_c.Timing.{b9600, tty_bps, calc_1t5_us, calc_3t5_us, calc_tmax_ms}
use modbus_c.Timing.Bounds.{IsQuotient, timeouts_lem}

timeouts_lem_example :
    (calc_1t5_us b9600 < calc_3t5_us b9600)
    × (0 < calc_1t5_us b9600)
    × (calc_3t5_us b9600 < 2 ^ 16)
    × ((tty_bps b9600 < 19200) × IsQuotient 8250000 (tty_bps b9600) (calc_1t5_us b9600)
        ⊎ ((19200 ≤ tty_bps b9600) × (calc_1t5_us b9600 ≡ 750)))
    × ((tty_bps b9600 < 19200) × IsQuotient 19250000 (tty_bps b9600) (calc_3t5_us b9600)
        ⊎ ((19200 ≤ tty_bps b9600) × (calc_3t5_us b9600 ≡ 1750)))
    × (8 * 11000 < calc_tmax_ms b9600 8 * tty_bps b9600)
    × (calc_tmax_ms b9600 8 * tty_bps b9600 ≤ 8 * 11000 + 10 * tty_bps b9600)
timeouts_lem_example = timeouts_lem b9600 8 (omega arith)
