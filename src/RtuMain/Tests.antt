-- ===== src/RtuMain/Tests.antt =====
-- A slave of address 17 on the device "t", with `atoi` for a digit or two.
use modbus_c.Prelude.{◌+◌, ◌-◌, ◌*◌, ◌≡◌, refl, some, List, ◌⊎◌, [], ◌∷◌}
use modbus_c.RtuMain.Names.{parse_speed-tty_rate_str}
use modbus_c.RtuMain.Runs.{Has, FromOption, main-runs}
use modbus_c.RtuMain.{
  ℤ, pos, Str, Opt, opt_a, opt_d, opt_p, Vars, runs, vars_init, main, main_loop, parse_parity,
  strcmp_eq, parse_speed, tty_rate_str, tty_parity_str,
}
use modbus_c.Timing.{b9600, b19200, b38400}
use modbus_c.Tty.Term.{odd}

abbrev digits : Str → ℤ
digits (c ∷ []) = pos (c - 48)
digits (c ∷ d ∷ []) = pos ((c - 48) * 10 + (d - 48))
digits _ = pos 0

abbrev device : Str
device = 116 ∷ []

abbrev seventeen : Str
seventeen = 49 ∷ 55 ∷ []

abbrev options : List Opt
options =
    opt_a (some (57 ∷ []))
    ∷ opt_d (some device)
    ∷ opt_p (some (79 ∷ []))
    ∷ opt_a (some seventeen)
    ∷ []

abbrev given : Vars
given = record vars_init { path = some device; addr = pos 17; parity = odd }

main_runs : main digits options ≡ runs 17 device given
unfolding main main_loop parse_parity strcmp_eq
main_runs = refl

main-runs_example :
    ((str : Str) × FromOption digits 17 device given options str)
    × Has (opt_d (some device)) options
main-runs_example = main-runs digits 17 device given options main_runs

parse_speed-tty_rate_str_example :
    ((parse_speed (some (tty_rate_str b9600)) ≡ b9600) ⊎ (b9600 ≡ b38400))
    × (parse_speed (some (tty_rate_str b38400)) ≡ b19200)
    × (parse_parity (some (tty_parity_str odd)) ≡ odd)
parse_speed-tty_rate_str_example = parse_speed-tty_rate_str b9600 odd
