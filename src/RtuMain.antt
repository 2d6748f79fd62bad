-- ===== src/RtuMain.antt =====
-- linux/rtu_main.c: the options of the slave, and the names of rates and parities in linux/tty.c.
--
-- A string is the list of its characters' codes. `atoi` of the C library is an argument, and what
-- `getopt` finds is the list of options with their arguments.
pub mod Names
pub mod Runs
pub mod Tests
use modbus_c.Prelude.{
  ℕ, ◌-◌, Bool, true, false, ◌&&◌, Option, none, some, List, [], ◌∷◌, ◌==◌, if◌then◌else◌, arith,
}
use modbus_c.Wire.{u8}
use modbus_c.Timing.{Speed, b1200, b2400, b4800, b9600, b19200, b38400, b57600, b115200}
use modbus_c.Tty.Term.{Parity, odd, even}

pub data ℤ : Type 0 where
  pos negsuc : ℕ → ℤ

abbrev pub Str : Type 0
Str = List ℕ

-- `0 == strcmp(a, b)`
unfoldable pub strcmp_eq : Str → Str → Bool
strcmp_eq [] [] = true
strcmp_eq [] (b ∷ bs) = false
strcmp_eq (a ∷ cs) [] = false
strcmp_eq (a ∷ cs) (b ∷ bs) = a == b && strcmp_eq cs bs

unfoldable pub tty_rate_str : Speed → Str
tty_rate_str b1200 = 49 ∷ 50 ∷ 48 ∷ 48 ∷ []
tty_rate_str b2400 = 50 ∷ 52 ∷ 48 ∷ 48 ∷ []
tty_rate_str b4800 = 52 ∷ 56 ∷ 48 ∷ 48 ∷ []
tty_rate_str b9600 = 57 ∷ 54 ∷ 48 ∷ 48 ∷ []
tty_rate_str b19200 = 49 ∷ 57 ∷ 50 ∷ 48 ∷ 48 ∷ []
tty_rate_str b38400 = 51 ∷ 56 ∷ 52 ∷ 48 ∷ 48 ∷ []
tty_rate_str b57600 = 53 ∷ 55 ∷ 54 ∷ 48 ∷ 48 ∷ []
tty_rate_str b115200 = 49 ∷ 49 ∷ 53 ∷ 50 ∷ 48 ∷ 48 ∷ []

unfoldable pub tty_parity_str : Parity → Str
tty_parity_str Parity.none = 78 ∷ []
tty_parity_str odd = 79 ∷ []
tty_parity_str even = 69 ∷ []

-- `supported_rates` with `supported_rates_str`
unfoldable pub supported_rates : List (Str × Speed)
supported_rates =
    (49 ∷ 50 ∷ 48 ∷ 48 ∷ [], b1200)
    ∷ (50 ∷ 52 ∷ 48 ∷ 48 ∷ [], b2400)
    ∷ (52 ∷ 56 ∷ 48 ∷ 48 ∷ [], b4800)
    ∷ (57 ∷ 54 ∷ 48 ∷ 48 ∷ [], b9600)
    ∷ (49 ∷ 57 ∷ 50 ∷ 48 ∷ 48 ∷ [], b19200)
    ∷ (53 ∷ 55 ∷ 54 ∷ 48 ∷ 48 ∷ [], b57600)
    ∷ (49 ∷ 49 ∷ 53 ∷ 50 ∷ 48 ∷ 48 ∷ [], b115200)
    ∷ []

-- the loop of `parse_speed`, with its fallback
unfoldable pub find_rate : List (Str × Speed) → Str → Speed
find_rate [] str = b19200
find_rate ((name, rate) ∷ rest) str = if strcmp_eq str name then rate else find_rate rest str

unfoldable pub parse_speed : Option Str → Speed
parse_speed none = b19200
parse_speed (some str) = find_rate supported_rates str

unfoldable pub parse_parity : Option Str → Parity
parse_parity none = even
parse_parity (some str) =
    if strcmp_eq str (69 ∷ [])
    then even
    else if strcmp_eq str (79 ∷ [])
    then odd
    else if strcmp_eq str (78 ∷ [])
    then Parity.none
    else even

-- an option of `getopt`, with `optarg`, which is `none` for NULL; `other` is any other character
pub data Opt : Type 0 where
  opt_D opt_T opt_a opt_d opt_p opt_r opt_t : Option Str → Opt
  opt_h other : Opt

-- the variables of `main`
pub record Vars : Type 0 where
  pub path : Option Str
  pub rate : Speed
  pub parity : Parity
  pub debug_size : ℤ
  pub addr : ℤ
  pub timeout_1t5 : ℤ
  pub timeout_3t5 : ℤ

-- The process ends with success or with failure, or the slave runs.
pub data Outcome : Type 0 where
  exit_success exit_failure : Outcome
  runs : ℕ → Str → Vars → Outcome

abbrev pub vars_init : Vars
vars_init = record {
  path = none;
  rate = b19200;
  parity = even;
  debug_size = pos 0;
  addr = negsuc 0;
  timeout_1t5 = negsuc 0;
  timeout_3t5 = negsuc 0;
}

-- the conversion to `uint8_t` of `self_addr = addr`
abbrev pub self_addr : ℤ → ℕ
self_addr (pos n) = u8 n
self_addr (negsuc n) = 255 - u8 n

module _ (atoi : Str → ℤ) where
  abbrev pub number : Option Str → ℤ → ℤ
  number none fallback = fallback
  number (some str) fallback = atoi str

  -- what follows the loop over the options
  unfoldable pub start : Vars → Outcome
  start v = elim v.path [
    | none ↦ exit_failure
    | some path ↦ elim v.addr [
      | negsuc n ↦ if n == 0 then exit_failure else runs (self_addr (negsuc n)) path v
      | pos n ↦ runs (self_addr (pos n)) path v
    ]
  ]

  unfoldable pub main_loop : List Opt → Vars → Outcome
  unfolding start
  main_loop [] v = start v
  main_loop (opt_D arg ∷ opts) v = main_loop opts (record v { debug_size = number arg (pos 0) })
  main_loop (opt_T arg ∷ opts) v = main_loop opts (record v { timeout_3t5 = number arg (negsuc 0) })
  main_loop (opt_a arg ∷ opts) v = main_loop opts (record v { addr = number arg (negsuc 0) })
  main_loop (opt_d arg ∷ opts) v = main_loop opts (record v { path = arg })
  main_loop (opt_p arg ∷ opts) v = main_loop opts (record v { parity = parse_parity arg })
  main_loop (opt_r arg ∷ opts) v = main_loop opts (record v { rate = parse_speed arg })
  main_loop (opt_t arg ∷ opts) v = main_loop opts (record v { timeout_1t5 = number arg (negsuc 0) })
  main_loop (opt_h ∷ opts) v = exit_success
  main_loop (other ∷ opts) v = exit_failure

  unfoldable pub main : List Opt → Outcome
  main opts = main_loop opts vars_init
