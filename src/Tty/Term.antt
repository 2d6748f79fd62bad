-- ===== src/Tty/Term.antt =====
-- linux/tty.c: `tty_configure_term`. A flag of `struct termios` is a Boolean of the record.
use modbus_c.Prelude.{ℕ, ◌≡◌, ◌≢◌, refl, Bool, true, false, if◌then◌else◌, ◌+◌, arith}
use modbus_c.Timing.{Speed}

-- `parity_t`, `data_bits_t` and `stop_bits_t` of linux/tty.h
pub data Parity : Type 0 where
  none odd even : Parity

pub data DataBits : Type 0 where
  five six seven eight : DataBits

pub data StopBits : Type 0 where
  one two : StopBits

-- the flags of `struct termios` that the code names; `cs` is the value of CSIZE
pub record Termios : Type 0 where
  pub ispeed : Speed
  pub ospeed : Speed
  pub parenb : Bool
  pub parodd : Bool
  pub cs : DataBits
  pub cstopb : Bool
  pub crtscts : Bool
  pub cread : Bool
  pub clocal : Bool
  pub icanon : Bool
  pub echo : Bool
  pub isig : Bool
  pub inpck : Bool
  pub ixon : Bool
  pub ixoff : Bool
  pub ixany : Bool
  pub ignbrk : Bool
  pub brkint : Bool
  pub parmrk : Bool
  pub istrip : Bool
  pub inlcr : Bool
  pub igncr : Bool
  pub icrnl : Bool
  pub opost : Bool
  pub onlcr : Bool
  pub vtime : ℕ
  pub vmin : ℕ

abbrev set_speed : Speed → Termios → Termios
set_speed speed c = record c { ispeed = speed; ospeed = speed }

abbrev set_parity : Parity → Termios → Termios
set_parity none c = record c { parenb = false; inpck = false }
set_parity odd c = record c { inpck = true; parenb = true; parodd = true }
set_parity even c = record c { inpck = true; parenb = true; parodd = false }

abbrev set_stop_bits : StopBits → Termios → Termios
set_stop_bits one c = record c { cstopb = false }
set_stop_bits two c = record c { cstopb = true }

-- the part behind `aux (similar to cfmakeraw())`
abbrev set_raw : Termios → Termios
set_raw c = record c {
  crtscts = false;
  cread = true;
  clocal = true;
  icanon = false;
  echo = false;
  isig = false;
  ixon = false;
  ixoff = false;
  ixany = false;
  ignbrk = false;
  brkint = false;
  parmrk = false;
  istrip = false;
  inlcr = false;
  igncr = false;
  icrnl = false;
  opost = false;
  onlcr = false;
  vtime = 0;
  vmin = 0;
}

unfoldable pub tty_configure_term : Termios → Speed → Parity → DataBits → StopBits → Termios
tty_configure_term config speed parity data_bits stop_bits = set_raw (
    set_stop_bits stop_bits
      (record (set_parity parity (set_speed speed config)) { cs = data_bits }))

-- the parity that a configuration gives the line
abbrev pub line_parity : Termios → Parity
line_parity c = if c.parenb then (if c.parodd then odd else even) else none

abbrev data_bits_of : DataBits → ℕ
data_bits_of five = 5
data_bits_of six = 6
data_bits_of seven = 7
data_bits_of eight = 8

-- the bits of a character on the line: the start bit, the data, the parity and the stop bits
abbrev pub bits_per_char : Termios → ℕ
bits_per_char c = 1 + data_bits_of c.cs + (if c.parenb then 1 else 0) + (if c.cstopb then 2 else 1)

-- what linux/rtu_main.c makes of a configuration of the tty
unfoldable pub configure_slave : Termios → Speed → Parity → Termios
configure_slave config rate parity =
    tty_configure_term config rate parity eight (elim parity [ none ↦ two | _ ↦ one ])

-- Whatever the configuration of the tty was, a character of the line that the slave's program
-- configures has 11 bits, as the timeouts count, and the parity that was asked for.
pub bits_per_char-configure_slave :
    (config : Termios) (rate : Speed) (parity : Parity)
    → (bits_per_char (configure_slave config rate parity) ≡ 11)
      × (line_parity (configure_slave config rate parity) ≡ parity)
unfolding configure_slave tty_configure_term
bits_per_char-configure_slave config rate parity = ground arith

-- With a parity, nothing of the configuration before is left in these flags.
pub tty_configure_term-overwrites :
    (c c' : Termios) (speed : Speed) (parity : Parity) (data_bits : DataBits) (stop_bits : StopBits)
    → parity ≢ none
    → tty_configure_term c speed parity data_bits stop_bits
      ≡ tty_configure_term c' speed parity data_bits stop_bits
unfolding tty_configure_term
tty_configure_term-overwrites c c' speed none data_bits stop_bits n = absurd (n refl)
tty_configure_term-overwrites c c' speed odd data_bits one n = refl
tty_configure_term-overwrites c c' speed odd data_bits two n = refl
tty_configure_term-overwrites c c' speed even data_bits one n = refl
tty_configure_term-overwrites c c' speed even data_bits two n = refl
