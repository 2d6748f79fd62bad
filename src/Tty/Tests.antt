-- ===== src/Tty/Tests.antt =====
-- A tty that brings a byte in two rounds and takes two bytes in each, with a limit of a millisecond,
-- and rounds without events until it is over.
use modbus_c.Prelude.{
  replicate, ℕ, zero, suc, ◌≤◌, ◌≡◌, refl, true, false, some, List, [], ◌∷◌, ◌++◌, length, done,
  Ends, arith,
}
use modbus_c.Timing.{b19200}
use modbus_c.Tty.{
  ReadResult, WriteResult, timed_out, poll_eintr, events, Iteration, Attempt, Sleep, tty_read,
  tty_read_ll, tty_write,
}
use modbus_c.Tty.Loops.{Advances, Reads, Takes, tty_read-Takes}
use modbus_c.Tty.Writes.{tty_write-all}
use modbus_c.Tty.LowLatency.{Receives, tty_read_ll-Receives}
use modbus_c.Prelude.{◌>>=◌}
use modbus_c.Tty.Device.{
  Use, opens, adopts, closes, use_all, tty_init, tty_deinit, Owns, IsReleased,
  tty_deinit-IsReleased,
}
use modbus_c.Tty.Debug.{nonneg, minus, decimal, decimal_digits, debug}
use modbus_c.Tty.Debug.Room.{at}
use modbus_c.Tty.Debug.Words.{dump_text}
use modbus_c.Tty.Debug.Text.{debug_lem}
use modbus_c.Tty.Term.{
  Termios, even, eight, configure_slave, bits_per_char, line_parity, bits_per_char-configure_slave,
}

abbrev waits : ℕ → ℕ → List (Iteration ReadResult)
waits e zero = []
waits e (suc n) = record { poll = timed_out; elapsed = e } ∷ waits (suc e) n

waits-Advances : (e d n : ℕ) → d ≤ e → Advances d (waits (suc e) n)
waits-Advances e d zero h = tt
waits-Advances e d (suc n) h = (omega arith, waits-Advances (suc e) (suc e) n (omega arith))

waits-length : (e n : ℕ) → length (waits e n) ≡ n
waits-length e zero = refl
waits-length e (suc n) = omega (arith, waits-length (suc e) n)

waits-Reads : (e n : ℕ) → Reads (waits e n)
waits-Reads e zero = tt
waits-Reads e (suc n) = (tt, waits-Reads (suc e) n)

abbrev line : List (Iteration ReadResult)
line =
    record { poll = events (some (ReadResult.bytes (7 ∷ []))) false; elapsed = 1 }
    ∷ record { poll = poll_eintr; elapsed = 2 }
    ∷ record { poll = events (some (ReadResult.bytes (8 ∷ 9 ∷ []))) false; elapsed = 3 }
    ∷ waits 4 2000

tty_read-Takes_example : Ends ⊥ (Takes 8 1 0 line []) (tty_read 8 (some 1) line 0 [])
tty_read-Takes_example =
    tty_read-Takes 8 1 line 0 [] (omega arith, (tt, (omega arith, waits-Reads 4 2000)))
      (omega arith, (omega arith, (omega arith, waits-Advances 3 3 2000 (omega arith))))
      (omega (arith, waits-length 4 2000)) (omega arith)

abbrev device : List (Iteration WriteResult)
device =
    record { poll = events (some (WriteResult.takes 2)) false; elapsed = 500 }
    ∷ record { poll = events (some (WriteResult.takes 2)) false; elapsed = 900 }
    ∷ record { poll = events (some (WriteResult.takes 2)) false; elapsed = 901 }
    ∷ []

abbrev letters : List ℕ
letters = b'a' ∷ b'b' ∷ b'c' ∷ []

tty_write-all_example :
    tty_write letters (some 1) device 0 (record { curr = 0; sent = [] })
    ≡ done (record { curr = 3; sent = letters })
tty_write-all_example =
    tty_write-all letters 1 device 0 (record { curr = 0; sent = [] }) (omega arith) (omega arith)
      (omega arith) (omega arith)

abbrev tries : List Attempt
tries =
    record { sleep = Sleep.slept; result = ReadResult.bytes []; since_start = 2 }
    ∷ record { sleep = Sleep.slept; result = ReadResult.bytes (7 ∷ 8 ∷ []); since_start = 3 }
    ∷ record { sleep = Sleep.sleep_eintr; result = ReadResult.read_eintr; since_start = 5 }
    ∷ []

tty_read_ll-Receives_example : Ends ⊥ (Receives 8 3 tries 0) (tty_read_ll 8 3 tries 0)
tty_read_ll-Receives_example =
    tty_read_ll-Receives 8 3 tries 0 (omega arith) (ground arith) (omega arith)

abbrev cooked : Termios
cooked = record {
  ispeed = b19200;
  ospeed = b19200;
  parenb = false;
  parodd = true;
  cs = eight;
  cstopb = false;
  crtscts = true;
  cread = true;
  clocal = false;
  icanon = true;
  echo = true;
  isig = true;
  inpck = false;
  ixon = true;
  ixoff = false;
  ixany = false;
  ignbrk = false;
  brkint = true;
  parmrk = false;
  istrip = false;
  inlcr = false;
  igncr = false;
  icrnl = true;
  opost = true;
  onlcr = true;
  vtime = 0;
  vmin = 1;
}

bits_per_char-configure_slave_example :
    (bits_per_char (configure_slave cooked b19200 even) ≡ 11)
    × (line_parity (configure_slave cooked b19200 even) ≡ even)
bits_per_char-configure_slave_example = bits_per_char-configure_slave cooked b19200 even

-- a device that is opened, closed, and adopted
abbrev uses : List Use
uses = opens (116 ∷ []) true (some 3) ∷ closes true ∷ adopts (some 4) ∷ []

tty_deinit-IsReleased_example :
    Ends Unit
      (λ dev. Owns dev × Ends ⊥ IsReleased (tty_deinit true dev))
      (do dev ← tty_init 64 true; use_all uses dev)
tty_deinit-IsReleased_example = tty_deinit-IsReleased 64 true uses

-- ten zeros, a byte, and a byte behind one zero at the end: `10x00 0a 0005`
abbrev dumped : List ℕ
dumped = replicate 10 0 ++ 10 ∷ 0 ∷ 5 ∷ []

dumped_text :
    dump_text dumped
    ≡ b'1' ∷ b'0' ∷ b'x' ∷ b'0' ∷ b'0' ∷ b' ' ∷ b'0' ∷ b'a' ∷ b' ' ∷ b'0' ∷ b'0' ∷ b'0' ∷ b'5' ∷ []
unfolding decimal decimal_digits
dumped_text = refl

-- behind two bytes, `r 5us/-1us (0) 00 timeout` in a buffer of fourteen
debug_lem_example :
    debug (at (1 ∷ 2 ∷ []) (replicate 12 9)) (b'r' ∷ []) (minus 1) (nonneg 5) (0 ∷ []) 0
    ≡ done (record {
      buf =
          1 ∷ 2 ∷ b'r' ∷ b' ' ∷ b'5' ∷ b'u' ∷ b's' ∷ b'/' ∷ b'-' ∷ b'1' ∷ b'u' ∷ b's' ∷ b' ' ∷ 0
          ∷ [];
      dst = 14;
    })
unfolding decimal decimal_digits
debug_lem_example =
    debug_lem (1 ∷ 2 ∷ []) (replicate 12 9) (b'r' ∷ []) (minus 1) (nonneg 5) (0 ∷ []) 0
