-- ===== src/RtuMain/Names.antt =====
-- The names of rates and parities, of linux/tty.c and of linux/rtu_main.c.
use modbus_c.Prelude.{◌≡◌, refl, ◌⊎◌, inl, inr, some}
use modbus_c.Timing.{Speed, b1200, b2400, b4800, b9600, b19200, b38400, b57600, b115200}
use modbus_c.Tty.Term.{Parity, odd, even}
use modbus_c.RtuMain.{
  strcmp_eq, tty_rate_str, tty_parity_str, supported_rates, find_rate, parse_speed, parse_parity,
}

-- The name of a rate is parsed as that rate, unless it is 38400 bits per second, whose name is
-- parsed as 19200. The name of a parity is parsed as that parity.
pub parse_speed-tty_rate_str :
    (rate : Speed) (parity : Parity)
    → ((parse_speed (some (tty_rate_str rate)) ≡ rate) ⊎ (rate ≡ b38400))
      × (parse_speed (some (tty_rate_str b38400)) ≡ b19200)
      × (parse_parity (some (tty_parity_str parity)) ≡ parity)
unfolding parse_speed parse_parity tty_rate_str tty_parity_str find_rate supported_rates strcmp_eq
parse_speed-tty_rate_str rate parity = (rates rate, refl, parities parity)
  where
    rates : (r : Speed) → (parse_speed (some (tty_rate_str r)) ≡ r) ⊎ (r ≡ b38400)
    rates b1200 = inl refl
    rates b2400 = inl refl
    rates b4800 = inl refl
    rates b9600 = inl refl
    rates b19200 = inl refl
    rates b38400 = inr refl
    rates b57600 = inl refl
    rates b115200 = inl refl

    parities : (p : Parity) → parse_parity (some (tty_parity_str p)) ≡ p
    parities Parity.none = refl
    parities odd = refl
    parities even = refl
