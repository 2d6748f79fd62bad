-- ===== src/RtuMain/Runs.antt =====
-- What the options of linux/rtu_main.c must hold for the slave to run.
use modbus_c.Prelude.{
  ℕ, ◌≡◌, ◌≢◌, refl, ap, sym, ◌⊎◌, inl, inr, Option, none, some, List, [], ◌∷◌, arith,
}
use modbus_c.RtuMain.{
  ℤ, negsuc, Str, Opt, opt_D, opt_T, opt_a, opt_d, opt_p, opt_r, opt_t, opt_h, other, Vars, runs,
  vars_init, self_addr, number, start, main_loop, main,
}

abbrev pub Has : Opt → List Opt → Type 0
Has o [] = ⊥
Has o (p ∷ ps) = (o ≡ p) ⊎ Has o ps

module _ (atoi : Str → ℤ) (self : ℕ) (path : Str) (w : Vars) where
  -- an address that a slave takes from the options
  abbrev pub FromOption : List Opt → Str → Type 0
  FromOption opts str =
      Has (opt_a (some str)) opts × (atoi str ≢ negsuc 0) × (self ≡ self_addr (atoi str))

  abbrev Address : List Opt → ℤ → Type 0
  Address opts addr =
      ((str : Str) × FromOption opts str) ⊎ ((addr ≢ negsuc 0) × (self ≡ self_addr addr))

  abbrev Device : List Opt → Option Str → Type 0
  Device opts p = Has (opt_d (some path)) opts ⊎ (p ≡ some path)

  start-runs :
      (v : Vars)
      → start atoi v ≡ runs self path w
      → (v.addr ≢ negsuc 0) × (self ≡ self_addr v.addr) × (v.path ≡ some path)
  unfolding start
  start-runs v e = ground arith

  skip_addr : (o : Opt) (opts : List Opt) (addr : ℤ) → Address opts addr → Address (o ∷ opts) addr
  skip_addr o opts addr (inl (str, h)) = inl (str, (inr h.0, h.1, h.2))
  skip_addr o opts addr (inr h) = inr h

  skip_path : (o : Opt) (opts : List Opt) (p : Option Str) → Device opts p → Device (o ∷ opts) p
  skip_path o opts p (inl h) = inl (inr h)
  skip_path o opts p (inr h) = inr h

  skip :
      (o : Opt) (opts : List Opt) (v : Vars)
      → Address opts v.addr × Device opts v.path
      → Address (o ∷ opts) v.addr × Device (o ∷ opts) v.path
  skip o opts v h = (skip_addr o opts v.addr h.0, skip_path o opts v.path h.1)

  -- an address that is given takes the place of an earlier one
  take_addr :
      (arg : Option Str) (opts : List Opt) (addr : ℤ)
      → Address opts (number atoi arg (negsuc 0))
      → Address (opt_a arg ∷ opts) addr
  take_addr arg opts addr (inl (str, h)) = inl (str, (inr h.0, h.1, h.2))
  take_addr none opts addr (inr h) = absurd (h.0 refl)
  take_addr (some str) opts addr (inr h) = inl (str, (inl refl, h.0, h.1))

  take_path :
      (arg : Option Str) (opts : List Opt) (p : Option Str)
      → Device opts arg
      → Device (opt_d arg ∷ opts) p
  take_path arg opts p (inl h) = inl (inr h)
  take_path arg opts p (inr e) = inl (inl (ap opt_d (sym e)))

  loop-runs :
      (opts : List Opt) (v : Vars)
      → main_loop atoi opts v ≡ runs self path w
      → Address opts v.addr × Device opts v.path
  unfolding main_loop
  loop-runs [] v e = let h = start-runs v e in (inr (h.0, h.1), inr h.2)
  loop-runs (opt_D arg ∷ opts) v e = skip _ opts v (loop-runs opts _ e)
  loop-runs (opt_T arg ∷ opts) v e = skip _ opts v (loop-runs opts _ e)
  loop-runs (opt_p arg ∷ opts) v e = skip _ opts v (loop-runs opts _ e)
  loop-runs (opt_r arg ∷ opts) v e = skip _ opts v (loop-runs opts _ e)
  loop-runs (opt_t arg ∷ opts) v e = skip _ opts v (loop-runs opts _ e)
  loop-runs (opt_a arg ∷ opts) v e =
      let h = loop-runs opts (record v { addr = number atoi arg (negsuc 0) }) e in
      (take_addr arg opts v.addr h.0, skip_path (opt_a arg) opts v.path h.1)
  loop-runs (opt_d arg ∷ opts) v e =
      let h = loop-runs opts (record v { path = arg }) e in
      (skip_addr (opt_d arg) opts v.addr h.0, take_path arg opts v.path h.1)
  loop-runs (opt_h ∷ opts) v e = cc
  loop-runs (other ∷ opts) v e = cc

  -- Where the program runs a slave, whatever its options: an option gives the path of the device,
  -- and one gives an address other than -1, whose low eight bits are the slave's.
  pub main-runs :
      (opts : List Opt)
      → main atoi opts ≡ runs self path w
      → ((str : Str) × FromOption opts str) × Has (opt_d (some path)) opts
  unfolding main
  main-runs opts e = at (loop-runs opts vars_init e)
    where
      at :
          Address opts (negsuc 0) × Device opts none
          → ((str : Str) × FromOption opts str) × Has (opt_d (some path)) opts
      at (inl a, inl d) = (a, d)
      at (inr a, d) = absurd (a.0 refl)
      at (a, inr d) = cc
