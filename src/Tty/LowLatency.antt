-- ===== src/Tty/LowLatency.antt =====
-- The loop of `tty_read_ll` of linux/tty.c.
use modbus_c.Tty.Loops.{take_all}
use modbus_c.Prelude.{
  sym, ℕ, ◌+◌, ◌≤◌, ◌<◌, ◌≡◌, refl, ap, ◌⊎◌, inl, inr, List, [], ◌∷◌, ◌++◌, ◌==◌, if◌then◌else◌,
  take, length, length-take, fault, stuck, ◌≢◌, Exec, done, Ends, arith,
}
use modbus_c.Tty.{ReadResult, Sleep, Attempt, tty_read_ll}

-- Neither `usleep` nor `read` fails, and the clock has gone on behind each.
abbrev pub AreAttempts : List Attempt → Type 0
AreAttempts [] = Unit {0}
AreAttempts (a ∷ rest) =
    (0 < a.since_start)
    × (a.sleep ≢ Sleep.sleep_failed)
    × (a.result ≢ ReadResult.read_failed)
    × AreAttempts rest

-- the bytes of the first `read` that finds some
abbrev pub first_read : List Attempt → List ℕ
first_read [] = []
first_read (a ∷ rest) = elim a.result [
  | ReadResult.bytes bs ↦ if length bs == 0 then first_read rest else bs
  | _ ↦ first_read rest
]

-- the sum of the times, which the code compares with the delay
abbrev pub waited : ℕ → List Attempt → ℕ
waited elapsed_us [] = elapsed_us
waited elapsed_us (a ∷ rest) = waited (elapsed_us + a.since_start) rest

module _ (size delay_us : ℕ) where
  -- A result is what the first `read` that finds bytes finds, as many as fit, or it is empty, none
  -- of the rounds `tried` found any, and they took the delay.
  pub record Receives (tries : List Attempt) (elapsed_us : ℕ) (got : List ℕ) : Type 0 where
    pub tried : List Attempt
    pub rest : List Attempt
    pub rounds : tries ≡ tried ++ rest
    pub bytes : got ≡ take size (first_read tried)
    pub ends : (0 < length got) ⊎ (delay_us ≤ waited elapsed_us tried)

  late : (tries : List Attempt) (e : ℕ) → delay_us ≤ e → Receives tries e []
  late tries e h = record {
    tried = [];
    rest = tries;
    rounds = refl;
    bytes = sym (take_all size [] (omega arith));
    ends = inr h;
  }

  -- behind a round that found nothing
  goes_on :
      (a : Attempt) (rest : List Attempt) (e : ℕ) (m : Exec (List ℕ))
      → ((tried : List Attempt) → first_read (a ∷ tried) ≡ first_read tried)
      → Ends ⊥ (Receives rest (e + a.since_start)) m
      → Ends ⊥ (Receives (a ∷ rest) e) m
  goes_on a rest e (done got) empty r = record {
    tried = a ∷ r.tried;
    rest = r.rest;
    rounds = ap (λ more. a ∷ more) r.rounds;
    bytes = rw (empty r.tried) r.bytes;
    ends = r.ends;
  }
  goes_on a rest e fault empty r = r
  goes_on a rest e stuck empty r = r

  round-Receives :
      (sleep : Sleep) (r : ReadResult) (t : ℕ) (rest : List Attempt) (e : ℕ) (m : Exec (List ℕ))
      → 0 < size
      → sleep ≢ Sleep.sleep_failed
      → r ≢ ReadResult.read_failed
      → e < delay_us
      → Ends ⊥ (Receives rest (e + t)) m
      → Ends ⊥ (Receives (record { sleep = sleep; result = r; since_start = t } ∷ rest) e) (elim r [
        | ReadResult.bytes bs ↦ let r = take size bs in if length r == 0 then m else done r
        | ReadResult.read_eintr ↦ m
        | ReadResult.read_failed ↦ fault
      ])
  round-Receives sleep ReadResult.read_failed t rest e m room s n early k = absurd (n refl)
  round-Receives sleep ReadResult.read_eintr t rest e m room s n early k =
      goes_on (record { sleep = sleep; result = ReadResult.read_eintr; since_start = t }) rest e m
        (λ tried. refl) k
  round-Receives sleep (ReadResult.bytes []) t rest e m room s n early k =
      let a : Attempt = record { sleep = sleep; result = ReadResult.bytes []; since_start = t } in
      ground (arith, goes_on a rest e m (λ tried. refl) k, length-take {A = ℕ} size [])
  round-Receives sleep (ReadResult.bytes (b ∷ bs)) t rest e m room s n early k =
      let a : Attempt = record {
        sleep = sleep;
        result = ReadResult.bytes (b ∷ bs);
        since_start = t;
      } in
      let found : 0 < length (take size (b ∷ bs)) = omega (arith, length-take size (b ∷ bs)) in
      let got : Receives (a ∷ rest) e (take size (b ∷ bs)) = record {
        tried = a ∷ [];
        rest = rest;
        rounds = refl;
        bytes = ap (take size) (ground arith);
        ends = inl found;
      } in
      ground (arith, got, found)

  -- `tty_read_ll` into a buffer of one byte at least, if neither `usleep` nor `read` fails, the
  -- clock has gone on behind each round, and there are as many as the delay has microseconds left:
  -- it ends without a failed CHECK. It has the bytes of the first `read` that finds some in some
  -- first rounds, as many as fit, or it has none, no `read` of these rounds found any, and the
  -- times that it adds up behind them have come to the delay.
  pub tty_read_ll-Receives :
      (tries : List Attempt) (elapsed_us : ℕ)
      → 0 < size
      → AreAttempts tries
      → delay_us ≤ elapsed_us + length tries
      → Ends ⊥ (Receives tries elapsed_us) (tty_read_ll size delay_us tries elapsed_us)
  unfolding tty_read_ll
  tty_read_ll-Receives [] e room h long = ground (arith, late [] e (omega arith))
  tty_read_ll-Receives (a ∷ rest) e room h long =
      let k = tty_read_ll-Receives rest (e + a.since_start) room h.3 (omega (arith, h.0)) in
      ground (
        arith,
        late (a ∷ rest) e,
        h.1,
        round-Receives a.sleep a.result a.since_start rest e
            (tty_read_ll size delay_us rest (e + a.since_start)) room h.1 h.2,
        k,
      )
