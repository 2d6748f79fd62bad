-- ===== src/Tty/Loops.antt =====
-- The loops of linux/tty.c end, and move bytes in order and never more than there is room for.
use modbus_c.Prelude.{
  ◌⊎◌, inl, inr, ℕ, zero, suc, ◌+◌, ◌-◌, ◌*◌, ◌/◌, ◌≤◌, ◌<◌, ◌≡◌, ◌≢◌, refl, sym, subst, ap, ◌∙◌,
  Bool, true, false, not, ◌&&◌, none, some, List, [], ◌∷◌, ◌++◌, ◌==◌, leb, if◌then◌else◌, take,
  drop, length, length-append, length-take, Exec, done, fault, stuck, ◌>>=◌, Ends, arith,
}
use modbus_c.Prelude.Behind.{append_assoc, append_nil}
use modbus_c.Tty.{
  ReadResult, Poll, timed_out, poll_eintr, poll_failed, events, Iteration, in_time, do_read,
  tty_read,
}

pub take-drop : (n : ℕ) (xs : List ℕ) → take n xs ++ drop n xs ≡ xs
take-drop zero xs = refl
take-drop (suc n) [] = refl
take-drop (suc n) (x ∷ xs) = ap (λ ys. x ∷ ys) (take-drop n xs)

pub take_all : (n : ℕ) (xs : List ℕ) → length xs ≤ n → take n xs ≡ xs
take_all zero [] h = refl
take_all zero (x ∷ xs) h = absurd (omega arith)
take_all (suc n) [] h = refl
take_all (suc n) (x ∷ xs) h = ap (λ ys. x ∷ ys) (take_all n xs (omega arith))

-- From the time `e` on, the clock goes on by a microsecond in each round at least.
abbrev pub Advances : {R : Type 0} → ℕ → List (Iteration R) → Type 0
Advances e [] = Unit {0}
Advances e (it ∷ its) = (e < it.elapsed) × Advances it.elapsed its

-- Neither `poll` nor `read` fails, no `read` is interrupted, and none finds nothing behind `poll`.
abbrev pub ReadsPoll : Poll ReadResult → Type 0
ReadsPoll poll_failed = ⊥
ReadsPoll (events (some (ReadResult.bytes bs)) aux) = 0 < length bs
ReadsPoll (events (some _) aux) = ⊥
ReadsPoll _ = Unit

abbrev pub Reads : List (Iteration ReadResult) → Type 0
Reads [] = Unit {0}
Reads (it ∷ its) = ReadsPoll it.poll × Reads its

-- the bytes that a poll brings, and those of the rounds in order
abbrev pub polled : Poll ReadResult → List ℕ
polled (events (some (ReadResult.bytes bs)) aux) = bs
polled _ = []

abbrev pub offered : List (Iteration ReadResult) → List ℕ
offered [] = []
offered (it ∷ its) = polled it.poll ++ offered its

-- whether the user's event came in one of the rounds
abbrev pub EventPoll : Poll ReadResult → Type 0
EventPoll (events r true) = Unit {0}
EventPoll _ = ⊥

abbrev pub HasEvent : List (Iteration ReadResult) → Type 0
HasEvent [] = ⊥
HasEvent (it ∷ its) = EventPoll it.poll ⊎ HasEvent its

-- the time behind the rounds
abbrev pub time_behind : ℕ → List (Iteration ReadResult) → ℕ
time_behind e [] = e
time_behind e (it ∷ its) = time_behind it.elapsed its

take-append :
    (n : ℕ) (xs ys : List ℕ) → length xs ≤ n → take n (xs ++ ys) ≡ xs ++ take (n - length xs) ys
take-append n [] ys h = ap (λ m. take m ys) (omega arith)
take-append zero (x ∷ xs) ys h = absurd (omega arith)
take-append (suc n) (x ∷ xs) ys h =
    ap (λ zs. x ∷ zs) (take-append n xs ys (omega arith) ∙ ap (λ m. xs ++ take m ys) (omega arith))

module _ (size timeout : ℕ) where
  -- why a loop ends behind the rounds `first`: the buffer is full, or the user's event came, or the
  -- time is over
  abbrev pub Stops : ℕ → List (Iteration ReadResult) → List ℕ → Type 0
  Stops e first result =
      (length result ≡ size) ⊎ HasEvent first ⊎ (timeout < time_behind e first / 1000)

  -- A result is the bytes `got` and those of the first rounds, in order and as many as fit, and the
  -- loop had to end behind these rounds.
  pub record Takes (e : ℕ) (its : List (Iteration ReadResult)) (got result : List ℕ) : Type 0 where
    pub first : List (Iteration ReadResult)
    pub rest : List (Iteration ReadResult)
    pub rounds : its ≡ first ++ rest
    pub bytes : result ≡ take size (got ++ offered first)
    pub stops : Stops e first result

  at_once :
      (e : ℕ) (its : List (Iteration ReadResult)) (got : List ℕ)
      → length got ≤ size
      → Stops e [] got
      → Takes e its got got
  at_once e its got fits s = record {
    first = [];
    rest = its;
    rounds = refl;
    bytes =
        sym (
          take_all size (got ++ []) (omega (arith, length-append {A = ℕ} got [])) ∙ append_nil got);
    stops = s;
  }

  -- a loop that ends in this round
  ends_here :
      (e : ℕ) (it : Iteration ReadResult) (its : List (Iteration ReadResult)) (got : List ℕ)
      → length got ≤ size
      → Stops e (it ∷ []) (got ++ take (size - length got) (polled it.poll))
      → Takes e (it ∷ its) got (got ++ take (size - length got) (polled it.poll))
  ends_here e it its got fits s = record {
    first = it ∷ [];
    rest = its;
    rounds = refl;
    bytes = sym (
        ap (λ bs. take size (got ++ bs)) (append_nil (polled it.poll))
        ∙ take-append size got (polled it.poll) fits);
    stops = s;
  }

  -- a loop that goes on behind this round
  goes_on :
      (e : ℕ) (it : Iteration ReadResult) (its : List (Iteration ReadResult)) (got result : List ℕ)
      → Takes it.elapsed its (got ++ polled it.poll) result
      → Takes e (it ∷ its) got result
  goes_on e it its got result t = record {
    first = it ∷ t.first;
    rest = t.rest;
    rounds = ap (λ rs. it ∷ rs) t.rounds;
    bytes = t.bytes ∙ ap (take size) (append_assoc got (polled it.poll) (offered t.first));
    stops = later t.stops;
  }
    where
      later : Stops it.elapsed t.first result → Stops e (it ∷ t.first) result
      later (inl h) = inl h
      later (inr (inl h)) = inr (inl (inr h))
      later (inr (inr h)) = inr (inr h)

  all_go_on :
      (e : ℕ) (it : Iteration ReadResult) (its : List (Iteration ReadResult)) (got : List ℕ)
      (m : Exec (List ℕ))
      → Ends ⊥ (Takes it.elapsed its (got ++ polled it.poll)) m
      → Ends ⊥ (Takes e (it ∷ its) got) m
  all_go_on e it its got (done result) h = goes_on e it its got result h
  all_go_on e it its got fault h = h
  all_go_on e it its got stuck h = h

  tty_read_full :
      (its : List (Iteration ReadResult)) (ms : ℕ) (got : List ℕ)
      → length got ≡ size
      → tty_read size (some timeout) its ms got ≡ done got
  unfolding tty_read
  tty_read_full [] ms got h = ground arith
  tty_read_full (it ∷ its) ms got h = ground arith

  -- behind a `read` of `bs`
  read-Takes :
      (e t : ℕ) (bs : List ℕ) (aux : Bool) (its : List (Iteration ReadResult)) (got : List ℕ)
      (next : List ℕ → Exec (List ℕ))
      → ((got' : List ℕ) → length got' ≤ size → Ends ⊥ (Takes t its got') (next got'))
      → ((got' : List ℕ) → length got' ≡ size → next got' ≡ done got')
      → 0 < length bs
      → length got < size
      → Ends ⊥
          (Takes e
            (record { poll = events (some (ReadResult.bytes bs)) aux; elapsed = t } ∷ its)
            got)
          (do got' ← do_read size (ReadResult.bytes bs) got; if aux then done got' else next got')
  unfolding do_read
  read-Takes e t bs true its got next k full some_bytes room =
      let it : Iteration ReadResult = record {
        poll = events (some (ReadResult.bytes bs)) true;
        elapsed = t;
      } in
      ground (
        arith,
        ends_here e it its got (omega arith) (inr (inl (inl tt))),
        length-take (size - length got) bs,
      )
  read-Takes e t bs false its got next k full some_bytes room =
      let it : Iteration ReadResult = record {
        poll = events (some (ReadResult.bytes bs)) false;
        elapsed = t;
      } in
      let r = take (size - length got) bs in
      let here : length (got ++ r) ≡ size → Takes e (it ∷ its) got (got ++ r) =
        λ h. ends_here e it its got (omega arith) (inl h) in
      let on : length (got ++ r) < size → Ends ⊥ (Takes e (it ∷ its) got) (next (got ++ r)) = λ h.
        all_go_on e it its got (next (got ++ r)) (
          subst (λ bs'. Ends ⊥ (Takes t its (got ++ bs')) (next (got ++ r)))
            (take_all (size - length got) bs
              (omega (arith, h, length-append got r, length-take (size - length got) bs)))
            (k (got ++ r) (omega arith))) in
      ground
        (arith, here, on, full (got ++ r), length-append got r, length-take (size - length got) bs)

  -- a round that brings nothing
  idle-Takes :
      (e : ℕ) (it : Iteration ReadResult) (its : List (Iteration ReadResult)) (got : List ℕ)
      (m : Exec (List ℕ))
      → polled it.poll ≡ []
      → Ends ⊥ (Takes it.elapsed its got) m
      → Ends ⊥ (Takes e (it ∷ its) got) m
  idle-Takes e it its got m empty h = all_go_on e it its got m (
      subst (λ bs. Ends ⊥ (Takes it.elapsed its bs) m)
        (sym (ap (λ bs. got ++ bs) empty ∙ append_nil got)) h)

  round-Takes :
      (p : Poll ReadResult) (e t : ℕ) (its : List (Iteration ReadResult)) (goes : Bool)
      (got : List ℕ) (next : List ℕ → Exec (List ℕ))
      → ((got' : List ℕ) → length got' ≤ size → Ends ⊥ (Takes t its got') (next got'))
      → ((got' : List ℕ) → length got' ≡ size → next got' ≡ done got')
      → ReadsPoll p
      → length got ≤ size
      → (goes ≡ true → length got ≢ size)
      → (goes ≡ false → Stops e [] got)
      → Ends ⊥ (Takes e (record { poll = p; elapsed = t } ∷ its) got) (
          if not goes then done got else elim p [
            | timed_out ↦ next got
            | poll_eintr ↦ next got
            | poll_failed ↦ fault
            | events none aux ↦ if aux then done got else next got
            | events (some r) aux ↦ do
              got' ← do_read size r got
              if aux then done got' else next got'
          ])
  round-Takes p e t its false got next k full h fits room over =
      at_once e (record { poll = p; elapsed = t } ∷ its) got fits (over refl)
  round-Takes timed_out e t its true got next k full h fits room over =
      idle-Takes e (record { poll = timed_out; elapsed = t }) its got (next got) refl (k got fits)
  round-Takes poll_eintr e t its true got next k full h fits room over =
      idle-Takes e (record { poll = poll_eintr; elapsed = t }) its got (next got) refl (k got fits)
  round-Takes poll_failed e t its true got next k full h fits room over = absurd h
  round-Takes (events none true) e t its true got next k full h fits room over =
      let it : Iteration ReadResult = record { poll = events none true; elapsed = t } in
      subst (Takes e (it ∷ its) got)
        (ap (λ bs. got ++ bs) (take_all (size - length got) [] (omega arith)) ∙ append_nil got)
        (ends_here e it its got fits (inr (inl (inl tt))))
  round-Takes (events none false) e t its true got next k full h fits room over =
      idle-Takes e (record { poll = events none false; elapsed = t }) its got (next got) refl
        (k got fits)
  round-Takes (events (some (ReadResult.bytes bs)) aux) e t its true got next k full h fits room
        over =
      read-Takes e t bs aux its got next k full h (omega (arith, room refl))
  round-Takes (events (some ReadResult.read_eintr) aux) e t its true got next k full h fits room
        over =
      absurd h
  round-Takes (events (some ReadResult.read_failed) aux) e t its true got next k full h fits room
        over =
      absurd h

  -- `tty_read` with a time limit in milliseconds, behind the time `e` in microseconds and with some
  -- bytes read: if neither `poll` nor `read` fails or is interrupted in a `read`, each `read`
  -- behind `poll` finds a byte, the clock goes on by a microsecond in each round, and there are
  -- enough rounds for the limit, then it ends without a failed CHECK. Its bytes are those read
  -- before and those that some first rounds bring, in order, with none left out but those that do
  -- not fit the buffer; and behind these rounds the buffer is full, the user's event has come, or
  -- the time limit is over.
  pub tty_read-Takes :
      (its : List (Iteration ReadResult)) (e : ℕ) (got : List ℕ)
      → Reads its
      → Advances e its
      → (timeout + 1) * 1000 ≤ e + length its
      → length got ≤ size
      → Ends ⊥ (Takes e its got) (tty_read size (some timeout) its (e / 1000) got)
  unfolding tty_read
  tty_read-Takes [] e got r a long fits =
      over (not (length got == size)) (leb (e / 1000) timeout) (ground arith)
        (at_once e [] got fits (inr (inr (ground arith))))
    where
      over :
          (b c : Bool)
          → c ≡ false
          → Takes e [] got got
          → Ends ⊥ (Takes e [] got) (if b && c then stuck else done got)
      over true true h t = cc
      over true false h t = t
      over false c h t = t
  tty_read-Takes (it ∷ its) e got r a long fits =
      round-Takes it.poll e it.elapsed its
        (not (length got == size) && in_time (some timeout) (e / 1000)) got
        (tty_read size (some timeout) its (it.elapsed / 1000))
        (λ got' fits'. tty_read-Takes its it.elapsed got' r.1 a.1 (omega (arith, a.0)) fits')
        (λ got' full. tty_read_full its (it.elapsed / 1000) got' full) r.0 fits (ground arith)
        (ground arith)
