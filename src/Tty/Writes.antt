-- ===== src/Tty/Writes.antt =====
-- The loop of `tty_write` of linux/tty.c.
use modbus_c.Prelude.{
  ◌++◌, take, drop, length-drop, ap, ap₂, sym, ◌∙◌, ℕ, suc, ◌+◌, ◌/◌, ◌≤◌, ◌<◌, ◌≡◌, refl, true,
  false, not, ◌&&◌, none, some, List, [], ◌∷◌, ◌==◌, if◌then◌else◌, length, Exec, done, fault,
  ◌>>=◌, arith,
}
use modbus_c.Tty.{
  WriteResult, Poll, timed_out, poll_eintr, poll_failed, events, Iteration, in_time, do_write,
  Written, tty_write,
}
use modbus_c.Tty.Loops.{take-drop}
use modbus_c.Prelude.Behind.{append_assoc, append_nil, drop-drop}

abbrev pub TakenPoll : Poll WriteResult → Type 0
TakenPoll (events (some (WriteResult.takes n)) false) = 0 < n
TakenPoll _ = ⊥

-- a round in which the device takes bytes, before the time `timeout` is over
abbrev pub IsTaken : ℕ → Iteration WriteResult → Type 0
IsTaken timeout it = TakenPoll it.poll × (it.elapsed / 1000 ≤ timeout)

abbrev pub AreTaken : ℕ → List (Iteration WriteResult) → Type 0
AreTaken timeout [] = Unit {0}
AreTaken timeout (it ∷ its) = IsTaken timeout it × AreTaken timeout its

drop_all : (xs : List ℕ) → drop (length xs) xs ≡ []
drop_all [] = refl
drop_all (x ∷ xs) = drop_all xs

module _ (src : List ℕ) (timeout : ℕ) where
  -- `w` behind a `write` of `r` bytes more
  abbrev wrote : ℕ → Written → Written
  wrote r w = record { curr = w.curr + r; sent = w.sent ++ take r (drop w.curr src) }

  -- all bytes, behind those that the device has taken
  abbrev all_of : Written → Written
  all_of w = record { curr = length src; sent = w.sent ++ drop w.curr src }

  all_of-wrote : (r : ℕ) (w : Written) → all_of (wrote r w) ≡ all_of w
  all_of-wrote r w =
      ap (λ bs. record { curr = length src; sent = bs })
        (append_assoc w.sent (take r (drop w.curr src)) (drop (w.curr + r) src)
          ∙ ap (λ bs. w.sent ++ bs)
              (ap (λ bs. take r (drop w.curr src) ++ bs) (sym (drop-drop r w.curr src))
                ∙ take-drop r (drop w.curr src)))

  all_of-full : (w : Written) → w.curr ≡ length src → w ≡ all_of w
  all_of-full w h =
      ap₂ (λ c bs. record { curr = c; sent = bs }) h
        (sym (append_nil w.sent)
          ∙ ap (λ bs. w.sent ++ bs) (sym (ap (λ c. drop c src) h ∙ drop_all src)))

  round_taken :
      (p : Poll WriteResult) (ms left : ℕ) (w : Written) (next : Written → Exec Written)
      → ((w' : Written)
          → w'.curr ≤ length src
          → length src ≤ w'.curr + left
          → next w' ≡ done (all_of w'))
      → TakenPoll p
      → ms ≤ timeout
      → w.curr ≤ length src
      → length src ≤ w.curr + suc left
      → (if not (not (w.curr == length src) && in_time (some timeout) ms) then done w else elim p [
        | timed_out ↦ next w
        | poll_eintr ↦ next w
        | poll_failed ↦ fault
        | events none aux ↦ if aux then done w else next w
        | events (some r) aux ↦ do w' ← do_write src r w; if aux then done w' else next w'
      ])
        ≡ done (all_of w)
  unfolding do_write
  round_taken (events (some (WriteResult.takes n)) false) ms left w next k t time fits long =
      ground (
        arith,
        length-drop w.curr src,
        all_of-full w,
        k (wrote n w),
        k (wrote (length (drop w.curr src)) w),
        all_of-wrote n w,
        all_of-wrote (length (drop w.curr src)) w,
      )
  round_taken (events (some (WriteResult.takes n)) true) ms left w next k t time fits long =
      absurd t
  round_taken (events (some WriteResult.write_eintr) aux) ms left w next k t time fits long =
      absurd t
  round_taken (events (some WriteResult.write_failed) aux) ms left w next k t time fits long =
      absurd t
  round_taken (events none aux) ms left w next k t time fits long = absurd t
  round_taken timed_out ms left w next k t time fits long = absurd t
  round_taken poll_eintr ms left w next k t time fits long = absurd t
  round_taken poll_failed ms left w next k t time fits long = absurd t

  -- `tty_write` with a time limit, behind `curr` of its bytes, hands all the others to the device,
  -- in order and once each behind what the device took before, and ends at their end, if the device
  -- takes one at least in each round and no round is behind the limit, and there are as many rounds
  -- as bytes left.
  pub tty_write-all :
      (its : List (Iteration WriteResult)) (ms : ℕ) (w : Written)
      → AreTaken timeout its
      → ms ≤ timeout
      → w.curr ≤ length src
      → length src ≤ w.curr + length its
      → tty_write src (some timeout) its ms w
        ≡ done (record { curr = length src; sent = w.sent ++ drop w.curr src })
  unfolding tty_write
  tty_write-all [] ms w t time fits long = ground (arith, all_of-full w)
  tty_write-all (it ∷ its) ms w t time fits long =
      round_taken it.poll ms (length its) w (tty_write src (some timeout) its (it.elapsed / 1000))
        (λ w' fits' long'. tty_write-all its (it.elapsed / 1000) w' t.1 t.0.1 fits' long') t.0.0
        time fits long
