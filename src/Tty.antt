-- ===== src/Tty.antt =====
-- linux/tty.c: reading and writing of a tty in loops around `poll`.
--
-- What the system does in a round of a loop is given: the outcome of `poll`, what `read` or `write`
-- makes of it, and the time since the loop began when the clock is read behind `poll`. `read` and
-- `write` move at most the bytes that they are asked for. A failed CHECK is a `fault`, and a loop
-- that goes on behind the rounds that are given is `stuck`.
pub mod Loops
pub mod Writes
pub mod LowLatency
pub mod Term
pub mod Device
pub mod Debug
pub mod Tests
use modbus_c.Prelude.{
  ℕ, ◌+◌, ◌-◌, ◌/◌, Bool, true, not, ◌&&◌, Option, none, some, List, [], ◌∷◌, ◌++◌, ltb, leb, ◌==◌,
  if◌then◌else◌, take, drop, length, Exec, done, fault, stuck, ◌>>=◌,
}

-- `read`: the bytes that are there, or -1 with EINTR or another error
pub data ReadResult : Type 0 where
  bytes : List ℕ → ReadResult
  read_eintr read_failed : ReadResult

-- `write`: how many bytes the device takes, or -1
pub data WriteResult : Type 0 where
  takes : ℕ → WriteResult
  write_eintr write_failed : WriteResult

-- `poll`: 0, -1, or events: what the tty does if it is ready, and whether the user's event is there
pub data Poll (R : Type 0) : Type 0 where
  timed_out poll_eintr poll_failed : Poll R
  events : Option R → Bool → Poll R

-- a round of a loop, with the time since its begin in microseconds
pub record Iteration (R : Type 0) : Type 0 where
  pub poll : Poll R
  pub elapsed : ℕ

-- `0 > timeout || timeout >= elapsed_ms`; a timeout is `none` where it is negative.
abbrev pub in_time : Option ℕ → ℕ → Bool
in_time none elapsed_ms = true
in_time (some timeout) elapsed_ms = leb elapsed_ms timeout

-- the bytes before the last: `curr += r` for -1, where `curr` is not `begin`
abbrev pub step_back : List ℕ → Exec (List ℕ)
step_back [] = fault
step_back (b ∷ bs) = done (take (length bs) (b ∷ bs))

-- the bytes from `begin` to `curr` behind a `read`, whose bytes are `got`
unfoldable pub do_read : ℕ → ReadResult → List ℕ → Exec (List ℕ)
do_read size (bytes bs) got =
    let r = take (size - length got) bs in if length r == 0 then fault else done (got ++ r)
do_read size read_eintr got = step_back got
do_read size read_failed got = fault

-- the loop of `tty_read` into `size` bytes
unfoldable pub tty_read : ℕ → Option ℕ → List (Iteration ReadResult) → ℕ → List ℕ → Exec (List ℕ)
tty_read size timeout [] elapsed_ms got =
    if not (length got == size) && in_time timeout elapsed_ms then stuck else done got
tty_read size timeout (it ∷ its) elapsed_ms got =
    let next = tty_read size timeout its (it.elapsed / 1000) in
    if not (not (length got == size) && in_time timeout elapsed_ms)
    then done got
    else elim it.poll [
      | timed_out ↦ next got
      | poll_eintr ↦ next got
      | poll_failed ↦ fault
      | events none aux ↦ if aux then done got else next got
      | events (some r) aux ↦ do
        got' ← do_read size r got
        let stops : Bool = elim timeout [ none ↦ true | some _ ↦ aux ]
        if stops then done got' else next got'
    ]

-- `curr`, and the bytes that the device has taken
pub record Written : Type 0 where
  pub curr : ℕ
  pub sent : List ℕ

-- a `write` of the bytes of `src` from `curr` on, of which the device takes the first
unfoldable pub do_write : List ℕ → WriteResult → Written → Exec Written
do_write src (takes n) w =
    let left = drop w.curr src in
    let r = if ltb n (length left) then n else length left in
    if r == 0 then fault else done (record { curr = w.curr + r; sent = w.sent ++ take r left })
do_write src write_eintr w = if w.curr == 0 then fault else done (record w { curr = w.curr - 1 })
do_write src write_failed w = fault

-- the loop of `tty_write` for the bytes `src`
unfoldable pub tty_write :
    List ℕ → Option ℕ → List (Iteration WriteResult) → ℕ → Written → Exec Written
tty_write src timeout [] elapsed_ms w =
    if not (w.curr == length src) && in_time timeout elapsed_ms then stuck else done w
tty_write src timeout (it ∷ its) elapsed_ms w =
    let next = tty_write src timeout its (it.elapsed / 1000) in
    if not (not (w.curr == length src) && in_time timeout elapsed_ms)
    then done w
    else elim it.poll [
      | timed_out ↦ next w
      | poll_eintr ↦ next w
      | poll_failed ↦ fault
      | events none aux ↦ if aux then done w else next w
      | events (some r) aux ↦ do w' ← do_write src r w; if aux then done w' else next w'
    ]

-- what `usleep` gives, where it is called
pub data Sleep : Type 0 where
  slept sleep_eintr sleep_failed : Sleep

-- A round of `tty_read_ll`: what `usleep` gives unless it is the first, what `read` gives, and the
-- time since the begin of the loop behind it.
pub record Attempt : Type 0 where
  pub sleep : Sleep
  pub result : ReadResult
  pub since_start : ℕ

-- `usleep`, in each round but the first
abbrev pub wakes : ℕ → Sleep → Bool
wakes elapsed_us sleep = elim sleep [ sleep_failed ↦ elapsed_us == 0 | _ ↦ true ]

-- the loop of `tty_read_ll`
unfoldable pub tty_read_ll : ℕ → ℕ → List Attempt → ℕ → Exec (List ℕ)
tty_read_ll size delay_us [] elapsed_us = if ltb elapsed_us delay_us then stuck else done []
tty_read_ll size delay_us (a ∷ rest) elapsed_us =
    let next = tty_read_ll size delay_us rest (elapsed_us + a.since_start) in
    if not (ltb elapsed_us delay_us)
    then done []
    else if not (wakes elapsed_us a.sleep)
    then fault
    else elim a.result [
      | bytes bs ↦ let r = take size bs in if length r == 0 then next else done r
      | read_eintr ↦ next
      | read_failed ↦ fault
    ]
