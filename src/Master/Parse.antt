-- ===== src/Master/Parse.antt =====
-- master.c: what the checks of a reply accept, exactly.
use modbus_c.Prelude.{
  ℕ, ◌+◌, ◌-◌, ◌≤◌, ◌<◌, ◌≡◌, refl, sym, ◌⊎◌, inl, inr, Bool, true, false, ◌&&◌, Option, none, some,
  List, [], ◌∷◌, ◌++◌, ltb, ◌==◌, length, length-append, take, get_or, Exec, done, load_in, IsBytes,
  arith,
}
use modbus_c.Crc.{modbus_rtu_calc_crc}
use modbus_c.Crc.Detect.{crc_bytes, calc_crc-burst}
use modbus_c.Prelude.Behind.{append_nil}
use modbus_c.Master.{valid_crc, valid_crc_impl}
use modbus_c.Crc.Frame.{HasCrc, HasCrc-only}
use modbus_c.Master.Replies.{
  if_valid, parse_fixed, parse_counted, parse_reply_rd_holding_registers, parse_reply_wr_register,
  parse_reply_wr_registers, parse_reply_wr_bytes, parse_reply_rd_bytes, find_ecode,
}

-- The check returns the pointer `p` if `ok` holds, and NULL if not.
abbrev pub Accepts : Type 0 → ℕ → Exec (Option ℕ) → Type 0
Accepts ok p m = (ok × (m ≡ done (some p))) ⊎ ((¬ ok) × (m ≡ done none))

decided :
    (b : Bool) (ok : Type 0) (p : ℕ) (m : Exec (Option ℕ))
    → (b ≡ true → ok × (m ≡ done (some p)))
    → (b ≡ false → (¬ ok) × (m ≡ done none))
    → Accepts ok p m
decided true ok p m h k = inl (h refl)
decided false ok p m h k = inr (k refl)

-- `valid_crc`, on a buffer of at least `n` bytes, accepts `n` bytes exactly where they are a
-- message of at least one byte and its CRC.
pub valid_crc_lem :
    (adu : List ℕ) (n : ℕ) → n ≤ length adu → Accepts (HasCrc adu n) (n - 2) (valid_crc adu n)
unfolding valid_crc valid_crc_impl
valid_crc_lem adu n h =
    let crc = modbus_rtu_calc_crc (take (n - 2) adu) in
    decided (ltb 2 n && (get_or adu (n - 2) 0 == crc.low && get_or adu (n - 1) 0 == crc.high))
      (HasCrc adu n) (n - 2) _
      (λ e. (
        record { long = ground arith; low = ground arith; high = ground arith },
        ground (arith, load_in adu (n - 2), load_in adu (n - 1)),
      ))
      (λ e. (λ v. ground (arith, v), ground (arith, load_in adu (n - 2), load_in adu (n - 1))))

-- A frame whose message has been changed within two neighbouring bytes, and whose CRC has not, is
-- not accepted by `valid_crc`.
pub valid_crc-burst :
    (xs ys : List ℕ) (a b a' b' : ℕ)
    → IsBytes xs
    → IsBytes ys
    → (a < 256) × (b < 256)
    → (a' < 256) × (b' < 256)
    → ¬ ((a ≡ a') × (b ≡ b'))
    → let changed = (xs ++ a' ∷ b' ∷ ys) ++ crc_bytes (modbus_rtu_calc_crc (xs ++ a ∷ b ∷ ys)) in
      valid_crc changed (length changed) ≡ done none
valid_crc-burst xs ys a b a' b' hx hy h h' differ =
    let crc = modbus_rtu_calc_crc (xs ++ a ∷ b ∷ ys) in
    let message = xs ++ a' ∷ b' ∷ ys in
    let n : length (message ++ crc_bytes crc) ≡ length message + 2 =
      length-append message (crc_bytes crc) in
    let wrong : ¬ HasCrc (message ++ crc_bytes crc) (length (message ++ crc_bytes crc)) = λ v.
      differ (
        calc_crc-burst xs ys a b a' b' hx hy h.0 h.1 h'.0 h'.1
          (sym (HasCrc-only message [] crc (rw (append_nil (message ++ crc_bytes crc), ← n) v)))) in
    refused_at _ _ _ (valid_crc_lem (message ++ crc_bytes crc) _ (omega arith)) wrong
  where
    refused_at : (ok : Type 0) (p : ℕ) (m : Exec (Option ℕ)) → Accepts ok p m → ¬ ok → m ≡ done none
    refused_at ok p m (inl (v, e)) h = absurd (h v)
    refused_at ok p m (inr (v, e)) h = e

if_valid_lem :
    (adu : List ℕ) (n p : ℕ) → n ≤ length adu → Accepts (HasCrc adu n) p (if_valid adu n p)
unfolding if_valid
if_valid_lem adu n p h = elim (valid_crc_lem adu n h) [
  | inl (v, e) ↦ inl (v, ground (arith, e))
  | inr (v, e) ↦ inr (v, ground (arith, e))
]

pub parse_fixed_lem :
    (size : ℕ) (adu : List ℕ) (n : ℕ)
    → n ≤ length adu
    → Accepts ((n ≡ size) × HasCrc adu n) 0 (parse_fixed size adu n)
unfolding parse_fixed
parse_fixed_lem size adu n h = elim (if_valid_lem adu n 0 h) [
  | inl (v, e) ↦
      decided (n == size) _ 0 _ (λ t. ((ground arith, v), ground (arith, e)))
        (λ t. (λ ok. ground (arith, ok.0), ground (arith, e)))
  | inr (v, e) ↦ inr (λ ok. v ok.1, ground (arith, e))
]

pub parse_counted_lem :
    (size p : ℕ) (adu : List ℕ) (n : ℕ)
    → p < size
    → n ≤ length adu
    → Accepts ((n ≡ size + get_or adu p 0) × HasCrc adu n) 0 (parse_counted size p adu n)
unfolding parse_counted
parse_counted_lem size p adu n hp h = elim (if_valid_lem adu n 0 h) [
  | inl (v, e) ↦
      decided (n == size + get_or adu p 0) _ 0 _
        (λ t. ((ground arith, v), ground (arith, e, load_in adu p)))
        (λ t. (λ ok. ground (arith, ok.0), ground (arith, e, load_in adu p)))
  | inr (v, e) ↦ inr (λ ok. v ok.1, ground (arith, e, load_in adu p))
]

-- The replies of a fixed size, those to writes of a register, of registers and of bytes, and
-- exceptions, in a buffer of at least their size, are accepted exactly where they have that size
-- and end with the CRC of the bytes before it. The code of an exception is at index 2.
pub fixed_replies_lem :
    (adu : List ℕ) (n : ℕ)
    → n ≤ length adu
    → Accepts ((n ≡ 8) × HasCrc adu n) 0 (parse_reply_wr_register adu n)
      × Accepts ((n ≡ 8) × HasCrc adu n) 0 (parse_reply_wr_registers adu n)
      × Accepts ((n ≡ 7) × HasCrc adu n) 0 (parse_reply_wr_bytes adu n)
      × Accepts ((n ≡ 5) × HasCrc adu n) 2 (find_ecode adu n)
unfolding parse_reply_wr_register parse_reply_wr_registers parse_reply_wr_bytes find_ecode
fixed_replies_lem adu n h = (
  parse_fixed_lem 8 adu n h,
  parse_fixed_lem 8 adu n h,
  parse_fixed_lem 7 adu n h,
  elim (if_valid_lem adu n 2 h) [
    | inl (v, e) ↦
        decided (n == 5) _ 2 _ (λ t. ((ground arith, v), ground (arith, e)))
          (λ t. (λ ok. ground (arith, ok.0), ground (arith, e)))
    | inr (v, e) ↦ inr (λ ok. v ok.1, ground (arith, e))
  ],
)

-- The replies to reads, in a buffer of at least their size, are accepted exactly where the count in
-- their header is that of the bytes behind it and they end with the CRC of the bytes before it.
pub counted_replies_lem :
    (adu : List ℕ) (n : ℕ)
    → n ≤ length adu
    → Accepts ((n ≡ 5 + get_or adu 2 0) × HasCrc adu n) 0 (parse_reply_rd_holding_registers adu n)
      × Accepts ((n ≡ 7 + get_or adu 4 0) × HasCrc adu n) 0 (parse_reply_rd_bytes adu n)
unfolding parse_reply_rd_holding_registers parse_reply_rd_bytes
counted_replies_lem adu n h =
    (parse_counted_lem 5 2 adu n (omega arith) h, parse_counted_lem 7 4 adu n (omega arith) h)
