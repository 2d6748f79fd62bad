-- ===== src/Prelude/Xor.antt =====
-- Laws of exclusive or, of disjoint fields and of masks, at every width. All go from the halves of
-- the numbers to the numbers, on a bound `n` of both.
use Prim.Native.Nat.{
  ℕ, zero, suc, ◌+◌, ◌*◌, ◌/◌, ◌%◌, ◌^◌, ◌≤◌, ◌<◌, differ, bit_and, bit_or, bit_xor,
}
use mathlib.Core.Path.{◌≡◌, refl, ap, ap₂, ◌∙◌}
use mathlib.Core.Logic.{◌⊎◌}
use native.Mathlib.Nat.{pow-suc}
use native.Mathlib.Omega.{arith}
use package.modbus_c.Prelude.Bits.{bit_and_lowest, bit_or_lowest, bit_xor_lowest}

pub digit-cases : (a : ℕ) → (a % 2 ≡ 0) ⊎ (a % 2 ≡ 1)
digit-cases a = omega arith

differ_digits : (x y : ℕ) → x < 2 → y < 2 → differ x y ≡ (x + y) % 2
differ_digits zero zero p q = refl
differ_digits zero (suc zero) p q = refl
differ_digits zero (suc (suc y)) p q = absurd (omega arith)
differ_digits (suc zero) zero p q = refl
differ_digits (suc zero) (suc zero) p q = refl
differ_digits (suc zero) (suc (suc y)) p q = absurd (omega arith)
differ_digits (suc (suc x)) y p q = absurd (omega arith)

pub xor_step : (a b : ℕ) → bit_xor a b ≡ bit_xor (a / 2) (b / 2) * 2 + (a + b) % 2
xor_step a b =
    omega (arith, bit_xor_lowest a b, differ_digits (a % 2) (b % 2) (omega arith) (omega arith))

pub xor_parts :
    (a b : ℕ) → (bit_xor a b / 2 ≡ bit_xor (a / 2) (b / 2)) × (bit_xor a b % 2 ≡ (a + b) % 2)
xor_parts a b = omega (arith, xor_step a b)

xor_zero_below : (n a : ℕ) → a ≤ n → bit_xor a 0 ≡ a
xor_zero_below zero a h = let e : a ≡ 0 = omega arith in ap (λ x. bit_xor x 0) e ∙ omega arith
xor_zero_below (suc n) zero h = refl
xor_zero_below (suc n) (suc a) h =
    omega (arith, xor_step (suc a) 0, xor_zero_below n (suc a / 2) (omega arith))

pub xor_zero : (a : ℕ) → bit_xor a 0 ≡ a
xor_zero a = xor_zero_below a a (omega arith)

xor_comm_below : (n a b : ℕ) → a ≤ n → b ≤ n → bit_xor a b ≡ bit_xor b a
xor_comm_below zero a b p q = let e : a ≡ b = omega arith in ap₂ bit_xor e (omega arith)
xor_comm_below (suc n) a b p q = omega (
  arith,
  xor_step a b,
  xor_step b a,
  xor_comm_below n (a / 2) (b / 2) (omega arith) (omega arith),
)

pub xor_comm : (a b : ℕ) → bit_xor a b ≡ bit_xor b a
xor_comm a b = xor_comm_below (a + b) a b (omega arith) (omega arith)

xor_assoc_below :
    (n a b c : ℕ) → a ≤ n → b ≤ n → c ≤ n → bit_xor (bit_xor a b) c ≡ bit_xor a (bit_xor b c)
xor_assoc_below zero a b c p q r =
    let ea : a ≡ 0 = omega arith in
    let eb : b ≡ 0 = omega arith in let ec : c ≡ 0 = omega arith in cc (ea, eb, ec)
xor_assoc_below (suc n) a b c p q r = omega (
  arith,
  xor_step (bit_xor a b) c,
  xor_step a (bit_xor b c),
  ap (λ x. bit_xor x (c / 2)) (xor_parts a b).0,
  ap (bit_xor (a / 2)) (xor_parts b c).0,
  (xor_parts a b).1,
  (xor_parts b c).1,
  xor_assoc_below n (a / 2) (b / 2) (c / 2) (omega arith) (omega arith) (omega arith),
)

pub xor_assoc : (a b c : ℕ) → bit_xor (bit_xor a b) c ≡ bit_xor a (bit_xor b c)
xor_assoc a b c = xor_assoc_below (a + b + c) a b c (omega arith) (omega arith) (omega arith)

xor_self_below : (n a : ℕ) → a ≤ n → bit_xor a a ≡ 0
xor_self_below zero a h = let e : a ≡ 0 = omega arith in cc e
xor_self_below (suc n) a h = omega (arith, xor_step a a, xor_self_below n (a / 2) (omega arith))

pub xor_self : (a : ℕ) → bit_xor a a ≡ 0
xor_self a = xor_self_below a a (omega arith)

-- Equal numbers only have an empty difference.
xor_eq_zero_below : (n a b : ℕ) → a ≤ n → b ≤ n → bit_xor a b ≡ 0 → a ≡ b
xor_eq_zero_below zero a b p q h = omega arith
xor_eq_zero_below (suc n) a b p q h = omega (
  arith,
  xor_step a b,
  xor_eq_zero_below n (a / 2) (b / 2) (omega arith) (omega arith) (omega (arith, xor_step a b)),
)

pub xor_eq_zero : (a b : ℕ) → bit_xor a b ≡ 0 → a ≡ b
xor_eq_zero a b = xor_eq_zero_below (a + b) a b (omega arith) (omega arith)

xor_twice : (x k : ℕ) → bit_xor (bit_xor x k) k ≡ x
xor_twice x k = cc (xor_assoc x k k, xor_self k, xor_zero x)

pub xor_cancel_right : (x y k : ℕ) → bit_xor x k ≡ bit_xor y k → x ≡ y
xor_cancel_right x y k e = cc (xor_twice x k, xor_twice y k)

pub xor_cancel_left : (k x y : ℕ) → bit_xor k x ≡ bit_xor k y → x ≡ y
xor_cancel_left k x y e = xor_cancel_right x y k (cc (xor_comm k x, xor_comm k y))

-- A number taken in on both sides cancels.
pub xor_xor_cancel : (x y k : ℕ) → bit_xor (bit_xor k x) (bit_xor k y) ≡ bit_xor x y
xor_xor_cancel x y k = cc (
  xor_comm k x,
  xor_assoc x k (bit_xor k y),
  xor_assoc k k y,
  xor_self k,
  xor_comm 0 y,
  xor_zero y,
)

pub xor_lt : (k a b : ℕ) → a < 2 ^ k → b < 2 ^ k → bit_xor a b < 2 ^ k
xor_lt zero a b p q =
    let ea : a ≡ 0 = omega arith in let eb : b ≡ 0 = omega arith in omega (arith, ap₂ bit_xor ea eb)
xor_lt (suc k) a b p q = omega (
  arith,
  pow-suc 2 k,
  xor_step a b,
  xor_lt k (a / 2) (b / 2) (omega (arith, pow-suc 2 k)) (omega (arith, pow-suc 2 k)),
)

pub shift_half : (k q : ℕ) → (q * 2 ^ suc k / 2 ≡ q * 2 ^ k) × (q * 2 ^ suc k % 2 ≡ 0)
shift_half k q = omega (arith, ap (λ (t : ℕ). q * t) (pow-suc 2 k))

shift_double : (k q : ℕ) → q * 2 ^ suc k ≡ 2 * (q * 2 ^ k)
shift_double k q = omega (arith, ap (λ (t : ℕ). q * t) (pow-suc 2 k))

-- A field above `k` bits and one within them: exclusive or and or are sums.
pub xor_fields : (k q r : ℕ) → r < 2 ^ k → bit_xor (q * 2 ^ k) r ≡ q * 2 ^ k + r
xor_fields zero q r h =
    let e : r ≡ 0 = omega arith in omega (arith, ap (bit_xor (q * 2 ^ 0)) e, xor_zero (q * 2 ^ 0))
xor_fields (suc k) q r h = omega (
  arith,
  xor_step (q * 2 ^ suc k) r,
  ap (λ x. bit_xor x (r / 2)) (shift_half k q).0,
  shift_half k q,
  shift_double k q,
  xor_fields k q (r / 2) (omega (arith, pow-suc 2 k)),
)

or_zero_below : (n a : ℕ) → a ≤ n → bit_or a 0 ≡ a
or_zero_below zero a h = let e : a ≡ 0 = omega arith in ap (λ x. bit_or x 0) e ∙ omega arith
or_zero_below (suc n) zero h = refl
or_zero_below (suc n) (suc a) h =
    omega (arith, bit_or_lowest (suc a) 0, or_zero_below n (suc a / 2) (omega arith))

pub or_fields : (k q r : ℕ) → r < 2 ^ k → bit_or (q * 2 ^ k) r ≡ q * 2 ^ k + r
or_fields zero q r h =
    let e : r ≡ 0 = omega arith in
    omega (arith, ap (bit_or (q * 2 ^ 0)) e, or_zero_below (q * 2 ^ 0) (q * 2 ^ 0) (omega arith))
or_fields (suc k) q r h = omega (
  arith,
  bit_or_lowest (q * 2 ^ suc k) r,
  ap (λ x. bit_or x (r / 2)) (shift_half k q).0,
  shift_half k q,
  shift_double k q,
  or_fields k q (r / 2) (omega (arith, pow-suc 2 k)),
)

and_zero_below : (n a : ℕ) → a ≤ n → bit_and a 0 ≡ 0
and_zero_below zero a h = let e : a ≡ 0 = omega arith in ap (λ x. bit_and x 0) e ∙ omega arith
and_zero_below (suc n) zero h = refl
and_zero_below (suc n) (suc a) h =
    omega (arith, bit_and_lowest (suc a) 0, and_zero_below n (suc a / 2) (omega arith))

and_comm_below : (n a b : ℕ) → a ≤ n → b ≤ n → bit_and a b ≡ bit_and b a
and_comm_below zero a b p q = let e : a ≡ b = omega arith in ap₂ bit_and e (omega arith)
and_comm_below (suc n) a b p q = omega (
  arith,
  bit_and_lowest a b,
  bit_and_lowest b a,
  and_comm_below n (a / 2) (b / 2) (omega arith) (omega arith),
)

pub and_comm : (a b : ℕ) → bit_and a b ≡ bit_and b a
and_comm a b = and_comm_below (a + b) a b (omega arith) (omega arith)

pub and_one : (a : ℕ) → bit_and a 1 ≡ a % 2
and_one a = omega (arith, bit_and_lowest a 1, and_zero_below (a / 2) (a / 2) (omega arith))

and_nibble : (a : ℕ) → bit_and a 15 ≡ a % 16
and_nibble a = omega (
  arith,
  bit_and_lowest a 15,
  bit_and_lowest (a / 2) 7,
  bit_and_lowest (a / 2 / 2) 3,
  and_one (a / 2 / 2 / 2),
)

-- The mask of the low byte is the remainder by 256.
pub and_byte : (a : ℕ) → bit_and a 255 ≡ a % 256
and_byte a = omega (
  arith,
  bit_and_lowest a 255,
  bit_and_lowest (a / 2) 127,
  bit_and_lowest (a / 2 / 2) 63,
  bit_and_lowest (a / 2 / 2 / 2) 31,
  and_nibble (a / 2 / 2 / 2 / 2),
)

shift_and : (m a : ℕ) → bit_and (m * 2) a ≡ bit_and m (a / 2) * 2
shift_and m a = omega (arith, bit_and_lowest (m * 2) a, ap (λ x. bit_and x (a / 2)) (halve m))
  where
    halve : (m : ℕ) → m * 2 / 2 ≡ m
    halve m = omega arith

-- The mask of the high byte of a word keeps the quotient by 256.
pub and_high_byte : (a : ℕ) → bit_and 0xff00 a ≡ a / 256 % 256 * 256
and_high_byte a = omega (
  arith,
  shift_and 0x7f80 a,
  shift_and 0x3fc0 (a / 2),
  shift_and 0x1fe0 (a / 2 / 2),
  shift_and 0xff0 (a / 2 / 2 / 2),
  shift_and 0x7f8 (a / 2 / 2 / 2 / 2),
  shift_and 0x3fc (a / 2 / 2 / 2 / 2 / 2),
  shift_and 0x1fe (a / 2 / 2 / 2 / 2 / 2 / 2),
  shift_and 0xff (a / 2 / 2 / 2 / 2 / 2 / 2 / 2),
  and_comm 0xff (a / 2 / 2 / 2 / 2 / 2 / 2 / 2 / 2),
  and_byte (a / 2 / 2 / 2 / 2 / 2 / 2 / 2 / 2),
)
