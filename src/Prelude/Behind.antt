-- ===== src/Prelude/Behind.antt =====
-- Lists seen as a prefix and what is behind it.
use Prim.Native.Nat.{ℕ, zero, suc, ◌+◌}
use mathlib.Core.Path.{◌≡◌, refl}
use mathlib.Core.List.{List, [], ◌∷◌, ◌++◌}
use native.Mathlib.Omega.{arith}
use package.modbus_c.Prelude.Lists.{length, get_or, set, take, drop}

pub append_assoc {ℓ} : {A : Type ℓ} (xs ys zs : List A) → (xs ++ ys) ++ zs ≡ xs ++ (ys ++ zs)
append_assoc [] ys zs = refl
append_assoc (x ∷ xs) ys zs = rw (append_assoc xs ys zs)

-- the first element behind a prefix
pub set_behind : (xs ys : List ℕ) (y v : ℕ) → set (xs ++ y ∷ ys) (length xs) v ≡ xs ++ v ∷ ys
set_behind [] ys y v = refl
set_behind (x ∷ xs) ys y v = rw (set_behind xs ys y v)

pub get_behind : (xs ys : List ℕ) (y : ℕ) → get_or (xs ++ y ∷ ys) (length xs) 0 ≡ y
get_behind [] ys y = refl
get_behind (x ∷ xs) ys y = get_behind xs ys y

pub take_behind : (xs ys : List ℕ) → take (length xs) (xs ++ ys) ≡ xs
take_behind [] ys = refl
take_behind (x ∷ xs) ys = rw (take_behind xs ys)

drop_nil : (n : ℕ) → drop {A = ℕ} n [] ≡ []
drop_nil zero = refl
drop_nil (suc n) = refl

pub drop-drop : (m n : ℕ) (xs : List ℕ) → drop m (drop n xs) ≡ drop (n + m) xs
drop-drop m zero xs = ground arith
drop-drop zero (suc n) [] = ground (arith, drop_nil (suc n + 0))
drop-drop (suc m) (suc n) [] = ground (arith, drop_nil (suc n + suc m))
drop-drop m (suc n) (x ∷ xs) = rw (shift m n) (drop-drop m n xs)
  where
    shift : (m n : ℕ) → suc n + m ≡ suc (n + m)
    shift m n = omega arith

pub append_nil {ℓ} : {A : Type ℓ} (xs : List A) → xs ++ [] ≡ xs
append_nil [] = refl
append_nil (x ∷ xs) = rw (append_nil xs)
