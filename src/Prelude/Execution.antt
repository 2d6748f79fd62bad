-- ===== src/Prelude/Execution.antt =====
-- C code that touches memory. `fault` is an access outside the object that a pointer points into, or
-- a failed CHECK or ASSERT, and `stuck` a loop that uses up the rounds it is given. A run of the code
-- that is `done` has neither.
use mathlib.Core.Path.{◌≡◌, refl}
use mathlib.Core.Bool.{Bool, true, false}
use package.modbus_c.Prelude.Tests.{if◌then◌else◌}

pub data Exec {ℓ} (A : Type ℓ) : Type ℓ where
  done : A → Exec A
  fault : Exec A
  stuck : Exec A

infixl 5 ◌>>=◌
abbrev pub ◌>>=◌ {ℓ κ} : {A : Type ℓ} {B : Type κ} → Exec A → (A → Exec B) → Exec B
done a >>= f = f a
fault >>= f = fault
stuck >>= f = stuck

-- The run does not get stuck, and a value that it ends with has the property.
abbrev pub Ensures {ℓ} : {A : Type ℓ} → (A → Type 0) → Exec A → Type 0
Ensures P (done a) = P a
Ensures P fault = Unit {0}
Ensures P stuck = ⊥

module _ {ℓ κ} {A : Type ℓ} {B : Type κ} (Q : A → Type 0) (P : B → Type 0) where
  pub Ensures-bind :
      (m : Exec A) (f : A → Exec B)
      → Ensures Q m
      → ((a : A) → Q a → Ensures P (f a))
      → Ensures P (m >>= f)
  Ensures-bind (done a) f h k = k a h
  Ensures-bind fault f h k = tt
  Ensures-bind stuck f h k = h

module _ {ℓ} {A : Type ℓ} (P : A → Type 0) where
  pub Ensures-if :
      (b : Bool) (x y : Exec A)
      → (b ≡ true → Ensures P x)
      → (b ≡ false → Ensures P y)
      → Ensures P (if b then x else y)
  Ensures-if true x y h k = h refl
  Ensures-if false x y h k = k refl

-- The run does not get stuck; where it faults `F` holds, and else the property of its value.
abbrev pub Ends {ℓ} : {A : Type ℓ} → Type 0 → (A → Type 0) → Exec A → Type 0
Ends F P (done a) = P a
Ends F P fault = F
Ends F P stuck = ⊥

module _ {ℓ κ} {A : Type ℓ} {B : Type κ} (F : Type 0) (Q : A → Type 0) (P : B → Type 0) where
  pub Ends-bind :
      (m : Exec A) (f : A → Exec B)
      → Ends F Q m
      → ((a : A) → Q a → Ends F P (f a))
      → Ends F P (m >>= f)
  Ends-bind (done a) f h k = k a h
  Ends-bind fault f h k = h
  Ends-bind stuck f h k = h

-- what holds of the value of a run that has one
abbrev pub Yields {ℓ} : {A : Type ℓ} → (A → Type 0) → Exec A → Type 0
Yields P (done a) = P a
Yields P fault = Unit {0}
Yields P stuck = Unit {0}

pub Yields-bind :
    {A B : Type 0} (Q : A → Type 0) (P : B → Type 0) (m : Exec A) (f : A → Exec B)
    → Yields Q m
    → ((a : A) → Q a → Yields P (f a))
    → Yields P (m >>= f)
Yields-bind Q P (done a) f h k = k a h
Yields-bind Q P fault f h k = tt
Yields-bind Q P stuck f h k = tt

pub Yields-step :
    {A B : Type 0} (P : B → Type 0) (m : Exec A) (f : A → Exec B)
    → ((a : A) → Yields P (f a))
    → Yields P (m >>= f)
Yields-step P (done a) f k = k a
Yields-step P fault f k = tt
Yields-step P stuck f k = tt

-- a run that ends, with what holds of its value
pub Ends-Yields :
    {A : Type 0} (F : Type 0) (Q P : A → Type 0) (m : Exec A) → Ends F Q m → Yields P m → Ends F P m
Ends-Yields F Q P (done a) h y = y
Ends-Yields F Q P fault h y = h
Ends-Yields F Q P stuck h y = h
