-- ===== src/Prelude/Buffer.antt =====
-- C buffers: reads and writes through a pointer into an object. The pointer is an index, and an index
-- outside the object is a fault.
use Prim.Native.Nat.{ℕ, zero, suc, ◌+◌, ◌≤◌, ◌<◌}
use mathlib.Core.Path.{◌≡◌, refl}
use mathlib.Core.Option.{Option, none, some}
use mathlib.Core.List.{List, [], ◌∷◌}
use native.Mathlib.Omega.{arith}
use package.modbus_c.Prelude.Tests.{ltb, if◌then◌else◌}
use package.modbus_c.Prelude.Lists.{length, get_elem?, get_or, set, take, drop}
use package.modbus_c.Prelude.Execution.{Exec, done, fault, ◌>>=◌}

abbrev pub from_Option {ℓ} : {A : Type ℓ} → Option A → Exec A
from_Option none = fault
from_Option (some a) = done a

-- `*p`
unfoldable pub load : List ℕ → ℕ → Exec ℕ
load buf p = from_Option (get_elem? buf p)

-- `*p = v`
unfoldable pub store : List ℕ → ℕ → ℕ → Exec (List ℕ)
store buf p v = if ltb p (length buf) then done (set buf p v) else fault

-- `memcpy` of the `n` bytes from `p` on
unfoldable pub copy : List ℕ → ℕ → ℕ → Exec (List ℕ)
copy buf p zero = done []
copy buf p (suc n) = do b ← load buf p; bs ← copy buf (p + 1) n; done (b ∷ bs)

pub load_in : (buf : List ℕ) (p : ℕ) → p < length buf → load buf p ≡ done (get_or buf p 0)
unfolding load
load_in [] p h = absurd (omega arith)
load_in (x ∷ xs) zero h = refl
load_in (x ∷ xs) (suc p) h = load_in xs p (omega arith)

pub store_in : (buf : List ℕ) (p v : ℕ) → p < length buf → store buf p v ≡ done (set buf p v)
unfolding store
store_in buf p v h = ground arith

pub store_out : (buf : List ℕ) (p v : ℕ) → length buf ≤ p → store buf p v ≡ fault
unfolding store
store_out buf p v h = ground arith

pub drop-cons : (xs : List ℕ) (i : ℕ) → i < length xs → drop i xs ≡ get_or xs i 0 ∷ drop (suc i) xs
drop-cons [] i h = absurd (omega arith)
drop-cons (x ∷ xs) zero h = refl
drop-cons (x ∷ xs) (suc i) h = drop-cons xs i (omega arith)

pub copy_in :
    (n : ℕ) (buf : List ℕ) (p : ℕ) → p + n ≤ length buf → copy buf p n ≡ done (take n (drop p buf))
unfolding copy
copy_in zero buf p h = refl
copy_in (suc n) buf p h =
    ground (arith, load_in buf p, drop-cons buf p, copy_in n buf (p + 1) (omega arith))
