-- ===== src/Prelude/Access.antt =====
-- What the accesses to a buffer of bytes ensure, whether or not they stay inside it.
use Prim.Native.Nat.{ℕ, zero, suc, ◌+◌}
use mathlib.Core.Path.{◌≡◌}
use mathlib.Core.List.{List, [], ◌∷◌}
use native.Mathlib.Omega.{arith}
use package.modbus_c.Prelude.Lists.{length, set, length-set}
use package.modbus_c.Prelude.Bytes.{IsByte, IsBytes}
use package.modbus_c.Prelude.Tests.{ltb}
use package.modbus_c.Prelude.Execution.{Ensures, Ensures-bind, Ensures-if}
use package.modbus_c.Prelude.Buffer.{load, store, copy}

pub load-IsByte : (src : List ℕ) (p : ℕ) → IsBytes src → Ensures IsByte (load src p)
unfolding load
load-IsByte [] p v = tt
load-IsByte (x ∷ xs) zero v = v.0
load-IsByte (x ∷ xs) (suc p) v = load-IsByte xs p v.1

pub set-IsBytes : (bytes : List ℕ) (p v : ℕ) → IsBytes bytes → IsByte v → IsBytes (set bytes p v)
set-IsBytes [] p v h k = h
set-IsBytes (x ∷ xs) zero v h k = (k, h.1)
set-IsBytes (x ∷ xs) (suc p) v h k = (h.0, set-IsBytes xs p v h.1 k)

-- `n` bytes
abbrev pub AreBytes : ℕ → List ℕ → Type 0
AreBytes n bs = (length bs ≡ n) × IsBytes bs

pub store-AreBytes :
    (bytes : List ℕ) (p v : ℕ)
    → IsBytes bytes
    → IsByte v
    → Ensures (AreBytes (length bytes)) (store bytes p v)
unfolding store
store-AreBytes bytes p v h k =
    Ensures-if (AreBytes (length bytes)) (ltb p (length bytes)) _ _
      (λ _. (length-set bytes p v, set-IsBytes bytes p v h k)) (λ _. tt)

pub copy-AreBytes :
    (n : ℕ) (src : List ℕ) (p : ℕ) → IsBytes src → Ensures (AreBytes n) (copy src p n)
unfolding copy
copy-AreBytes zero src p v = omega arith
copy-AreBytes (suc n) src p v =
    Ensures-bind IsByte (AreBytes (suc n)) (load src p) _ (load-IsByte src p v) λ b hb.
      Ensures-bind (AreBytes n) (AreBytes (suc n)) (copy src (p + 1) n) _
        (copy-AreBytes n src (p + 1) v) λ bs h. (omega arith, (hb, h.1))
