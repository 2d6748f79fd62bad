-- ===== src/Memory/Splice.antt =====
-- `splice`: what it puts where, and what it leaves.
use modbus_c.Prelude.{
  ℕ, zero, suc, ◌+◌, ◌≤◌, ◌<◌, ◌≡◌, ◌≢◌, refl, ap, ◌∙◌, List, [], ◌∷◌, length, get_or, set,
  drop-cons, length-set, IsBytes, set-IsBytes, arith,
}
use modbus_c.Memory.Loops.{slice, splice, words}

get_or-set_self : (xs : List ℕ) (i v : ℕ) → i < length xs → get_or (set xs i v) i 0 ≡ v
get_or-set_self [] i v h = absurd (omega arith)
get_or-set_self (x ∷ xs) zero v h = refl
get_or-set_self (x ∷ xs) (suc i) v h = get_or-set_self xs i v (omega arith)

get_or-set_ne : (xs : List ℕ) (i j v : ℕ) → i ≢ j → get_or (set xs i v) j 0 ≡ get_or xs j 0
get_or-set_ne [] i j v h = refl
get_or-set_ne (x ∷ xs) zero zero v h = absurd (h refl)
get_or-set_ne (x ∷ xs) zero (suc j) v h = refl
get_or-set_ne (x ∷ xs) (suc i) zero v h = refl
get_or-set_ne (x ∷ xs) (suc i) (suc j) v h = get_or-set_ne xs i j v (λ e. h (ap suc e))

pub length-splice : (vs bytes : List ℕ) (i : ℕ) → length (splice bytes i vs) ≡ length bytes
length-splice [] bytes i = refl
length-splice (v ∷ vs) bytes i = length-splice vs (set bytes i v) (suc i) ∙ length-set bytes i v

pub splice-IsBytes :
    (vs bytes : List ℕ) (i : ℕ) → IsBytes bytes → IsBytes vs → IsBytes (splice bytes i vs)
splice-IsBytes [] bytes i h k = h
splice-IsBytes (v ∷ vs) bytes i h k =
    splice-IsBytes vs (set bytes i v) (suc i) (set-IsBytes bytes i v h k.0) k.1

-- Outside the range every byte stays.
pub get_or-splice_below :
    (vs bytes : List ℕ) (i j : ℕ) → j < i → get_or (splice bytes i vs) j 0 ≡ get_or bytes j 0
get_or-splice_below [] bytes i j h = refl
get_or-splice_below (v ∷ vs) bytes i j h =
    get_or-splice_below vs (set bytes i v) (suc i) j (omega arith)
    ∙ get_or-set_ne bytes i j v (λ e. omega arith)

-- The range then holds the values.
pub slice-splice :
    (vs bytes : List ℕ) (i n : ℕ)
    → n ≡ length vs
    → i + n ≤ length bytes
    → slice (splice bytes i vs) i n ≡ vs
slice-splice [] bytes i zero e h = refl
slice-splice [] bytes i (suc n) e h = absurd (omega arith)
slice-splice (v ∷ vs) bytes i zero e h = absurd (omega arith)
slice-splice (v ∷ vs) bytes i (suc n) e h =
    let rest = splice (set bytes i v) (suc i) vs in
    ground (
      arith,
      drop-cons rest i,
      length-splice vs (set bytes i v) (suc i),
      length-set bytes i v,
      get_or-splice_below vs (set bytes i v) (suc i) i,
      get_or-set_self bytes i v,
      slice-splice vs (set bytes i v) (suc i) n,
    )

pub length-slice :
    (n : ℕ) (bytes : List ℕ) (i : ℕ) → i + n ≤ length bytes → length (slice bytes i n) ≡ n
length-slice zero bytes i h = refl
length-slice (suc n) bytes i h = ground (arith, drop-cons bytes i, length-slice n bytes (suc i))

pub slice-IsBytes : (n : ℕ) (bytes : List ℕ) (i : ℕ) → IsBytes bytes → IsBytes (slice bytes i n)
slice-IsBytes zero bytes i h = tt
slice-IsBytes (suc n) [] zero h = tt
slice-IsBytes (suc n) [] (suc i) h = tt
slice-IsBytes (suc n) (x ∷ xs) zero h = (h.0, slice-IsBytes n xs zero h.1)
slice-IsBytes (suc n) (x ∷ xs) (suc i) h = slice-IsBytes (suc n) xs i h.1

pub length-words : (n : ℕ) (src : List ℕ) (c : ℕ) → length (words src c n) ≡ n
length-words zero src c = refl
length-words (suc n) src c = ap suc (length-words n src (c + 2))
