-- ===== src/Tty/Device.antt =====
-- linux/tty.c: the life of a `tty_dev_t`, from `tty_init` to `tty_deinit`.
--
-- What the system answers is an argument of each function. With the device stand what it owes the
-- system: `heap` counts the allocations that are not freed, `opened` and `closed` the descriptors that
-- it has taken and closed. A failed CHECK is a `fault`.
use modbus_c.Prelude.{
  ℕ, ◌+◌, ◌-◌, ◌≤◌, ◌≡◌, Bool, true, false, not, Option, none, some, List, [], ◌∷◌, ◌==◌,
  if◌then◌else◌, Exec, done, fault, stuck, ◌>>=◌, Ends, Ends-bind, arith,
}

-- `fd` is `none` for -1, `path` for NULL; `has_debug` says whether `debug.begin` is not NULL.
pub record TtyDev : Type 0 where
  pub fd : Option ℕ
  pub path : Option (List ℕ)
  pub has_debug : Bool
  pub heap : ℕ
  pub opened : ℕ
  pub closed : ℕ

-- `allocated` is whether `malloc` or `strdup` finds room.
unfoldable pub tty_init : ℕ → Bool → Exec TtyDev
tty_init debug_size allocated =
    let dev : TtyDev = record {
      fd = none;
      path = none;
      has_debug = false;
      heap = 0;
      opened = 0;
      closed = 0;
    } in
    if debug_size == 0
    then done dev
    else if allocated
    then done (record dev { has_debug = true; heap = 1 })
    else fault

-- `opens` is what `open` returns.
unfoldable pub tty_open : List ℕ → Bool → Option ℕ → TtyDev → Exec TtyDev
tty_open path allocated opens dev = elim dev.fd [
  | some _ ↦ fault
  | none ↦ elim dev.path [
    | some _ ↦ fault
    | none ↦ if not allocated then fault else elim opens [
      | none ↦ fault
      | some fd ↦ done (record dev {
        fd = some fd;
        path = some path;
        heap = dev.heap + 1;
        opened = dev.opened + 1;
      })
    ]
  ]
]

unfoldable pub tty_adopt : Option ℕ → TtyDev → Exec TtyDev
tty_adopt fd dev = elim dev.fd [
  | some _ ↦ fault
  | none ↦ elim fd [
    | none ↦ fault
    | some fd' ↦ done (record dev { fd = some fd'; opened = dev.opened + 1 })
  ]
]

-- `free` of a pointer that is not NULL; freeing what was not allocated is a fault.
abbrev freed : TtyDev → Exec TtyDev
freed dev = if dev.heap == 0 then fault else done (record dev { heap = dev.heap - 1 })

abbrev free_path : TtyDev → Exec TtyDev
free_path dev = elim dev.path [
  | none ↦ done dev
  | some _ ↦ do dev' ← freed dev; done (record dev' { path = none })
]

-- `closes` is whether `close` returns 0.
unfoldable pub tty_close : Bool → TtyDev → Exec TtyDev
tty_close closes dev = do
  dev' ← free_path dev
  elim dev'.fd [
    | none ↦ done dev'
    | some _ ↦ if closes then done (record dev' { fd = none; closed = dev'.closed + 1 }) else fault
  ]

unfoldable pub tty_deinit : Bool → TtyDev → Exec TtyDev
unfolding tty_close
tty_deinit closes dev = do
  dev' ← tty_close closes dev
  dev'' ← free_path dev'
  if not dev''.has_debug
      then done dev''
      else do dev3 ← freed dev''; done (record dev3 { has_debug = false })

-- what a program does with a device that it has initialised
pub data Use : Type 0 where
  opens : List ℕ → Bool → Option ℕ → Use
  adopts : Option ℕ → Use
  closes : Bool → Use

abbrev pub use_once : Use → TtyDev → Exec TtyDev
use_once (opens path allocated fd) dev = tty_open path allocated fd dev
use_once (adopts fd) dev = tty_adopt fd dev
use_once (closes ok) dev = tty_close ok dev

abbrev pub use_all : List Use → TtyDev → Exec TtyDev
use_all [] dev = done dev
use_all (u ∷ us) dev = do dev' ← use_once u dev; use_all us dev'

abbrev count : {A : Type 0} → Option A → ℕ
count none = 0
count (some a) = 1

-- A device owns what it owes, and has a path only while it is open.
pub record Owns (dev : TtyDev) : Type 0 where
  pub heap : dev.heap ≡ count dev.path + (if dev.has_debug then 1 else 0)
  pub descriptors : dev.opened ≡ dev.closed + count dev.fd
  pub path : count dev.path ≤ count dev.fd

tty_init-Owns : (debug_size : ℕ) (ok : Bool) → Ends Unit Owns (tty_init debug_size ok)
unfolding tty_init
tty_init-Owns debug_size ok = ground arith

use_once-Owns : (u : Use) (dev : TtyDev) → Owns dev → Ends Unit Owns (use_once u dev)
unfolding tty_open tty_adopt tty_close
use_once-Owns (opens path allocated fd) dev v = ground (arith, v)
use_once-Owns (adopts fd) dev v = ground (arith, v)
use_once-Owns (closes ok) dev v = ground (arith, v)

use_all-Owns : (us : List Use) (dev : TtyDev) → Owns dev → Ends Unit Owns (use_all us dev)
use_all-Owns [] dev v = v
use_all-Owns (u ∷ us) dev v =
    Ends-bind Unit Owns Owns (use_once u dev) _ (use_once-Owns u dev v)
      λ dev' v'. use_all-Owns us dev' v'

-- nothing is owed
abbrev pub IsReleased : TtyDev → Type 0
IsReleased dev = (dev.fd ≡ none) × (dev.path ≡ none) × (dev.heap ≡ 0) × (dev.opened ≡ dev.closed)

-- where `close` does not fail, the end of a device does not either
Owns-IsReleased : (dev : TtyDev) → Owns dev → Ends ⊥ IsReleased (tty_deinit true dev)
unfolding tty_deinit tty_close
Owns-IsReleased dev v = ground (arith, v)

-- A device of a tty is initialised, and opened, adopted and closed in any order, whatever the
-- system answers. Where this ends without a failed CHECK, the device's allocations are its path and
-- its text for debugging, it has closed all descriptors but the one it has, and it has a path only
-- with one. Then `tty_deinit` ends, if `close` does not fail, and frees each allocation once and
-- closes each descriptor.
pub tty_deinit-IsReleased :
    (debug_size : ℕ) (ok : Bool) (us : List Use)
    → Ends Unit
        (λ dev. Owns dev × Ends ⊥ IsReleased (tty_deinit true dev))
        (do dev ← tty_init debug_size ok; use_all us dev)
tty_deinit-IsReleased debug_size ok us =
    Ends-bind Unit Owns (λ dev. Owns dev × Ends ⊥ IsReleased (tty_deinit true dev))
      (tty_init debug_size ok) _ (tty_init-Owns debug_size ok)
      λ dev v. Ends-map (use_all us dev) (use_all-Owns us dev v)
  where
    Ends-map :
        (m : Exec TtyDev)
        → Ends Unit Owns m
        → Ends Unit (λ dev. Owns dev × Ends ⊥ IsReleased (tty_deinit true dev)) m
    Ends-map (done dev) v = (v, Owns-IsReleased dev v)
    Ends-map fault v = v
    Ends-map stuck v = v
