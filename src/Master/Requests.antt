-- ===== src/Master/Requests.antt =====
-- master.c: what a request writes, and when it is refused.
use modbus_c.Prelude.{
  ℕ, ◌+◌, ◌≤◌, ◌<◌, ◌≡◌, refl, none, some, List, [], ◌∷◌, ◌++◌, length, length-append, length-drop,
  drop, done, store_in, arith,
}
use modbus_c.Crc.{modbus_rtu_calc_crc}
use modbus_c.Crc.Frame.{frame, length-frame}
use modbus_c.Prelude.Behind.{append_assoc, set_behind, take_behind, append_nil, drop-drop}
use modbus_c.Master.{Request, memcpy, implace_crc_impl, implace_crc, build_in, build_struct}

pub memcpy_behind :
    (xs bs rest : List ℕ)
    → length bs ≤ length rest
    → memcpy (xs ++ rest) (length xs) bs ≡ done (xs ++ (bs ++ drop (length bs) rest))
unfolding memcpy
memcpy_behind xs [] rest h = refl
memcpy_behind xs (b ∷ bs) [] h = absurd (omega arith)
memcpy_behind xs (b ∷ bs) (y ∷ rest) h =
    let one : length (xs ++ b ∷ []) ≡ length xs + 1 = length-append xs (b ∷ []) in
    ground (
      arith,
      store_in (xs ++ y ∷ rest) (length xs) b,
      length-append xs (y ∷ rest),
      set_behind xs rest y b,
      append_assoc xs (b ∷ []) rest,
      append_assoc xs (b ∷ []) (bs ++ drop (length bs) rest),
      memcpy_behind (xs ++ b ∷ []) bs rest (omega arith),
    )

pub implace_crc_impl-frame :
    (bytes rest : List ℕ) (max_size : ℕ)
    → length bytes + 2 ≤ max_size
    → max_size ≤ length bytes + length rest
    → implace_crc_impl (bytes ++ rest) (length bytes) max_size
      ≡ done (frame bytes ++ drop 2 rest, some (length bytes + 2))
unfolding implace_crc_impl
implace_crc_impl-frame bytes [] max_size h k = absurd (omega arith)
implace_crc_impl-frame bytes (x ∷ []) max_size h k = absurd (omega arith)
implace_crc_impl-frame bytes (x ∷ y ∷ rest) max_size h k =
    let crc = modbus_rtu_calc_crc bytes in
    let one : length (bytes ++ crc.low ∷ []) ≡ length bytes + 1 =
      length-append bytes (crc.low ∷ []) in
    ground (
      arith,
      take_behind bytes (x ∷ y ∷ rest),
      store_in (bytes ++ x ∷ y ∷ rest) (length bytes) crc.low,
      length-append bytes (x ∷ y ∷ rest),
      set_behind bytes (y ∷ rest) x crc.low,
      append_assoc bytes (crc.low ∷ []) (y ∷ rest),
      store_in (bytes ++ crc.low ∷ y ∷ rest) (length bytes + 1) crc.high,
      length-append bytes (crc.low ∷ y ∷ rest),
      set_behind (bytes ++ crc.low ∷ []) rest y crc.high,
      append_assoc bytes (crc.low ∷ []) (crc.high ∷ rest),
      append_assoc bytes (crc.low ∷ crc.high ∷ []) rest,
    )

-- the buffer with a request at its start, and the pointer behind it
abbrev pub made : List ℕ → List ℕ → Request
made dst req = done (frame req ++ drop (length req + 2) dst, some (length req + 2))

pub memcpy_start :
    (bs dst : List ℕ) → length bs ≤ length dst → memcpy dst 0 bs ≡ done (bs ++ drop (length bs) dst)
memcpy_start bs dst h = memcpy_behind [] bs dst h

pub build_in-made :
    (dst req : List ℕ) (max_size : ℕ)
    → length req + 2 ≤ max_size
    → max_size ≤ length dst
    → build_in dst req max_size ≡ made dst req
unfolding build_in
build_in-made dst req max_size h k = ground (
  arith,
  memcpy_start req dst,
  length-drop (length req) dst,
  drop-drop 2 (length req) dst,
  implace_crc_impl-frame req (drop (length req) dst) max_size h,
)

-- A buffer with room for the message and none for the CRC is written, and NULL is returned.
pub build_in-small :
    (dst req : List ℕ) (max_size : ℕ)
    → max_size < length req + 2
    → length req ≤ length dst
    → build_in dst req max_size ≡ done (req ++ drop (length req) dst, none)
unfolding build_in implace_crc_impl
build_in-small dst req max_size h k = ground (arith, memcpy_start req dst)

pub implace_crc-frame :
    (req : List ℕ)
    → implace_crc (req ++ 0 ∷ 0 ∷ []) (length req + 2) ≡ done (frame req, some (length req + 2))
unfolding implace_crc
implace_crc-frame req = ground (
  arith,
  implace_crc_impl-frame req (0 ∷ 0 ∷ []) (length req + 2) (omega arith) (omega arith),
  append_nil (frame req),
)

pub build_struct-made :
    (dst req : List ℕ) → length req + 2 ≤ length dst → build_struct dst req ≡ made dst req
unfolding build_struct
build_struct-made dst req h =
    ground (arith, implace_crc-frame req, length-frame req, memcpy_start (frame req) dst)
