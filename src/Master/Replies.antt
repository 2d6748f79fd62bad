-- ===== src/Master/Replies.antt =====
-- master.c: the functions that check a reply. A returned pointer is the index it points to.
use modbus_c.Prelude.{
  ℕ, ◌+◌, Option, none, some, List, not, ltb, ◌==◌, if◌then◌else◌, Exec, done, ◌>>=◌, load,
}
use modbus_c.Master.{valid_crc}

-- the pointer `p` if the CRC is right, and else NULL
unfoldable pub if_valid : List ℕ → ℕ → ℕ → Exec (Option ℕ)
if_valid adu adu_size p = do
  crc ← valid_crc adu adu_size
  done (elim crc [ none ↦ none | some _ ↦ some p ])

-- a reply of a fixed size
unfoldable pub parse_fixed : ℕ → List ℕ → ℕ → Exec (Option ℕ)
parse_fixed expected_size adu adu_size =
    if not (expected_size == adu_size) then done none else if_valid adu adu_size 0

-- a reply whose header holds at index `p` the number of the bytes behind it
unfoldable pub parse_counted : ℕ → ℕ → List ℕ → ℕ → Exec (Option ℕ)
parse_counted expected_min_size p adu adu_size =
    if ltb adu_size expected_min_size then done none else do
      count ← load adu p
      if not (expected_min_size + count == adu_size) then done none else if_valid adu adu_size 0

unfoldable pub parse_reply_rd_holding_registers : List ℕ → ℕ → Exec (Option ℕ)
parse_reply_rd_holding_registers adu adu_size = parse_counted 5 2 adu adu_size

unfoldable pub parse_reply_wr_register : List ℕ → ℕ → Exec (Option ℕ)
parse_reply_wr_register adu adu_size = parse_fixed 8 adu adu_size

unfoldable pub parse_reply_wr_registers : List ℕ → ℕ → Exec (Option ℕ)
parse_reply_wr_registers adu adu_size = parse_fixed 8 adu adu_size

unfoldable pub parse_reply_wr_bytes : List ℕ → ℕ → Exec (Option ℕ)
parse_reply_wr_bytes adu adu_size = parse_fixed 7 adu adu_size

unfoldable pub parse_reply_rd_bytes : List ℕ → ℕ → Exec (Option ℕ)
parse_reply_rd_bytes adu adu_size = parse_counted 7 4 adu adu_size

unfoldable pub find_ecode : List ℕ → ℕ → Exec (Option ℕ)
find_ecode adu size = if not (size == 5) then done none else if_valid adu size 2
