-- ===== src/Tty/Debug/Text.antt =====
-- `dump` and `debug` write the text of Words.antt, cut as in Room.antt.
use modbus_c.Prelude.{
  ℕ, suc, ◌+◌, ◌≡◌, refl, ℕ_discrete, dec_lt, ap, ◌∙◌, Bool, true, false, not, List, [], ◌∷◌, ◌++◌,
  length, length-append, drop, ltb, ◌==◌, if◌then◌else◌, done, ◌>>=◌, arith,
}
use modbus_c.Prelude.Behind.{append_assoc, append_nil}
use modbus_c.Tty.Debug.{
  Int64, decimal, hex_02, min, print, is_empty, print_zeros, print_byte, dump_from, dump,
  debug_head, debug_timeout, debug,
}
use modbus_c.Tty.Debug.Room.{
  at, behind, taken, cut, taken_all, left_all, taken-cut, left_cut, length-taken, print-behind,
  print_on,
}
use modbus_c.Tty.Debug.Words.{
  zeros, words_from, word_text, words_text, dump_text, byte_text, last_text, more_text,
}

print_zeros_on :
    (pre room s : List ℕ) (num : ℕ) (more : Bool)
    → print_zeros (behind pre room s) num more
      ≡ done (behind pre room (s ++ (word_text (zeros num) ++ (if more then b' ' ∷ [] else []))))
unfolding print_zeros
print_zeros_on pre room s num more = ground (
  arith,
  print_on pre room s (decimal num ++ b'x' ∷ []),
  print_on pre room (s ++ (decimal num ++ b'x' ∷ [])) (hex_02 0),
  print_on pre room s (hex_02 0),
  print_on pre room ((s ++ (decimal num ++ b'x' ∷ [])) ++ hex_02 0) (b' ' ∷ []),
  print_on pre room (s ++ hex_02 0) (b' ' ∷ []),
  append_assoc s (decimal num ++ b'x' ∷ []) (hex_02 0),
  append_assoc s ((decimal num ++ b'x' ∷ []) ++ hex_02 0) (b' ' ∷ []),
  append_assoc s (hex_02 0) (b' ' ∷ []),
  append_nil ((decimal num ++ b'x' ∷ []) ++ hex_02 0),
  append_nil (hex_02 0),
)

print_byte_on :
    (pre room s : List ℕ) (num value : ℕ) (more : Bool)
    → print_byte (behind pre room s) num value more
      ≡ done (behind pre room (s ++ byte_text num value more))
unfolding print_byte
print_byte_on pre room s num value more =
    let space = if more then b' ' ∷ [] else [] in
    let run = if ltb 0 num then word_text (zeros num) ++ space else [] in
    let hex = if not (value == 0) then hex_02 value else [] in
    let first : (if ltb 0 num
          then print_zeros (behind pre room s) num more
          else done (behind pre room s))
        ≡ done (behind pre room (s ++ run)) =
      ground (arith, print_zeros_on pre room s num more, append_nil s) in
    let second : (if not (value == 0)
          then print (behind pre room (s ++ run)) (hex_02 value)
          else done (behind pre room (s ++ run)))
        ≡ done (behind pre room ((s ++ run) ++ hex)) =
      ground (arith, print_on pre room (s ++ run) (hex_02 value), append_nil (s ++ run)) in
    let third : (if more
          then print (behind pre room ((s ++ run) ++ hex)) (b' ' ∷ [])
          else done (behind pre room ((s ++ run) ++ hex)))
        ≡ done (behind pre room (((s ++ run) ++ hex) ++ space)) =
      ground (
        arith,
        print_on pre room ((s ++ run) ++ hex) (b' ' ∷ []),
        append_nil ((s ++ run) ++ hex),
      ) in
    let joined : ((s ++ run) ++ hex) ++ space ≡ s ++ ((run ++ hex) ++ space) =
      ap (λ l. l ++ space) (append_assoc s run hex) ∙ append_assoc s (run ++ hex) space in
    ap
      (λ x. x >>= λ c1. (if not (value == 0) then print c1 (hex_02 value) else done c1) >>= λ c2.
        if more then print c2 (b' ' ∷ []) else done c2)
      first
    ∙ ap (λ x. x >>= λ c2. if more then print c2 (b' ' ∷ []) else done c2) second
    ∙ third
    ∙ ap (λ l. done (behind pre room l)) joined

dump_on :
    (pre room s : List ℕ) (num : ℕ) (bs : List ℕ)
    → (is_empty bs ≡ true → num ≡ 0)
    → dump_from (behind pre room s) num bs
      ≡ done (behind pre room (s ++ words_text (words_from num bs)))
unfolding dump_from
dump_on pre room s num [] h = ground (arith, h refl, append_nil s)
dump_on pre room s num (value ∷ []) h = ground (
  arith,
  last_text num value,
  print_byte_on pre room s (if value == 0 then num + 1 else num) value false,
)
dump_on pre room s num (value ∷ b ∷ bs) h = elim (ℕ_discrete value 0) [
  | yes e ↦
      let skipped = dump_on pre room s (num + 1) (b ∷ bs) (λ q. cc) in ground (arith, e, skipped)
  | no n ↦
      let rest = dump_on pre room (s ++ byte_text num value true) 0 (b ∷ bs) (λ q. cc) in
      ground (
        arith,
        n,
        more_text num value b bs n,
        print_byte_on pre room s num value true,
        rest,
        append_assoc s (byte_text num value true) (words_text (words_from 0 (b ∷ bs))),
      )
]

-- what `debug` writes
abbrev pub debug_text : List ℕ → Int64 → Int64 → List ℕ → ℕ → List ℕ
debug_text tag timeout_us duration_us bytes count =
    let timeout = if count == 0 then debug_timeout else [] in
    debug_head tag timeout_us duration_us count ++ (dump_text bytes ++ timeout)

debug-behind :
    (pre room tag : List ℕ) (timeout_us duration_us : Int64) (bytes : List ℕ) (count : ℕ)
    → debug (at pre room) tag timeout_us duration_us bytes count
      ≡ done (behind pre room (debug_text tag timeout_us duration_us bytes count))
unfolding debug dump
debug-behind pre room tag timeout_us duration_us bytes count =
    let head = debug_head tag timeout_us duration_us count in
    let timeout : List ℕ = if count == 0 then debug_timeout else [] in
    ap (λ x. x >>= λ c. dump_from c 0 bytes >>= λ c'. print c' timeout) (print-behind pre room head)
    ∙ ap (λ x. x >>= λ c'. print c' timeout) (dump_on pre room head 0 bytes (λ q. refl))
    ∙ print_on pre room (head ++ dump_text bytes) timeout
    ∙ ap (λ l. done (behind pre room l)) (append_assoc head (dump_text bytes) timeout)

-- `debug` with the cursor behind the bytes `pre` of a buffer and the bytes `room` behind it: no
-- byte is written outside the buffer, and `pre` stays. The text is the head with the tag, the times
-- and the count, the bytes, and the word timeout if the count is 0; each run of zeros in the bytes
-- is one word, with its length if that is more than one, and each other byte is one, with a space
-- between two words but for a last byte behind zeros. If the text with a zero fits the room, both
-- are written, the rest of the room stays, and the cursor is behind the text; else the room is
-- filled by the start of the text with a zero in its last byte, and the cursor is at its end.
pub debug_lem :
    (pre room tag : List ℕ) (timeout_us duration_us : Int64) (bytes : List ℕ) (count : ℕ)
    → let text = debug_text tag timeout_us duration_us bytes count in
      debug (at pre room) tag timeout_us duration_us bytes count
      ≡ done (record {
        buf =
            pre
            ++ (if ltb (length text) (length room)
                then text ++ 0 ∷ drop (suc (length text)) room
                else cut room text);
        dst = length pre + min (length text) (length room);
      })
debug_lem pre room tag timeout_us duration_us bytes count =
    let text = debug_text tag timeout_us duration_us bytes count in
    debug-behind pre room tag timeout_us duration_us bytes count
    ∙ ap done (elim (dec_lt (length text) (length room)) [
      | yes h ↦ ground (
        arith,
        h,
        taken_all room text h,
        left_all room text h,
        append_assoc pre text (0 ∷ drop (suc (length text)) room),
        length-append pre text,
      )
      | no h ↦ ground (
        arith,
        h,
        taken-cut room text (omega (arith, h)),
        left_cut room text (omega (arith, h)),
        append_nil (pre ++ cut room text),
        length-append pre (taken room text),
        length-taken room text,
      )
    ])
