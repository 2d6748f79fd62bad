-- ===== src/Tty/Debug/Words.antt =====
-- The text of bytes by runs of zeros, as `dump` in linux/tty.c writes it.
use modbus_c.Prelude.{
  ℕ, ◌+◌, ◌<◌, ◌≡◌, ◌≢◌, ℕ_discrete, Bool, true, false, not, List, [], ◌∷◌, ◌++◌, ltb, ◌==◌,
  if◌then◌else◌, arith,
}
use modbus_c.Prelude.Behind.{append_assoc, append_nil}
use modbus_c.Tty.Debug.{decimal, hex_02}

-- A run of zeros, or another byte.
pub data Word : Type 0 where
  zeros byte : ℕ → Word

-- the words of the bytes behind `num` zeros
abbrev pub words_from : ℕ → List ℕ → List Word
words_from num [] = if num == 0 then [] else zeros num ∷ []
words_from num (b ∷ bs) =
    let rest = byte b ∷ words_from 0 bs in
    let run = words_from (num + 1) bs in
    if b == 0 then run else if num == 0 then rest else zeros num ∷ rest

-- `00`, or `00` behind the number of zeros and `x`
abbrev pub word_text : Word → List ℕ
word_text (byte b) = hex_02 b
word_text (zeros n) = if ltb 1 n then (decimal n ++ b'x' ∷ []) ++ hex_02 0 else hex_02 0

-- The words with a space between them, but for a last byte behind zeros.
abbrev pub words_text : List Word → List ℕ
words_text [] = []
words_text (w ∷ []) = word_text w
words_text (zeros n ∷ byte b ∷ []) = word_text (zeros n) ++ word_text (byte b)
words_text (w ∷ v ∷ ws) = let rest = words_text (v ∷ ws) in word_text w ++ b' ' ∷ rest

abbrev pub dump_text : List ℕ → List ℕ
dump_text bytes = words_text (words_from 0 bytes)

-- what one byte and the zeros before it write
abbrev pub byte_text : ℕ → ℕ → Bool → List ℕ
byte_text num value more =
    let space = if more then b' ' ∷ [] else [] in
    let run = if ltb 0 num then word_text (zeros num) ++ space else [] in
    (run ++ (if not (value == 0) then hex_02 value else [])) ++ space

zeros_words :
    (num : ℕ) (bs : List ℕ) → 0 < num → (w : Word) × (ws : List Word) × (words_from num bs ≡ w ∷ ws)
zeros_words num [] h = (zeros num, [], ground arith)
zeros_words num (b ∷ bs) h = elim (ℕ_discrete b 0) [
  | yes e ↦ let (w, ws, q) = zeros_words (num + 1) bs (omega arith) in (w, ws, ground (arith, q, e))
  | no n ↦ (zeros num, byte b ∷ words_from 0 bs, ground (arith, n))
]

-- there is a word for each list of bytes
some_words :
    (b : ℕ) (bs : List ℕ) → (w : Word) × (ws : List Word) × (words_from 0 (b ∷ bs) ≡ w ∷ ws)
some_words b bs = elim (ℕ_discrete b 0) [
  | yes e ↦ let (w, ws, q) = zeros_words 1 bs (omega arith) in (w, ws, ground (arith, q, e))
  | no n ↦ (byte b, words_from 0 bs, ground (arith, n))
]

pub last_text :
    (num value : ℕ)
    → words_text (words_from num (value ∷ []))
      ≡ byte_text (if value == 0 then num + 1 else num) value false
last_text num value = ground (
  arith,
  append_nil (word_text (zeros (num + 1))),
  append_nil (word_text (zeros num)),
  append_nil (word_text (zeros num) ++ hex_02 value),
)

pub more_text :
    (num value b : ℕ) (bs : List ℕ)
    → value ≢ 0
    → words_text (words_from num (value ∷ b ∷ bs))
      ≡ byte_text num value true ++ words_text (words_from 0 (b ∷ bs))
more_text num value b bs n =
    let (w, ws, q) = some_words b bs in
    let space : List ℕ = b' ' ∷ [] in
    let tail = words_text (w ∷ ws) in
    ground (
      arith,
      n,
      q,
      append_assoc (word_text (zeros num)) space (hex_02 value),
      append_assoc (word_text (zeros num) ++ space) (hex_02 value) space,
      append_assoc (word_text (zeros num) ++ space) (hex_02 value ++ space) tail,
      append_assoc (word_text (zeros num)) space ((hex_02 value ++ space) ++ tail),
    )
