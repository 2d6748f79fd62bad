-- ===== src/Tty/Debug/Room.antt =====
-- A text in the room behind a cursor of linux/tty.c: what fits, and a zero behind it.
use modbus_c.Prelude.{
  ℕ, suc, ◌-◌, ◌≤◌, ◌<◌, ◌≡◌, refl, ap, ap₂, ◌∙◌, List, [], ◌∷◌, ◌++◌, length, length-append, take,
  drop, done, arith,
}
use modbus_c.Prelude.Behind.{append_assoc, append_nil}
use modbus_c.Master.Requests.{memcpy_behind}
use modbus_c.Tty.Debug.{Cursor, snprintf, min, print}

-- What a text leaves in the room before the cursor, and behind it.
abbrev pub taken : List ℕ → List ℕ → List ℕ
taken [] text = []
taken (x ∷ xs) [] = []
taken (x ∷ []) (c ∷ text) = 0 ∷ []
taken (x ∷ y ∷ xs) (c ∷ text) = c ∷ taken (y ∷ xs) text

abbrev pub left : List ℕ → List ℕ → List ℕ
left [] text = []
left (x ∷ xs) [] = 0 ∷ xs
left (x ∷ []) (c ∷ text) = []
left (x ∷ y ∷ xs) (c ∷ text) = left (y ∷ xs) text

taken-left : (room s t : List ℕ) → taken room s ++ taken (left room s) t ≡ taken room (s ++ t)
taken-left [] s t = refl
taken-left (x ∷ []) [] [] = refl
taken-left (x ∷ []) [] (c ∷ t) = refl
taken-left (x ∷ y ∷ xs) [] [] = refl
taken-left (x ∷ y ∷ xs) [] (c ∷ t) = refl
taken-left (x ∷ []) (b ∷ s) t = refl
taken-left (x ∷ y ∷ xs) (b ∷ s) t = ap (λ l. b ∷ l) (taken-left (y ∷ xs) s t)

left-left : (room s t : List ℕ) → left (left room s) t ≡ left room (s ++ t)
left-left [] s t = refl
left-left (x ∷ []) [] [] = refl
left-left (x ∷ []) [] (c ∷ t) = refl
left-left (x ∷ y ∷ xs) [] [] = refl
left-left (x ∷ y ∷ xs) [] (c ∷ t) = refl
left-left (x ∷ []) (b ∷ s) t = refl
left-left (x ∷ y ∷ xs) (b ∷ s) t = left-left (y ∷ xs) s t

pub taken_all : (room text : List ℕ) → length text < length room → taken room text ≡ text
taken_all [] text h = absurd (omega arith)
taken_all (x ∷ xs) [] h = refl
taken_all (x ∷ []) (c ∷ text) h = absurd (omega arith)
taken_all (x ∷ y ∷ xs) (c ∷ text) h = ap (λ l. c ∷ l) (taken_all (y ∷ xs) text (omega arith))

pub left_all :
    (room text : List ℕ)
    → length text < length room
    → left room text ≡ 0 ∷ drop (suc (length text)) room
left_all [] text h = absurd (omega arith)
left_all (x ∷ xs) [] h = refl
left_all (x ∷ []) (c ∷ text) h = absurd (omega arith)
left_all (x ∷ y ∷ xs) (c ∷ text) h = left_all (y ∷ xs) text (omega arith)

-- the text with a zero in the last byte of the room
abbrev pub cut : List ℕ → List ℕ → List ℕ
cut [] text = []
cut (x ∷ xs) text = take (length xs) text ++ 0 ∷ []

pub taken-cut : (room text : List ℕ) → length room ≤ length text → taken room text ≡ cut room text
taken-cut [] text h = refl
taken-cut (x ∷ xs) [] h = absurd (omega arith)
taken-cut (x ∷ []) (c ∷ text) h = refl
taken-cut (x ∷ y ∷ xs) (c ∷ text) h = ap (λ l. c ∷ l) (taken-cut (y ∷ xs) text (omega arith))

pub left_cut : (room text : List ℕ) → length room ≤ length text → left room text ≡ []
left_cut [] text h = refl
left_cut (x ∷ xs) [] h = absurd (omega arith)
left_cut (x ∷ []) (c ∷ text) h = refl
left_cut (x ∷ y ∷ xs) (c ∷ text) h = left_cut (y ∷ xs) text (omega arith)

-- the cursor behind a prefix, with a room behind it, and behind a text in that room
abbrev pub at : List ℕ → List ℕ → Cursor
at pre room = record { buf = pre ++ room; dst = length pre }

abbrev pub behind : List ℕ → List ℕ → List ℕ → Cursor
behind pre room text = at (pre ++ taken room text) (left room text)

pub length-taken : (room text : List ℕ) → length (taken room text) ≡ min (length text) (length room)
length-taken [] [] = refl
length-taken [] (c ∷ text) = ground arith
length-taken (x ∷ xs) [] = ground arith
length-taken (x ∷ []) (c ∷ text) = ground arith
length-taken (x ∷ y ∷ xs) (c ∷ text) = ground (arith, length-taken (y ∷ xs) text)

-- what `snprintf` copies
written :
    (x : ℕ) (xs text : List ℕ)
    → let copied = take (length xs) text ++ 0 ∷ [] in
      (copied ++ drop (length copied) (x ∷ xs) ≡ taken (x ∷ xs) text ++ left (x ∷ xs) text)
      × (length copied ≤ length (x ∷ xs))
written x [] [] = (refl, omega arith)
written x (y ∷ xs) [] = (refl, omega arith)
written x [] (c ∷ text) = (refl, omega arith)
written x (y ∷ xs) (c ∷ text) =
    let (same, fits) = written y xs text in (ap (λ l. c ∷ l) same, omega (arith, fits))

room_of : (pre room : List ℕ) → length (pre ++ room) - length pre ≡ length room
room_of pre room = omega (arith, length-append {0} pre room)

pub print-behind : (pre room text : List ℕ) → print (at pre room) text ≡ done (behind pre room text)
unfolding print snprintf
print-behind pre [] text = ground (arith, room_of pre [], append_nil pre, length-append pre [])
print-behind pre (x ∷ xs) text =
    let copied = take (length xs) text ++ 0 ∷ [] in
    ground (
      arith,
      room_of pre (x ∷ xs),
      memcpy_behind pre copied (x ∷ xs) (written x xs text).1,
      (written x xs text).0,
      append_assoc pre (taken (x ∷ xs) text) (left (x ∷ xs) text),
      length-append pre (taken (x ∷ xs) text),
      length-taken (x ∷ xs) text,
    )

behind-behind :
    (pre room s t : List ℕ)
    → behind (pre ++ taken room s) (left room s) t ≡ behind pre room (s ++ t)
behind-behind pre room s t =
    ap₂ at
      (append_assoc pre (taken room s) (taken (left room s) t)
        ∙ ap (λ l. pre ++ l) (taken-left room s t))
      (left-left room s t)

pub print_on :
    (pre room s t : List ℕ) → print (behind pre room s) t ≡ done (behind pre room (s ++ t))
print_on pre room s t =
    print-behind (pre ++ taken room s) (left room s) t ∙ ap done (behind-behind pre room s t)
