-- ===== src/Chat/Keyboard/Editing.antt =====
-- The typed line against a text that is edited at its end.
use eltex_course.Base.{
  ◌||◌, ℕ, zero, suc, ◌+◌, ◌-◌, ◌%◌, ◌≡◌, ◌≤◌, ◌<◌, refl, sym, ap, ◌∙◌, Bool, true, false,
  Bool-cases, inl, inr, List, [], ◌∷◌, ◌++◌, some, ◌==◌, ltb, lt→ltb, ltb→lt, if◌then◌else◌, length,
  take, drop, Bytes, str_eq, c_str, ◌>>=◌, arith, set-length, length-append, length-take,
  append_assoc, append-snoc, length-snoc,
}
use eltex_course.Chat.Client.{exit_text}
use eltex_course.Chat.Keyboard.{
  Input, more, put_byte, enter_line, is_backspace, press, after_key, type_keys,
}

-- The array of 256 bytes begins with the text, which has 255 bytes at most.
pub record IsInput (s : Input) (text : Bytes) : Type 0 where
  pub rest : List ℕ
  pub split : s.line ≡ text ++ rest
  pub pos : s.pos ≡ length text
  pub bound : length text ≤ 255
  pub size : length s.line ≡ 256

-- The key of ncurses, and the two codes of a backspace.
abbrev pub erases : ℕ → ℕ → Bool
erases key_backspace ch = ch == key_backspace || (ch == 127 || ch == 8)

-- "!exit"
abbrev pub exit_word : Bytes
exit_word = 33 ∷ 101 ∷ 120 ∷ 105 ∷ 116 ∷ []

-- A key that ends no line: a backspace takes the last byte, another key adds one, unless 255 are
-- there.
abbrev pub edited : ℕ → Bytes → ℕ → Bytes
edited key_backspace text ch =
    if erases key_backspace ch
    then take (length text - 1) text
    else if ltb (length text) 255
    then text ++ ch % 256 ∷ []
    else text

-- The lines that the keys enter, where `text` is typed already.
abbrev pub lines_of : ℕ → Bytes → List ℕ → List Bytes × Bool
lines_of key_backspace text [] = ([], false)
lines_of key_backspace text (ch ∷ chs) =
    let later = lines_of key_backspace [] chs in
    let on = lines_of key_backspace (edited key_backspace text ch) chs in
    if ch == 10
    then if str_eq (c_str text) exit_word then ([], true) else (c_str text ∷ later.0, later.1)
    else on

take-drop : (n : ℕ) (xs : Bytes) → take n xs ++ drop n xs ≡ xs
take-drop zero xs = refl
take-drop (suc n) [] = refl
take-drop (suc n) (x ∷ xs) = ap (◌∷◌ x) (take-drop n xs)

c_str-zero : (xs ys : Bytes) → c_str (xs ++ 0 ∷ ys) ≡ c_str xs
unfolding c_str
c_str-zero [] ys = refl
c_str-zero (x ∷ xs) ys = ground (arith, c_str-zero xs ys)

-- There is a place behind the text.
place-behind :
    (line text rest : List ℕ)
    → line ≡ text ++ rest
    → length line ≡ 256
    → length text ≤ 255
    → (c : ℕ) × (rest' : List ℕ) × (rest ≡ c ∷ rest')
place-behind line text [] e l b = absurd (omega (arith, ap length e, length-append text [], l))
place-behind line text (c ∷ rest) e l b = (c, rest, refl)

put_byte-IsInput :
    (s : Input) (text : Bytes) (ch : ℕ)
    → IsInput s text
    → (rest : List ℕ) × (put_byte s ch ≡ some (text ++ ch % 256 ∷ rest))
      × (length (text ++ ch % 256 ∷ rest) ≡ 256)
unfolding put_byte
put_byte-IsInput s text ch h =
    let (c, rest, e) = place-behind s.line text h.rest h.split h.size h.bound in
    let all : s.line ≡ text ++ c ∷ rest = h.split ∙ ap (◌++◌ text) e in
    let long : length (text ++ c ∷ rest) ≡ 256 = ap length (sym all) ∙ h.size in
    (
      rest,
      rw
          (
            lt→ltb s.pos (length s.line) (omega (arith, h.pos, h.size, h.bound)),
            all,
            h.pos,
            set-length text c (ch % 256) rest,
          )
          refl,
      omega (arith, long, length-append text (c ∷ rest), length-append text (ch % 256 ∷ rest)),
    )

after_enter :
    (key_backspace : ℕ) (s : Input) (text : Bytes) (chs : List ℕ)
    → IsInput s text
    → ((s' : Input)
        → IsInput s' []
        → type_keys key_backspace s' chs ≡ some (lines_of key_backspace [] chs))
    → (enter_line s >>= λ t. after_key key_backspace t (λ s'. type_keys key_backspace s' chs))
      ≡ some (
          if str_eq (c_str text) exit_text
          then ([], true)
          else (c_str text ∷ (lines_of key_backspace [] chs).0, (lines_of key_backspace [] chs).1))
unfolding enter_line after_key
after_enter key_backspace s text chs h next =
    let (rest, e, l) = put_byte-IsInput s text 0 h in
    let s' : Input = record { line = text ++ 0 ∷ rest; pos = 0 } in
    let fresh : IsInput s' [] = record {
      rest = s'.line;
      split = refl;
      pos = refl;
      bound = omega arith;
      size = l;
    } in
    rw (e, c_str-zero text rest)
      (elim (Bool-cases (str_eq (c_str text) exit_text)) [
        | inl yes_exit ↦ rw yes_exit refl
        | inr no_exit ↦ rw no_exit (rw (next s' fresh) refl)
      ])

take_none : (text : Bytes) → length text ≡ 0 → take (length text - 1) text ≡ text
take_none [] e = refl
take_none (x ∷ text) e = absurd (omega arith)

backspace-IsInput :
    (s : Input) (text : Bytes)
    → IsInput s text
    → IsInput
        (if ltb 0 s.pos then record s { pos = s.pos - 1 } else s)
        (take (length text - 1) text)
backspace-IsInput s text h =
    let k = length text - 1 in
    let size = length-take k text in
    elim (Bool-cases (ltb 0 s.pos)) [
      | inl some_byte ↦ rw some_byte (record {
        rest = drop k text ++ h.rest;
        split =
            h.split
            ∙ ap (λ t. t ++ h.rest) (sym (take-drop k text))
            ∙ append_assoc (take k text) (drop k text) h.rest;
        pos = omega (arith, h.pos, size);
        bound = omega (arith, h.bound, size);
        size = h.size;
      })
      | inr no_byte ↦ simp (no_byte) (rw (take_none text (ground (arith, h.pos))) h)
    ]

typed-IsInput :
    (s : Input) (text : Bytes) (ch : ℕ) (rest : List ℕ)
    → IsInput s text
    → length text < 255
    → length (text ++ ch % 256 ∷ rest) ≡ 256
    → IsInput (record { line = text ++ ch % 256 ∷ rest; pos = s.pos + 1 }) (text ++ ch % 256 ∷ [])
typed-IsInput s text ch rest h b l = record {
  rest = rest;
  split = sym (append-snoc text (ch % 256) rest);
  pos = omega (arith, h.pos, length-snoc text (ch % 256));
  bound = omega (arith, b, length-snoc text (ch % 256));
  size = l;
}

-- A key that is not the end of a line.
press-edited :
    (key_backspace : ℕ) (s : Input) (text : Bytes) (ch : ℕ)
    → IsInput s text
    → (ch == 10) ≡ false
    → (g : Input) × (press key_backspace s ch ≡ some (more g))
      × IsInput g (edited key_backspace text ch)
unfolding press is_backspace
press-edited key_backspace s text ch h n =
    let same : ltb s.pos 255 ≡ ltb (length text) 255 = ap (λ k. ltb k 255) h.pos in
    elim (Bool-cases (erases key_backspace ch)) [
      | inl back ↦ rw (n, back) (_, refl, backspace-IsInput s text h)
      | inr other ↦ elim (Bool-cases (ltb (length text) 255)) [
        | inl room ↦
            let (rest, e, l) = put_byte-IsInput s text ch h in
            simp (n, other, room, same, e)
              (_, refl, typed-IsInput s text ch rest h (ltb→lt (length text) 255 room) l)
        | inr full ↦ simp (n, other, full, same) (s, refl, h)
      ]
    ]

press-enter :
    (key_backspace : ℕ) (s : Input) (ch : ℕ)
    → (ch == 10) ≡ true
    → press key_backspace s ch ≡ enter_line s
unfolding press
press-enter key_backspace s ch e = rw e refl

-- Whatever is typed, no write leaves the array of 256 bytes, and the lines that are entered are those
-- of a text that is edited at its end and takes 255 bytes at most; after "!exit" nothing is read.
pub type_keys-lines_of :
    (key_backspace : ℕ) (s : Input) (text : Bytes) (chs : List ℕ)
    → IsInput s text
    → type_keys key_backspace s chs ≡ some (lines_of key_backspace text chs)
unfolding type_keys after_key
type_keys-lines_of key_backspace s text [] h = refl
type_keys-lines_of key_backspace s text (ch ∷ chs) h = elim (Bool-cases (ch == 10)) [
  | inl end ↦
      rw (end, press-enter key_backspace s ch end)
        (after_enter key_backspace s text chs h
          (λ s' f. type_keys-lines_of key_backspace s' [] chs f))
  | inr n ↦
      let (g, e, i) = press-edited key_backspace s text ch h n in
      rw (n, e) (type_keys-lines_of key_backspace g (edited key_backspace text ch) chs i)
]
