-- ===== src/Chat/Keyboard/Sending.antt =====
-- What a session sends, against the lines that are typed.
use eltex_course.Base.{
  ℕ, ◌+◌, ◌-◌, ◌%◌, ◌≡◌, ◌≤◌, refl, Bool, true, false, Bool-cases, inl, inr, List, [], ◌∷◌, ◌++◌,
  Option, none, some, ◌==◌, ltb, lt→ltb, ltb→lt, if◌then◌else◌, length, map, Bytes, str_eq, c_str,
  arith, length-append, length-take, length-snoc,
}
use eltex_course.Decimal.{decimal}
use eltex_course.Chat.Protocol.{member_text, message_text, send_message}
use eltex_course.Chat.Keyboard.{send_lines, farewell, session}
use eltex_course.Chat.Keyboard.Editing.{
  IsInput, erases, exit_word, edited, lines_of, type_keys-lines_of,
}

-- Each line has 255 bytes at most.
abbrev pub AllShort : List Bytes → Type 0
AllShort [] = Unit {0}
AllShort (line ∷ lines) = (length line ≤ 255) × AllShort lines

c_str_le : (xs : Bytes) → length (c_str xs) ≤ length xs
unfolding c_str
c_str_le [] = omega arith
c_str_le (x ∷ xs) = ground (arith, c_str_le xs)

edited_le :
    (key_backspace : ℕ) (text : Bytes) (ch : ℕ)
    → length text ≤ 255
    → length (edited key_backspace text ch) ≤ 255
edited_le key_backspace text ch h = elim (Bool-cases (erases key_backspace ch)) [
  | inl back ↦ rw back (omega (arith, h, length-take (length text - 1) text))
  | inr other ↦ elim (Bool-cases (ltb (length text) 255)) [
    | inl room ↦
        rw (other, room) (omega (arith, length-snoc text (ch % 256), ltb→lt (length text) 255 room))
    | inr full ↦ rw (other, full) h
  ]
]

pub lines_of-AllShort :
    (key_backspace : ℕ) (text : Bytes) (keys : List ℕ)
    → length text ≤ 255
    → AllShort (lines_of key_backspace text keys).0
lines_of-AllShort key_backspace text [] h = tt
lines_of-AllShort key_backspace text (ch ∷ chs) h = elim (Bool-cases (ch == 10)) [
  | inl end ↦ elim (Bool-cases (str_eq (c_str text) exit_word)) [
    | inl over ↦ rw (end, over) tt
    | inr on ↦
        rw (end, on)
          (omega (arith, h, c_str_le text), lines_of-AllShort key_backspace [] chs (omega arith))
  ]
  | inr key ↦ rw key (
      lines_of-AllShort key_backspace (edited key_backspace text ch) chs
        (edited_le key_backspace text ch h))
]

pub send_lines-map {ℓ} :
    {M : Type ℓ}
    → (send : Bytes → Option M) (f : Bytes → M) (lines : List Bytes)
    → ((line : Bytes) → length line ≤ 255 → send line ≡ some (f line))
    → AllShort lines
    → send_lines send lines ≡ some (map f lines)
unfolding send_lines
send_lines-map send f [] h a = refl
send_lines-map send f (line ∷ lines) h a = rw (h line a.0, send_lines-map send f lines h a.1) refl

-- A text "c line_pid" of the chat.
abbrev pub spelled : ℕ → Bytes → ℕ → ℕ → Bytes
spelled digit line mark pid = digit ∷ 32 ∷ (line ++ mark ∷ decimal pid)

pub length-spelled :
    (digit : ℕ) (line : Bytes) (mark pid : ℕ)
    → length (spelled digit line mark pid) ≡ length line + length (decimal pid) + 3
length-spelled digit line mark pid = omega (arith, length-append line (mark ∷ decimal pid))

-- The five forms of a message.
module _ (pid : ℕ) (line : Bytes) (room : length line + length (decimal pid) ≤ 996) where
  pub fits : (digit mark : ℕ) → ltb (length (spelled digit line mark pid)) 1000 ≡ true
  fits digit mark =
      lt→ltb (length (spelled digit line mark pid)) 1000
        (omega (arith, room, length-spelled digit line mark pid))

  send_hello : send_message pid line 1 1 ≡ some (1, spelled 49 line 32 pid)
  unfolding send_message member_text decimal
  send_hello = rw (fits 49 32) refl

  send_line : send_message pid line 2 3 ≡ some (2, spelled 51 line 62 pid)
  unfolding send_message message_text decimal
  send_line = rw (fits 51 62) refl

  send_self : (pid == 2) ≡ false → send_message pid line pid 3 ≡ some (pid, spelled 51 line 32 pid)
  unfolding send_message member_text decimal
  send_self other = rw other (rw (fits 51 32) refl)

  send_gone : send_message pid line 1 0 ≡ some (1, spelled 48 line 32 pid)
  unfolding send_message member_text decimal
  send_gone = rw (fits 48 32) refl

  send_end : send_message pid line 2 4 ≡ some (2, spelled 52 line 62 pid)
  unfolding send_message message_text decimal
  send_end = rw (fits 52 62) refl

-- What a session is to send up to "!exit", and from it on.
abbrev pub spoken : ℕ → Bytes → List Bytes → List (ℕ × Bytes)
spoken pid name lines =
    (1, spelled 49 name 32 pid) ∷ map (λ line. (2, spelled 51 line 62 pid)) lines

abbrev pub parting : ℕ → Bytes → List (ℕ × Bytes)
parting pid name =
    (pid, spelled 51 exit_word 32 pid)
    ∷ (1, spelled 48 name 32 pid)
    ∷ (2, spelled 52 name 62 pid)
    ∷ []

farewell-parting :
    (pid : ℕ) (name : Bytes) (res_is_address : Bool)
    → length name + length (decimal pid) ≤ 996
    → length (decimal pid) ≤ 10
    → (pid == 2) ≡ false
    → farewell pid name res_is_address ≡ (if res_is_address then some (parting pid name) else none)
unfolding farewell
farewell-parting pid name res_is_address room short other =
    rw (send_self pid exit_word (omega (arith, short)) other, send_end pid name room)
      (elim (Bool-cases res_is_address) [
        | inl good ↦ rw good (rw (send_gone pid name room) refl)
        | inr bad ↦ rw bad refl
      ])

-- Whatever is typed, no write leaves the 256 bytes of `line`. Where the threads end by `exit_flag`, the
-- process id has ten digits at most and is not 2, and the name fits into a message, a session sends
-- "1 name pid", then "3 line>pid" to all for each line that the keys enter; at "!exit" it sends "3 !exit pid"
-- to itself, and if `res` holds an address by chance "0 name pid" and "4 name>pid", and faults otherwise.
pub session-lines_of :
    (key_backspace pid : ℕ) (name junk : List ℕ) (res_is_address : Bool) (keys : List ℕ)
    → length junk ≡ 256
    → length name + length (decimal pid) ≤ 996
    → length (decimal pid) ≤ 10
    → (pid == 2) ≡ false
    → session key_backspace pid name junk res_is_address keys ≡ (
        if (lines_of key_backspace [] keys).1
        then if res_is_address
          then some (spoken pid name (lines_of key_backspace [] keys).0 ++ parting pid name)
          else none
        else some (spoken pid name (lines_of key_backspace [] keys).0 ++ []))
unfolding session
session-lines_of key_backspace pid name junk res_is_address keys l room short other =
    let h : IsInput (record { line = junk; pos = 0 }) [] = record {
      rest = junk;
      split = refl;
      pos = refl;
      bound = omega arith;
      size = l;
    } in
    let lines = (lines_of key_backspace [] keys).0 in
    let said =
      send_lines-map (λ line. send_message pid line 2 3) (λ line. (2, spelled 51 line 62 pid)) lines
        (λ line b. send_line pid line (omega (arith, b, short)))
        (lines_of-AllShort key_backspace [] keys (omega arith)) in
    rw
      (
        send_hello pid name room,
        type_keys-lines_of key_backspace (record { line = junk; pos = 0 }) [] keys h,
        said,
        farewell-parting pid name res_is_address room short other,
      )
      (elim (Bool-cases (lines_of key_backspace [] keys).1) [
        | inl over ↦
            rw over
              (elim (Bool-cases res_is_address) [ inl good ↦ rw good refl | inr bad ↦ rw bad refl ])
        | inr on ↦ rw on refl
      ])
