-- ===== src/SharedChat/Client/Sending.antt =====
-- What a session over shared memory sends, against the lines that are typed.
use eltex_course.Base.{
  ℕ, ◌+◌, ◌≡◌, ◌≤◌, refl, Bool, true, false, Bool-cases, inl, inr, List, [], ◌∷◌, ◌++◌, none, some,
  leb, if◌then◌else◌, length, map, Bytes, arith,
}
use eltex_course.Decimal.{decimal}
use eltex_course.Chat.Protocol.{member_text, message_text}
use eltex_course.Chat.Keyboard.Editing.{IsInput, exit_word, lines_of, type_keys-lines_of}
use eltex_course.Chat.Keyboard.Sending.{spelled, fits, send_lines-map, lines_of-AllShort}
use eltex_course.SharedChat.Server.{Message}
use eltex_course.SharedChat.Client.{send_message, farewell, session}

-- A text for `shm[0]`, with its type.
abbrev pub first_text : ℕ → Bytes → Message × Bool
first_text mtype text = (record { mtype = mtype; mtext = text }, true)

-- What a session is to send up to "!exit", and from it on.
abbrev pub spoken : ℕ → Bytes → List Bytes → List (Message × Bool)
spoken pid name lines =
    first_text 1 (spelled 49 name 32 pid)
    ∷ map (λ line. first_text 2 (spelled 51 line 62 pid)) lines

abbrev pub parting : ℕ → Bytes → List (Message × Bool)
parting pid name =
    (record { mtype = pid; mtext = spelled 51 exit_word 62 pid }, false)
    ∷ first_text 1 (spelled 48 name 32 pid)
    ∷ first_text 2 (spelled 52 name 62 pid)
    ∷ []

module _ (pid : ℕ) (line : Bytes) (room : length line + length (decimal pid) ≤ 996) where
  send_hello : send_message pid line 1 1 ≡ some (first_text 1 (spelled 49 line 32 pid))
  unfolding send_message member_text decimal
  send_hello = rw (fits pid line room 49 32) refl

  send_line : send_message pid line 2 3 ≡ some (first_text 2 (spelled 51 line 62 pid))
  unfolding send_message message_text decimal
  send_line = rw (fits pid line room 51 62) refl

  send_all :
      leb pid 2 ≡ false
      → send_message pid line pid 3
        ≡ some (record { mtype = pid; mtext = spelled 51 line 62 pid }, false)
  unfolding send_message message_text decimal
  send_all big = rw (fits pid line room 51 62, big) refl

  send_gone : send_message pid line 1 0 ≡ some (first_text 1 (spelled 48 line 32 pid))
  unfolding send_message member_text decimal
  send_gone = rw (fits pid line room 48 32) refl

  send_end : send_message pid line 2 4 ≡ some (first_text 2 (spelled 52 line 62 pid))
  unfolding send_message message_text decimal
  send_end = rw (fits pid line room 52 62) refl

farewell-parting :
    (pid : ℕ) (name : Bytes) (res_is_address : Bool)
    → length name + length (decimal pid) ≤ 996
    → length (decimal pid) ≤ 10
    → leb pid 2 ≡ false
    → farewell pid name res_is_address ≡ (if res_is_address then some (parting pid name) else none)
unfolding farewell
farewell-parting pid name res_is_address room short big =
    rw (send_all pid exit_word (omega (arith, short)) big, send_end pid name room)
      (elim (Bool-cases res_is_address) [
        | inl good ↦ rw good (rw (send_gone pid name room) refl)
        | inr bad ↦ rw bad refl
      ])

-- Whatever is typed, no write leaves the 256 bytes of `line`. Where the threads end by `exit_flag`, the
-- process id is more than 2 and has ten digits at most, and the name fits into a message, a session puts
-- "1 name pid" into `shm[0]`, then "3 line>pid" for each line that the keys enter, and at "!exit"
-- "3 !exit>pid" into `shm[1]`; then, if `res` holds an address by chance, "0 name pid" and "4 name>pid" into
-- `shm[0]`, and it faults otherwise.
pub session-sent :
    (key_backspace pid : ℕ) (name junk : List ℕ) (res_is_address : Bool) (keys : List ℕ)
    → length junk ≡ 256
    → length name + length (decimal pid) ≤ 996
    → length (decimal pid) ≤ 10
    → leb pid 2 ≡ false
    → session key_backspace pid name junk res_is_address keys ≡ (
        if (lines_of key_backspace [] keys).1
        then if res_is_address
          then some (spoken pid name (lines_of key_backspace [] keys).0 ++ parting pid name)
          else none
        else some (spoken pid name (lines_of key_backspace [] keys).0 ++ []))
unfolding session
session-sent key_backspace pid name junk res_is_address keys l room short big =
    let h : IsInput (record { line = junk; pos = 0 }) [] = record {
      rest = junk;
      split = refl;
      pos = refl;
      bound = omega arith;
      size = l;
    } in
    let said =
      send_lines-map (λ line. send_message pid line 2 3)
        (λ line. first_text 2 (spelled 51 line 62 pid)) (lines_of key_backspace [] keys).0
        (λ line b. send_line pid line (omega (arith, b, short)))
        (lines_of-AllShort key_backspace [] keys (omega arith)) in
    rw
      (
        send_hello pid name room,
        type_keys-lines_of key_backspace (record { line = junk; pos = 0 }) [] keys h,
        said,
        farewell-parting pid name res_is_address room short big,
      )
      (elim (Bool-cases (lines_of key_backspace [] keys).1) [
        | inl over ↦
            rw over
              (elim (Bool-cases res_is_address) [ inl good ↦ rw good refl | inr bad ↦ rw bad refl ])
        | inr on ↦ rw on refl
      ])
