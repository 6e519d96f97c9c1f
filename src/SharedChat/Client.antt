-- ===== src/SharedChat/Client.antt =====
-- task14/chat/src/client.c: what a client makes of a text that it has read, and the texts that it
-- writes. What the code shares with task13/chat/src/client.c, statement by statement, is taken from
-- Chat.Client and Chat.Keyboard.
pub mod Sending
pub mod Going
use eltex_course.Base.{
  ℕ, zero, suc, ◌+◌, Bool, true, false, ◌&&◌, List, [], ◌∷◌, ◌++◌, Option, none, some, ◌==◌, leb,
  ltb, length, if◌then◌else◌, Bytes, str_eq, ◌>>=◌,
}
use eltex_course.Strtok.{strtok}
use eltex_course.Chat.Table.{Entry}
use eltex_course.Chat.Protocol.{is_space, is_angle, member_text, message_text}
use eltex_course.Chat.Client.{Client, exit_text, receive_leave, receive_member, add_message}
use eltex_course.Chat.Keyboard.{Input, type_keys, send_lines}
use eltex_course.SharedChat.Server.{Message}

-- The branch of the other markers; `mtype` is that of `shm[0]`.
unfoldable pub receive_message : Entry → ℕ → ℕ → Client → Bytes → Option Client
receive_message junk pid mtype c rest = do
  (line, rest) ← strtok is_angle rest
  if str_eq line exit_text && mtype == pid
      then some (record c { stopped = true })
      else add_message junk c line rest

-- A round of `message_handler` behind the copy of the text.
unfoldable pub message_handler : Entry → ℕ → ℕ → Client → Bytes → Option Client
message_handler junk pid mtype c text = do
  (token, rest) ← strtok is_space text
  if str_eq token (48 ∷ [])
      then receive_leave c rest
      else if str_eq token (49 ∷ [])
      then receive_member junk c rest
      else receive_message junk pid mtype c rest

-- The message of `send_message`, and whether it goes to `shm[0]`; `none` is a text that does not fit into
-- the 1000 bytes of `mtext`.
unfoldable pub send_message : ℕ → Bytes → ℕ → ℕ → Option (Message × Bool)
send_message pid line prio marker =
    let text = if leb 3 marker then message_text marker line pid else member_text marker line pid in
    if ltb (length text) 1000
    then some (record { mtype = prio; mtext = text }, leb prio 2)
    else none

-- From "!exit" on. `res` has no value when `pthread_join` writes through it: `res_is_address` says whether
-- it happens to hold an address that takes the writes.
unfoldable pub farewell : ℕ → Bytes → Bool → Option (List (Message × Bool))
farewell pid name res_is_address = do
  m ← send_message pid exit_text pid 3
  last ← (if res_is_address then send_message pid name 1 0 else none)
  end ← send_message pid name 2 4
  some (m ∷ last ∷ end ∷ [])

-- What `main` sends, in order. The threads of the client are taken to end by `exit_flag`.
unfoldable pub session : ℕ → ℕ → Bytes → List ℕ → Bool → List ℕ → Option (List (Message × Bool))
session key_backspace pid name junk res_is_address keys = do
  hello ← send_message pid name 1 1
  (lines, is_over) ← type_keys key_backspace (record { line = junk; pos = 0 }) keys
  said ← send_lines (λ line. send_message pid line 2 3) lines
  end ← (if is_over then farewell pid name res_is_address else some [])
  some (hello ∷ (said ++ end))
