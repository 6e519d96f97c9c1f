-- ===== src/Chat/Client.antt =====
-- task13/chat/src/client.c, `message_handler`: what a client makes of the texts that it receives.
-- `none` is a fault, as in the server; the end of the loop is `stopped`.
pub mod Joining
pub mod Showing
use eltex_course.Base.{
  ℕ, Bool, true, false, List, [], ◌∷◌, ◌++◌, Option, none, some, ◌==◌, if◌then◌else◌, Bytes, str_eq,
}
use eltex_course.Base.{◌>>=◌}
use eltex_course.Decimal.{atoi}
use eltex_course.Strtok.{strtok}
use eltex_course.Chat.Table.{Entry, Table, data_add, data_get_line}
use eltex_course.Chat.Protocol.{is_space, is_angle}
use eltex_course.Chat.Server.{in_use, set_offline}

pub record Client : Type 0 where
  pub members : Table
  pub messages : Table
  pub stopped : Bool

unfoldable pub receive_leave : Client → Bytes → Option Client
receive_leave c rest = do
  (name, rest) ← strtok is_space rest
  (id, rest) ← strtok is_space rest
  members ← set_offline c.members (atoi id)
  some (record c { members = members })

unfoldable pub receive_member : Entry → Client → Bytes → Option Client
receive_member junk c rest = do
  (name, rest) ← strtok is_space rest
  (id, rest) ← strtok is_space rest
  members ← data_add junk c.members (record { line = name; id = atoi id; is_online = true })
  some (record c { members = members })

abbrev pub exit_text : Bytes
exit_text = 33 ∷ 101 ∷ 120 ∷ 105 ∷ 116 ∷ []

unfoldable pub add_message : Entry → Client → Bytes → Bytes → Option Client
add_message junk c line rest = do
  (id, rest) ← strtok is_space rest
  messages ← data_add junk c.messages (record junk { line = line; id = atoi id })
  some (record c { messages = messages })

unfoldable pub receive_message : Entry → Client → Bytes → Option Client
receive_message junk c rest = do
  (line, rest) ← strtok is_angle rest
  if str_eq line exit_text then some (record c { stopped = true }) else add_message junk c line rest

-- One text.
unfoldable pub message_handler : Entry → Client → Bytes → Option Client
message_handler junk c text = do
  (token, rest) ← strtok is_space text
  if str_eq token (48 ∷ [])
      then receive_leave c rest
      else if str_eq token (49 ∷ [])
      then receive_member junk c rest
      else receive_message junk c rest

-- The texts of a run, in order, until the loop ends.
unfoldable pub receive_all : Entry → Client → List Bytes → Option Client
receive_all junk c [] = some c
receive_all junk c (t ∷ ts) =
    if c.stopped then some c else (message_handler junk c t >>= λ c'. receive_all junk c' ts)

-- A round of `refresh_handler`: what is printed into the window of the members, and into that of
-- the messages.
unfoldable pub shown_members : List Entry → List Bytes
shown_members [] = []
shown_members (e ∷ es) =
    if e.is_online then (e.line ++ 10 ∷ []) ∷ shown_members es else shown_members es

unfoldable pub shown_messages : Table → List Entry → Option (List Bytes)
shown_messages m [] = some []
shown_messages m (x ∷ xs) = do
  name ← data_get_line m x.id
  rest ← shown_messages m xs
  some ((60 ∷ (name ++ 62 ∷ (x.line ++ 10 ∷ []))) ∷ rest)

unfoldable pub refresh_handler : Client → Option (List Bytes × List Bytes)
refresh_handler c = do
  chat ← shown_messages c.members (in_use c.messages)
  some (shown_members (in_use c.members), chat)
