-- ===== src/Chat/Server.antt =====
-- task13/chat/src/server.c. Each call of a handler takes the text of one message that `msgrcv`
-- has delivered, and gives the messages that it sends, as types and texts in order: a round of its
-- loop, with whether the loop ends. The loops themselves, and how the two threads alternate, are not
-- modelled. The count of
-- members online stays at 0 where the source goes below; both end the server. `none` is a fault:
-- an index of -1, or a `NULL` token that is used. A message entry has no `is_online`; it keeps
-- that of `junk`.
pub mod Entering
pub mod Leaving
pub mod Messages
use eltex_course.Base.{
  ℕ, zero, suc, ◌+◌, ◌-◌, Bool, true, false, List, [], ◌∷◌, ◌++◌, Option, none, some, ◌==◌, leb,
  if◌then◌else◌, length, get_elem?, set, take, Bytes, str_eq,
}
use eltex_course.Base.{◌>>=◌}
use eltex_course.Decimal.{atoi}
use eltex_course.Strtok.{strtok}
use eltex_course.Chat.Table.{Entry, Table, data_add, data_find}
use eltex_course.Chat.Protocol.{is_space, is_angle, member_text, message_text}

pub record Server : Type 0 where
  pub members : Table
  pub messages : Table
  pub members_online : ℕ

abbrev pub Send : Type 0
Send = ℕ × Bytes

unfoldable pub broadcast : List Entry → Bytes → List Send
broadcast [] text = []
broadcast (e ∷ es) text = (e.id, text) ∷ broadcast es text

unfoldable pub share_members : List Entry → ℕ → List Send
share_members [] pid = []
share_members (e ∷ es) pid =
    if e.is_online
    then (pid, member_text 1 e.line e.id) ∷ share_members es pid
    else share_members es pid

unfoldable pub share_messages : List Entry → ℕ → List Send
share_messages [] pid = []
share_messages (e ∷ es) pid = (pid, message_text 3 e.line e.id) ∷ share_messages es pid

abbrev pub in_use : Table → List Entry
in_use m = take m.size m.entries

unfoldable pub shair_database : Server → ℕ → List Send
shair_database s pid =
    share_members (in_use s.members) pid ++ share_messages (in_use s.messages) pid

-- Behind the branches of `members_handler`: the broadcast, and whether the loop ends.
unfoldable pub finish : Server → Bytes → List Send → Server × List Send × Bool
finish s text sent = (
  if leb s.members_online 0 then record s { members = record (s.members) { size = 0 } } else s,
  sent ++ broadcast (in_use s.members) text,
  leb s.members_online 0,
)

-- `members.data[data_find(&members, id)].is_online = 0`
unfoldable pub set_offline : Table → ℕ → Option Table
set_offline m id = do
  i ← data_find m id
  e ← get_elem? m.entries i
  some (record m { entries = set m.entries i (record e { is_online = false }) })

unfoldable pub leave : Server → Bytes → Option (Server × List Send)
leave s rest = do
  (name, rest) ← strtok is_space rest
  (id, rest) ← strtok is_space rest
  members ← set_offline s.members (atoi id)
  some (record s { members = members; members_online = s.members_online - 1 }, [])

unfoldable pub enter : Entry → Server → Bytes → Option (Server × List Send)
enter junk s rest = do
  (name, rest) ← strtok is_space rest
  (id, rest) ← strtok is_space rest
  members ← data_add junk s.members (record { line = name; id = atoi id; is_online = true })
  some (
    record s { members = members; members_online = s.members_online + 1 },
    shair_database s (atoi id),
  )

-- One round of `members_handler`; the last part says whether the loop ends.
unfoldable pub members_handler : Entry → Server → Bytes → Option (Server × List Send × Bool)
members_handler junk s text = do
  (token, rest) ← strtok is_space text
  (s, sent) ← (if str_eq token (48 ∷ []) then leave s rest else enter junk s rest)
  some (finish s text sent)

unfoldable pub record_message : Entry → Server → Bytes → Option Server
record_message junk s rest = do
  (line, rest) ← strtok is_angle rest
  (id, rest) ← strtok is_space rest
  messages ← data_add junk s.messages (record junk { line = line; id = atoi id })
  some (record s { messages = messages })

-- One round of `message_hendler`.
unfoldable pub message_hendler : Entry → Server → Bytes → Option (Server × List Send × Bool)
message_hendler junk s text = do
  (token, rest) ← strtok is_space text
  if str_eq token (52 ∷ [])
      then some (s, [], leb s.members.size 0)
      else (record_message junk s rest >>= λ s'.
          some (s', broadcast (in_use s.members) text, false))
