-- ===== src/Chat/Tests.antt =====
-- The chat at a concrete server with two members, one online, and one message.
use eltex_course.Base.{
  ◌++◌, ℕ, List, replicate, if◌then◌else◌, ◌≡◌, ◌≤◌, ◌+◌, length, refl, true, false, [], ◌∷◌, none,
  some, Bytes, str_eq, arith,
}
use eltex_course.Chat.Table.{Entry, Table, data_delete}
use eltex_course.Chat.Table.Laws.{IsTable}
use eltex_course.Chat.Table.Deleting.{data_delete-Missing}
use eltex_course.Chat.Protocol.{member_text, message_text}
use eltex_course.Chat.Protocol.Laws.{IsName, IsLine}
use eltex_course.Chat.Server.{Server, members_handler, message_hendler, shair_database}
use eltex_course.Chat.Server.Entering.{IsServer, member, welcome, told, members_handler-enter}
use eltex_course.Chat.Server.Leaving.{off, members_handler-leave, members_handler-leave_last}
use eltex_course.Chat.Server.Messages.{said, message_hendler-line, message_hendler_empty_line}
use eltex_course.Chat.Client.{receive_all}
use eltex_course.Chat.Client.{Client, refresh_handler, exit_text}
use eltex_course.Chat.Client.Showing.{refresh_handler_departed}
use eltex_course.Chat.Keyboard.{session}
use eltex_course.Chat.Keyboard.Editing.{lines_of}
use eltex_course.Chat.Keyboard.Sending.{spoken, parting, session-lines_of}
use eltex_course.Decimal.{decimal}
use eltex_course.Chat.Client.Joining.{
  IsClient, IsSaid, texts, fresh_client, receive_all-shair_database,
}

abbrev junk : Entry
junk = record { line = []; id = 0; is_online = true }

abbrev ann : Entry
ann = member (97 ∷ []) 41

abbrev bob : Entry
bob = off (member (98 ∷ []) 42)

-- "hi you"
abbrev hi : Bytes
hi = 104 ∷ 105 ∷ 32 ∷ 121 ∷ []

abbrev greeting : Entry
greeting = said junk hi 42

abbrev table : Table
table = record { size = 2; capacity = 2; entries = ann ∷ bob ∷ [] }

table-IsTable : IsTable table (ann ∷ bob ∷ [])
table-IsTable = record {
  rest = [];
  split = refl;
  size = refl;
  capacity = refl;
  some_room = omega arith;
}

abbrev server : Server
server = record {
  members = table;
  messages = record { size = 1; capacity = 1; entries = greeting ∷ [] };
  members_online = 1;
}

server-IsServer : IsServer server (ann ∷ bob ∷ []) (greeting ∷ [])
server-IsServer = record {
  members = table-IsTable;
  messages = record {
    rest = [];
    split = refl;
    size = refl;
    capacity = refl;
    some_room = omega arith;
  };
}

-- Two are online.
abbrev busy_server : Server
busy_server = record server { members_online = 2 }

busy_server-IsServer : IsServer busy_server (ann ∷ bob ∷ []) (greeting ∷ [])
busy_server-IsServer = record {
  members = server-IsServer.members;
  messages = server-IsServer.messages;
}

cat-IsName : IsName (99 ∷ [])
cat-IsName = record { solid = (refl, tt); some_bytes = omega arith }

hi-IsLine : IsLine hi
hi-IsLine = record { solid = (refl, (refl, (refl, (refl, tt)))); some_bytes = omega arith }

hi-IsSaid : IsSaid hi
unfolding str_eq
hi-IsSaid = record { is_line = hi-IsLine; no_exit = refl }

members_handler-enter_example :
    (g : Server) × (members_handler junk server (member_text 1 (99 ∷ []) 7)
      ≡ some (g, welcome (ann ∷ bob ∷ []) (greeting ∷ []) (99 ∷ []) 7, false))
    × IsServer g (ann ∷ bob ∷ member (99 ∷ []) 7 ∷ []) (greeting ∷ [])
    × (g.members_online ≡ 2)
members_handler-enter_example =
    members_handler-enter junk server (ann ∷ bob ∷ []) (greeting ∷ []) (99 ∷ []) 7 server-IsServer
      cat-IsName

members_handler-leave_example :
    (g : Server) × (members_handler junk busy_server (member_text 0 (97 ∷ []) 41)
      ≡ some (g, told (off ann ∷ bob ∷ []) (member_text 0 (97 ∷ []) 41), false))
    × IsServer g (off ann ∷ bob ∷ []) (greeting ∷ [])
    × (g.members_online ≡ 1)
members_handler-leave_example =
    members_handler-leave junk busy_server [] (bob ∷ []) (greeting ∷ []) ann (97 ∷ [])
      busy_server-IsServer tt (record { solid = (refl, tt); some_bytes = omega arith })
      (omega arith)

members_handler-leave_last_example :
    (g : Server) × (members_handler junk server (member_text 0 (97 ∷ []) 41)
      ≡ some (g, told (off ann ∷ bob ∷ []) (member_text 0 (97 ∷ []) 41), true))
    × (g.members.size ≡ 0)
    × (message_hendler junk g (message_text 4 (97 ∷ []) 41) ≡ some (g, [], true))
    × (message_hendler junk server (message_text 4 (97 ∷ []) 41) ≡ some (server, [], false))
members_handler-leave_last_example =
    members_handler-leave_last junk server [] (bob ∷ []) (greeting ∷ []) ann (97 ∷ [])
      server-IsServer tt (record { solid = (refl, tt); some_bytes = omega arith }) (omega arith)

message_hendler-line_example :
    (g : Server) × (message_hendler junk server (message_text 3 hi 41)
      ≡ some (g, told (ann ∷ bob ∷ []) (message_text 3 hi 41), false))
    × IsServer g (ann ∷ bob ∷ []) (greeting ∷ said junk hi 41 ∷ [])
message_hendler-line_example =
    message_hendler-line junk server (ann ∷ bob ∷ []) (greeting ∷ []) hi 41 server-IsServer
      hi-IsLine

message_hendler_empty_line_example : message_hendler junk server (message_text 3 [] 41) ≡ none
message_hendler_empty_line_example = message_hendler_empty_line junk server 41

receive_all-shair_database_example :
    (g : _) × (receive_all junk (fresh_client junk) (texts (shair_database server 7)) ≡ some g)
    × IsClient g (ann ∷ []) (greeting ∷ [])
receive_all-shair_database_example =
    receive_all-shair_database junk server (ann ∷ bob ∷ []) (greeting ∷ []) 7 server-IsServer
      (
        record { solid = (refl, tt); some_bytes = omega arith },
        (record { solid = (refl, tt); some_bytes = omega arith }, tt),
      )
      (hi-IsSaid, tt)

data_delete-Missing_example : (g : Table) × (data_delete table 42 ≡ some g) × IsTable g (ann ∷ [])
data_delete-Missing_example =
    data_delete-Missing table (ann ∷ []) [] bob 42 table-IsTable (refl, tt) refl

-- The greeting is from 42, which is offline.
refresh_handler_departed_example :
    (c : Client) × (receive_all junk (fresh_client junk) (texts (shair_database server 7)) ≡ some c)
    × (refresh_handler c ≡ none)
refresh_handler_departed_example =
    refresh_handler_departed junk server (ann ∷ bob ∷ []) [] [] greeting 7 server-IsServer
      (
        record { solid = (refl, tt); some_bytes = omega arith },
        (record { solid = (refl, tt); some_bytes = omega arith }, tt),
      )
      (hi-IsSaid, tt) (refl, tt)

-- "h", a backspace, "i", the end of the line, "!exit", the end of the line.
abbrev keys : List ℕ
keys = 104 ∷ 127 ∷ 105 ∷ 10 ∷ (exit_text ++ 10 ∷ [])

name_fits : (1 + length (decimal 41) ≤ 996) × (length (decimal 41) ≤ 10)
unfolding decimal
name_fits = (omega arith, omega arith)

session-lines_of_example : session 263 41 (97 ∷ []) (replicate 256 0) true keys ≡ (
    if (lines_of 263 [] keys).1
    then if true
      then some (spoken 41 (97 ∷ []) (lines_of 263 [] keys).0 ++ parting 41 (97 ∷ []))
      else none
    else some (spoken 41 (97 ∷ []) (lines_of 263 [] keys).0 ++ []))
session-lines_of_example =
    session-lines_of 263 41 (97 ∷ []) (replicate 256 0) true keys refl name_fits.0 name_fits.1 refl
