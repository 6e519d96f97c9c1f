-- ===== src/SharedChat/Tests.antt =====
-- The chat over shared memory with two clients and a server of one member.
use eltex_course.Base.{
  ◌≡◌, ◌≤◌, ◌++◌, ◌+◌, ◌%◌, ℕ, zero, suc, refl, true, false, List, [], ◌∷◌, none, some, Bytes,
  replicate, if◌then◌else◌, length, arith,
}
use eltex_course.Decimal.{decimal}
use eltex_course.Chat.Table.{Entry}
use eltex_course.Chat.Protocol.{member_text, message_text}
use eltex_course.Chat.Protocol.Laws.{IsLine}
use eltex_course.Chat.Client.{Client, exit_text}
use eltex_course.Chat.Server.{Server}
use eltex_course.Chat.Server.Entering.{IsServer, member}
use eltex_course.Chat.Server.Leaving.{off}
use eltex_course.Chat.Server.Messages.{said}
use eltex_course.Chat.Keyboard.Editing.{lines_of}
use eltex_course.SharedChat.Board.{Reader, Board, broadcast}
use eltex_course.SharedChat.Board.Delivery.{heard_all, broadcast-heard_all}
use eltex_course.SharedChat.Board.Collision.{broadcast-Clash}
use eltex_course.SharedChat.Server.{members_handler, message_hendler}
use eltex_course.SharedChat.Server.Entering.{got, history, members_handler-heard_all}
use eltex_course.SharedChat.Server.Leaving.{members_handler-left_heard}
use eltex_course.SharedChat.Server.Lines.{message_hendler-heard_all}
use eltex_course.SharedChat.Client.{session}
use eltex_course.SharedChat.Client.Sending.{spoken, parting, session-sent}
use eltex_course.SharedChat.Exchange.{Exchange, send, members_turn, messages_turn, run}
use eltex_course.SharedChat.Exchange.Losing.{run_lost}

abbrev fresh_reader : ℕ → Reader
fresh_reader pid = record { pid = pid; inbox = [] }

abbrev board : List Reader → Board
board readers = record { mtext = []; am_i_read = replicate 50 0; posts = 0; readers = readers }

-- The clients come in turns.
abbrev alternating : ℕ → List ℕ
alternating k = k % 2 ∷ []

-- "4 hi"
abbrev text : Bytes
text = 52 ∷ 32 ∷ 104 ∷ 105 ∷ []

broadcast-heard_all_example :
    (g : Board) × (broadcast alternating 2 2 text (board (fresh_reader 41 ∷ fresh_reader 42 ∷ []))
      ≡ some g)
    × (g.readers ≡ heard_all text (fresh_reader 41 ∷ fresh_reader 42 ∷ []))
broadcast-heard_all_example =
    broadcast-heard_all alternating 1 text (board (fresh_reader 41 ∷ fresh_reader 42 ∷ [])) refl
      ((refl, tt), (tt, tt)) (λ i h. (i, omega arith, omega (arith, h), omega (arith, h)))

broadcast-Clash_example :
    broadcast alternating 9 2 text (board (fresh_reader 41 ∷ fresh_reader 71 ∷ [])) ≡ none
broadcast-Clash_example =
    broadcast-Clash alternating 9 text (board (fresh_reader 41 ∷ fresh_reader 71 ∷ [])) refl
      (record {
        pre = [];
        one = fresh_reader 41;
        mid = [];
        other = fresh_reader 71;
        post = [];
        split = refl;
        same = refl;
      })

abbrev junk : Entry
junk = record { line = []; id = 0; is_online = true }

abbrev server : Server
server = record {
  members = record {
    size = 1;
    capacity = 1;
    entries = record { line = 97 ∷ []; id = 41; is_online = true } ∷ [];
  };
  messages = record { size = 0; capacity = 1; entries = junk ∷ [] };
  members_online = 1;
}

-- Two online, who both run.
abbrev full_server : Server
full_server = record {
  members = record {
    size = 2;
    capacity = 2;
    entries =
        record { line = 97 ∷ []; id = 41; is_online = true }
        ∷ record { line = 98 ∷ []; id = 42; is_online = true }
        ∷ [];
  };
  messages = record { size = 0; capacity = 1; entries = junk ∷ [] };
  members_online = 2;
}

full_server-IsServer : IsServer full_server full_server.members.entries []
full_server-IsServer = record {
  members = record {
    rest = [];
    split = refl;
    size = refl;
    capacity = refl;
    some_room = omega arith;
  };
  messages = record {
    rest = junk ∷ [];
    split = refl;
    size = refl;
    capacity = refl;
    some_room = omega arith;
  };
}

-- "hi"
abbrev hi : Bytes
hi = 104 ∷ 105 ∷ []

hi-IsLine : IsLine hi
hi-IsLine = record { solid = (refl, (refl, tt)); some_bytes = omega arith }

message_hendler-heard_all_example :
    (g : Server) × (c : Board) × (message_hendler
        (λ j. alternating)
        2
        junk
        full_server
        (board (fresh_reader 41 ∷ fresh_reader 42 ∷ []))
        (record { mtype = 2; mtext = message_text 3 hi 41 })
      ≡ some (g, c, false))
    × IsServer g full_server.members.entries (said junk hi 41 ∷ [])
    × (c.readers ≡ heard_all (message_text 3 hi 41) (fresh_reader 41 ∷ fresh_reader 42 ∷ []))
message_hendler-heard_all_example =
    message_hendler-heard_all (λ j. alternating) 1 junk full_server full_server.members.entries []
      (board (fresh_reader 41 ∷ fresh_reader 42 ∷ [])) hi 41 full_server-IsServer hi-IsLine refl
      refl ((refl, tt), (tt, tt)) (λ i h. (i, omega arith, omega (arith, h), omega (arith, h)))

-- Client 42 comes first behind each text of `shair_database`.
abbrev entering_schedules : ℕ → ℕ → List ℕ
entering_schedules zero = alternating
entering_schedules (suc j) = λ k. 1 ∷ []

abbrev gate_server : Server
gate_server = record server {
  messages = record { size = 1; capacity = 1; entries = said junk hi 41 ∷ [] };
}

gate_server-IsServer : IsServer gate_server (member (97 ∷ []) 41 ∷ []) (said junk hi 41 ∷ [])
gate_server-IsServer = record {
  members = record {
    rest = [];
    split = refl;
    size = refl;
    capacity = refl;
    some_room = omega arith;
  };
  messages = record {
    rest = [];
    split = refl;
    size = refl;
    capacity = refl;
    some_room = omega arith;
  };
}

members_handler-heard_all_example :
    (g : Server) × (c : Board) × (members_handler entering_schedules 2 junk gate_server
        (board (fresh_reader 41 ∷ fresh_reader 42 ∷ []))
        (record { mtype = 1; mtext = member_text 1 (98 ∷ []) 42 })
      ≡ some (g, c, false))
    × IsServer g (member (97 ∷ []) 41 ∷ member (98 ∷ []) 42 ∷ []) (said junk hi 41 ∷ [])
    × (g.members_online ≡ 2)
    × (c.readers
        ≡ heard_all (member_text 1 (98 ∷ []) 42) (
            fresh_reader 41
            ∷ got (fresh_reader 42) (history (member (97 ∷ []) 41 ∷ []) (said junk hi 41 ∷ []))
            ∷ []))
members_handler-heard_all_example =
    members_handler-heard_all entering_schedules 0 junk gate_server (member (97 ∷ []) 41 ∷ [])
      (said junk hi 41 ∷ []) (fresh_reader 41 ∷ []) [] (fresh_reader 42)
      (board (fresh_reader 41 ∷ fresh_reader 42 ∷ [])) (98 ∷ []) gate_server-IsServer
      (record {
        readers = refl;
        am_i_read = refl;
        counted = refl;
        distinct = ((refl, tt), (tt, tt));
      })
      (record { solid = (refl, tt); some_bytes = omega arith }) (λ j. refl)
      (λ i h. (i, omega arith, omega (arith, h), omega (arith, h)))

-- Client 41 leaves; 42 runs.
members_handler-left_heard_example :
    (g : Server) × (c : Board) × (members_handler
        (λ j. alternating)
        2
        junk
        full_server
        (board (fresh_reader 42 ∷ []))
        (record { mtype = 1; mtext = member_text 0 (97 ∷ []) 41 })
      ≡ some (g, c, false))
    × IsServer g (off (member (97 ∷ []) 41) ∷ member (98 ∷ []) 42 ∷ []) []
    × (g.members_online ≡ length c.readers)
    × (c.readers ≡ heard_all (member_text 0 (97 ∷ []) 41) (fresh_reader 42 ∷ []))
members_handler-left_heard_example =
    members_handler-left_heard (λ j. alternating) 1 junk full_server [] (member (98 ∷ []) 42 ∷ [])
      [] (member (97 ∷ []) 41) (board (fresh_reader 42 ∷ [])) (97 ∷ []) full_server-IsServer tt
      (record { solid = (refl, tt); some_bytes = omega arith }) (omega arith) refl refl (tt, tt)
      (λ i h. (i, omega arith, omega (arith, h), omega (arith, h)))

-- "h", a backspace, "i", the end of the line, "!exit", the end of the line.
abbrev keys : List ℕ
keys = 104 ∷ 127 ∷ 105 ∷ 10 ∷ (exit_text ++ 10 ∷ [])

ann_fits : (1 + length (decimal 41) ≤ 996) × (length (decimal 41) ≤ 10)
unfolding decimal
ann_fits = (omega arith, omega arith)

session-sent_example : session 263 41 (97 ∷ []) (replicate 256 0) true keys ≡ (
    if (lines_of 263 [] keys).1
    then if true
      then some (spoken 41 (97 ∷ []) (lines_of 263 [] keys).0 ++ parting 41 (97 ∷ []))
      else none
    else some (spoken 41 (97 ∷ []) (lines_of 263 [] keys).0 ++ []))
session-sent_example =
    session-sent 263 41 (97 ∷ []) (replicate 256 0) true keys refl ann_fits.0 ann_fits.1 refl

abbrev idle : Exchange
idle = record {
  shm = record { mtype = 0; mtext = [] };
  for_members = 0;
  for_messages = 0;
  server = server;
  board = board (fresh_reader 41 ∷ []);
}

run_lost_example :
    run 9 junk idle (
      send (record { mtype = 1; mtext = member_text 0 (97 ∷ []) 41 })
      ∷ send (record { mtype = 2; mtext = text })
      ∷ members_turn (λ j. alternating)
      ∷ messages_turn (λ j. alternating)
      ∷ [])
    ≡ run 9 junk idle
        (send (record { mtype = 2; mtext = text }) ∷ messages_turn (λ j. alternating) ∷ [])
run_lost_example =
    run_lost 9 junk (λ j. alternating) (record { mtype = 0; mtext = [] }) 0 server
      (board (fresh_reader 41 ∷ [])) (member_text 0 (97 ∷ []) 41) text
      (messages_turn (λ j. alternating) ∷ [])
