-- ===== src/SharedChat/Exchange/Losing.antt =====
-- Two messages of clients in a row.
use eltex_course.Base.{ℕ, ◌≡◌, refl, List, ◌∷◌, Bytes}
use eltex_course.Chat.Table.{Entry}
use eltex_course.Chat.Server.{Server}
use eltex_course.SharedChat.Board.{Board}
use eltex_course.SharedChat.Server.{Message, members_handler}
use eltex_course.SharedChat.Exchange.{Event, send, members_turn, send_first, took, step, run}

-- A client enters or leaves, and before the server has read its message another one sends a line:
-- whatever the two texts are, the rest of the run is that of a server to which only the line was sent.
pub run_lost :
    (fuel : ℕ) (junk : Entry) (schedules : ℕ → ℕ → List ℕ) (shm : Message) (waiting : ℕ)
    (server : Server) (board : Board) (entering line : Bytes) (es : List Event)
    → run fuel junk
        (record {
          shm = shm;
          for_members = 0;
          for_messages = waiting;
          server = server;
          board = board;
        })
        (send (record { mtype = 1; mtext = entering })
          ∷ send (record { mtype = 2; mtext = line })
          ∷ members_turn schedules
          ∷ es)
      ≡ run fuel junk
          (record {
            shm = shm;
            for_members = 0;
            for_messages = waiting;
            server = server;
            board = board;
          })
          (send (record { mtype = 2; mtext = line }) ∷ es)
unfolding run step send_first took members_handler
run_lost fuel junk schedules shm waiting server board entering line es = refl
