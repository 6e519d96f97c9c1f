-- ===== src/SharedChat/Exchange.antt =====
-- task14/chat: `shm[0]` with the semaphores 0 and 1, between `send_message` of src/client.c and the two
-- handlers of src/server.c. A client holds semaphore 2 for the time of an `usleep`, and not until
-- the server has read. An event is the message of a client, or a round of a handler with what its
-- waiting loops let in.
pub mod Losing
use eltex_course.Base.{
  ℕ, zero, suc, ◌+◌, ◌-◌, Bool, true, false, List, [], ◌∷◌, ◌++◌, Option, none, some, ◌==◌,
  if◌then◌else◌, Bytes, ◌>>=◌,
}
use eltex_course.Chat.Table.{Entry}
use eltex_course.Chat.Server.{Server}
use eltex_course.SharedChat.Server.{Message, members_handler, message_hendler}
use eltex_course.SharedChat.Board.{Board}

pub record Exchange : Type 0 where
  pub shm : Message
  -- Semaphore 0 and semaphore 1.
  pub for_members : ℕ
  pub for_messages : ℕ
  pub server : Server
  -- `shm[1]`
  pub board : Board

pub data Event : Type 0 where
  send : Message → Event
  members_turn : (ℕ → ℕ → List ℕ) → Event
  messages_turn : (ℕ → ℕ → List ℕ) → Event

-- `send_message` to `shm[0]`: `sem_post(prio - 1)` for the types 1 and 2.
unfoldable pub send_first : Exchange → Message → Exchange
send_first x m =
    if m.mtype == 1
    then record x { shm = m; for_members = x.for_members + 1 }
    else record x { shm = m; for_messages = x.for_messages + 1 }

unfoldable pub took : Exchange → Server × Board × Bool → Exchange
took x (s, b, is_over) = record x { server = s; board = b }

-- `none` is a fault of a handler, or a waiting loop for which the fuel does not suffice; a handler whose
-- semaphore is 0 waits.
module _ (fuel : ℕ) (junk : Entry) where
  unfoldable pub step : Exchange → Event → Option Exchange
  step x (send m) = some (send_first x m)
  step x (members_turn schedules) =
      if x.for_members == 0
      then some x
      else (members_handler schedules fuel junk x.server x.board x.shm >>= λ r.
          some (took (record x { for_members = x.for_members - 1 }) r))
  step x (messages_turn schedules) =
      if x.for_messages == 0
      then some x
      else (message_hendler schedules fuel junk x.server x.board x.shm >>= λ r.
          some (took (record x { for_messages = x.for_messages - 1 }) r))

  unfoldable pub run : Exchange → List Event → Option Exchange
  run x [] = some x
  run x (e ∷ es) = step x e >>= λ y. run y es
