-- ===== src/SharedChat/Server.antt =====
-- task14/chat/src/server.c: the two handlers, a round for each message in `shm[0]`, and
-- `shair_database`. A round writes its texts to the board that SharedChat.Board models. The count of
-- members online stays at 0 where the source goes below. `none` is a fault, as in Chat.Server, or a
-- waiting loop for which `fuel` does not suffice: such a loop need not end. A round is one step: what
-- the other handler does in its waiting loops is not modelled.
pub mod Lines
pub mod Sharing
pub mod Entering
pub mod Leaving
use eltex_course.Base.{
  ℕ, zero, suc, ◌+◌, ◌-◌, ◌*◌, Bool, true, false, List, [], ◌∷◌, ◌++◌, Option, none, some, ◌==◌,
  leb, if◌then◌else◌, Bytes, str_eq, get_elem?, get_or, set, ◌>>=◌,
}
use eltex_course.Decimal.{atoi}
use eltex_course.Strtok.{strtok}
use eltex_course.Chat.Table.{Entry, Table, data_add, data_find}
use eltex_course.Chat.Protocol.{is_space, is_angle, member_text, message_text}
use eltex_course.Chat.Server.{Server, in_use, set_offline}
use eltex_course.SharedChat.Board.{Board, slot, fill, sem_post, turns, broadcast}

-- `shm[0]`
pub record Message : Type 0 where
  pub mtype : ℕ
  pub mtext : Bytes

-- The texts of the two loops of `shair_database`.
unfoldable pub share_members : List Entry → List Bytes
share_members [] = []
share_members (e ∷ es) =
    if e.is_online then member_text 1 e.line e.id ∷ share_members es else share_members es

unfoldable pub share_messages : List Entry → List Bytes
share_messages [] = []
share_messages (e ∷ es) = message_text 3 e.line e.id ∷ share_messages es

-- `fill(shm->am_i_read, 1)` and `shm->am_i_read[id] = 0`
unfoldable pub open_for : ℕ → Board → Board
open_for id b = record b { am_i_read = set (fill b.am_i_read 1) id 0 }

unfoldable pub post_times : ℕ → Board → Board
post_times zero b = b
post_times (suc n) b = post_times n (sem_post b)

-- The waiting loop behind a text, from the time `k` on.
unfoldable pub share_loop : (ℕ → List ℕ) → ℕ → ℕ → ℕ → ℕ → Board → Option Board
share_loop schedule zero online id k b = none
share_loop schedule (suc fuel) online id k b =
    let rest =
      share_loop schedule fuel online id (k + 1) (turns (post_times (online * 2) b) (schedule k)) in
    if get_or b.am_i_read id 0 == 1 then some b else rest

-- `schedules 0` says who comes to the semaphore in the broadcast of the round, and `schedules (j + 1)` in
-- the loop behind text `j` of `shair_database`.
module _ (schedules : ℕ → ℕ → List ℕ) (fuel : ℕ) where
  unfoldable pub share_texts : ℕ → ℕ → ℕ → List Bytes → Board → Option Board
  share_texts j online id [] b = some b
  share_texts j online id (text ∷ texts) b = do
    b ← share_loop (schedules (suc j)) fuel online id 0 (record b { mtext = text })
    share_texts (suc j) online id texts (open_for id b)

  unfoldable pub shair_database : Server → ℕ → Board → Option Board
  shair_database s pid b =
      share_texts 0 s.members_online (slot pid)
        (share_members (in_use s.members) ++ share_messages (in_use s.messages))
        (open_for (slot pid) b)

  -- The branch of the marker 0.
  unfoldable pub member_left : Server → Board → Bytes → Option (Server × Board)
  member_left s b rest = do
    (name, rest) ← strtok is_space rest
    (id, rest) ← strtok is_space rest
    members ← set_offline s.members (atoi id)
    some (record s { members = members; members_online = s.members_online - 1 }, b)

  -- The other branch.
  unfoldable pub member_entered : Entry → Server → Board → Bytes → Option (Server × Board)
  member_entered junk s b rest = do
    (name, rest) ← strtok is_space rest
    (id, rest) ← strtok is_space rest
    let s = record s { members_online = s.members_online + 1 }
    b ← shair_database s (atoi id) b
    members ← data_add junk s.members (record { line = name; id = atoi id; is_online = true })
    some (record s { members = members }, b)

  -- A round of `members_handler`; the last part says whether the loop ends.
  unfoldable pub members_round : Entry → Server → Board → Bytes → Option (Server × Board × Bool)
  members_round junk s b text = do
    (token, rest) ← strtok is_space text
    (s, b) ← (if str_eq token (48 ∷ []) then member_left s b rest else member_entered junk s b rest)
    b ← broadcast (schedules 0) fuel s.members_online text b
    some (
      if leb s.members_online 0 then record s { members = record (s.members) { size = 0 } } else s,
      b,
      leb s.members_online 0,
    )

  unfoldable pub members_handler : Entry → Server → Board → Message → Option (Server × Board × Bool)
  members_handler junk s b msg =
      if msg.mtype == 1 then members_round junk s b msg.mtext else some (s, b, false)

  -- A round of `message_hendler`.
  unfoldable pub message_said :
      Entry → Server → Board → Bytes → Bytes → Option (Server × Board × Bool)
  message_said junk s b text rest = do
    b ← broadcast (schedules 0) fuel s.members_online text b
    (line, rest) ← strtok is_angle rest
    (id, rest) ← strtok is_space rest
    messages ← data_add junk s.messages (record junk { line = line; id = atoi id })
    some (record s { messages = messages }, b, false)

  unfoldable pub message_round : Entry → Server → Board → Bytes → Option (Server × Board × Bool)
  message_round junk s b text = do
    (token, rest) ← strtok is_space text
    if str_eq token (52 ∷ [])
        then some (s, b, leb s.members.size 0)
        else message_said junk s b text rest

  unfoldable pub message_hendler : Entry → Server → Board → Message → Option (Server × Board × Bool)
  message_hendler junk s b msg =
      if msg.mtype == 2 then message_round junk s b msg.mtext else some (s, b, false)
