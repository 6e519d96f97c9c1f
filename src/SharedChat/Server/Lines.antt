-- ===== src/SharedChat/Server/Lines.antt =====
-- A line of a member, from `shm[0]` to every client.
use eltex_course.Base.{
  ℕ, suc, ◌≡◌, ◌<◌, refl, false, List, [], ◌∷◌, ◌++◌, some, length, Bytes, str_eq,
}
use eltex_course.Decimal.{decimal, atoi-decimal}
use eltex_course.Chat.Table.{Entry}
use eltex_course.Chat.Table.Laws.{data_add-append}
use eltex_course.Chat.Protocol.{message_text}
use eltex_course.Chat.Protocol.Laws.{IsLine, strtok-marker, strtok-line, strtok-pid}
use eltex_course.Chat.Server.{Server}
use eltex_course.Chat.Server.Entering.{IsServer}
use eltex_course.Chat.Server.Messages.{said}
use eltex_course.SharedChat.Board.{Board}
use eltex_course.SharedChat.Board.Crowd.{Distinct}
use eltex_course.SharedChat.Board.Fairness.{Comes}
use eltex_course.SharedChat.Board.Delivery.{span, heard_all, broadcast-heard_all}
use eltex_course.SharedChat.Server.{message_said, message_round, message_hendler}

no_end : str_eq (decimal 3) (52 ∷ []) ≡ false
unfolding decimal str_eq
no_end = refl

-- A line that a member says, while as many clients run as the server counts online and their places in
-- `am_i_read` differ: as soon as each of them has come first to the semaphore once, the waiting loop of
-- the round ends, every client has read the text, and has read it once, and the line is recorded behind
-- the others with its member.
pub message_hendler-heard_all :
    (schedules : ℕ → ℕ → List ℕ) (rounds : ℕ) (junk : Entry) (s : Server) (ms xs : List Entry)
    (b : Board) (line : Bytes) (pid : ℕ)
    → IsServer s ms xs
    → IsLine line
    → s.members_online ≡ length b.readers
    → length b.am_i_read ≡ 50
    → Distinct b.readers
    → ((i : ℕ) → i < length b.readers → Comes (schedules 0) 0 (span rounds (length b.readers)) i)
    → (g : Server) × (c : Board) × (message_hendler schedules
          (suc rounds)
          junk
          s
          b
          (record { mtype = 2; mtext = message_text 3 line pid })
        ≡ some (g, c, false))
      × IsServer g ms (xs ++ said junk line pid ∷ [])
      × (c.readers ≡ heard_all (message_text 3 line pid) b.readers)
unfolding message_hendler message_round message_said message_text
message_hendler-heard_all schedules rounds junk s ms xs b line pid h l counted size d come =
    let (c, e, r) =
      broadcast-heard_all (schedules 0) rounds (message_text 3 line pid) b size d come in
    let (m, f, t) = data_add-append junk s.messages xs (said junk line pid) h.messages in
    (
      record s { messages = m },
      c,
      rw
          (
            strtok-marker 3 (line ++ 62 ∷ decimal pid),
            no_end,
            counted,
            e,
            strtok-line line (decimal pid) l,
            strtok-pid pid,
          )
          (rw (atoi-decimal pid, f) refl),
      record { members = h.members; messages = t },
      r,
    )
