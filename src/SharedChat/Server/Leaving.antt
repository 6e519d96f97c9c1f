-- ===== src/SharedChat/Server/Leaving.antt =====
-- A client that leaves the chat over shared memory while others are online.
use eltex_course.Base.{
  ℕ, suc, ◌-◌, ◌≡◌, ◌<◌, refl, ◌∙◌, sym, ap, false, List, [], ◌∷◌, ◌++◌, some, leb, length, Bytes,
  arith,
}
use eltex_course.Decimal.{decimal, atoi-decimal}
use eltex_course.Chat.Table.{Entry}
use eltex_course.Chat.Table.Laws.{Missing}
use eltex_course.Chat.Protocol.{member_text}
use eltex_course.Chat.Protocol.Laws.{IsName, strtok-marker, strtok-name, strtok-pid}
use eltex_course.Chat.Server.{Server}
use eltex_course.Chat.Server.Entering.{IsServer}
use eltex_course.Chat.Server.Leaving.{off, set_offline-off, is_leaving}
use eltex_course.SharedChat.Board.{Reader, Board}
use eltex_course.SharedChat.Board.Crowd.{Distinct}
use eltex_course.SharedChat.Board.Fairness.{Comes}
use eltex_course.SharedChat.Board.Delivery.{span, heard_all, broadcast-heard_all}
use eltex_course.SharedChat.Server.{member_left, members_round, members_handler}

length-heard_all : (text : Bytes) (rs : List Reader) → length (heard_all text rs) ≡ length rs
length-heard_all text [] = refl
length-heard_all text (r ∷ rs) = ap suc (length-heard_all text rs)

-- A client whose thread has ended leaves, the server counts the running clients and it online, and the
-- places of the running clients in `am_i_read` differ: as soon as each of them has come first to the
-- semaphore once, the broadcast of the round ends, and each has read the text of the leaving once. The
-- first entry with its process id is marked offline, and the server goes on.
pub members_handler-left_heard :
    (schedules : ℕ → ℕ → List ℕ) (rounds : ℕ) (junk : Entry) (s : Server) (pre post xs : List Entry)
    (e : Entry) (b : Board) (name : Bytes)
    → IsServer s (pre ++ e ∷ post) xs
    → Missing e.id pre
    → IsName name
    → 1 < s.members_online
    → s.members_online - 1 ≡ length b.readers
    → length b.am_i_read ≡ 50
    → Distinct b.readers
    → ((i : ℕ) → i < length b.readers → Comes (schedules 0) 0 (span rounds (length b.readers)) i)
    → (g : Server) × (c : Board) × (members_handler schedules
          (suc rounds)
          junk
          s
          b
          (record { mtype = 1; mtext = member_text 0 name e.id })
        ≡ some (g, c, false))
      × IsServer g (pre ++ off e ∷ post) xs
      × (g.members_online ≡ length c.readers)
      × (c.readers ≡ heard_all (member_text 0 name e.id) b.readers)
unfolding members_handler members_round member_left member_text
members_handler-left_heard schedules rounds junk s pre post xs e b name h a n more counted size d
      come =
    let text = member_text 0 name e.id in
    let (m, f, t) = set_offline-off s.members pre post e e.id h.members a (ground arith) in
    let (c, k, heard) = broadcast-heard_all (schedules 0) rounds text b size d come in
    let stay : leb (length b.readers) 0 ≡ false = ground (arith, counted, more) in
    (
      record s { members = m; members_online = length b.readers },
      c,
      rw
          (
            strtok-marker 0 (name ++ 32 ∷ decimal e.id),
            is_leaving,
            strtok-name name (decimal e.id) n,
            strtok-pid e.id,
          )
          (rw (atoi-decimal e.id, f) (rw counted (rw (k, stay) refl))),
      record { members = t; messages = h.messages },
      sym (length-heard_all text b.readers) ∙ ap length (sym heard),
      heard,
    )
