-- ===== src/SharedChat/Server/Entering.antt =====
-- A client that enters the chat over shared memory.
use eltex_course.Base.{
  ℕ, suc, ◌+◌, ◌≡◌, ◌<◌, refl, sym, ap, ◌∙◌, true, false, Bool-cases, inl, inr, List, [], ◌∷◌, ◌++◌,
  some, ◌==◌, leb, set, length, length-set, replicate, map, keep, append-nil, append-snoc, Bytes,
  str_eq, arith,
}
use eltex_course.Decimal.{decimal, atoi-decimal}
use eltex_course.Chat.Table.{Entry}
use eltex_course.Chat.Table.Laws.{data_add-append}
use eltex_course.Chat.Protocol.{member_text, message_text}
use eltex_course.Chat.Protocol.Laws.{IsName, strtok-marker, strtok-name, strtok-pid}
use eltex_course.Chat.Server.{Server}
use eltex_course.Chat.Server.Entering.{IsServer, in_use-IsTable, member}
use eltex_course.SharedChat.Board.{Reader, Board, slot, fill, heard}
use eltex_course.SharedChat.Board.Crowd.{Free, Distinct}
use eltex_course.SharedChat.Board.Fairness.{Starts, Comes}
use eltex_course.SharedChat.Board.Delivery.{span, heard_all, fill-replicate, broadcast-heard_all}
use eltex_course.SharedChat.Server.{
  share_members, share_messages, open_for, share_texts, shair_database, member_entered,
  members_round, members_handler,
}
use eltex_course.SharedChat.Server.Sharing.{one_open, share_loop-IsOpen}

-- A client that has read some texts more.
abbrev pub got : Reader → List Bytes → Reader
got r texts = record r { inbox = r.inbox ++ texts }

-- "1 name pid" of the entries online, and "3 line>pid" of all.
abbrev pub history : List Entry → List Entry → List Bytes
history ms xs =
    map (λ e. 49 ∷ 32 ∷ (e.line ++ 32 ∷ decimal e.id)) (keep (λ e. e.is_online) ms)
    ++ map (λ e. 51 ∷ 32 ∷ (e.line ++ 62 ∷ decimal e.id)) xs

share_members_lem :
    (es : List Entry)
    → share_members es
      ≡ map (λ e. 49 ∷ 32 ∷ (e.line ++ 32 ∷ decimal e.id)) (keep (λ e. e.is_online) es)
unfolding share_members member_text decimal
share_members_lem [] = refl
share_members_lem (e ∷ es) = elim (Bool-cases e.is_online) [
  | inl on ↦ rw on (ap (◌∷◌ (member_text 1 e.line e.id)) (share_members_lem es))
  | inr off ↦ rw off (share_members_lem es)
]

share_messages_lem :
    (es : List Entry) → share_messages es ≡ map (λ e. 51 ∷ 32 ∷ (e.line ++ 62 ∷ decimal e.id)) es
unfolding share_messages message_text decimal
share_messages_lem [] = refl
share_messages_lem (e ∷ es) = ap (◌∷◌ (message_text 3 e.line e.id)) (share_messages_lem es)

opened_again : (c : ℕ) → set (fill (one_open c true) 1) c 0 ≡ one_open c false
opened_again c =
    ap (λ xs. set xs c 0)
      (fill-replicate (one_open c true) 1
        ∙ ap (λ n. replicate n 1) (length-set (replicate 50 1) c 1))

module _ (pre post : List Reader) (schedules : ℕ → ℕ → List ℕ) (fuel online : ℕ) where
  -- The texts reach the client one after another.
  share_texts-got :
      (r : Reader) (texts : List Bytes) (j : ℕ) (b : Board)
      → Free (slot r.pid) pre
      → Free (slot r.pid) post
      → 0 < online
      → ((j : ℕ) → Starts (schedules (suc j) 0) (length pre))
      → b.am_i_read ≡ one_open (slot r.pid) false
      → b.readers ≡ pre ++ r ∷ post
      → (g : Board) × (share_texts schedules (suc (suc fuel)) j online (slot r.pid) texts b
          ≡ some g)
        × (g.am_i_read ≡ one_open (slot r.pid) false)
        × (g.readers ≡ pre ++ got r texts ∷ post)
  unfolding share_texts open_for
  share_texts-got r [] j b before behind some_online s marks rs = (
    b,
    refl,
    marks,
    rs ∙ ap (λ i. pre ++ record r { inbox = i } ∷ post) (sym (append-nil r.inbox)),
  )
  share_texts-got r (text ∷ texts) j b before behind some_online s marks rs =
      let (c, e, h) =
        share_loop-IsOpen pre post r before behind (schedules (suc j)) fuel online text
          (record b { mtext = text }) (record { mtext = refl; am_i_read = marks; readers = rs })
          some_online (s j) in
      let again =
        ap (λ xs. set (fill xs 1) (slot r.pid) 0) h.am_i_read ∙ opened_again (slot r.pid) in
      let (g, f, m, q) =
        share_texts-got (heard r text) texts (suc j) (open_for (slot r.pid) c) before behind
          some_online s again h.readers in
      (
        g,
        rw e f,
        m,
        q ∙ ap (λ i. pre ++ record r { inbox = i } ∷ post) (append-snoc r.inbox text texts),
      )

Free-got :
    (c : ℕ) (pre post : List Reader) (r : Reader) (texts : List Bytes)
    → Free c (pre ++ r ∷ post)
    → Free c (pre ++ got r texts ∷ post)
Free-got c [] post r texts h = h
Free-got c (q ∷ pre) post r texts h = (h.0, Free-got c pre post r texts h.1)

Distinct-got :
    (pre post : List Reader) (r : Reader) (texts : List Bytes)
    → Distinct (pre ++ r ∷ post)
    → Distinct (pre ++ got r texts ∷ post)
Distinct-got [] post r texts d = d
Distinct-got (q ∷ pre) post r texts d =
    (Free-got (slot q.pid) pre post r texts d.0, Distinct-got pre post r texts d.1)

Free-here :
    (c : ℕ) (pre post : List Reader) (r : Reader)
    → Free c (pre ++ r ∷ post)
    → (c == slot r.pid) ≡ false
Free-here c [] post r h = let e = h.0 in ground (arith, e)
Free-here c (q ∷ pre) post r h = Free-here c pre post r h.1

Distinct-Free :
    (pre post : List Reader) (r : Reader)
    → Distinct (pre ++ r ∷ post)
    → Free (slot r.pid) pre × Free (slot r.pid) post
Distinct-Free [] post r d = (tt, d.0)
Distinct-Free (q ∷ pre) post r d =
    let h = Distinct-Free pre post r d.1 in ((Free-here (slot q.pid) pre post r d.0, h.0), h.1)

-- The board when a client enters: it runs already, the server counts all others online, and no two
-- clients have one place in `am_i_read`.
pub record IsGate (s : Server) (pre post : List Reader) (r : Reader) (b : Board) : Type 0 where
  pub readers : b.readers ≡ pre ++ r ∷ post
  pub am_i_read : length b.am_i_read ≡ 50
  pub counted : s.members_online + 1 ≡ length b.readers
  pub distinct : Distinct b.readers

is_entering : str_eq (decimal 1) (48 ∷ []) ≡ false
unfolding decimal str_eq
is_entering = refl

goes_on : (n : ℕ) → leb (n + 1) 0 ≡ false
goes_on n = ground arith

length-got :
    (pre post : List Reader) (r : Reader) (texts : List Bytes)
    → length (pre ++ got r texts ∷ post) ≡ length (pre ++ r ∷ post)
length-got [] post r texts = refl
length-got (q ∷ pre) post r texts = ap suc (length-got pre post r texts)

shair_database-got :
    (schedules : ℕ → ℕ → List ℕ) (fuel : ℕ) (s : Server) (ms xs : List Entry)
    (pre post : List Reader) (r : Reader) (b : Board)
    → IsServer s ms xs
    → IsGate s pre post r b
    → ((j : ℕ) → Starts (schedules (suc j) 0) (length pre))
    → (c : Board) × (shair_database schedules
          (suc (suc fuel))
          (record s { members_online = s.members_online + 1 })
          r.pid
          b
        ≡ some c)
      × (length c.am_i_read ≡ 50)
      × (c.readers ≡ pre ++ got r (history ms xs) ∷ post)
unfolding shair_database open_for history
shair_database-got schedules fuel s ms xs pre post r b h gate come =
    let (before, behind) = Distinct-Free pre post r (rw (sym gate.readers) gate.distinct) in
    let opened =
      ap (λ ys. set ys (slot r.pid) 0)
        (fill-replicate b.am_i_read 1 ∙ ap (λ n. replicate n 1) gate.am_i_read) in
    let (c, e, m, q) =
      share_texts-got pre post schedules fuel (s.members_online + 1) r
        (share_members ms ++ share_messages xs) 0 (open_for (slot r.pid) b) before behind
        (omega arith) come opened gate.readers in
    (
      c,
      rw (in_use-IsTable s.members ms h.members, in_use-IsTable s.messages xs h.messages) e,
      ap length m ∙ length-set (replicate 50 1) (slot r.pid) 0,
      q ∙ ap (λ ts. pre ++ got r ts ∷ post) (rw (share_members_lem ms, share_messages_lem xs) refl),
    )

-- A client that enters with a one-word name, while its thread runs already, the server counts all
-- other running clients online, and the places in `am_i_read` differ: where the client comes first to
-- the semaphore behind each text of `shair_database`, and every client comes first once in the time of
-- the broadcast, all waiting loops of the round end. The client has then read the members online and
-- all messages, in the texts "1 name pid" and "3 line>pid" and in order, after that every client has read
-- the text of the entering once, and the client is recorded behind the members.
pub members_handler-heard_all :
    (schedules : ℕ → ℕ → List ℕ) (rounds : ℕ) (junk : Entry) (s : Server) (ms xs : List Entry)
    (pre post : List Reader) (r : Reader) (b : Board) (name : Bytes)
    → IsServer s ms xs
    → IsGate s pre post r b
    → IsName name
    → ((j : ℕ) → Starts (schedules (suc j) 0) (length pre))
    → ((i : ℕ)
        → i < length b.readers
        → Comes (schedules 0) 0 (span (suc rounds) (length b.readers)) i)
    → (g : Server) × (c : Board) × (members_handler schedules
          (suc (suc rounds))
          junk
          s
          b
          (record { mtype = 1; mtext = member_text 1 name r.pid })
        ≡ some (g, c, false))
      × IsServer g (ms ++ member name r.pid ∷ []) xs
      × (g.members_online ≡ s.members_online + 1)
      × (c.readers ≡ heard_all (member_text 1 name r.pid) (pre ++ got r (history ms xs) ∷ post))
unfolding members_handler members_round member_entered member_text
members_handler-heard_all schedules rounds junk s ms xs pre post r b name h gate n first come =
    let text = member_text 1 name r.pid in
    let (c, e, size, q) = shair_database-got schedules rounds s ms xs pre post r b h gate first in
    let same : length c.readers ≡ length b.readers =
      ap length q ∙ length-got pre post r (history ms xs) ∙ sym (ap length gate.readers) in
    let apart : Distinct c.readers =
      rw q (Distinct-got pre post r (history ms xs) (rw (sym gate.readers) gate.distinct)) in
    let (g, f, heard) =
      broadcast-heard_all (schedules 0) (suc rounds) text c size apart (rw same come) in
    let online : s.members_online + 1 ≡ length c.readers = gate.counted ∙ sym same in
    let (m, k, t) = data_add-append junk s.members ms (member name r.pid) h.members in
    (
      record s { members = m; members_online = s.members_online + 1 },
      g,
      rw
          (
            strtok-marker 1 (name ++ 32 ∷ decimal r.pid),
            is_entering,
            strtok-name name (decimal r.pid) n,
            strtok-pid r.pid,
          )
          (rw (atoi-decimal r.pid, e, k) (rw (goes_on s.members_online, online, f) refl)),
      record { members = t; messages = h.messages },
      refl,
      heard ∙ ap (heard_all text) q,
    )
