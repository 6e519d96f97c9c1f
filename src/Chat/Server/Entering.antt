-- ===== src/Chat/Server/Entering.antt =====
-- What the server does with the text of a client that enters, against the lists of entries.
use eltex_course.Base.{
  Bool-cases, inl, inr, map, keep, ℕ, ◌+◌, ◌≡◌, refl, ap, ◌∙◌, true, false, List, [], ◌∷◌, ◌++◌,
  some, leb, Bytes, str_eq, arith, take-length,
}
use eltex_course.Decimal.{decimal, atoi-decimal}
use eltex_course.Chat.Table.{Entry, Table, data_add}
use eltex_course.Chat.Table.Laws.{IsTable, data_add-append}
use eltex_course.Chat.Protocol.{member_text, message_text}
use eltex_course.Chat.Protocol.Laws.{IsName, strtok-marker, strtok-name, strtok-pid}
use eltex_course.Chat.Server.{
  Server, Send, broadcast, share_members, share_messages, in_use, shair_database, finish, enter,
  members_handler,
}

-- The server holds the members `ms` and the messages `xs`.
pub record IsServer (s : Server) (ms xs : List Entry) : Type 0 where
  pub members : IsTable s.members ms
  pub messages : IsTable s.messages xs

pub in_use-IsTable : (m : Table) (es : List Entry) → IsTable m es → in_use m ≡ es
in_use-IsTable m es t = rw (t.size, t.split) (take-length es t.rest)

abbrev pub member : Bytes → ℕ → Entry
member name pid = record { line = name; id = pid; is_online = true }

-- One text to each entry of a list, online or not.
abbrev pub told : List Entry → Bytes → List Send
told es text = map (λ e. (e.id, text)) es

-- "1 name pid" of the entries online, and "3 line>pid" of all, to one process.
abbrev pub told_members : List Entry → ℕ → List Send
told_members es pid =
    map (λ e. (pid, 49 ∷ 32 ∷ (e.line ++ 32 ∷ decimal e.id))) (keep (λ e. e.is_online) es)

abbrev pub told_messages : List Entry → ℕ → List Send
told_messages es pid = map (λ e. (pid, 51 ∷ 32 ∷ (e.line ++ 62 ∷ decimal e.id))) es

-- The answer to a new client: the members online and all messages, to it; then its own text, to
-- every member and to it.
abbrev pub welcome : List Entry → List Entry → Bytes → ℕ → List Send
welcome ms xs name pid =
    (told_members ms pid ++ told_messages xs pid)
    ++ told (ms ++ member name pid ∷ []) (member_text 1 name pid)

pub broadcast-told : (es : List Entry) (text : Bytes) → broadcast es text ≡ told es text
unfolding broadcast
broadcast-told [] text = refl
broadcast-told (e ∷ es) text = ap (◌∷◌ (e.id, text)) (broadcast-told es text)

share_members-told : (es : List Entry) (pid : ℕ) → share_members es pid ≡ told_members es pid
unfolding share_members member_text decimal
share_members-told [] pid = refl
share_members-told (e ∷ es) pid = elim (Bool-cases e.is_online) [
  | inl on ↦ rw on (ap (◌∷◌ (pid, member_text 1 e.line e.id)) (share_members-told es pid))
  | inr off ↦ rw off (share_members-told es pid)
]

share_messages-told : (es : List Entry) (pid : ℕ) → share_messages es pid ≡ told_messages es pid
unfolding share_messages message_text decimal
share_messages-told [] pid = refl
share_messages-told (e ∷ es) pid =
    ap (◌∷◌ (pid, message_text 3 e.line e.id)) (share_messages-told es pid)

entered : Server → Table → Server
entered s m = record s { members = m; members_online = s.members_online + 1 }

enter-entered :
    (junk : Entry) (s : Server) (m : Table) (name : Bytes) (pid : ℕ)
    → IsName name
    → data_add junk s.members (member name pid) ≡ some m
    → enter junk s (name ++ 32 ∷ decimal pid) ≡ some (entered s m, shair_database s pid)
unfolding enter entered
enter-entered junk s m name pid n e =
    rw (strtok-name name (decimal pid) n, strtok-pid pid) (rw (atoi-decimal pid, e) refl)

finish-entered :
    (s : Server) (m : Table) (ms : List Entry) (text : Bytes) (sent : List Send)
    → IsTable m ms
    → finish (entered s m) text sent ≡ (entered s m, sent ++ told ms text, false)
unfolding finish entered
finish-entered s m ms text sent t =
    rw (in_use-IsTable m ms t, positive s.members_online, broadcast-told ms text) refl
  where
    positive : (n : ℕ) → leb (n + 1) 0 ≡ false
    positive n = ground arith

is_entering : str_eq (decimal 1) (48 ∷ []) ≡ false
unfolding decimal str_eq
is_entering = refl

pub shair_database-IsServer :
    (s : Server) (ms xs : List Entry) (pid : ℕ)
    → IsServer s ms xs
    → shair_database s pid ≡ share_members ms pid ++ share_messages xs pid
unfolding shair_database
shair_database-IsServer s ms xs pid h =
    rw (in_use-IsTable s.members ms h.members, in_use-IsTable s.messages xs h.messages) refl

-- A client that enters with a one-word name is told of the members online and of all messages in the
-- texts "1 name pid" and "3 line>pid", is put behind the members, and its entry is told to everybody on the list; the server goes on.
pub members_handler-enter :
    (junk : Entry) (s : Server) (ms xs : List Entry) (name : Bytes) (pid : ℕ)
    → IsServer s ms xs
    → IsName name
    → (g : Server) × (members_handler junk s (member_text 1 name pid)
        ≡ some (g, welcome ms xs name pid, false))
      × IsServer g (ms ++ member name pid ∷ []) xs
      × (g.members_online ≡ s.members_online + 1)
unfolding members_handler member_text entered
members_handler-enter junk s ms xs name pid h n =
    let (m, e, t) = data_add-append junk s.members ms (member name pid) h.members in
    let text = member_text 1 name pid in
    (
      entered s m,
      rw
          (
            strtok-marker 1 (name ++ 32 ∷ decimal pid),
            is_entering,
            enter-entered junk s m name pid n e,
          )
          (ap some (
            finish-entered s m _ text (shair_database s pid) t
            ∙ ap (λ sent. (entered s m, sent ++ told (ms ++ member name pid ∷ []) text, false))
                (shair_database-IsServer s ms xs pid h
                  ∙ rw (share_members-told ms pid, share_messages-told xs pid) refl))),
      record { members = t; messages = h.messages },
      refl,
    )
