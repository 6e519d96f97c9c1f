-- ===== src/Chat/Server/Leaving.antt =====
-- What the server does with the text of a client that leaves.
use eltex_course.Base.{
  Option, ap, Bool, ℕ, ◌-◌, ◌≤◌, ◌<◌, ◌≡◌, refl, sym, ◌∙◌, true, false, List, [], ◌∷◌, ◌++◌, some,
  ◌==◌, leb, length, set, Bytes, str_eq, arith, get_elem?-length, set-length, append_assoc,
  length-append, length-set,
}
use eltex_course.Decimal.{decimal, atoi-decimal}
use eltex_course.Chat.Table.{Entry, Table}
use eltex_course.Chat.Table.Laws.{IsTable, Missing, data_find-Missing}
use eltex_course.Chat.Protocol.{member_text, message_text}
use eltex_course.Chat.Protocol.Laws.{IsName, strtok-marker, strtok-name, strtok-pid}
use eltex_course.Chat.Server.{
  Server, Send, finish, set_offline, leave, members_handler, message_hendler,
}
use eltex_course.Chat.Server.Entering.{IsServer, in_use-IsTable, told, broadcast-told}

abbrev pub off : Entry → Entry
off e = record e { is_online = false }

-- `set_offline` changes the first entry with the id, and nothing else.
pub set_offline-off :
    (m : Table) (pre post : List Entry) (e : Entry) (id : ℕ)
    → IsTable m (pre ++ e ∷ post)
    → Missing id pre
    → (e.id == id) ≡ true
    → (g : Table) × (set_offline m id ≡ some g) × IsTable g (pre ++ off e ∷ post)
unfolding set_offline
set_offline-off m pre post e id t h is =
    let all : m.entries ≡ pre ++ e ∷ (post ++ t.rest) =
      t.split ∙ append_assoc pre (e ∷ post) t.rest in
    let found = data_find-Missing m pre post e id t h is in
    let written : set m.entries (length pre) (off e) ≡ pre ++ off e ∷ (post ++ t.rest) =
      rw all (set-length pre e (off e) (post ++ t.rest)) in
    (
      record m { entries = set m.entries (length pre) (off e) },
      rw found (rw all (rw (get_elem?-length pre e (post ++ t.rest)) refl)),
      record {
        rest = t.rest;
        split = written ∙ sym (append_assoc pre (off e ∷ post) t.rest);
        size =
            omega (arith, t.size, length-append pre (e ∷ post), length-append pre (off e ∷ post));
        capacity = omega (arith, t.capacity, length-set m.entries (length pre) (off e));
        some_room = t.some_room;
      },
    )

pub is_leaving : str_eq (decimal 0) (48 ∷ []) ≡ true
unfolding decimal str_eq
is_leaving = refl

left : Server → Table → Server
left s m = record s { members = m; members_online = s.members_online - 1 }

members_handler-left :
    (junk : Entry) (s : Server) (m : Table) (name : Bytes) (pid : ℕ)
    → IsName name
    → set_offline s.members pid ≡ some m
    → members_handler junk s (member_text 0 name pid)
      ≡ some (finish (left s m) (member_text 0 name pid) [])
unfolding members_handler member_text leave left
members_handler-left junk s m name pid n e =
    rw
      (
        strtok-marker 0 (name ++ 32 ∷ decimal pid),
        is_leaving,
        strtok-name name (decimal pid) n,
        strtok-pid pid,
      )
      (rw (atoi-decimal pid, e) refl)

-- A client that leaves while others are online is marked offline at the first entry with its
-- process id; everybody on the list is told, the entry itself included, and the server goes on.
pub members_handler-leave :
    (junk : Entry) (s : Server) (pre post xs : List Entry) (e : Entry) (name : Bytes)
    → IsServer s (pre ++ e ∷ post) xs
    → Missing e.id pre
    → IsName name
    → 1 < s.members_online
    → (g : Server) × (members_handler junk s (member_text 0 name e.id)
        ≡ some (g, told (pre ++ off e ∷ post) (member_text 0 name e.id), false))
      × IsServer g (pre ++ off e ∷ post) xs
      × (g.members_online ≡ s.members_online - 1)
unfolding finish left
members_handler-leave junk s pre post xs e name h a n more =
    let (m, f, t) = set_offline-off s.members pre post e e.id h.members a (ground arith) in
    let stay : leb (s.members_online - 1) 0 ≡ false = ground arith in
    (
      left s m,
      members_handler-left junk s m name e.id n f
          ∙ rw
              (
                in_use-IsTable m (pre ++ off e ∷ post) t,
                stay,
                broadcast-told (pre ++ off e ∷ post) (member_text 0 name e.id),
              )
              refl,
      record { members = t; messages = h.messages },
      refl,
    )

is_farewell : str_eq (decimal 4) (52 ∷ []) ≡ true
unfolding decimal str_eq
is_farewell = refl

-- "4 name>pid" only asks whether there are members.
message_hendler-farewell :
    (junk : Entry) (s : Server) (name : Bytes) (pid : ℕ)
    → message_hendler junk s (message_text 4 name pid) ≡ some (s, [], leb s.members.size 0)
unfolding message_hendler message_text
message_hendler-farewell junk s name pid =
    rw (strtok-marker 4 (name ++ 62 ∷ decimal pid), is_farewell) refl

abbrev emptied : Server → Bool → Option (Server × List Send × Bool)
emptied g b = some (g, [], b)

zero_size : (g : Server) → g.members.size ≡ 0 → emptied g (leb g.members.size 0) ≡ emptied g true
zero_size g e = ap (λ n. emptied g (leb n 0)) e

-- When the last client that is online leaves, everybody on the list is told, the list is emptied and
-- the loop of `members_handler` ends. The last text of the client, if it is taken then, ends the loop
-- of `message_hendler`; if it was taken before, that loop goes on.
pub members_handler-leave_last :
    (junk : Entry) (s : Server) (pre post xs : List Entry) (e : Entry) (name : Bytes)
    → IsServer s (pre ++ e ∷ post) xs
    → Missing e.id pre
    → IsName name
    → s.members_online ≤ 1
    → (g : Server) × (members_handler junk s (member_text 0 name e.id)
        ≡ some (g, told (pre ++ off e ∷ post) (member_text 0 name e.id), true))
      × (g.members.size ≡ 0)
      × (message_hendler junk g (message_text 4 name e.id) ≡ some (g, [], true))
      × (message_hendler junk s (message_text 4 name e.id) ≡ some (s, [], false))
unfolding finish left
members_handler-leave_last junk s pre post xs e name h a n few =
    let (m, f, t) = set_offline-off s.members pre post e e.id h.members a (ground arith) in
    let stop : leb (s.members_online - 1) 0 ≡ true = ground arith in
    let size = length-append pre (e ∷ post) in
    let some_member : leb s.members.size 0 ≡ false = ground (arith, size, h.members.size) in
    let g : Server = record (left s m) { members = record m { size = 0 } } in
    (
      g,
      members_handler-left junk s m name e.id n f
          ∙ rw
              (
                in_use-IsTable m (pre ++ off e ∷ post) t,
                stop,
                broadcast-told (pre ++ off e ∷ post) (member_text 0 name e.id),
              )
              refl,
      refl,
      message_hendler-farewell junk g name e.id ∙ zero_size g refl,
      message_hendler-farewell junk s name e.id ∙ ap (λ b. some (s, [], b)) some_member,
    )
