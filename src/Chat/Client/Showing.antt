-- ===== src/Chat/Client/Showing.antt =====
-- What a client shows, and the messages of members that have left.
use eltex_course.Base.{
  ℕ, ◌+◌, ◌≡◌, refl, ap, List, [], ◌∷◌, ◌++◌, none, some, Option-cases, inl, inr,
}
use eltex_course.Chat.Table.{Entry, Table, data_get_line}
use eltex_course.Chat.Table.Laws.{IsTable, Missing, position, data_find-position}
use eltex_course.Chat.Server.{Server, shair_database}
use eltex_course.Chat.Server.Entering.{IsServer, in_use-IsTable}
use eltex_course.Chat.Server.Messages.{said}
use eltex_course.Chat.Client.{Client, receive_all, shown_messages, refresh_handler}
use eltex_course.Chat.Client.Joining.{
  AllNames, AllSaid, online, all_said, texts, fresh_client, receive_all-shair_database,
}

position-Missing : (es : List Entry) (id n : ℕ) → Missing id es → position es id n ≡ none
unfolding position
position-Missing [] id n h = refl
position-Missing (e ∷ es) id n h = rw h.0 (position-Missing es id (n + 1) h.1)

-- For an id that no entry in use has `data_get_line` reads in front of the array.
pub data_get_line-Missing :
    (m : Table) (es : List Entry) (id : ℕ)
    → IsTable m es
    → Missing id es
    → data_get_line m id ≡ none
unfolding data_get_line
data_get_line-Missing m es id t h =
    rw (data_find-position m es id t, position-Missing es id 0 h) refl

shown_messages_missing :
    (m : Table) (pre post : List Entry) (x : Entry)
    → data_get_line m x.id ≡ none
    → shown_messages m (pre ++ x ∷ post) ≡ none
unfolding shown_messages
shown_messages_missing m [] post x e = rw e refl
shown_messages_missing m (y ∷ pre) post x e =
    let rest = shown_messages_missing m pre post x e in
    elim (Option-cases (data_get_line m y.id)) [
      | inl lost ↦ rw lost refl
      | inr (name, found) ↦ rw (found, rest) refl
    ]

all_said-append :
    (junk : Entry) (pre post : List Entry) (x : Entry)
    → all_said junk (pre ++ x ∷ post)
      ≡ all_said junk pre ++ said junk x.line x.id ∷ all_said junk post
all_said-append junk [] post x = refl
all_said-append junk (y ∷ pre) post x =
    ap (◌∷◌ (said junk y.line y.id)) (all_said-append junk pre post x)

-- Where a message of the server comes from a process that is not among the members online, a client
-- that enters reads the whole answer, and its next refresh reads in front of its array of members.
pub refresh_handler_departed :
    (junk : Entry) (s : Server) (ms pre post : List Entry) (x : Entry) (pid : ℕ)
    → IsServer s ms (pre ++ x ∷ post)
    → AllNames ms
    → AllSaid (pre ++ x ∷ post)
    → Missing x.id (online ms)
    → (c : Client) × (receive_all junk (fresh_client junk) (texts (shair_database s pid)) ≡ some c)
      × (refresh_handler c ≡ none)
unfolding refresh_handler
refresh_handler_departed junk s ms pre post x pid h n a away =
    let (c, r, i) = receive_all-shair_database junk s ms (pre ++ x ∷ post) pid h n a in
    let lost = data_get_line-Missing c.members (online ms) x.id i.members away in
    (
      c,
      r,
      rw
          (
            in_use-IsTable c.messages (all_said junk (pre ++ x ∷ post)) i.messages,
            all_said-append junk pre post x,
            shown_messages_missing c.members (all_said junk pre) (all_said junk post)
                (said junk x.line x.id) lost,
          )
          refl,
    )
