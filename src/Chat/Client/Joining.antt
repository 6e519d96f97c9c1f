-- ===== src/Chat/Client/Joining.antt =====
-- A client that has entered, and what it makes of the answer of the server.
use eltex_course.Base.{
  ℕ, ◌≡◌, refl, sym, ap, ◌∙◌, true, false, Bool-cases, inl, inr, List, [], ◌∷◌, ◌++◌, some,
  append-snoc, append-nil, keep, Bytes, str_eq,
}
use eltex_course.Decimal.{decimal, atoi-decimal}
use eltex_course.Chat.Table.{Entry, data_init}
use eltex_course.Chat.Table.Laws.{IsTable, data_add-append, data_init-IsTable}
use eltex_course.Chat.Protocol.{member_text, message_text}
use eltex_course.Chat.Protocol.Laws.{
  IsName, IsLine, strtok-marker, strtok-name, strtok-line, strtok-pid,
}
use eltex_course.Chat.Server.{Server, Send, share_members, share_messages, shair_database}
use eltex_course.Chat.Server.Entering.{IsServer, member, shair_database-IsServer}
use eltex_course.Chat.Server.Messages.{said}
use eltex_course.Chat.Client.{
  Client, exit_text, message_handler, receive_member, receive_message, add_message, receive_all,
}

-- The client shows the members `ms` and the messages `xs`, and goes on.
pub record IsClient (c : Client) (ms xs : List Entry) : Type 0 where
  pub members : IsTable c.members ms
  pub messages : IsTable c.messages xs
  pub running : c.stopped ≡ false

-- A line that does not end the client that reads it.
pub record IsSaid (line : Bytes) : Type 0 where
  pub is_line : IsLine line
  pub no_exit : str_eq line exit_text ≡ false

no_leave : str_eq (decimal 1) (48 ∷ []) ≡ false
unfolding decimal str_eq
no_leave = refl

is_member : str_eq (decimal 1) (49 ∷ []) ≡ true
unfolding decimal str_eq
is_member = refl

no_leave_said : str_eq (decimal 3) (48 ∷ []) ≡ false
unfolding decimal str_eq
no_leave_said = refl

no_member_said : str_eq (decimal 3) (49 ∷ []) ≡ false
unfolding decimal str_eq
no_member_said = refl

pub message_handler-member :
    (junk : Entry) (c : Client) (ms xs : List Entry) (name : Bytes) (pid : ℕ)
    → IsClient c ms xs
    → IsName name
    → (g : Client) × (message_handler junk c (member_text 1 name pid) ≡ some g)
      × IsClient g (ms ++ member name pid ∷ []) xs
unfolding message_handler member_text receive_member
message_handler-member junk c ms xs name pid h n =
    let (m, e, t) = data_add-append junk c.members ms (member name pid) h.members in
    (
      record c { members = m },
      rw
          (
            strtok-marker 1 (name ++ 32 ∷ decimal pid),
            no_leave,
            is_member,
            strtok-name name (decimal pid) n,
            strtok-pid pid,
          )
          (rw (atoi-decimal pid, e) refl),
      record { members = t; messages = h.messages; running = h.running },
    )

pub message_handler-message :
    (junk : Entry) (c : Client) (ms xs : List Entry) (line : Bytes) (pid : ℕ)
    → IsClient c ms xs
    → IsSaid line
    → (g : Client) × (message_handler junk c (message_text 3 line pid) ≡ some g)
      × IsClient g ms (xs ++ said junk line pid ∷ [])
unfolding message_handler message_text receive_message add_message
message_handler-message junk c ms xs line pid h l =
    let (x, e, t) = data_add-append junk c.messages xs (said junk line pid) h.messages in
    (
      record c { messages = x },
      rw
          (
            strtok-marker 3 (line ++ 62 ∷ decimal pid),
            no_leave_said,
            no_member_said,
            strtok-line line (decimal pid) l.is_line,
            l.no_exit,
            strtok-pid pid,
          )
          (rw (atoi-decimal pid, e) refl),
      record { members = h.members; messages = t; running = h.running },
    )

-- The texts of what is sent.
abbrev pub texts : List Send → List Bytes
texts [] = []
texts (s ∷ ss) = s.1 ∷ texts ss

abbrev pub online : List Entry → List Entry
online es = keep (λ e. e.is_online) es

abbrev pub all_said : Entry → List Entry → List Entry
all_said junk [] = []
all_said junk (e ∷ es) = said junk e.line e.id ∷ all_said junk es

abbrev pub AllNames : List Entry → Type 0
AllNames [] = Unit {0}
AllNames (e ∷ es) = IsName e.line × AllNames es

abbrev pub AllSaid : List Entry → Type 0
AllSaid [] = Unit {0}
AllSaid (e ∷ es) = IsSaid e.line × AllSaid es

receive_all-first :
    (junk : Entry) (c g : Client) (t : Bytes) (ts : List Bytes)
    → c.stopped ≡ false
    → message_handler junk c t ≡ some g
    → receive_all junk c (t ∷ ts) ≡ receive_all junk g ts
unfolding receive_all
receive_all-first junk c g t ts r e = rw (e, r) refl

-- The texts in `ts` make `g` of `c`, whatever follows.
Receives : Entry → Client → List Bytes → Client → Type 0
Receives junk c ts g = (us : List Bytes) → receive_all junk c (ts ++ us) ≡ receive_all junk g us

receive_all-share_messages :
    (junk : Entry) (pid : ℕ) (es : List Entry) (c : Client) (ms xs : List Entry)
    → IsClient c ms xs
    → AllSaid es
    → (g : Client) × Receives junk c (texts (share_messages es pid)) g
      × IsClient g ms (xs ++ all_said junk es)
unfolding share_messages Receives
receive_all-share_messages junk pid [] c ms xs h a = (c, λ us. refl, rw (append-nil xs) h)
receive_all-share_messages junk pid (e ∷ es) c ms xs h a =
    let (c', e', h') = message_handler-message junk c ms xs e.line e.id h a.0 in
    let (g, r, i) = receive_all-share_messages junk pid es c' ms _ h' a.1 in
    (
      g,
      λ us. receive_all-first junk c c' _ _ h.running e' ∙ r us,
      rw (sym (append-snoc xs (said junk e.line e.id) (all_said junk es))) i,
    )

receive_all-share_members :
    (junk : Entry) (pid : ℕ) (es : List Entry) (c : Client) (ms xs : List Entry)
    → IsClient c ms xs
    → AllNames es
    → (g : Client) × Receives junk c (texts (share_members es pid)) g
      × IsClient g (ms ++ online es) xs
unfolding share_members Receives
receive_all-share_members junk pid [] c ms xs h a = (c, λ us. refl, rw (append-nil ms) h)
receive_all-share_members junk pid (e ∷ es) c ms xs h a = elim (Bool-cases e.is_online) [
  | inr off ↦ rw off (receive_all-share_members junk pid es c ms xs h a.1)
  | inl on ↦
      let (c', e', h') = message_handler-member junk c ms xs e.line e.id h a.0 in
      let (g, r, i) = receive_all-share_members junk pid es c' _ xs h' a.1 in
      (
        g,
        λ us. rw on (receive_all-first junk c c' _ _ h.running e' ∙ r us),
        rw on (rw (sym (append-snoc ms (member e.line e.id) (online es))) i),
      )
]

texts-append : (ss ts : List Send) → texts (ss ++ ts) ≡ texts ss ++ texts ts
texts-append [] ts = refl
texts-append (s ∷ ss) ts = ap (◌∷◌ s.1) (texts-append ss ts)

-- What `message_handler` starts with.
unfoldable pub fresh_client : Entry → Client
fresh_client junk = record { members = data_init junk; messages = data_init junk; stopped = false }

fresh_client-IsClient : (junk : Entry) → IsClient (fresh_client junk) [] []
unfolding fresh_client
fresh_client-IsClient junk = record {
  members = data_init-IsTable junk;
  messages = data_init-IsTable junk;
  running = refl;
}

-- A client that reads the answer of a server to its entering, where all names are words and no line
-- is the one that ends a client, shows the members that the server holds online and all messages of
-- the server, in the same order, and goes on.
pub receive_all-shair_database :
    (junk : Entry) (s : Server) (ms xs : List Entry) (pid : ℕ)
    → IsServer s ms xs
    → AllNames ms
    → AllSaid xs
    → (g : Client) × (receive_all junk (fresh_client junk) (texts (shair_database s pid)) ≡ some g)
      × IsClient g (online ms) (all_said junk xs)
unfolding Receives receive_all
receive_all-shair_database junk s ms xs pid h n a =
    let (c, r, i) =
      receive_all-share_members junk pid ms (fresh_client junk) [] [] (fresh_client-IsClient junk)
        n in
    let (g, q, j) = receive_all-share_messages junk pid xs c (online ms) [] i a in
    (
      g,
      ap (λ t. receive_all junk (fresh_client junk) (texts t))
            (shair_database-IsServer s ms xs pid h)
          ∙ ap (receive_all junk (fresh_client junk))
              (texts-append (share_members ms pid) (share_messages xs pid))
          ∙ r (texts (share_messages xs pid))
          ∙ ap (receive_all junk c) (sym (append-nil (texts (share_messages xs pid))))
          ∙ q [],
      j,
    )
