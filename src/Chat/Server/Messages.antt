-- ===== src/Chat/Server/Messages.antt =====
-- What the server does with the lines of the chat.
use eltex_course.Base.{ℕ, ◌≡◌, refl, false, List, [], ◌∷◌, ◌++◌, none, some, Bytes, str_eq}
use eltex_course.Decimal.{decimal, atoi-decimal}
use eltex_course.Chat.Table.{Entry}
use eltex_course.Chat.Table.Laws.{data_add-append}
use eltex_course.Chat.Protocol.{message_text}
use eltex_course.Chat.Protocol.Laws.{
  IsLine, strtok-marker, strtok-line, strtok-pid, strtok_no_line, strtok_end,
}
use eltex_course.Chat.Server.{Server, message_hendler, record_message}
use eltex_course.Chat.Server.Entering.{IsServer, in_use-IsTable, told, broadcast-told}

-- What is kept of a line; `is_online` has no meaning in a message.
abbrev pub said : Entry → Bytes → ℕ → Entry
said junk line pid = record junk { line = line; id = pid }

is_line : str_eq (decimal 3) (52 ∷ []) ≡ false
unfolding decimal str_eq
is_line = refl

-- A line that has a byte, and no '>', is told as it came to every member, online or not, and is put
-- behind the messages with the process that sent it.
pub message_hendler-line :
    (junk : Entry) (s : Server) (ms xs : List Entry) (line : Bytes) (pid : ℕ)
    → IsServer s ms xs
    → IsLine line
    → (g : Server) × (message_hendler junk s (message_text 3 line pid)
        ≡ some (g, told ms (message_text 3 line pid), false))
      × IsServer g ms (xs ++ said junk line pid ∷ [])
unfolding message_hendler message_text record_message
message_hendler-line junk s ms xs line pid h l =
    let (x, e, t) = data_add-append junk s.messages xs (said junk line pid) h.messages in
    (
      record s { messages = x },
      rw
          (
            strtok-marker 3 (line ++ 62 ∷ decimal pid),
            is_line,
            strtok-line line (decimal pid) l,
            strtok-pid pid,
          )
          (rw
            (
              atoi-decimal pid,
              e,
              in_use-IsTable s.members ms h.members,
              broadcast-told ms (message_text 3 line pid),
            )
            refl),
      record { members = h.members; messages = t },
    )

-- The empty line, which a client sends when only the end of line is typed, makes `message_hendler`
-- use a `NULL` token.
pub message_hendler_empty_line :
    (junk : Entry) (s : Server) (pid : ℕ) → message_hendler junk s (message_text 3 [] pid) ≡ none
unfolding message_hendler message_text record_message
message_hendler_empty_line junk s pid =
    rw (strtok-marker 3 (62 ∷ decimal pid), is_line, strtok_no_line pid, strtok_end) refl
