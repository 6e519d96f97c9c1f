-- ===== src/Chat/Protocol.antt =====
-- The texts of the chat: `send_message` of src/client.c, and the `sprintf` calls of
-- `shair_database` in src/server.c.
pub mod Laws
use eltex_course.Base.{
  ℕ, Bool, List, [], ◌∷◌, ◌++◌, ◌==◌, ltb, length, Option, none, some, if◌then◌else◌, Bytes,
}
use eltex_course.Decimal.{decimal}

abbrev pub is_space : ℕ → Bool
is_space c = c == 32

abbrev pub is_angle : ℕ → Bool
is_angle c = c == 62

-- "%d %s %d"
unfoldable pub member_text : ℕ → Bytes → ℕ → Bytes
member_text marker line pid = decimal marker ++ 32 ∷ (line ++ 32 ∷ decimal pid)

-- "%d %s>%d"
unfoldable pub message_text : ℕ → Bytes → ℕ → Bytes
message_text marker line pid = decimal marker ++ 32 ∷ (line ++ 62 ∷ decimal pid)

-- `send_message(mqid, line, prio, marker)`: the type of the message and its text; `none` is a text that
-- does not fit into the 1000 bytes of `mtext`.
unfoldable pub send_message : ℕ → Bytes → ℕ → ℕ → Option (ℕ × Bytes)
send_message pid line prio marker =
    let text = if prio == 2 then message_text marker line pid else member_text marker line pid in
    if ltb (length text) 1000 then some (prio, text) else none
