-- ===== src/Chat/Keyboard.antt =====
-- task13/chat/src/client.c, `main`: the line that is typed, and the messages that a session sends.
-- `KEY_BACKSPACE` is a constant of ncurses, the argument `key_backspace`. A key is what `wgetch` gives; of
-- it `line` keeps a byte. `none` is a write outside of `line` or of `mtext`, or through
-- a pointer that has no value.
pub mod Editing
pub mod Sending
use eltex_course.Base.{
  ℕ, zero, suc, ◌+◌, ◌-◌, ◌%◌, Bool, true, false, ◌||◌, List, [], ◌∷◌, ◌++◌, Option, none, some,
  ◌==◌, ltb, if◌then◌else◌, length, set, Bytes, str_eq, c_str, ◌>>=◌,
}
use eltex_course.Chat.Protocol.{send_message}
use eltex_course.Chat.Client.{exit_text}

pub record Input : Type 0 where
  pub line : List ℕ
  pub pos : ℕ

pub data Typed : Type 0 where
  more : Input → Typed
  entered : Bytes → Input → Typed
  left : Typed

-- `line[i] = ch`
unfoldable pub put_byte : Input → ℕ → Option (List ℕ)
put_byte s ch = if ltb s.pos (length s.line) then some (set s.line s.pos (ch % 256)) else none

-- `ch == '\n'`
unfoldable pub enter_line : Input → Option Typed
enter_line s = do
  line ← put_byte s 0
  if str_eq (c_str line) exit_text
      then some left
      else some (entered (c_str line) (record { line = line; pos = 0 }))

module _ (key_backspace : ℕ) where
  unfoldable pub is_backspace : ℕ → Bool
  is_backspace ch = ch == key_backspace || (ch == 127 || ch == 8)

  -- One key.
  unfoldable pub press : Input → ℕ → Option Typed
  press s ch =
      if ch == 10
      then enter_line s
      else if is_backspace ch
      then some (more (if ltb 0 s.pos then record s { pos = s.pos - 1 } else s))
      else if ltb s.pos 255
      then (put_byte s ch >>= λ line. some (more (record { line = line; pos = s.pos + 1 })))
      else some (more s)

  -- The lines that a sequence of keys enters, and whether the last one was "!exit"; what is typed
  -- after it is not read.
  unfoldable pub after_key :
      Typed → (Input → Option (List Bytes × Bool)) → Option (List Bytes × Bool)
  after_key (more s) next = next s
  after_key (entered text s) next = next s >>= λ r. some (text ∷ r.0, r.1)
  after_key left next = some ([], true)

  unfoldable pub type_keys : Input → List ℕ → Option (List Bytes × Bool)
  type_keys s [] = some ([], false)
  type_keys s (ch ∷ chs) = press s ch >>= λ t. after_key t (λ s'. type_keys s' chs)

-- The messages of the lines, one after another.
unfoldable pub send_lines {ℓ} : {M : Type ℓ} → (Bytes → Option M) → List Bytes → Option (List M)
send_lines send [] = some []
send_lines send (line ∷ lines) = do m ← send line; ms ← send_lines send lines; some (m ∷ ms)

-- From "!exit" on. `res` has no value when `pthread_join` writes through it: `res_is_address` says whether
-- it happens to hold an address that takes the writes.
unfoldable pub farewell : ℕ → Bytes → Bool → Option (List (ℕ × Bytes))
farewell pid name res_is_address = do
  m ← send_message pid exit_text pid 3
  last ← (if res_is_address then send_message pid name 1 0 else none)
  end ← send_message pid name 2 4
  some (m ∷ last ∷ end ∷ [])

-- What a session sends, in order: the name, the lines, and the end. `junk` is what `line` holds
-- first; the threads of the client are taken to end by `exit_flag`, before they read a text more.
unfoldable pub session : ℕ → ℕ → Bytes → List ℕ → Bool → List ℕ → Option (List (ℕ × Bytes))
session key_backspace pid name junk res_is_address keys = do
  hello ← send_message pid name 1 1
  (lines, is_over) ← type_keys key_backspace (record { line = junk; pos = 0 }) keys
  said ← send_lines (λ line. send_message pid line 2 3) lines
  end ← (if is_over then farewell pid name res_is_address else some [])
  some (hello ∷ (said ++ end))
