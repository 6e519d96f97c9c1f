-- ===== src/Chat/Protocol/Laws.antt =====
-- The texts taken apart by `strtok` and `atoi`.
use eltex_course.Base.{ℕ, ◌<◌, ◌≡◌, refl, ◌∙◌, [], ◌∷◌, ◌++◌, none, some, length, Bytes, arith}
use eltex_course.Decimal.{decimal, AllDigits, decimal-AllDigits, decimal_nonempty}
use eltex_course.Strtok.{strtok, skip}
use eltex_course.Strtok.Words.{Solid, strtok-word, strtok-last}
use eltex_course.Chat.Protocol.{is_space, is_angle}

AllDigits-Solid-space : (cs : Bytes) → AllDigits cs → Solid is_space cs
AllDigits-Solid-space [] h = tt
AllDigits-Solid-space (c ∷ cs) h = (ground arith, AllDigits-Solid-space cs h.2)

decimal-Solid : (n : ℕ) → Solid is_space (decimal n)
decimal-Solid n = AllDigits-Solid-space (decimal n) (decimal-AllDigits n)

-- A nickname is one word, and a line of the chat is a text without the mark of its end.
pub record IsName (name : Bytes) : Type 0 where
  pub solid : Solid is_space name
  pub some_bytes : 0 < length name

pub record IsLine (line : Bytes) : Type 0 where
  pub solid : Solid is_angle line
  pub some_bytes : 0 < length line

-- The first word of every text is its marker.
pub strtok-marker :
    (marker : ℕ) (rest : Bytes)
    → strtok is_space (decimal marker ++ 32 ∷ rest) ≡ some (decimal marker, rest)
strtok-marker marker rest =
    strtok-word is_space (decimal marker) 32 rest (decimal-Solid marker) (decimal_nonempty marker)
      refl

pub strtok-name :
    (name rest : Bytes) → IsName name → strtok is_space (name ++ 32 ∷ rest) ≡ some (name, rest)
strtok-name name rest h = strtok-word is_space name 32 rest h.solid h.some_bytes refl

pub strtok-line :
    (line rest : Bytes) → IsLine line → strtok is_angle (line ++ 62 ∷ rest) ≡ some (line, rest)
strtok-line line rest h = strtok-word is_angle line 62 rest h.solid h.some_bytes refl

pub strtok-pid : (pid : ℕ) → strtok is_space (decimal pid) ≡ some (decimal pid, [])
strtok-pid pid = strtok-last is_space (decimal pid) (decimal-Solid pid) (decimal_nonempty pid)

AllDigits-Solid-angle : (cs : Bytes) → AllDigits cs → Solid is_angle cs
AllDigits-Solid-angle [] h = tt
AllDigits-Solid-angle (c ∷ cs) h = (ground arith, AllDigits-Solid-angle cs h.2)

strtok-delim : (cs : Bytes) → strtok is_angle (62 ∷ cs) ≡ strtok is_angle cs
unfolding strtok skip
strtok-delim cs = refl

-- With no byte before the mark the process id is taken for the line.
pub strtok_no_line : (pid : ℕ) → strtok is_angle (62 ∷ decimal pid) ≡ some (decimal pid, [])
strtok_no_line pid =
    strtok-delim (decimal pid)
    ∙ strtok-last is_angle (decimal pid)
        (AllDigits-Solid-angle (decimal pid) (decimal-AllDigits pid)) (decimal_nonempty pid)

-- And there is nothing left to take for the process id.
pub strtok_end : strtok is_space [] ≡ none
unfolding strtok skip
strtok_end = refl
