-- ===== src/Shell.antt =====
-- task10/simple_bash/src/main.c: `parse_command` of the simple shell. `realloc` succeeds; a write
-- outside the array of tokens is a fault, `none`. The job control around `fork` is not modelled.
mod Tests
use eltex_course.Base.{
  ℕ, zero, suc, ◌+◌, ◌*◌, ◌≤◌, ◌<◌, ◌≡◌, refl, sym, ap, ◌∙◌, ◌⊎◌, inl, inr, Bool, true, false, ◌||◌,
  List, [], ◌∷◌, ◌++◌, Option, none, some, ◌==◌, ltb, leb, lt→ltb, if◌then◌else◌, length, Bytes,
  arith, append-snoc, append-nil, length-snoc,
}
use eltex_course.Strtok.{strtok}
use eltex_course.Strtok.Fields.{fields, strtok-Takes}

-- " \t\r\n\a"
abbrev pub is_delim : ℕ → Bool
is_delim c = c == 32 || c == 9 || c == 13 || c == 10 || c == 7

-- `tokens[position] = token; position++;` and the growth of the array.
unfoldable pub put_token : List Bytes → ℕ → Bytes → Option (List Bytes × ℕ)
put_token tokens buffer_size token =
    if ltb (length tokens) buffer_size
    then some (
      tokens ++ token ∷ [],
      if leb buffer_size (length tokens + 1) then buffer_size * 2 else buffer_size,
    )
    else none

-- At the end `tokens[position] = NULL` must fit.
unfoldable pub token_loop : ℕ → Bytes → List Bytes → ℕ → Option (List Bytes)
unfolding put_token
token_loop zero s tokens buffer_size = none
token_loop (suc k) s tokens buffer_size = elim (strtok is_delim s) [
  | none ↦ if ltb (length tokens) buffer_size then some tokens else none
  | some (token, rest) ↦ elim (put_token tokens buffer_size token) [
    | none ↦ none
    | some (tokens', size') ↦ token_loop k rest tokens' size'
  ]
]

unfoldable pub parse_command : Bytes → Option (List Bytes)
unfolding token_loop
parse_command input = token_loop (length input + 1) input [] 64

put_token-room :
    (tokens : List Bytes) (size : ℕ) (token : Bytes)
    → length tokens < size
    → (n : ℕ) × (put_token tokens size token ≡ some (tokens ++ token ∷ [], n))
      × (length (tokens ++ token ∷ []) < n)
unfolding put_token
put_token-room tokens size token h = (
  if leb size (length tokens + 1) then size * 2 else size,
  rw (lt→ltb (length tokens) size h) refl,
  ground (arith, length-snoc tokens token),
)

token_loop-fields :
    (k : ℕ) (s : Bytes) (tokens : List Bytes) (size : ℕ)
    → length s < k
    → length tokens < size
    → token_loop k s tokens size ≡ some (tokens ++ fields is_delim s)
unfolding token_loop
token_loop-fields zero s tokens size fuel room = absurd (omega arith)
token_loop-fields (suc k) s tokens size fuel room = elim (strtok-Takes is_delim s) [
  | inl (e, n) ↦
      rw (e, token_loop, n, lt→ltb (length tokens) size room) (ap some (sym (append-nil tokens)))
  | inr (w, t, e, f, shorter) ↦
      let (m, put, room') = put_token-room tokens size w room in
      rw (e, token_loop, f)
        (rw (put, token_loop)
          (token_loop-fields k t (tokens ++ w ∷ []) m (omega arith) room'
            ∙ ap some (append-snoc tokens w (fields is_delim t))))
]

-- `parse_command` ends on every line, never writes outside its array, with the terminating `NULL`
-- included, and gives all the words between blanks, in order, however many there are.
pub parse_command-fields : (input : Bytes) → parse_command input ≡ some (fields is_delim input)
unfolding parse_command
parse_command-fields input =
    token_loop-fields (length input + 1) input [] 64 (omega arith) (omega arith)
