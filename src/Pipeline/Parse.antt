-- ===== src/Pipeline/Parse.antt =====
-- `parse`: a line to a list of commands. Memory is always given out; an index outside an array, an
-- empty `args` and a loop out of rounds are `none`.
pub mod Fields
pub mod Commands
use eltex_course.Base.{
  ℕ, zero, suc, ◌+◌, ◌-◌, Bool, true, false, ◌&&◌, List, [], ◌∷◌, ◌++◌, Option, none, some, ◌==◌,
  ltb, leb, if◌then◌else◌, length, Bytes,
}
use eltex_course.Strtok.{skip, strtok}

pub record Command : Type 0 where
  pub path : Bytes
  pub args : List Bytes

abbrev pub is_space : ℕ → Bool
is_space c = c == 32

abbrev pub is_bar : ℕ → Bool
is_bar c = c == 124

abbrev pub max_args : ℕ
max_args = 16

-- `str[strcspn(str, "\n")] = '\0'`
unfoldable pub chomp : Bytes → Bytes
chomp [] = []
chomp (c ∷ cs) = if c == 10 then [] else c ∷ chomp cs

abbrev pub cons_unless : Bool → ℕ → Bytes → Bytes
cons_unless true c [] = []
cons_unless true c (d ∷ ds) = c ∷ d ∷ ds
cons_unless false c r = c ∷ r

-- The text without the spaces at its end.
unfoldable pub drop_end : Bytes → Bytes
drop_end [] = []
drop_end (c ∷ cs) = cons_unless (is_space c) c (drop_end cs)

-- `end` stops at the first byte at the latest.
unfoldable pub drop_end_after_first : Bytes → Bytes
unfolding drop_end
drop_end_after_first [] = []
drop_end_after_first (c ∷ cs) = c ∷ drop_end cs

unfoldable pub trim : Bytes → Bytes
unfolding drop_end_after_first
trim segment = drop_end_after_first (skip is_space segment)

-- The loop over the arguments, with the rounds left before `break`.
unfoldable pub arg_loop : ℕ → Bytes → List Bytes
arg_loop zero s = []
arg_loop (suc k) s = elim (strtok is_space s) [
  | none ↦ []
  | some (arg, rest) ↦ arg ∷ arg_loop k rest
]

-- `path` is a copy of `args[0]`.
unfoldable pub command : List Bytes → Option Command
command [] = none
command (a ∷ more) = some (record { path = a; args = a ∷ more })

-- `commands[*count] = …; (*count)++;` and the growth of the array behind it.
unfoldable pub put : List Command → ℕ → Command → Option (List Command × ℕ)
put cs size c =
    if ltb (length cs) size
    then some (cs ++ c ∷ [], if leb size (length cs + 1) then size + 1 else size)
    else none

-- `none` is an access outside the array.
unfoldable pub com_step : Bytes → List Command → ℕ → Option (List Command × ℕ)
unfolding put
com_step segment cs size = elim (trim segment) [
  | [] ↦ some (cs, size)
  | b ∷ bs ↦ elim (command (arg_loop (max_args - 1) (b ∷ bs))) [
    | none ↦ none
    | some c ↦ put cs size c
  ]
]

unfoldable pub com_loop : ℕ → Bytes → List Command → ℕ → Option (List Command)
com_loop zero s cs size = none
com_loop (suc k) s cs size = elim (strtok is_bar s) [
  | none ↦ some cs
  | some (segment, rest) ↦ elim (com_step segment cs size) [
    | none ↦ none
    | some (cs', size') ↦ com_loop k rest cs' size'
  ]
]

unfoldable pub parse : Bytes → Option (List Command)
unfolding com_loop
parse str = com_loop (length (chomp str) + 1) (chomp str) [] 1
