-- ===== src/Pipeline/Main.antt =====
-- The loop of `main`: what the shell does with a line, up to the waits.
use eltex_course.Base.{
  Bool, true, false, List, [], ◌∷◌, Option, none, some, if◌then◌else◌, Bytes, str_eq,
}
use eltex_course.Pipeline.Descriptors.{Table, Descriptor, std_in, std_out, dup2, close, when, same}
use eltex_course.Pipeline.Parse.{Command, parse}

-- `command_handler(com, in, out)`, up to `execvp`
unfoldable pub command_handler : Descriptor → Descriptor → Table → Table
unfolding dup2
command_handler from to t =
    let t1 = when (not_same from std_in) (λ s. close from (dup2 from std_in s)) t in
    when (not_same to std_out) (λ s. close to (dup2 to std_out s)) t1
  where
    not_same : Descriptor → Descriptor → Bool
    not_same a b = if same a b then false else true

pub data Action : Type 0 where
  leave : Action
  single : Command → Action
  pipeline : List Command → Action

by_count : List Command → Action
by_count [] = pipeline []
by_count (c ∷ []) = single c
by_count (c ∷ d ∷ cs) = pipeline (c ∷ d ∷ cs)

abbrev exit_line : Bytes
exit_line = 101 ∷ 120 ∷ 105 ∷ 116 ∷ 10 ∷ []

-- `none` is a fault in `parse`. A line without a word goes to `pipeline_handler` with no commands, since
-- the source tests `count == 1` only.
unfoldable pub line_action : Bytes → Option Action
unfolding by_count
line_action line =
    if str_eq line exit_line
    then some leave
    else elim (parse line) [ none ↦ none | some cs ↦ some (by_count cs) ]
