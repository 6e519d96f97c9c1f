-- ===== src/Pipeline/Tests.antt =====
-- A pipeline of three commands, and its theorems at these inputs.
use eltex_course.Base.{◌≡◌, refl, List, [], ◌∷◌, none, some, true, arith, Bytes, length}
use eltex_course.Strtok.Fields.{split}
use eltex_course.Pipeline.Descriptors.{
  std_in, std_out, pipe_read, pipe_write, terminal_in, terminal_out, Table, pipeline_handler,
}
use eltex_course.Pipeline.Wiring.{IsShell, Wired, pipeline_handler-Wired}
use eltex_course.Pipeline.Parse.{Command, parse, chomp}
use eltex_course.Pipeline.Parse.Commands.{spec_commands, parse-spec_commands}

abbrev shell : Table
shell std_in = some terminal_in
shell std_out = some terminal_out
shell (pipe_read j) = none
shell (pipe_write j) = none

shell-IsShell : IsShell shell
shell-IsShell = record { input = refl; output = refl; reads = λ j. refl; writes = λ j. refl }

pipeline_handler-Wired_example :
    (cs : List Table) × (g : Table) × (pipeline_handler (λ _. true) (λ _. true) 3 shell
      ≡ some (cs, g))
    × (length cs ≡ 3)
    × Wired 2 0 cs
    × IsShell g
pipeline_handler-Wired_example =
    pipeline_handler-Wired (λ _. true) (λ _. true) 3 shell (omega arith) (λ j h. refl) (λ j h. refl)
      shell-IsShell

-- " a b| |c\n"
abbrev line : Bytes
line = 32 ∷ 97 ∷ 32 ∷ 98 ∷ 124 ∷ 32 ∷ 124 ∷ 99 ∷ 10 ∷ []

abbrev line_commands : List Command
line_commands =
    record { path = 97 ∷ []; args = (97 ∷ []) ∷ (98 ∷ []) ∷ [] }
    ∷ record { path = 99 ∷ []; args = (99 ∷ []) ∷ [] }
    ∷ []

parse-spec_commands_example : parse line ≡ some line_commands
unfolding spec_commands split chomp
parse-spec_commands_example = parse-spec_commands line
