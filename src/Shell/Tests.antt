-- ===== src/Shell/Tests.antt =====
-- The simple shell at a line.
use eltex_course.Base.{◌≡◌, refl, [], ◌∷◌, some, Bytes}
use eltex_course.Strtok.{skip, word, behind, strtok}
use eltex_course.Strtok.Fields.{split}
use eltex_course.Shell.{parse_command, parse_command-fields}

-- "ls  -l\n"
abbrev line : Bytes
line = 108 ∷ 115 ∷ 32 ∷ 32 ∷ 45 ∷ 108 ∷ 10 ∷ []

parse_command_line : parse_command line ≡ some ((108 ∷ 115 ∷ []) ∷ (45 ∷ 108 ∷ []) ∷ [])
unfolding parse_command strtok skip word behind
parse_command_line = refl

parse_command-fields_example : parse_command line ≡ some ((108 ∷ 115 ∷ []) ∷ (45 ∷ 108 ∷ []) ∷ [])
unfolding split
parse_command-fields_example = parse_command-fields line
