-- ===== src/Pipeline/Descriptors.antt =====
-- `pipeline_handler` and `command_handler`: what the descriptors of the shell and of its children
-- refer to. A descriptor is named by the variable that holds it: 0, 1 and the entries of `pipes`,
-- which are different numbers while they are open; none is opened again after a close. `close` and
-- `dup2` on a closed descriptor fail and change nothing; their results are not looked at.
-- Whether `pipe` and `fork` succeed is an argument.
use eltex_course.Base.{
  ℕ, zero, suc, ◌+◌, ◌-◌, Bool, true, false, List, [], ◌∷◌, Option, none, some, ◌==◌, ltb,
  if◌then◌else◌,
}

pub data Descriptor : Type 0 where
  std_in std_out : Descriptor
  pipe_read pipe_write : ℕ → Descriptor

pub data File : Type 0 where
  terminal_in terminal_out : File
  read_end write_end : ℕ → File

abbrev pub Table : Type 0
Table = Descriptor → Option File

abbrev pub same : Descriptor → Descriptor → Bool
same std_in std_in = true
same std_out std_out = true
same (pipe_read i) (pipe_read j) = i == j
same (pipe_write i) (pipe_write j) = i == j
same _ _ = false

unfoldable pub assign : Table → Descriptor → Option File → Table
assign t d f e = if same e d then f else t e

abbrev pub close : Descriptor → Table → Table
close d t = assign t d none

unfoldable pub dup2 : Descriptor → Descriptor → Table → Table
dup2 from to t = elim (t from) [ none ↦ t | some f ↦ assign t to (some f) ]

abbrev pub pipe : ℕ → Table → Table
pipe i t = assign (assign t (pipe_read i) (some (read_end i))) (pipe_write i) (some (write_end i))

abbrev pub when : Bool → (Table → Table) → Table → Table
when b f t = if b then f t else t

-- The loop of calls of `pipe`, with the rounds left; `none` is `exit(EXIT_FAILURE)`.
unfoldable pub make_pipes : (ℕ → Bool) → ℕ → ℕ → Table → Option Table
make_pipes ok zero i t = some t
make_pipes ok (suc k) i t =
    let rest = make_pipes ok k (i + 1) (pipe i t) in if ok i then rest else none

-- `close(pipes[j][0]); close(pipes[j][1]);` for each `j`
unfoldable pub close_all : ℕ → ℕ → Table → Table
close_all zero j t = t
close_all (suc k) j t = close_all k (j + 1) (close (pipe_write j) (close (pipe_read j) t))

-- The child `i` of `count`, up to `execvp`.
unfoldable pub child : ℕ → ℕ → Table → Table
unfolding dup2 close_all
child count i t =
    let t1 =
      when (ltb 0 i) (λ s. close (pipe_read (i - 1)) (dup2 (pipe_read (i - 1)) std_in s)) t in
    let t2 =
      when (ltb i (count - 1)) (λ s. close (pipe_write i) (dup2 (pipe_write i) std_out s)) t1 in
    close_all (count - 1) 0 t2

-- What the shell closes after the fork of the child `i`.
unfoldable pub after_fork : ℕ → ℕ → Table → Table
after_fork count i t =
    when (ltb i (count - 1)) (close (pipe_write i)) (when (ltb 0 i) (close (pipe_read (i - 1))) t)

-- The loop of forks: the tables with which the children call `execvp`, and the shell's own; `none`
-- where a `fork` fails and the shell exits.
unfoldable pub fork_all : (ℕ → Bool) → ℕ → ℕ → ℕ → Table → Option (List Table × Table)
fork_all ok count zero i t = some ([], t)
fork_all ok count (suc k) i t =
    let rest = fork_all ok count k (i + 1) (after_fork count i t) in
    if ok i
    then elim rest [ none ↦ none | some (cs, t') ↦ some (child count i t ∷ cs, t') ]
    else none

-- The descriptors at the waits: the children's, in order, and the shell's.
unfoldable pub pipeline_handler :
    (pipe_ok fork_ok : ℕ → Bool) → ℕ → Table → Option (List Table × Table)
unfolding make_pipes fork_all close_all
pipeline_handler pipe_ok fork_ok count t = elim (make_pipes pipe_ok (count - 1) 0 t) [
  | none ↦ none
  | some t1 ↦ elim (fork_all fork_ok count count 0 t1) [
    | none ↦ none
    | some (cs, t2) ↦ some (cs, close_all (count - 1) 0 t2)
  ]
]

-- A status of `waitpid`: the code of a child that exited, or another end.
pub data Status : Type 0 where
  exited : ℕ → Status
  signalled : Status

-- The loop of waits: the numbers and codes of the commands that are reported.
unfoldable pub reports : ℕ → List Status → List (ℕ × ℕ)
reports i [] = []
reports i (signalled ∷ ss) = reports (i + 1) ss
reports i (exited zero ∷ ss) = reports (i + 1) ss
reports i (exited (suc c) ∷ ss) = (i, suc c) ∷ reports (i + 1) ss
