-- ===== src/Pipeline/Wiring.antt =====
-- Every child of a pipeline reads the pipe on its left and writes the pipe on its right, and no
-- pipe stays open anywhere else.
use eltex_course.Base.{
  ℕ, zero, suc, ◌+◌, ◌-◌, ◌<◌, ◌≡◌, refl, ap, ◌∙◌, Bool, true, ◌&&◌, List, [], ◌∷◌, none, some,
  ◌==◌, ltb, leb, if◌then◌else◌, arith, length,
}
use mathlib.Core.Path.{subst}
use eltex_course.Pipeline.Descriptors.{
  std_in, std_out, pipe_read, pipe_write, terminal_in, terminal_out, read_end, write_end, Table,
  assign, close, dup2, pipe, make_pipes, close_all, child, after_fork, fork_all, pipeline_handler,
  when,
}

-- The shell before the pipeline: the terminal, and no pipe.
pub record IsShell (t : Table) : Type 0 where
  pub input : t std_in ≡ some terminal_in
  pub output : t std_out ≡ some terminal_out
  pub reads : (j : ℕ) → t (pipe_read j) ≡ none
  pub writes : (j : ℕ) → t (pipe_write j) ≡ none

-- The shell before the fork `i`, of `m` pipes: those that later children use are open.
record AtFork (m i : ℕ) (t : Table) : Type 0 where
  input : t std_in ≡ some terminal_in
  output : t std_out ≡ some terminal_out
  reads : (j : ℕ) → t (pipe_read j) ≡ (if ltb j m && leb i (j + 1) then some (read_end j) else none)
  writes : (j : ℕ) → t (pipe_write j) ≡ (if ltb j m && leb i j then some (write_end j) else none)

-- The child `i`, of `m` pipes.
pub record IsChild (m i : ℕ) (t : Table) : Type 0 where
  pub input : t std_in ≡ (if i == 0 then some terminal_in else some (read_end (i - 1)))
  pub output : t std_out ≡ (if ltb i m then some (write_end i) else some terminal_out)
  pub reads : (j : ℕ) → t (pipe_read j) ≡ none
  pub writes : (j : ℕ) → t (pipe_write j) ≡ none

make_pipes-read :
    (ok : ℕ → Bool) (k i : ℕ) (t : Table)
    → ((j : ℕ) → j < i + k → ok j ≡ true)
    → (g : Table) × (make_pipes ok k i t ≡ some g)
      × (g std_in ≡ t std_in)
      × (g std_out ≡ t std_out)
      × ((j : ℕ)
          → g (pipe_read j)
            ≡ (if leb i j && ltb j (i + k) then some (read_end j) else t (pipe_read j)))
      × ((j : ℕ)
          → g (pipe_write j)
            ≡ (if leb i j && ltb j (i + k) then some (write_end j) else t (pipe_write j)))
unfolding make_pipes assign
make_pipes-read ok zero i t h = (t, refl, refl, refl, λ j. ground arith, λ j. ground arith)
make_pipes-read ok (suc k) i t h =
    let (g, e, a, b, r, w) = make_pipes-read ok k (i + 1) (pipe i t) (λ j lt. h j (omega arith)) in
    (g, rw (h i (omega arith)) e, a, b, λ j. ground (arith, r j), λ j. ground (arith, w j))

close_all-read :
    (k i : ℕ) (t : Table)
    → (close_all k i t std_in ≡ t std_in)
      × (close_all k i t std_out ≡ t std_out)
      × ((j : ℕ)
          → close_all k i t (pipe_read j)
            ≡ (if leb i j && ltb j (i + k) then none else t (pipe_read j)))
      × ((j : ℕ)
          → close_all k i t (pipe_write j)
            ≡ (if leb i j && ltb j (i + k) then none else t (pipe_write j)))
unfolding close_all assign
close_all-read zero i t = (refl, refl, λ j. ground arith, λ j. ground arith)
close_all-read (suc k) i t =
    let (a, b, r, w) = close_all-read k (i + 1) (close (pipe_write i) (close (pipe_read i) t)) in
    (a, b, λ j. ground (arith, r j), λ j. ground (arith, w j))

after_fork-AtFork :
    (count i : ℕ) (t : Table)
    → AtFork (count - 1) i t
    → AtFork (count - 1) (i + 1) (after_fork count i t)
unfolding after_fork assign
after_fork-AtFork count i t h = record {
  input = ground (arith, h.input);
  output = ground (arith, h.output);
  reads = λ j. ground (arith, h.reads j);
  writes = λ j. ground (arith, h.writes j);
}

child-IsChild :
    (count i : ℕ) (t : Table)
    → i < count
    → AtFork (count - 1) i t
    → IsChild (count - 1) i (child count i t)
unfolding child assign dup2
child-IsChild count i t lt h =
    let t1 =
      when (ltb 0 i) (λ s. close (pipe_read (i - 1)) (dup2 (pipe_read (i - 1)) std_in s)) t in
    let t2 =
      when (ltb i (count - 1)) (λ s. close (pipe_write i) (dup2 (pipe_write i) std_out s)) t1 in
    let (a, b, r, w) = close_all-read (count - 1) 0 t2 in
    record {
      input = a ∙ ground (arith, h.input, h.reads (i - 1));
      output = b ∙ ground (arith, h.output, h.writes i);
      reads = λ j. r j ∙ ground (arith, h.reads j, h.reads (i - 1));
      writes = λ j. w j ∙ ground (arith, h.writes j, h.writes i);
    }

-- The children from the number `i` on.
abbrev pub Wired : ℕ → ℕ → List Table → Type 0
Wired m i [] = Unit {0}
Wired m i (c ∷ cs) = IsChild m i c × Wired m (i + 1) cs

fork_all-Wired :
    (ok : ℕ → Bool) (count k i : ℕ) (t : Table)
    → i + k ≡ count
    → ((j : ℕ) → j < count → ok j ≡ true)
    → AtFork (count - 1) i t
    → (cs : List Table) × (g : Table) × (fork_all ok count k i t ≡ some (cs, g))
      × (length cs ≡ k)
      × Wired (count - 1) i cs
      × AtFork (count - 1) count g
unfolding fork_all
fork_all-Wired ok count zero i t e h a =
    ([], t, refl, refl, tt, subst (λ n. AtFork (count - 1) n t) (omega arith) a)
fork_all-Wired ok count (suc k) i t e h a =
    let (cs, g, r, n, w, a') =
      fork_all-Wired ok count k (i + 1) (after_fork count i t) (omega arith) h
        (after_fork-AtFork count i t a) in
    (
      child count i t ∷ cs,
      g,
      rw (h i (omega arith), r) refl,
      ap suc n,
      (child-IsChild count i t (omega arith) a, w),
      a',
    )

make_pipes-AtFork :
    (ok : ℕ → Bool) (m : ℕ) (t : Table)
    → ((j : ℕ) → j < m → ok j ≡ true)
    → IsShell t
    → (g : Table) × (make_pipes ok m 0 t ≡ some g) × AtFork m 0 g
make_pipes-AtFork ok m t pipes s =
    let (g, e, i, o, r, w) = make_pipes-read ok m 0 t (λ j lt. pipes j (omega arith)) in
    (
      g,
      e,
      record {
        input = i ∙ s.input;
        output = o ∙ s.output;
        reads = λ j. r j ∙ ground (arith, s.reads j);
        writes = λ j. w j ∙ ground (arith, s.writes j);
      },
    )

close_all-IsShell :
    (count : ℕ) (t : Table)
    → 0 < count
    → AtFork (count - 1) count t
    → IsShell (close_all (count - 1) 0 t)
close_all-IsShell count t pos h =
    let (i, o, r, w) = close_all-read (count - 1) 0 t in
    record {
      input = i ∙ h.input;
      output = o ∙ h.output;
      reads = λ j. r j ∙ ground (arith, h.reads j);
      writes = λ j. w j ∙ ground (arith, h.writes j);
    }

pipeline_handler-eq :
    (pipe_ok fork_ok : ℕ → Bool) (count : ℕ) (t : Table) {t1 t2 : Table} {cs : List Table}
    → make_pipes pipe_ok (count - 1) 0 t ≡ some t1
    → fork_all fork_ok count count 0 t1 ≡ some (cs, t2)
    → pipeline_handler pipe_ok fork_ok count t ≡ some (cs, close_all (count - 1) 0 t2)
unfolding pipeline_handler
pipeline_handler-eq pipe_ok fork_ok count t e1 e2 =
    rw (e1, pipeline_handler) (rw (e2, pipeline_handler) refl)

-- If every `pipe` and every `fork` succeeds, a pipeline of at least one command starts one child
-- for each: the first reads the terminal and each other one the pipe before it, the last writes the
-- terminal and each other one the pipe behind it; neither a child nor the shell, which keeps its
-- terminal, has another end of a pipe open.
pub pipeline_handler-Wired :
    (pipe_ok fork_ok : ℕ → Bool) (count : ℕ) (t : Table)
    → 0 < count
    → ((j : ℕ) → j < count - 1 → pipe_ok j ≡ true)
    → ((j : ℕ) → j < count → fork_ok j ≡ true)
    → IsShell t
    → (cs : List Table) × (g : Table) × (pipeline_handler pipe_ok fork_ok count t ≡ some (cs, g))
      × (length cs ≡ count)
      × Wired (count - 1) 0 cs
      × IsShell g
pipeline_handler-Wired pipe_ok fork_ok count t pos pipes forks s =
    let (t1, e1, start) = make_pipes-AtFork pipe_ok (count - 1) t pipes s in
    let (cs, t2, e2, n, wired, ended) =
      fork_all-Wired fork_ok count count 0 t1 (omega arith) forks start in
    (
      cs,
      close_all (count - 1) 0 t2,
      pipeline_handler-eq pipe_ok fork_ok count t e1 e2,
      n,
      wired,
      close_all-IsShell count t2 pos ended,
    )
