-- ===== src/Pipeline/Parse/Commands.antt =====
-- `parse` against a description of the line by its fields.
use eltex_course.Base.{
  ℕ, zero, suc, ◌+◌, ◌-◌, ◌<◌, ◌≡◌, refl, sym, ap, ◌∙◌, inl, inr, List, [], ◌∷◌, ◌++◌, Option, some,
  if◌then◌else◌, leb, lt→ltb, Bytes, length, take, arith, length-snoc, append-snoc, append-nil,
}
use eltex_course.Strtok.Fields.{fields, strtok-Takes}
use eltex_course.Pipeline.Parse.{
  Command, is_bar, max_args, chomp, trim, arg_loop, command, put, com_step, com_loop, parse,
}
use eltex_course.Pipeline.Parse.Fields.{words, Trimmed, blank, text, trim-Trimmed, arg_loop-take}

-- The command of the words of a segment, before others; none without words.
abbrev pub cons_command : List Bytes → List Command → List Command
cons_command [] cs = cs
cons_command (a ∷ more) cs = record { path = a; args = a ∷ more } ∷ cs

-- Of each segment between bars the first fifteen words, if there are any.
unfoldable pub spec_commands : List Bytes → List Command
spec_commands [] = []
spec_commands (f ∷ fs) = cons_command (take (max_args - 1) (words f)) (spec_commands fs)

-- The array behind the commands has room for one more.
abbrev pub Room : List Command → ℕ → Type 0
Room cs size = length cs < size

put-Room :
    (cs : List Command) (size : ℕ) (c : Command)
    → Room cs size
    → (n : ℕ) × (put cs size c ≡ some (cs ++ c ∷ [], n)) × Room (cs ++ c ∷ []) n
unfolding put
put-Room cs size c h = (
  if leb size (length cs + 1) then size + 1 else size,
  rw (lt→ltb (length cs) size h) refl,
  ground (arith, length-snoc cs c),
)

abbrev Stepped : List Command → Bytes → Option (List Command × ℕ) → Type 0
Stepped cs f r =
    (g : List Command) × (n : ℕ) × (r ≡ some (g, n))
    × Room g n
    × ((more : List Command) → g ++ more ≡ cs ++ cons_command (take (max_args - 1) (words f)) more)

com_step-Stepped :
    (f : Bytes) (cs : List Command) (size : ℕ) (t : Bytes)
    → trim f ≡ t
    → Trimmed f t
    → Room cs size
    → Stepped cs f (com_step f cs size)
unfolding com_step command
com_step-Stepped f cs size [] e (blank n) h =
    (cs, size, rw (e, com_step) refl, h, λ more. rw n refl)
com_step-Stepped f cs size (b ∷ bs) e (text a more_words n same) h =
    let c : Command = record { path = a; args = a ∷ take 14 more_words } in
    let (m, put_c, room) = put-Room cs size c h in
    let got : arg_loop 15 (b ∷ bs) ≡ a ∷ take 14 more_words =
      arg_loop-take 15 (b ∷ bs) ∙ ap (take 15) (same ∙ n) in
    (
      cs ++ c ∷ [],
      m,
      rw (e, com_step) (rw (got, put_c, com_step) refl),
      room,
      λ more. rw n (append-snoc cs c more),
    )

com_loop-spec_commands :
    (k : ℕ) (s : Bytes) (cs : List Command) (size : ℕ)
    → length s < k
    → Room cs size
    → com_loop k s cs size ≡ some (cs ++ spec_commands (fields is_bar s))
unfolding com_loop spec_commands
com_loop-spec_commands zero s cs size fuel room = absurd (omega arith)
com_loop-spec_commands (suc k) s cs size fuel room = elim (strtok-Takes is_bar s) [
  | inl (e, n) ↦ rw (e, com_loop, n) (ap some (sym (append-nil cs)))
  | inr (f, t, e, fs, shorter) ↦
      let (g, m, stepped, room', out) =
        com_step-Stepped f cs size (trim f) refl (trim-Trimmed f) room in
      rw (e, com_loop)
        (rw (stepped, com_loop, fs)
          (com_loop-spec_commands k t g m (omega arith) room'
            ∙ ap some (out (spec_commands (fields is_bar t)))))
]

-- `parse` ends on every line without an access outside its arrays. Its commands are, in order, those
-- of the segments between bars, up to the end of the line, that have a word: the first word is the
-- path, and the first fifteen words are the arguments.
pub parse-spec_commands :
    (str : Bytes) → parse str ≡ some (spec_commands (fields is_bar (chomp str)))
unfolding parse
parse-spec_commands str =
    com_loop-spec_commands (length (chomp str) + 1) (chomp str) [] 1 (omega arith) (omega arith)
