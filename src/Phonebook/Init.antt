-- ===== src/Phonebook/Init.antt =====
-- The book that `main` starts with, and runs of the menu from it.
use eltex_course.Base.{ℕ, zero, suc, ◌≡◌, refl, List, [], ◌∷◌, Option, some, arith, length}
use eltex_course.Base.{◌>>=◌}
use eltex_course.Phonebook.{
  Abonent, Directory, Entry, Shown, Choice, directory_init, clear_all, step,
}
use eltex_course.Phonebook.Shows.{Shows, Holds-clear}
use eltex_course.Phonebook.Book.{IsBook, blanks}
use eltex_course.Phonebook.Menu.{Read, spec_entries, spec_shown, step-Steps}

clear_all-Shows : (raw : List Abonent) (n : ℕ) → length raw ≡ n → Shows (clear_all raw) (blanks n)
unfolding clear_all
clear_all-Shows [] zero h = tt
clear_all-Shows [] (suc n) h = absurd (omega arith)
clear_all-Shows (ab ∷ abs) zero h = absurd (omega arith)
clear_all-Shows (ab ∷ abs) (suc n) h = (Holds-clear ab, clear_all-Shows abs n (omega arith))

-- Whatever the array holds at first, `directory_init` makes an empty book of it.
pub directory_init-IsBook : (raw : List Abonent) → length raw ≡ 100 → IsBook (directory_init raw) []
unfolding directory_init
directory_init-IsBook raw h = record {
  room = 100;
  sized = refl;
  capacity = refl;
  shows = clear_all-Shows raw 100 h;
}

-- The rounds of `main`: each with what the buffer `data` holds before it, and the choice.
unfoldable pub run : Directory → List (List ℕ × Choice) → Option (Directory × List (List Shown))
run dir [] = some (dir, [])
run dir ((d, c) ∷ cs) = do
  (dir, out) ← step dir d c
  (dir, outs) ← run dir cs
  some (dir, out ∷ outs)

unfoldable pub run_entries : List Entry → List (List ℕ × Choice) → List Entry
run_entries es [] = es
run_entries es ((d, c) ∷ cs) = run_entries (spec_entries es c) cs

unfoldable pub run_shown : List Entry → List (List ℕ × Choice) → List (List Shown)
run_shown es [] = []
run_shown es ((d, c) ∷ cs) = spec_shown es c ∷ run_shown (spec_entries es c) cs

abbrev pub AllRead : List (List ℕ × Choice) → Type 0
AllRead [] = Unit {0}
AllRead ((d, c) ∷ cs) = (length d ≡ 10) × Read c × AllRead cs

-- A run of the menu over a well-formed book shows what the specification shows, round by round,
-- and leaves a well-formed book of the specified entries.
pub run-run_shown :
    (dir : Directory) (es : List Entry) (cs : List (List ℕ × Choice))
    → IsBook dir es
    → AllRead cs
    → (g : Directory) × (run dir cs ≡ some (g, run_shown es cs)) × IsBook g (run_entries es cs)
unfolding run run_shown run_entries
run-run_shown dir es [] b r = (dir, refl, b)
run-run_shown dir es ((d, c) ∷ cs) b r =
    let (g, e, b') = step-Steps dir es d c b r.0 r.1 in
    let (g', e', b'') = run-run_shown g (spec_entries es c) cs b' r.2 in (g', rw (e, e') refl, b'')
