-- ===== src/Phonebook/Tests.antt =====
-- The phone book with two entries, and its theorems at these inputs.
use eltex_course.Base.{ℕ, zero, suc, ◌≡◌, refl, List, [], ◌∷◌, some, arith, replicate, c_str}
use eltex_course.Phonebook.{
  Abonent, Directory, Entry, Choice, add, remove, search, show, directory_init, add_abonent,
  remove_abonent, step,
}
use eltex_course.Phonebook.Shows.{Shows, Holds}
use eltex_course.Phonebook.Fields.{IsWord}
use eltex_course.Phonebook.Book.{IsBook, IsWords, blanks, add_abonent-append, remove_abonent-append}
use eltex_course.Phonebook.Menu.{Steps, spec_entries, spec_shown, step-Steps}
use eltex_course.Phonebook.Init.{run, run_shown, run_entries, run-run_shown, directory_init-IsBook}

abbrev zeros : List ℕ
zeros = replicate 10 0

abbrev empty : Abonent
empty = record { name = zeros; second_name = zeros; tel = zeros }

-- The words "a", "b" and "c" in buffers; the second has rubbish behind the terminator.
abbrev ann : Abonent
ann = record {
  name = 97 ∷ replicate 9 0;
  second_name = 98 ∷ 0 ∷ replicate 8 5;
  tel = 49 ∷ replicate 9 0;
}

abbrev ann_entry : Entry
ann_entry = record { name = 97 ∷ []; second_name = 98 ∷ []; tel = 49 ∷ [] }

abbrev bob_entry : Entry
bob_entry = record { name = 99 ∷ []; second_name = 98 ∷ []; tel = 50 ∷ [] }

abbrev bob : Abonent
bob = record {
  name = 99 ∷ replicate 9 0;
  second_name = 98 ∷ replicate 9 0;
  tel = 50 ∷ replicate 9 0;
}

abbrev stocked : Directory
stocked = record { directory = ann ∷ bob ∷ replicate 98 empty; capacity = 2 }

empties-Shows : (n : ℕ) → Shows (replicate n empty) (blanks n)
unfolding c_str
empties-Shows zero = tt
empties-Shows (suc n) = (
  record {
    name = record { size = refl; text = refl; short = omega arith };
    second_name = record { size = refl; text = refl; short = omega arith };
    tel = record { size = refl; text = refl; short = omega arith };
  },
  empties-Shows n,
)

ann-Holds : Holds ann ann_entry
unfolding c_str
ann-Holds = record {
  name = record { size = refl; text = refl; short = omega arith };
  second_name = record { size = refl; text = refl; short = omega arith };
  tel = record { size = refl; text = refl; short = omega arith };
}

bob-Holds : Holds bob bob_entry
unfolding c_str
bob-Holds = record {
  name = record { size = refl; text = refl; short = omega arith };
  second_name = record { size = refl; text = refl; short = omega arith };
  tel = record { size = refl; text = refl; short = omega arith };
}

stocked-IsBook : IsBook stocked (ann_entry ∷ bob_entry ∷ [])
stocked-IsBook = record {
  room = 98;
  sized = refl;
  capacity = refl;
  shows = (ann-Holds, (bob-Holds, empties-Shows 98));
}

word : (c : ℕ) → (c ≡ 0 → ⊥) → IsWord (c ∷ [])
word c h = record { no_zero = (h, tt); short = omega arith }

words : IsWords bob_entry
words = record {
  name = word 99 (omega arith);
  second_name = word 98 (omega arith);
  tel = word 50 (omega arith);
}

add_abonent-append_example :
    (g : Directory) × (add_abonent stocked zeros bob_entry ≡ some g)
    × IsBook g (ann_entry ∷ bob_entry ∷ bob_entry ∷ [])
add_abonent-append_example =
    add_abonent-append stocked (ann_entry ∷ bob_entry ∷ []) zeros bob_entry stocked-IsBook
      (omega arith) words

remove_abonent-append_example :
    (g : Directory) × (remove_abonent stocked 0 ≡ some g) × IsBook g (bob_entry ∷ [])
remove_abonent-append_example =
    remove_abonent-append stocked [] ann_entry (bob_entry ∷ []) stocked-IsBook

step-Steps_example :
    Steps
      (step stocked zeros (remove (99 ∷ [])))
      (spec_entries (ann_entry ∷ bob_entry ∷ []) (remove (99 ∷ [])))
      (spec_shown (ann_entry ∷ bob_entry ∷ []) (remove (99 ∷ [])))
step-Steps_example =
    step-Steps stocked (ann_entry ∷ bob_entry ∷ []) zeros (remove (99 ∷ [])) stocked-IsBook refl
      (word 99 (omega arith), omega arith)

abbrev session : List (List ℕ × Choice)
session = (zeros, add bob_entry) ∷ (zeros, search (99 ∷ [])) ∷ (zeros, show) ∷ []

run-run_shown_example :
    (g : Directory) × (run stocked session
      ≡ some (g, run_shown (ann_entry ∷ bob_entry ∷ []) session))
    × IsBook g (run_entries (ann_entry ∷ bob_entry ∷ []) session)
run-run_shown_example =
    run-run_shown stocked (ann_entry ∷ bob_entry ∷ []) session stocked-IsBook
      (refl, words, (refl, (word 99 (omega arith), omega arith), (refl, tt, tt)))

directory_init-IsBook_example : IsBook (directory_init (replicate 100 ann)) []
directory_init-IsBook_example = directory_init-IsBook (replicate 100 ann) refl
