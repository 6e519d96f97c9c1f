-- ===== src/Linked/Tests.antt =====
-- The directory with two abonents, in cells at 8 and 9.
use eltex_course.Base.{◌≡◌, refl, false, [], ◌∷◌, none, some, arith}
use eltex_course.Memory.{Memory, write}
use eltex_course.Linked.{Abonent, Cell, Directory, Heap, remove, cell_remove, step}
use eltex_course.Linked.Chain.{Item, Items, cell, has}
use eltex_course.Linked.Owned.{owns, Only, Only-more}
use eltex_course.Linked.Directories.{IsDirectory}
use eltex_course.Linked.Removing.{cell_remove-IsDirectory}
use eltex_course.Linked.Menu.{Steps, entries}
use eltex_course.Linked.Steps.{step-Stands}

abbrev ann : Abonent
ann = record { name = 97 ∷ 0 ∷ []; second_name = 98 ∷ 0 ∷ []; tel = 49 ∷ 0 ∷ [] }

abbrev bob : Abonent
bob = record { name = 98 ∷ 0 ∷ []; second_name = 0 ∷ []; tel = 50 ∷ 0 ∷ [] }

abbrev first_item : Item
first_item = record { at = 8; «data» = 4; abonent = ann }

abbrev second_item : Item
second_item = record { at = 9; «data» = 5; abonent = bob }

abbrev no_cells : Memory Cell
no_cells a = none

abbrev no_abonents : Memory Abonent
no_abonents a = none

abbrev heap : Heap
heap = record {
  cells = write (write no_cells 8 (some (cell first_item 0 9))) 9 (some (cell second_item 8 0));
  abonents = write (write no_abonents 4 (some ann)) 5 (some bob);
}

abbrev directory : Directory
directory = record { head = 8; tail = 9; capacity = 2 }

abbrev items : Items
items = first_item ∷ second_item ∷ []

nothing : (N : Type 0) → Only {N = N} (λ a. none) (λ a. false)
unfolding Only
nothing N = λ a out. refl

cells-Only : Only heap.cells (λ a. has a items)
cells-Only =
    Only-more (write no_cells 8 (some (cell first_item 0 9))) (λ a. has a (first_item ∷ []))
      (λ a. has a items) 9 _
      (Only-more no_cells (λ a. false) (λ a. has a (first_item ∷ [])) 8 _ (nothing Cell)
        (λ a. refl))
      (λ a. ground arith)

abonents-Only : Only heap.abonents (λ a. owns a items)
abonents-Only =
    Only-more (write no_abonents 4 (some ann)) (λ a. owns a (first_item ∷ [])) (λ a. owns a items) 5
      _
      (Only-more no_abonents (λ a. false) (λ a. owns a (first_item ∷ [])) 4 _ (nothing Abonent)
        (λ a. refl))
      (λ a. ground arith)

directory-IsDirectory : IsDirectory heap directory items
unfolding write
directory-IsDirectory = record {
  head = refl;
  tail = refl;
  capacity = refl;
  chain = (omega arith, refl, (omega arith, refl, tt));
  distinct = (refl, (refl, tt));
  owned = (omega arith, refl, refl, (omega arith, refl, refl, tt));
  only_cells = cells-Only;
  only_abonents = abonents-Only;
}

cell_remove-IsDirectory_example :
    (g : Heap × Directory) × (cell_remove heap directory 9 ≡ some g)
    × IsDirectory g.0 g.1 (first_item ∷ [])
cell_remove-IsDirectory_example =
    cell_remove-IsDirectory heap directory second_item (first_item ∷ []) [] directory-IsDirectory

step-Stands_example :
    Steps (entries items) (remove (97 ∷ [])) (step 3 heap directory (remove (97 ∷ [])))
step-Stands_example =
    step-Stands 3 heap directory (entries items) (remove (97 ∷ []))
      (record { items = items; is = directory-IsDirectory; same = refl; bound = omega arith }) tt
      (omega arith)
