-- ===== src/Linked.antt =====
-- task6/DM_abonent_directory.h, DM_abonent_directory.c and main.c: the phone book as a doubly linked
-- list. Cells and abonents are two memories; `malloc` gives the addresses that an operation takes as
-- `fresh`. `none` is a fault of a pointer, or `exit(1)`. The words that `scanf("%10s")` reads and the
-- choice of the menu are the arguments of `step`; what it shows is its second result.
pub mod Chain
pub mod Owned
pub mod Directories
pub mod Adding
pub mod Unlinking
pub mod Removing
pub mod Menu
pub mod Steps
mod Tests
use eltex_course.Base.{
  ℕ, zero, suc, ◌+◌, ◌-◌, Bool, true, false, List, [], ◌∷◌, Option, none, some, ◌==◌, if◌then◌else◌,
  take, replicate, Bytes, str_eq, c_str, strcpy, ◌>>=◌,
}
use eltex_course.Memory.{Ptr, Memory, load, store, fill, release}

pub record Abonent : Type 0 where
  pub name : List ℕ
  pub second_name : List ℕ
  pub tel : List ℕ

pub record Cell : Type 0 where
  pub «data» : Ptr
  pub prev : Ptr
  pub next : Ptr

pub record Directory : Type 0 where
  pub head : Ptr
  pub tail : Ptr
  pub capacity : ℕ

pub record Heap : Type 0 where
  pub cells : Memory Cell
  pub abonents : Memory Abonent

abbrev pub directory_init : Directory
directory_init = record { capacity = 0; head = 0; tail = 0 }

-- `abonent_crate`: eleven times '\n' in each array.
abbrev pub blank : Abonent
blank = record { name = replicate 11 10; second_name = replicate 11 10; tel = replicate 11 10 }

unfoldable pub abonent_crate : Heap → Ptr → Option Heap
abonent_crate h fresh = do
  abonents ← fill h.abonents fresh blank
  some (record h { abonents = abonents })

-- The branch of an empty list, and the other one.
unfoldable pub add_first : Heap → Directory → Ptr → Ptr → Option (Heap × Directory)
add_first h d fresh ab = do
  cells ← fill h.cells fresh (record { «data» = ab; prev = 0; next = 0 })
  some
      (record h { cells = cells }, record { head = fresh; tail = fresh; capacity = d.capacity + 1 })

unfoldable pub add_last : Heap → Directory → Ptr → Ptr → Option (Heap × Directory)
add_last h d fresh ab = do
  cells ← fill h.cells fresh (record { «data» = ab; prev = d.tail; next = 0 })
  last ← load cells d.tail
  cells ← store cells d.tail (record last { next = fresh })
  some (record h { cells = cells }, record d { tail = fresh; capacity = d.capacity + 1 })

unfoldable pub cell_add : Heap → Directory → Ptr → Ptr → Option (Heap × Directory)
cell_add h d fresh ab =
    if d.capacity == 100
    then none
    else if d.head == 0
    then add_first h d fresh ab
    else add_last h d fresh ab

-- The rounds left of the loop; `name` is a C string.
unfoldable pub search_loop : ℕ → Heap → Ptr → Bytes → Option Ptr
search_loop zero h cur name = some cur
search_loop (suc k) h cur name =
    let rest = (do
      x ← load h.cells cur
      ab ← load h.abonents x.«data»
      if str_eq (c_str ab.name) name then some cur else search_loop k h x.next name) in
    if cur == 0 then some cur else rest

unfoldable pub cell_search : Heap → Directory → Bytes → Option Ptr
cell_search h d name = search_loop d.capacity h d.head name

unfoldable pub free_loop : ℕ → Heap → Ptr → Option Heap
free_loop zero h cur = some h
free_loop (suc k) h cur =
    let rest = (do
      x ← load h.cells cur
      abonents ← release h.abonents x.«data»
      cells ← release h.cells cur
      free_loop k (record { cells = cells; abonents = abonents }) x.next) in
    if cur == 0 then some h else rest

unfoldable pub dir_free : Heap → Directory → Option (Heap × Directory)
dir_free h d =
    free_loop d.capacity h d.head >>= λ h. some (h, record { capacity = 0; head = 0; tail = 0 })

-- `p->prev = v`, `p->next = v`
unfoldable pub set_prev : Memory Cell → Ptr → Ptr → Option (Memory Cell)
set_prev m p v = load m p >>= λ n. store m p (record n { prev = v })

unfoldable pub set_next : Memory Cell → Ptr → Ptr → Option (Memory Cell)
set_next m p v = load m p >>= λ n. store m p (record n { next = v })

-- `free(cell->data); free(cell);` at the end of each branch.
unfoldable pub free_cell :
    Memory Cell → Memory Abonent → Directory → Ptr → Ptr → Option (Heap × Directory)
free_cell cells abonents d cell ab = do
  abonents ← release abonents ab
  cells ← release cells cell
  some (record { cells = cells; abonents = abonents }, record d { capacity = d.capacity - 1 })

unfoldable pub remove_head : Heap → Directory → Ptr → Cell → Option (Heap × Directory)
remove_head h d cell x = do
  cells ← (if x.next == 0 then some h.cells else set_prev h.cells x.next 0)
  free_cell cells h.abonents (record d { head = x.next }) cell x.«data»

unfoldable pub remove_tail : Heap → Directory → Ptr → Cell → Option (Heap × Directory)
remove_tail h d cell x = do
  cells ← (if x.prev == 0 then some h.cells else set_next h.cells x.prev 0)
  free_cell cells h.abonents (record d { tail = x.prev }) cell x.«data»

unfoldable pub remove_middle : Heap → Directory → Ptr → Cell → Option (Heap × Directory)
remove_middle h d cell x = do
  cells ← set_prev h.cells x.next x.prev
  cells ← set_next cells x.prev x.next
  free_cell cells h.abonents d cell x.«data»

unfoldable pub cell_remove : Heap → Directory → Ptr → Option (Heap × Directory)
cell_remove h d cell =
    if cell == 0
    then some (h, d)
    else (load h.cells cell >>= λ x.
        if d.head == cell
        then remove_head h d cell x
        else if d.tail == cell
        then remove_tail h d cell x
        else remove_middle h d cell x)

-- What the program shows.
pub record Entry : Type 0 where
  pub name : Bytes
  pub second_name : Bytes
  pub tel : Bytes

pub data Shown : Type 0 where
  full : Shown
  nobody_registered : Shown
  no_such_abonent : Shown
  wrong_command : Shown
  abonent : Entry → Shown

abbrev pub abonent_print : Abonent → Entry
abonent_print ab = record {
  name = c_str ab.name;
  second_name = c_str ab.second_name;
  tel = c_str ab.tel;
}

-- A choice of the menu with the words that are read, and the addresses of a new abonent and its cell.
pub data Choice : Type 0 where
  add : Ptr → Ptr → Entry → Choice
  remove : Bytes → Choice
  search : Bytes → Choice
  show : Choice
  quit : Choice
  other : Choice

-- `scanf("%10s", place)` at a word.
abbrev pub scan : List ℕ → Bytes → List ℕ
scan place word = strcpy place (take 10 word)

unfoldable pub scan_abonent : Heap → Ptr → Entry → Option Heap
scan_abonent h p e = do
  ab ← load h.abonents p
  abonents ← store h.abonents p (record {
    name = scan ab.name e.name;
    second_name = scan ab.second_name e.second_name;
    tel = scan ab.tel e.tel;
  })
  some (record h { abonents = abonents })

unfoldable pub step_add :
    Heap → Directory → Ptr → Ptr → Entry → Option ((Heap × Directory) × List Shown × Bool)
step_add h d p fresh e =
    if d.capacity == 100
    then some ((h, d), full ∷ [], true)
    else (abonent_crate h p >>= λ h.
        (scan_abonent h p e >>= λ h. (cell_add h d fresh p >>= λ g. some (g, [], true))))

-- The name is read into an array of its own.
unfoldable pub step_remove :
    Heap → Directory → Bytes → Option ((Heap × Directory) × List Shown × Bool)
step_remove h d word =
    if d.capacity == 0
    then some ((h, d), nobody_registered ∷ [], true)
    else (cell_search h d (c_str (take 10 word)) >>= λ p.
        (cell_remove h d p >>= λ g. some (g, [], true)))

unfoldable pub show_cell : Heap → Ptr → Option Shown
show_cell h p = do
  x ← load h.cells p
  ab ← load h.abonents x.«data»
  some (abonent (abonent_print ab))

unfoldable pub step_search :
    Heap → Directory → Bytes → Option ((Heap × Directory) × List Shown × Bool)
step_search h d word =
    if d.capacity == 0
    then some ((h, d), nobody_registered ∷ [], true)
    else (cell_search h d (c_str (take 10 word)) >>= λ p.
        (if p == 0
          then some ((h, d), no_such_abonent ∷ [], true)
          else (show_cell h p >>= λ s. some ((h, d), s ∷ [], true))))

-- `while(cur)`, on fuel.
unfoldable pub show_loop : ℕ → Heap → Ptr → Option (List Shown)
show_loop zero h cur = none
show_loop (suc k) h cur =
    let rest = (do
      s ← show_cell h cur
      x ← load h.cells cur
      more ← show_loop k h x.next
      some (s ∷ more)) in
    if cur == 0 then some [] else rest

-- One round of the menu; the last part says whether it goes on.
unfoldable pub step :
    ℕ → Heap → Directory → Choice → Option ((Heap × Directory) × List Shown × Bool)
step fuel h d (add p fresh e) = step_add h d p fresh e
step fuel h d (remove word) = step_remove h d word
step fuel h d (search word) = step_search h d word
step fuel h d show = show_loop fuel h d.head >>= λ shown. some ((h, d), shown, true)
step fuel h d quit = dir_free h d >>= λ g. some (g, [], false)
step fuel h d other = some ((h, d), wrong_command ∷ [], true)
