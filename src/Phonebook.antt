-- ===== src/Phonebook.antt =====
-- task4/abonent_directory.c: the phone book in an array of 100 records of three `char[10]`.
-- A buffer is the list of its bytes. The words that `scanf("%9s")` reads and the choice of the
-- menu are the arguments of `step`; what `printf` shows of the records is its second result.
-- `none` is an access outside the array.
pub mod Fields
pub mod Shows
pub mod Book
pub mod Search
pub mod Listing
pub mod Menu
pub mod Init
mod Tests
use eltex_course.Base.{
  ℕ, zero, suc, ◌+◌, ◌-◌, Bool, List, [], ◌∷◌, ◌++◌, Option, none, some, ◌==◌, ltb, if◌then◌else◌,
  length, get_elem?, set, take, replicate, Bytes, str_eq, c_str, strcpy,
}
use eltex_course.Base.{◌>>=◌}

pub record Abonent : Type 0 where
  pub name : List ℕ
  pub second_name : List ℕ
  pub tel : List ℕ

pub record Directory : Type 0 where
  pub directory : List Abonent
  pub capacity : ℕ

-- The loop writes each of the ten bytes.
unfoldable pub clear_data : List ℕ → List ℕ
clear_data d = replicate 10 0

unfoldable pub clear_abonent : Abonent → Abonent
unfolding clear_data
clear_abonent ab = record {
  name = clear_data ab.name;
  second_name = clear_data ab.second_name;
  tel = clear_data ab.tel;
}

-- `copy_data(data, place)`
unfoldable pub copy_data : List ℕ → List ℕ → List ℕ
copy_data d place = strcpy place d

pub clear_all : List Abonent → List Abonent
clear_all [] = []
clear_all (ab ∷ abs) = clear_abonent ab ∷ clear_all abs

-- On the uninitialised array of `main`.
unfoldable pub directory_init : List Abonent → Directory
unfolding clear_all clear_abonent
directory_init raw = record { directory = clear_all raw; capacity = 0 }

-- The rounds left of `for(; i < 100; i++)`; the result -1 is `none`.
unfoldable pub find_loop : ℕ → List ℕ → List Abonent → ℕ → Option ℕ
find_loop zero d dir i = none
find_loop (suc k) d dir i =
    let rest = find_loop k d dir (i + 1) in
    elim (get_elem? dir i) [
      | none ↦ none
      | some ab ↦ if str_eq (c_str d) (c_str ab.name) then some i else rest
    ]

unfoldable pub find_abonent_index : List ℕ → Directory → ℕ → Option ℕ
unfolding find_loop
find_abonent_index d dir index = find_loop (100 - index) d dir.directory index

-- What `print_abonent` shows.
pub record Entry : Type 0 where
  pub name : Bytes
  pub second_name : Bytes
  pub tel : Bytes

unfoldable pub print_abonent : Abonent → Entry
print_abonent ab = record {
  name = c_str ab.name;
  second_name = c_str ab.second_name;
  tel = c_str ab.tel;
}

-- `scanf("%9s", data); data[9] = '\0';` at the word `w`
unfoldable pub scan_data : List ℕ → Bytes → List ℕ
scan_data d w = set (strcpy d w) 9 0

update : Directory → ℕ → Abonent → Directory
update dir i ab = record dir { directory = set dir.directory i ab }

-- `case 1`, with room
unfoldable pub add_abonent : Directory → List ℕ → Entry → Option Directory
unfolding update
add_abonent dir d e = do
  ab ← get_elem? dir.directory dir.capacity
  some
      (record (update dir dir.capacity (record {
        name = copy_data (scan_data (clear_data d) e.name) ab.name;
        second_name = copy_data (scan_data (clear_data d) e.second_name) ab.second_name;
        tel = copy_data (scan_data (clear_data d) e.tel) ab.tel;
      })) { capacity = dir.capacity + 1 })

-- One round of the shift: the three `copy_data` from `index + 1` to `index`.
unfoldable pub copy_abonent : List Abonent → ℕ → Option (List Abonent)
copy_abonent dir index = do
  from ← get_elem? dir (index + 1)
  to ← get_elem? dir index
  some (
      set dir index (record {
        name = copy_data from.name to.name;
        second_name = copy_data from.second_name to.second_name;
        tel = copy_data from.tel to.tel;
      }))

unfoldable pub shift : ℕ → List Abonent → ℕ → Option (List Abonent)
shift zero dir index = some dir
shift (suc k) dir index = copy_abonent dir index >>= λ dir'. shift k dir' (index + 1)

unfoldable pub clear_at : List Abonent → ℕ → Option (List Abonent)
clear_at dir i = do ab ← get_elem? dir i; some (set dir i (clear_abonent ab))

-- `case 2`, from the found index on. The loop ends at `capacity`, or where it began if that lies
-- behind.
unfoldable pub remove_abonent : Directory → ℕ → Option Directory
unfolding clear_at shift copy_abonent
remove_abonent dir index = do
  dir1 ← clear_at dir.directory index
  let capacity = dir.capacity - 1
  dir2 ← shift (capacity - index) dir1 index
  dir3 ← clear_at dir2 (index + (capacity - index))
  some (record { directory = dir3; capacity = capacity })

pub data Shown : Type 0 where
  entry : Entry → Shown
  full nobody_registered no_such_abonent nobody_of_that_name : Shown

abbrev pub after : Option ℕ → ℕ
after none = 0
after (some i) = i + 1

-- The loop of `case 3`; `index` is the last hit, and -1, `none`, at the start. A hit is greater
-- than the index before it, a miss is less, or equal to the -1 of the start.
unfoldable pub search_loop : ℕ → List ℕ → Directory → Option ℕ → List Shown
search_loop zero d dir index = []
search_loop (suc k) d dir index = elim (find_abonent_index d dir (after index)) [
  | none ↦ elim index [ none ↦ nobody_of_that_name ∷ [] | some _ ↦ [] ]
  | some i ↦ elim (get_elem? dir.directory i) [
    | none ↦ []
    | some ab ↦ entry (print_abonent ab) ∷ search_loop k d dir (some i)
  ]
]

print_all : List Abonent → List Shown
print_all [] = []
print_all (ab ∷ abs) = entry (print_abonent ab) ∷ print_all abs

-- The choices of the menu that do something, with the words read.
pub data Choice : Type 0 where
  add : Entry → Choice
  remove search : Bytes → Choice
  show : Choice

pub step_add : Directory → List ℕ → Entry → Option (Directory × List Shown)
step_add dir d e =
    if dir.capacity == 100
    then some (dir, full ∷ [])
    else (add_abonent dir d e >>= λ dir'. some (dir', []))

pub step_remove : Directory → List ℕ → Bytes → Option (Directory × List Shown)
step_remove dir d w =
    if dir.capacity == 0
    then some (dir, nobody_registered ∷ [])
    else elim (find_abonent_index (scan_data d w) dir 0) [
      | none ↦ some (dir, no_such_abonent ∷ [])
      | some i ↦ remove_abonent dir i >>= λ dir'. some (dir', [])
    ]

pub step_search : Directory → List ℕ → Bytes → Option (Directory × List Shown)
unfolding clear_data search_loop
step_search dir d w = some (dir, search_loop 101 (scan_data (clear_data d) w) dir none)

pub step_show : Directory → Option (Directory × List Shown)
unfolding print_all
step_show dir = some (dir, print_all (take dir.capacity dir.directory))

-- One round of the loop of `main`; `d` is what the buffer `data` holds before it.
pub step : Directory → List ℕ → Choice → Option (Directory × List Shown)
unfolding step_add step_remove step_search step_show
step dir d (add e) = step_add dir d e
step dir d (remove w) = step_remove dir d w
step dir d (search w) = step_search dir d w
step dir d show = step_show dir
