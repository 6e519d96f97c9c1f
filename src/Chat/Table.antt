-- ===== src/Chat/Table.antt =====
-- task13/chat/include/data.h and src/data.c: the growing table of members, and of messages.
-- `data` is the allocated array, `capacity` entries long; `realloc` succeeds, and what it adds
-- holds whatever `junk` is. An access outside the array is a fault, `none`.
pub mod Deleting
pub mod Laws
use eltex_course.Base.{
  ℕ, zero, suc, ◌+◌, ◌-◌, ◌*◌, Bool, List, [], ◌∷◌, ◌++◌, Option, none, some, ◌==◌, ltb,
  if◌then◌else◌, length, get_elem?, set, replicate, Bytes,
}
use eltex_course.Base.{◌>>=◌}

pub record Entry : Type 0 where
  pub line : Bytes
  pub id : ℕ
  pub is_online : Bool

pub record Table : Type 0 where
  pub size : ℕ
  pub capacity : ℕ
  pub entries : List Entry

unfoldable pub data_init : Entry → Table
data_init junk = record { capacity = 1; size = 0; entries = junk ∷ [] }

-- `m->data[i] = e`
unfoldable pub put : Table → ℕ → Entry → Option Table
put m i e =
    if ltb i (length m.entries) then some (record m { entries = set m.entries i e }) else none

unfoldable pub grown : Entry → Table → Table
grown junk m =
    if m.size == m.capacity
    then record m { capacity = m.capacity * 2; entries = m.entries ++ replicate m.capacity junk }
    else m

unfoldable pub data_add : Entry → Table → Entry → Option Table
data_add junk m e = do m ← put (grown junk m) m.size e; some (record m { size = m.size + 1 })

-- The rounds left of the loop over `i`; -1 is `none`.
unfoldable pub find_loop : ℕ → List Entry → ℕ → ℕ → Option ℕ
find_loop zero es id i = none
find_loop (suc k) es id i =
    let rest = find_loop k es id (i + 1) in
    elim (get_elem? es i) [ none ↦ none | some e ↦ if e.id == id then some i else rest ]

unfoldable pub data_find : Table → ℕ → Option ℕ
unfolding find_loop
data_find m id = find_loop m.size m.entries id 0

-- `m->data[i] = m->data[i+1]`
unfoldable pub shift_loop : ℕ → List Entry → ℕ → Option (List Entry)
shift_loop zero es i = some es
shift_loop (suc k) es i = do
  e ← get_elem? es (i + 1)
  _ ← get_elem? es i
  shift_loop k (set es i e) (i + 1)

-- With no such entry the index is -1: the loop writes before the array, unless the table is empty,
-- where the size becomes -1; both are faults here.
unfoldable pub data_delete : Table → ℕ → Option Table
data_delete m id = do
  index ← data_find m id
  entries ← shift_loop (m.size - 1 - index) m.entries index
  some (record m { entries = entries; size = m.size - 1 })

-- With no such entry it reads `data[-1]`.
unfoldable pub data_get_line : Table → ℕ → Option Bytes
data_get_line m id = do index ← data_find m id; e ← get_elem? m.entries index; some e.line
