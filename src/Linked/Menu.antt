-- ===== src/Linked/Menu.antt =====
-- The menu against the list of the entries.
use eltex_course.Base.{
  suc, ◌≤◌, ◌≡◌, refl, ◌≢◌, Bool, true, false, Bool-cases, inl, inr, ◌⊎◌, List, [], ◌∷◌, ◌++◌,
  Option, none, some, ◌==◌, if◌then◌else◌, ap, length, map, take, Bytes, str_eq, c_str,
}
use eltex_course.Linked.{
  Directory, Heap, Entry, Shown, full, nobody_registered, no_such_abonent, wrong_command, abonent,
  abonent_print, Choice, add, remove, search, show, quit, other,
}
use eltex_course.Linked.Chain.{Item, Items}
use eltex_course.Linked.Directories.{IsDirectory, is_called, find}

-- The first ten bytes of a word, as C reads them.
abbrev pub read : Bytes → Bytes
read word = c_str (take 10 word)

abbrev pub read_entry : Entry → Entry
read_entry e = record { name = read e.name; second_name = read e.second_name; tel = read e.tel }

-- Without the first entry of that name.
abbrev pub erase : Bytes → List Entry → List Entry
erase name [] = []
erase name (e ∷ es) = if str_eq e.name name then es else e ∷ erase name es

-- The first entry of that name.
abbrev pub first_called : Bytes → List Entry → List Shown
first_called name [] = no_such_abonent ∷ []
first_called name (e ∷ es) = if str_eq e.name name then abonent e ∷ [] else first_called name es

unfoldable pub spec_entries : List Entry → Choice → List Entry
spec_entries es (add p fresh e) = if length es == 100 then es else es ++ read_entry e ∷ []
spec_entries es (remove word) = erase (read word) es
spec_entries es (search word) = es
spec_entries es show = es
spec_entries es quit = []
spec_entries es other = es

unfoldable pub spec_shown : List Entry → Choice → List Shown
spec_shown es (add p fresh e) = if length es == 100 then full ∷ [] else []
spec_shown es (remove word) = if length es == 0 then nobody_registered ∷ [] else []
spec_shown es (search word) =
    if length es == 0 then nobody_registered ∷ [] else first_called (read word) es
spec_shown es show = map abonent es
spec_shown es quit = []
spec_shown es other = wrong_command ∷ []

abbrev pub goes_on : Choice → Bool
goes_on quit = false
goes_on other = true
goes_on (add p fresh e) = true
goes_on (remove word) = true
goes_on (search word) = true
goes_on show = true

abbrev pub entries : Items → List Entry
entries cs = map (λ c. abonent_print c.abonent) cs

-- The memories hold the entries in this order, and nothing else.
pub record Stands (h : Heap) (d : Directory) (es : List Entry) : Type 0 where
  pub items : Items
  pub is : IsDirectory h d items
  pub same : entries items ≡ es
  pub bound : length es ≤ 100

-- `malloc` gives addresses that hold nothing.
abbrev pub IsFresh : Heap → Choice → Type 0
IsFresh h (add p fresh e) = (p ≢ 0) × (h.abonents p ≡ none) × (fresh ≢ 0) × (h.cells fresh ≡ none)
IsFresh h (remove word) = Unit {0}
IsFresh h (search word) = Unit {0}
IsFresh h show = Unit {0}
IsFresh h quit = Unit {0}
IsFresh h other = Unit {0}

abbrev pub Steps : List Entry → Choice → Option ((Heap × Directory) × List Shown × Bool) → Type 0
Steps es choice r =
    (g : Heap × Directory) × (r ≡ some (g, spec_shown es choice, goes_on choice))
    × Stands g.0 g.1 (spec_entries es choice)

pub length-entries : (cs : Items) → length (entries cs) ≡ length cs
length-entries [] = refl
length-entries (c ∷ cs) = ap suc (length-entries cs)

-- The name is that of no cell, or of one that stands in the list.
unfoldable pub Searched : Bytes → Items → Type 0
Searched name cs =
    ((find name cs ≡ 0)
      × (erase name (entries cs) ≡ entries cs)
      × (first_called name (entries cs) ≡ no_such_abonent ∷ []))
    ⊎ ((xs : Items) × (c : Item) × (ys : Items) × (cs ≡ xs ++ c ∷ ys)
        × (find name cs ≡ c.at)
        × (erase name (entries cs) ≡ entries (xs ++ ys))
        × (first_called name (entries cs) ≡ abonent (abonent_print c.abonent) ∷ []))

pub find-Searched : (name : Bytes) (cs : Items) → Searched name cs
unfolding Searched
find-Searched name [] = inl (refl, refl, refl)
find-Searched name (c ∷ cs) = elim (Bool-cases (is_called name c.abonent)) [
  | inl here ↦ inr ([], c, cs, refl, rw here refl, rw here refl, rw here refl)
  | inr there ↦ elim (find-Searched name cs) [
    | inl (f, e, s) ↦ inl (rw there f, rw there (ap (◌∷◌ (abonent_print c.abonent)) e), rw there s)
    | inr (xs, x, ys, split, f, e, s) ↦ inr (
      c ∷ xs,
      x,
      ys,
      ap (◌∷◌ c) split,
      rw there f,
      rw there (ap (◌∷◌ (abonent_print c.abonent)) e),
      rw there s,
    )
  ]
]
