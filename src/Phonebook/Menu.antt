-- ===== src/Phonebook/Menu.antt =====
-- The choices of the menu against the list of the entries.
use mathlib.Core.Path.{subst}
use eltex_course.Base.{
  ℕ, ◌<◌, ◌≡◌, refl, sym, ap, ◌∙◌, inl, inr, true, false, List, [], ◌∷◌, ◌++◌, Option, some, arith,
  Bool-cases, if◌then◌else◌, length, keep, map, Bytes, str_eq, length-append, take, ◌==◌,
}
use eltex_course.Phonebook.{
  Abonent, Directory, Entry, Shown, entry, full, nobody_registered, no_such_abonent,
  nobody_of_that_name, find_abonent_index, scan_data, clear_data, step_search, step_remove,
  step_add, step_show, print_all, Choice, add, remove, search, show, step,
}
use eltex_course.Phonebook.Fields.{IsWord, scan_data-IsField, scan_cleared-IsField}
use eltex_course.Phonebook.Shows.{Shows, Holds-print}
use eltex_course.Phonebook.Book.{IsBook, IsWords, blanks, add_abonent-append, remove_abonent-append}
use eltex_course.Phonebook.Search.{index_from, Hit, find_abonent_index-index_from, index_from-cases}
use eltex_course.Phonebook.Listing.{
  called, erase, erase-hit, erase-miss, keep-Hit, search_loop-start,
}

str_eq-empty : (w : Bytes) → 0 < length w → str_eq w [] ≡ false
unfolding str_eq
str_eq-empty [] h = absurd (omega arith)
str_eq-empty (c ∷ w) h = refl

erase-none : (w : Bytes) (es : List Entry) → (length es == 0) ≡ true → erase w es ≡ es
unfolding erase
erase-none w [] h = refl
erase-none w (e ∷ es) h = ground arith

-- What the menu makes of the entries, and what it shows.
unfoldable pub spec_entries : List Entry → Choice → List Entry
spec_entries es (add e) = if length es == 100 then es else es ++ e ∷ []
spec_entries es (remove w) = erase w es
spec_entries es (search w) = es
spec_entries es show = es

unfoldable pub spec_shown : List Entry → Choice → List Shown
spec_shown es (add e) = if length es == 100 then full ∷ [] else []
spec_shown es (remove w) =
    if length es == 0
    then nobody_registered ∷ []
    else elim (keep (called w) es) [ [] ↦ no_such_abonent ∷ [] | _ ∷ _ ↦ [] ]
spec_shown es (search w) = elim (keep (called w) es) [
  | [] ↦ nobody_of_that_name ∷ []
  | e ∷ more ↦ map entry (e ∷ more)
]
spec_shown es show = map entry es

-- The words are of `scanf("%9s")`, and the name that is looked for is not empty.
abbrev pub Read : Choice → Type 0
Read (add e) = IsWords e
Read (remove w) = IsWord w × (0 < length w)
Read (search w) = IsWord w × (0 < length w)
Read show = Unit {0}

abbrev pub Steps : Option (Directory × List Shown) → List Entry → List Shown → Type 0
Steps r es out = (g : Directory) × (r ≡ some (g, out)) × IsBook g es

print_all-Shows :
    (abs : List Abonent) (es : List Entry) → Shows abs es → print_all abs ≡ map entry es
unfolding print_all
print_all-Shows [] [] h = refl
print_all-Shows [] (e ∷ es) h = absurd h
print_all-Shows (a ∷ abs) [] h = absurd h
print_all-Shows (a ∷ abs) (e ∷ es) h = rw (Holds-print a e h.0, print_all-Shows abs es h.1) refl

Shows-take :
    (abs : List Abonent) (es rest : List Entry)
    → Shows abs (es ++ rest)
    → Shows (take (length es) abs) es
Shows-take abs [] rest h = tt
Shows-take [] (e ∷ es) rest h = absurd h
Shows-take (a ∷ abs) (e ∷ es) rest h = (h.0, Shows-take abs es rest h.1)

module _ (dir : Directory) (es : List Entry) (d : List ℕ) (b : IsBook dir es)
    (size : length d ≡ 10) where
  step_add-Steps :
      (e : Entry)
      → IsWords e
      → Steps (step_add dir d e) (spec_entries es (add e)) (spec_shown es (add e))
  unfolding step_add spec_entries spec_shown
  step_add-Steps e r = elim (Bool-cases (length es == 100)) [
    | inl is_full ↦ rw (b.capacity, is_full) (dir, rw b.capacity refl, b)
    | inr room ↦
        let (g, got, b') = add_abonent-append dir es d e b (ground (arith, b.sized)) r in
        rw (ap (λ n. n == 100) b.capacity ∙ room, room, got) (g, refl, b')
  ]

  step_remove-Hit :
      (w : Bytes) (i : ℕ)
      → IsWord w
      → index_from w es 0 ≡ some i
      → Hit w es 0 i
      → find_abonent_index (scan_data d w) dir 0 ≡ some i
      → Steps (step_remove dir d w) (spec_entries es (remove w)) (spec_shown es (remove w))
  unfolding step_remove spec_entries spec_shown
  step_remove-Hit w i r e hit found =
      let (g, got, b') =
        remove_abonent-append dir hit.before hit.found hit.behind
          (subst (IsBook dir) hit.split b) in
      let busy : (length es == 0) ≡ false =
        ground (arith, ap length hit.split, length-append hit.before (hit.found ∷ hit.behind)) in
      let at : i ≡ length hit.before = omega (arith, hit.position) in
      rw (ap (λ n. n == 0) b.capacity ∙ busy, found, at, got, busy, keep-Hit es hit, step_remove)
        (
          g,
          refl,
          subst (IsBook g)
              (sym (
                ap (erase w) hit.split
                ∙ erase-hit w hit.before hit.found hit.behind hit.none_before hit.named))
              b',
        )

  step_remove-Steps :
      (w : Bytes)
      → Read (remove w)
      → Steps (step_remove dir d w) (spec_entries es (remove w)) (spec_shown es (remove w))
  unfolding step_remove spec_entries spec_shown
  step_remove-Steps w r = elim (Bool-cases (length es == 0)) [
    | inl none_left ↦
        rw (ap (λ n. n == 0) b.capacity ∙ none_left, none_left)
          (dir, refl, subst (IsBook dir) (sym (erase-none w es none_left)) b)
    | inr busy ↦
        let f = scan_data-IsField d w size r.0 in
        let found =
          find_abonent_index-index_from dir [] es (scan_data d w) w b f.text (str_eq-empty w r.1) in
        elim (index_from-cases w es 0) [
          | inl (n, no_more) ↦
              rw (ap (λ n. n == 0) b.capacity ∙ busy, found ∙ n, busy, no_more, step_remove)
                (dir, refl, subst (IsBook dir) (sym (erase-miss w es no_more)) b)
          | inr (i, e, hit) ↦ step_remove-Hit w i r.0 e hit (found ∙ e)
        ]
  ]

  step_search-Steps :
      (w : Bytes)
      → Read (search w)
      → Steps (step_search dir d w) (spec_entries es (search w)) (spec_shown es (search w))
  unfolding step_search spec_entries spec_shown
  step_search-Steps w r =
      let f = scan_cleared-IsField d w r.0 in
      (
        dir,
        ap (λ out. some (dir, out))
            (search_loop-start dir (scan_data (clear_data d) w) w f.text (str_eq-empty w r.1) es b),
        b,
      )

  step_show-Steps : Steps (step_show dir) (spec_entries es show) (spec_shown es show)
  unfolding step_show spec_entries spec_shown
  step_show-Steps = (
    dir,
    ap (λ out. some (dir, out))
        (rw b.capacity
          (print_all-Shows _ es (Shows-take dir.directory es (blanks b.room) b.shows))),
    b,
  )

-- Every choice of the menu keeps the book well formed, and does to its entries, and shows of them,
-- what the specification says; no access leaves the array.
pub step-Steps :
    (dir : Directory) (es : List Entry) (d : List ℕ) (c : Choice)
    → IsBook dir es
    → length d ≡ 10
    → Read c
    → Steps (step dir d c) (spec_entries es c) (spec_shown es c)
unfolding step
step-Steps dir es d (add e) b size r = step_add-Steps dir es d b size e r
step-Steps dir es d (remove w) b size r = step_remove-Steps dir es d b size w r
step-Steps dir es d (search w) b size r = step_search-Steps dir es d b size w r
step-Steps dir es d show b size r = step_show-Steps dir es d b size
