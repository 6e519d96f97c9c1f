-- ===== src/Phonebook/Listing.antt =====
-- The search of `case 3`: all entries of a name, and the removal of the first one in the list.
use mathlib.Core.Path.{subst}
use eltex_course.Base.{
  ℕ, zero, suc, ◌+◌, ◌<◌, ◌≡◌, refl, sym, ap, ◌∙◌, inl, inr, Bool, true, false, List, [], ◌∷◌, ◌++◌,
  none, some, arith, if◌then◌else◌, length, get_elem?, keep, map, Bytes, str_eq, c_str,
  get_elem?-length, append-snoc, length-snoc, length-append, append_assoc, keep-append,
}
use eltex_course.Phonebook.{
  Abonent, Directory, Entry, entry, nobody_of_that_name, print_abonent, find_abonent_index,
  search_loop,
}
use eltex_course.Phonebook.Shows.{Holds-print, Shows-get}
use eltex_course.Phonebook.Book.{IsBook, blanks}
use eltex_course.Phonebook.Search.{index_from, Hit, find_abonent_index-index_from, index_from-cases}

abbrev pub called : Bytes → Entry → Bool
called w e = str_eq w e.name

-- The first entry of that name is gone.
unfoldable pub erase : Bytes → List Entry → List Entry
erase w [] = []
erase w (e ∷ es) = if str_eq w e.name then es else e ∷ erase w es

pub erase-hit :
    (w : Bytes) (before : List Entry) (found : Entry) (behind : List Entry)
    → keep (called w) before ≡ []
    → str_eq w found.name ≡ true
    → erase w (before ++ found ∷ behind) ≡ before ++ behind
unfolding erase
erase-hit w [] found behind n h = rw h refl
erase-hit w (e ∷ before) found behind n h = ground (arith, erase-hit w before found behind)

pub erase-miss : (w : Bytes) (es : List Entry) → keep (called w) es ≡ [] → erase w es ≡ es
unfolding erase
erase-miss w [] n = refl
erase-miss w (e ∷ es) n = ground (arith, erase-miss w es)

pub keep-Hit :
    {w : Bytes} {i j : ℕ} (es : List Entry) (hit : Hit w es i j)
    → keep (called w) es ≡ hit.found ∷ keep (called w) hit.behind
keep-Hit {w} es hit =
    rw
      (
        hit.split,
        keep-append (called w) hit.before (hit.found ∷ hit.behind),
        hit.none_before,
        hit.named,
      )
      refl

shorter :
    {w : Bytes} {j k : ℕ} (i : ℕ) (es : List Entry) (hit : Hit w es i j)
    → length es < suc k
    → length hit.behind < k
shorter i es hit fuel =
    omega (arith, ap length hit.split, length-append hit.before (hit.found ∷ hit.behind))

module _ (dir : Directory) (d : List ℕ) (w : Bytes) (h : c_str d ≡ w)
    (ne : str_eq w [] ≡ false) where
  -- The book as the next round of the search sees it.
  record Advanced (pre before : List Entry) (found : Entry) (behind : List Entry) : Type 0 where
    ab : Abonent
    got : get_elem? dir.directory (length pre + length before) ≡ some ab
    shown : print_abonent ab ≡ found
    book : IsBook dir ((pre ++ before ++ found ∷ []) ++ behind)
    size : length pre + length before + 1 ≡ length (pre ++ before ++ found ∷ [])

  advance :
      (pre before : List Entry) (found : Entry) (behind : List Entry)
      → IsBook dir (pre ++ (before ++ found ∷ behind))
      → Advanced pre before found behind
  advance pre before found behind b =
      let p = pre ++ before in
      let same : pre ++ (before ++ found ∷ behind) ≡ p ++ found ∷ behind =
        sym (append_assoc pre before (found ∷ behind)) in
      let b' = subst (IsBook dir) same b in
      let (ab, got, holds) =
        Shows-get dir.directory _ (length p) found b'.shows
          (rw append_assoc (get_elem?-length p found (behind ++ blanks b'.room))) in
      record {
        ab = ab;
        got = rw (← length-append pre before) got;
        shown = Holds-print ab found holds;
        book = subst (IsBook dir) (same ∙ sym (append-snoc p found behind)) b;
        size = omega (arith, length-append pre before, length-snoc p found);
      }

  split-IsBook :
      (pre es : List Entry) {j : ℕ}
      → IsBook dir (pre ++ es)
      → (hit : Hit w es (length pre) j) → IsBook dir (pre ++ (hit.before ++ hit.found ∷ hit.behind))
  split-IsBook pre es b hit = subst (λ xs. IsBook dir (pre ++ xs)) hit.split b

  Hit-at :
      (pre es : List Entry) {j : ℕ}
      → IsBook dir (pre ++ es)
      → (hit : Hit w es (length pre) j) → index_from w es (length pre) ≡ some j
      → find_abonent_index d dir (length pre) ≡ some (length pre + length hit.before)
  Hit-at pre es b hit found =
      find_abonent_index-index_from dir pre es d w b h ne ∙ found ∙ ap some hit.position

  search_loop-some :
      (k i : ℕ) (pre es : List Entry)
      → IsBook dir (pre ++ es)
      → i + 1 ≡ length pre
      → length es < k
      → search_loop k d dir (some i) ≡ map entry (keep (called w) es)
  unfolding search_loop
  search_loop-some zero i pre es b at fuel = absurd (omega arith)
  search_loop-some (suc k) i pre es b at fuel = elim (index_from-cases w es (length pre)) [
    | inl (n, no_more) ↦
        rw (at, find_abonent_index-index_from dir pre es d w b h ne, n, search_loop)
          (ap (map entry) (sym no_more))
    | inr (j, found, hit) ↦
        let adv = advance pre hit.before hit.found hit.behind (split-IsBook pre es b hit) in
        let rest =
          search_loop-some k (length pre + length hit.before) (pre ++ hit.before ++ hit.found ∷ [])
            hit.behind adv.book adv.size (shorter (length pre) es hit fuel) in
        rw (at, Hit-at pre es b hit found, search_loop, adv.got, adv.shown, rest)
          (sym (ap (map entry) (keep-Hit es hit)))
  ]

  -- The search shows every entry of that name, in order, or says that there is nobody.
  pub search_loop-start :
      (es : List Entry)
      → IsBook dir es
      → search_loop 101 d dir none ≡ elim (keep (called w) es) [
        | [] ↦ nobody_of_that_name ∷ []
        | e ∷ more ↦ map entry (e ∷ more)
      ]
  unfolding search_loop
  search_loop-start es b = elim (index_from-cases w es 0) [
    | inl (n, no_more) ↦
        rw (find_abonent_index-index_from dir [] es d w b h ne, n, search_loop, no_more) refl
    | inr (j, found, hit) ↦
        let adv = advance [] hit.before hit.found hit.behind (split-IsBook [] es b hit) in
        let rest =
          search_loop-some 100 (0 + length hit.before) (hit.before ++ hit.found ∷ []) hit.behind
            adv.book adv.size (shorter 0 es hit (omega (arith, b.sized))) in
        rw (Hit-at [] es b hit found, search_loop, adv.got, adv.shown, rest, keep-Hit es hit) refl
  ]
