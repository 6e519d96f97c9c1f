-- ===== src/Phonebook/Search.antt =====
-- Finding by name, and the listing of all who have it.
use mathlib.Core.Path.{subst}
use eltex_course.Base.{
  ℕ, zero, suc, ◌+◌, ◌-◌, ◌≡◌, refl, sym, ap, ◌∙◌, ◌⊎◌, inl, inr, true, false, List, [], ◌∷◌, ◌++◌,
  Option, none, some, arith, Bool-cases, if◌then◌else◌, length, keep, Bytes, str_eq, c_str,
  get_elem?-length, append-snoc, length-snoc, length-append, append_assoc, length-replicate,
}
use eltex_course.Phonebook.{Abonent, Directory, Entry, find_loop, find_abonent_index}
use eltex_course.Phonebook.Shows.{Shows, blank, Shows-get}
use eltex_course.Phonebook.Book.{IsBook, blanks}

-- The position of the first entry called `w`, counted from `i`.
unfoldable pub index_from : Bytes → List Entry → ℕ → Option ℕ
index_from w [] i = none
index_from w (e ∷ es) i = if str_eq w e.name then some i else index_from w es (i + 1)

index_from-blanks :
    (w : Bytes) (es : List Entry) (i n : ℕ)
    → str_eq w [] ≡ false
    → index_from w (es ++ blanks n) i ≡ index_from w es i
unfolding index_from
index_from-blanks w [] i zero h = refl
index_from-blanks w [] i (suc n) h = rw h (index_from-blanks w [] (i + 1) n h)
index_from-blanks w (e ∷ es) i n h = rw (index_from-blanks w es (i + 1) n h)

find_loop-index_from :
    (d : List ℕ) (w : Bytes) (pre es : List Entry) (dir : List Abonent)
    → c_str d ≡ w
    → Shows dir (pre ++ es)
    → find_loop (length es) d dir (length pre) ≡ index_from w es (length pre)
unfolding find_loop index_from
find_loop-index_from d w pre [] dir h s = refl
find_loop-index_from d w pre (e ∷ es) dir h s =
    let (ab, got, holds) = Shows-get dir _ (length pre) e s (get_elem?-length pre e es) in
    let rest =
      find_loop-index_from d w (pre ++ e ∷ []) es dir h
        (subst (Shows dir) (sym (append-snoc pre e es)) s) in
    rw (got, find_loop)
      (rw (h, holds.name.text, ← length-snoc pre e)
        (ap (λ r. if str_eq w e.name then some (length pre) else r) rest))

-- The search from behind a prefix finds the first entry of that name in the rest of the book.
pub find_abonent_index-index_from :
    (dir : Directory) (pre es : List Entry) (d : List ℕ) (w : Bytes)
    → IsBook dir (pre ++ es)
    → c_str d ≡ w
    → str_eq w [] ≡ false
    → find_abonent_index d dir (length pre) ≡ index_from w es (length pre)
unfolding find_abonent_index
find_abonent_index-index_from dir pre es d w b h ne =
    let rounds : 100 - length pre ≡ length (es ++ blanks b.room) = omega (
      arith,
      b.sized,
      length-append pre es,
      length-append es (blanks b.room),
      length-replicate b.room blank,
    ) in
    rw rounds (
      find_loop-index_from d w pre (es ++ blanks b.room) dir.directory h
        (subst (Shows dir.directory) (append_assoc pre es (blanks b.room)) b.shows)
      ∙ index_from-blanks w es (length pre) b.room ne)

-- A hit splits the rest of the book at the first entry of that name; a miss says there is none.
pub record Hit (w : Bytes) (es : List Entry) (i k : ℕ) : Type 0 where
  pub before : List Entry
  pub found : Entry
  pub behind : List Entry
  pub split : es ≡ before ++ found ∷ behind
  pub position : k ≡ i + length before
  pub named : str_eq w found.name ≡ true
  pub none_before : keep (λ e. str_eq w e.name) before ≡ []

pub index_from-cases :
    (w : Bytes) (es : List Entry) (i : ℕ)
    → ((index_from w es i ≡ none) × (keep (λ e. str_eq w e.name) es ≡ []))
      ⊎ ((k : ℕ) × (index_from w es i ≡ some k) × Hit w es i k)
unfolding index_from
index_from-cases w [] i = inl (refl, refl)
index_from-cases w (e ∷ es) i = elim (Bool-cases (str_eq w e.name)) [
  | inl hit ↦ inr (
    i,
    rw hit refl,
    record {
      before = [];
      found = e;
      behind = es;
      split = refl;
      position = omega arith;
      named = hit;
      none_before = refl;
    },
  )
  | inr miss ↦ elim (index_from-cases w es (i + 1)) [
    | inl (n, no_more) ↦ inl (rw (miss, n) refl, rw (miss, no_more) refl)
    | inr (k, found, h) ↦ inr (
      k,
      rw (miss, found) refl,
      record {
        before = e ∷ h.before;
        found = h.found;
        behind = h.behind;
        split = ap (◌∷◌ e) h.split;
        position = omega (arith, h.position);
        named = h.named;
        none_before = rw (miss, h.none_before) refl;
      },
    )
  ]
]
