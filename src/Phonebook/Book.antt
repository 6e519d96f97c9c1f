-- ===== src/Phonebook/Book.antt =====
-- The well-formed phone book: its entries in order at the front of the array, blanks behind; and
-- what adding and removing do to the entries.
use mathlib.Core.Path.{subst}
use eltex_course.Base.{
  ℕ, zero, suc, ◌+◌, ◌-◌, ◌<◌, ◌≡◌, refl, sym, List, [], ◌∷◌, ◌++◌, some, arith, length, set,
  replicate, get_elem?-length, append-snoc, length-snoc, length-append, append_assoc,
}
use eltex_course.Phonebook.{
  Abonent, Directory, Entry, clear_data, copy_data, scan_data, add_abonent, remove_abonent,
}
use eltex_course.Phonebook.Fields.{IsWord, copy_data-IsField, scan_cleared-IsField}
use eltex_course.Phonebook.Shows.{
  Holds, Shows, blank, last, Shows-get, Shows-put, clear_at-Shows, shift-Shows,
}

abbrev pub blanks : ℕ → List Entry
blanks n = replicate n blank

pub record IsBook (dir : Directory) (es : List Entry) : Type 0 where
  pub room : ℕ
  pub sized : length es + room ≡ 100
  pub capacity : dir.capacity ≡ length es
  pub shows : Shows dir.directory (es ++ blanks room)

pub record IsWords (e : Entry) : Type 0 where
  pub name : IsWord e.name
  pub second_name : IsWord e.second_name
  pub tel : IsWord e.tel

-- With room left, a new entry goes to the end of the book.
pub add_abonent-append :
    (dir : Directory) (es : List Entry) (d : List ℕ) (e : Entry)
    → IsBook dir es
    → length es < 100
    → IsWords e
    → (g : Directory) × (add_abonent dir d e ≡ some g) × IsBook g (es ++ e ∷ [])
unfolding add_abonent
add_abonent-append dir es d e b fits w = go b.room b.sized b.shows
  where
    go :
        (r : ℕ)
        → length es + r ≡ 100
        → Shows dir.directory (es ++ blanks r)
        → (g : Directory) × (add_abonent dir d e ≡ some g) × IsBook g (es ++ e ∷ [])
    go zero s h = absurd (omega arith)
    go (suc r) s h =
        let (ab, got, k) =
          Shows-get dir.directory _ (length es) blank h (get_elem?-length es blank (blanks r)) in
        let added : Abonent = record {
          name = copy_data (scan_data (clear_data d) e.name) ab.name;
          second_name = copy_data (scan_data (clear_data d) e.second_name) ab.second_name;
          tel = copy_data (scan_data (clear_data d) e.tel) ab.tel;
        } in
        let holds : Holds added e = record {
          name = copy_data-IsField _ _ _ _ (scan_cleared-IsField d e.name w.name) k.name;
          second_name =
              copy_data-IsField _ _ _ _ (scan_cleared-IsField d e.second_name w.second_name)
                k.second_name;
          tel = copy_data-IsField _ _ _ _ (scan_cleared-IsField d e.tel w.tel) k.tel;
        } in
        (
          record { directory = set dir.directory dir.capacity added; capacity = dir.capacity + 1 },
          rw (b.capacity, got) refl,
          record {
            room = r;
            sized = omega (arith, length-snoc es e);
            capacity = omega (arith, length-snoc es e, b.capacity);
            shows = subst (Shows _) (sym (append-snoc es e (blanks r))) (
                subst (λ n. Shows (set dir.directory n added) (es ++ e ∷ blanks r)) (sym b.capacity)
                  (Shows-put dir.directory es blank e (blanks r) added h holds));
          },
        )

-- Removing the entry at an index shifts the later ones down, and blanks the place behind them.
pub remove_abonent-append :
    (dir : Directory) (pre : List Entry) (e : Entry) (post : List Entry)
    → IsBook dir (pre ++ e ∷ post)
    → (g : Directory) × (remove_abonent dir (length pre) ≡ some g) × IsBook g (pre ++ post)
unfolding remove_abonent
remove_abonent-append dir pre e post b =
    let size : length (pre ++ e ∷ post) ≡ length pre + 1 + length post =
      omega (arith, length-append pre (e ∷ post)) in
    let rounds : dir.capacity - 1 - length pre ≡ length post = omega (arith, b.capacity, size) in
    let (g1, e1, h1) =
      clear_at-Shows dir.directory pre e (post ++ blanks b.room)
        (subst (Shows dir.directory) (append_assoc pre (e ∷ post) (blanks b.room)) b.shows) in
    let (g2, e2, h2) = shift-Shows post g1 pre blank (blanks b.room) h1 in
    let (g3, e3, h3) =
      clear_at-Shows g2 (pre ++ post) (last blank post) (blanks b.room)
        (subst (Shows g2) (sym (append_assoc pre post (last blank post ∷ blanks b.room))) h2) in
    (
      record { directory = g3; capacity = dir.capacity - 1 },
      rw (rounds, e1, e2, ← length-append pre post, e3) refl,
      record {
        room = suc b.room;
        sized = omega (arith, b.sized, size, length-append pre post);
        capacity = omega (arith, b.capacity, size, length-append pre post);
        shows = h3;
      },
    )
