-- ===== src/Linked/Steps.antt =====
-- Each choice of the menu, on the memories and on the list of the entries.
use eltex_course.Base.{
  ℕ, zero, suc, ◌<◌, ◌≤◌, ◌≡◌, refl, ◌≢◌, true, false, ◌||◌, Bool-cases, inl, inr, List, [], ◌∷◌,
  ◌++◌, none, some, arith, ◌==◌, sym, ap, ◌∙◌, length, length-snoc, map, take, Bytes, str_eq,
  c_str-strcpy,
}
use mathlib.Core.Path.{subst}
use eltex_course.Memory.{Ptr, write, write_self, ne_zero, load-eq, store-eq, fill-eq}
use eltex_course.Linked.{
  Abonent, Directory, Heap, Entry, abonent, abonent_print, Choice, add, remove, search, show, quit,
  other, blank, abonent_crate, scan, scan_abonent, cell_remove, step_add, step_remove, show_cell,
  step_search, show_loop, step,
}
use eltex_course.Linked.Chain.{Item, Items, first, Seg, Seg-split}
use eltex_course.Linked.Owned.{owns, Owned, Owned-write, Owned-at, Only-write, Only-more}
use eltex_course.Linked.Directories.{IsDirectory, cell_search-find, dir_free-Only}
use eltex_course.Linked.Adding.{Owned-fresh, IsOffered, cell_add-IsDirectory}
use eltex_course.Linked.Removing.{cell_remove-IsDirectory}
use eltex_course.Linked.Menu.{
  read, read_entry, erase, first_called, spec_entries, spec_shown, entries, Stands, IsFresh, Steps,
  length-entries, Searched, find-Searched,
}

entries-append : (xs ys : Items) → entries (xs ++ ys) ≡ entries xs ++ entries ys
entries-append [] ys = refl
entries-append (x ∷ xs) ys = ap (◌∷◌ (abonent_print x.abonent)) (entries-append xs ys)

erase_le : (name : Bytes) (es : List Entry) → length (erase name es) ≤ length es
erase_le name [] = omega arith
erase_le name (e ∷ es) = elim (Bool-cases (str_eq e.name name)) [
  | inl here ↦ rw here (omega arith)
  | inr there ↦ rw there (omega (arith, erase_le name es))
]

capacity-entries :
    (h : Heap) (d : Directory) (es : List Entry) → Stands h d es → d.capacity ≡ length es
capacity-entries h d es s = s.is.capacity ∙ sym (length-entries s.items) ∙ ap length s.same

below_full : (n : ℕ) → n ≤ 100 → (n == 100) ≡ false → n < 100
below_full n b f = ground arith

erase_empty : (name : Bytes) (es : List Entry) → (length es == 0) ≡ true → erase name es ≡ es
erase_empty name [] e = refl
erase_empty name (x ∷ es) e = absurd (ground arith)

cell_remove_null : (h : Heap) (d : Directory) → cell_remove h d 0 ≡ some (h, d)
unfolding cell_remove
cell_remove_null h d = refl

-- What `scanf` leaves in a new abonent.
abbrev scanned : Entry → Abonent
scanned e = record {
  name = scan blank.name e.name;
  second_name = scan blank.second_name e.second_name;
  tel = scan blank.tel e.tel;
}

scanned-read_entry : (e : Entry) → abonent_print (scanned e) ≡ read_entry e
scanned-read_entry e =
    rw
      (
        c_str-strcpy blank.name (take 10 e.name),
        c_str-strcpy blank.second_name (take 10 e.second_name),
        c_str-strcpy blank.tel (take 10 e.tel),
      )
      refl

show_loop-entries :
    (fuel : ℕ) (h : Heap) (prev : Ptr) (cs : Items)
    → Seg h.cells prev cs 0
    → Owned h.abonents cs
    → length cs < fuel
    → show_loop fuel h (first cs 0) ≡ some (map abonent (entries cs))
unfolding show_loop show_cell
show_loop-entries zero h prev cs s o enough = absurd (omega arith)
show_loop-entries (suc fuel) h prev [] s o enough = refl
show_loop-entries (suc fuel) h prev (c ∷ cs) s o enough =
    rw
      (
        ne_zero c.at s.0,
        load-eq h.cells c.at s.0 s.1,
        load-eq h.abonents c.«data» o.0 o.1,
        show_loop-entries fuel h c.at cs s.2 o.3 (omega arith),
      )
      refl

module _ (h : Heap) (d : Directory) where
  shown_at :
      (c : Item) (xs ys : Items)
      → IsDirectory h d (xs ++ c ∷ ys)
      → (c.at ≢ 0) × (show_cell h c.at ≡ some (abonent (abonent_print c.abonent)))
  unfolding show_cell
  shown_at c xs ys i =
      let (left, right) = Seg-split h.cells 0 xs (c ∷ ys) 0 i.chain in
      let (ne, e) = Owned-at h.abonents xs ys c i.owned in
      (right.0, rw (load-eq h.cells c.at right.0 right.1, load-eq h.abonents c.«data» ne e) refl)

module _ (h : Heap) (d : Directory) (es : List Entry) (s : Stands h d es) where
  offered : Ptr → Entry → Heap
  offered p e = record h { abonents = write (write h.abonents p (some blank)) p (some (scanned e)) }

  offered-IsOffered :
      (p : Ptr) (e : Entry)
      → p ≢ 0
      → h.abonents p ≡ none
      → IsOffered (offered p e) d s.items p (scanned e)
  unfolding offered
  offered-IsOffered p e ne free =
      let cs = s.items in
      let m = write h.abonents p (some blank) in
      let out : owns p cs ≡ false = Owned-fresh h.abonents cs p s.is.owned free in
      let only =
        Only-more h.abonents (λ a. owns a cs) (λ a. (a == p) || owns a cs) p (some blank)
          s.is.only_abonents (λ a. refl) in
      record {
        ne = ne;
        holds = write_self m p (some (scanned e));
        fresh = out;
        owned =
            Owned-write m cs p (some (scanned e)) out
              (Owned-write h.abonents cs p (some blank) out s.is.owned);
        only = Only-write m (λ a. (a == p) || owns a cs) p (some (scanned e)) only (ground arith);
        head = s.is.head;
        tail = s.is.tail;
        capacity = s.is.capacity;
        chain = s.is.chain;
        distinct = s.is.distinct;
        only_cells = s.is.only_cells;
      }

  step_add-Steps :
      (p fresh : Ptr) (e : Entry)
      → IsFresh h (add p fresh e)
      → Steps es (add p fresh e) (step_add h d p fresh e)
  unfolding step_add abonent_crate scan_abonent spec_entries spec_shown offered
  step_add-Steps p fresh e f = elim (Bool-cases (length es == 100)) [
    | inl no_room ↦
        let same : (d.capacity == 100) ≡ true =
          ap (λ n. n == 100) (capacity-entries h d es s) ∙ no_room in
        simp (same, no_room) ((h, d), refl, s)
    | inr room ↦
        let size = capacity-entries h d es s in
        let same : (d.capacity == 100) ≡ false = ap (λ n. n == 100) size ∙ room in
        let (g, k, i) =
          cell_add-IsDirectory (offered p e) d p fresh (scanned e) s.items
            (offered-IsOffered p e f.0 f.1)
            (omega (arith, below_full (length es) s.bound room, size, s.is.capacity)) f.2 f.3 in
        let m = write h.abonents p (some blank) in
        simp (same, room)
          (
            g,
            rw
                (
                  fill-eq h.abonents p f.0 blank,
                  load-eq m p f.0 (write_self h.abonents p (some blank)),
                  store-eq m p f.0 (scanned e) (write_self h.abonents p (some blank)),
                  k,
                )
                refl,
            record {
              items = _;
              is = i;
              same =
                  entries-append s.items _
                  ∙ rw (scanned-read_entry e) (ap (λ l. l ++ read_entry e ∷ []) s.same);
              bound =
                  omega (arith, below_full (length es) s.bound room, length-snoc es (read_entry e));
            },
          )
  ]

  capacity_test : (n : ℕ) → (d.capacity == n) ≡ (length es == n)
  capacity_test n = ap (λ k. k == n) (capacity-entries h d es s)

  removed-Stands :
      (name : Bytes) (g : Heap) (d' : Directory) (cs : Items)
      → IsDirectory g d' cs
      → erase name (entries s.items) ≡ entries cs
      → Stands g d' (erase name es)
  removed-Stands name g d' cs i e = record {
    items = cs;
    is = i;
    same = sym e ∙ ap (erase name) s.same;
    bound = omega (arith, erase_le name es, s.bound);
  }

  step_remove-Steps : (word : Bytes) → Steps es (remove word) (step_remove h d word)
  unfolding step_remove spec_entries spec_shown Searched
  step_remove-Steps word = elim (Bool-cases (length es == 0)) [
    | inl empty ↦ simp (capacity_test 0, empty, erase_empty (read word) es empty) ((h, d), refl, s)
    | inr some_entry ↦
        let same = capacity_test 0 ∙ some_entry in
        let found = cell_search-find h d s.items (read word) s.is in
        elim (find-Searched (read word) s.items) [
          | inl (f, e, t) ↦
              simp (same, some_entry, found, f, cell_remove_null h d)
                ((h, d), refl, removed-Stands (read word) h d s.items s.is e)
          | inr (xs, c, ys, split, f, e, t) ↦
              let (g, k, i) =
                cell_remove-IsDirectory h d c xs ys (subst (IsDirectory h d) split s.is) in
              simp (same, some_entry, found, f, k)
                (g, refl, removed-Stands (read word) g.0 g.1 (xs ++ ys) i e)
        ]
  ]

  step_search-Steps : (word : Bytes) → Steps es (search word) (step_search h d word)
  unfolding step_search spec_entries spec_shown Searched
  step_search-Steps word = elim (Bool-cases (length es == 0)) [
    | inl empty ↦ simp (capacity_test 0, empty) ((h, d), refl, s)
    | inr some_entry ↦
        let same = capacity_test 0 ∙ some_entry in
        let found = cell_search-find h d s.items (read word) s.is in
        elim (find-Searched (read word) s.items) [
          | inl (f, e, t) ↦
              let missing = sym (ap (first_called (read word)) s.same) ∙ t in
              simp (same, some_entry, found, f, missing) ((h, d), refl, s)
          | inr (xs, c, ys, split, f, e, t) ↦
              let i = subst (IsDirectory h d) split s.is in
              let shown = sym (ap (first_called (read word)) s.same) ∙ t in
              let (ne, at) = shown_at h d c xs ys i in
              simp (same, some_entry, found, f, ne_zero c.at ne, at, shown) ((h, d), refl, s)
        ]
  ]

  step_show-Steps : (fuel : ℕ) → length es < fuel → Steps es show (step fuel h d show)
  unfolding step spec_entries spec_shown
  step_show-Steps fuel enough =
      let shown =
        show_loop-entries fuel h 0 s.items s.is.chain s.is.owned
          (omega (arith, enough, capacity-entries h d es s, s.is.capacity)) in
      ((h, d), simp (s.is.head, shown) (ap (λ l. some ((h, d), map abonent l, true)) s.same), s)

  step_quit-Steps : (fuel : ℕ) → Steps es quit (step fuel h d quit)
  unfolding step spec_entries spec_shown
  step_quit-Steps fuel =
      let (g, e, k, l) = dir_free-Only h d s.items s.is in
      (
        (g, record { capacity = 0; head = 0; tail = 0 }),
        simp (e) refl,
        record {
          items = [];
          is = record {
            head = refl;
            tail = tt;
            capacity = refl;
            chain = tt;
            distinct = tt;
            owned = tt;
            only_cells = k;
            only_abonents = l;
          };
          same = refl;
          bound = omega arith;
        },
      )

-- Whatever is chosen, and whatever words are read, the program does to the entries what the list says,
-- in order, and shows the same; no pointer faults. The memories then hold the entries and nothing else,
-- after the end nothing at all. Fuel above the number of the entries is enough, and `malloc` gives
-- addresses that are free.
pub step-Stands :
    (fuel : ℕ) (h : Heap) (d : Directory) (es : List Entry) (choice : Choice)
    → Stands h d es
    → IsFresh h choice
    → length es < fuel
    → Steps es choice (step fuel h d choice)
unfolding step spec_entries spec_shown
step-Stands fuel h d es (add p fresh e) s f enough = step_add-Steps h d es s p fresh e f
step-Stands fuel h d es (remove word) s f enough = step_remove-Steps h d es s word
step-Stands fuel h d es (search word) s f enough = step_search-Steps h d es s word
step-Stands fuel h d es show s f enough = step_show-Steps h d es s fuel enough
step-Stands fuel h d es quit s f enough = step_quit-Steps h d es s fuel
step-Stands fuel h d es other s f enough = ((h, d), refl, s)
