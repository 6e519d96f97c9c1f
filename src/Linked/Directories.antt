-- ===== src/Linked/Directories.antt =====
-- The list that a directory stands for, and each operation on it.
use eltex_course.Base.{
  ◌≡◌, refl, Bool, false, Bool-cases, inl, inr, [], ◌∷◌, none, some, if◌then◌else◌, length, Bytes,
  str_eq, c_str,
}
use eltex_course.Memory.{Ptr, write, ne_zero, load-eq, release-eq}
use eltex_course.Linked.{Abonent, Directory, Heap, cell_search, search_loop, dir_free, free_loop}
use eltex_course.Linked.Chain.{Items, first, last, has, Seg, Distinct, Seg-write}
use eltex_course.Linked.Owned.{owns, Owned, Owned-write, Only, Only-less}

-- An empty list leaves the tail where it was.
abbrev pub IsTail : Ptr → Items → Type 0
IsTail tail [] = Unit {0}
IsTail tail (c ∷ cs) = tail ≡ last cs c.at

-- The memories hold the cells of the list and their abonents, and nothing else.
pub record IsDirectory (h : Heap) (d : Directory) (cs : Items) : Type 0 where
  pub head : d.head ≡ first cs 0
  pub tail : IsTail d.tail cs
  pub capacity : d.capacity ≡ length cs
  pub chain : Seg h.cells 0 cs 0
  pub distinct : Distinct cs
  pub owned : Owned h.abonents cs
  pub only_cells : Only h.cells (λ a. has a cs)
  pub only_abonents : Only h.abonents (λ a. owns a cs)

-- The address of the first cell with the name, or `NULL`.
abbrev pub is_called : Bytes → Abonent → Bool
is_called name ab = str_eq (c_str ab.name) name

abbrev pub find : Bytes → Items → Ptr
find name [] = 0
find name (c ∷ cs) = if is_called name c.abonent then c.at else find name cs

search_loop-find :
    (h : Heap) (prev : Ptr) (cs : Items) (name : Bytes)
    → Seg h.cells prev cs 0
    → Owned h.abonents cs
    → search_loop (length cs) h (first cs 0) name ≡ some (find name cs)
unfolding search_loop
search_loop-find h prev [] name s o = refl
search_loop-find h prev (c ∷ cs) name s o =
    rw (ne_zero c.at s.0, load-eq h.cells c.at s.0 s.1, load-eq h.abonents c.«data» o.0 o.1)
      (elim (Bool-cases (is_called name c.abonent)) [
        | inl yes_called ↦ rw yes_called refl
        | inr other ↦ rw other (search_loop-find h c.at cs name s.2 o.3)
      ])

-- The search gives the first cell with the name, and `NULL` where no cell has it.
pub cell_search-find :
    (h : Heap) (d : Directory) (cs : Items) (name : Bytes)
    → IsDirectory h d cs
    → cell_search h d name ≡ some (find name cs)
unfolding cell_search
cell_search-find h d cs name is =
    rw (is.capacity, is.head) (search_loop-find h 0 cs name is.chain is.owned)

free_loop-Only :
    (h : Heap) (prev : Ptr) (cs : Items)
    → Seg h.cells prev cs 0
    → Distinct cs
    → Owned h.abonents cs
    → Only h.cells (λ a. has a cs)
    → Only h.abonents (λ a. owns a cs)
    → (g : Heap) × (free_loop (length cs) h (first cs 0) ≡ some g)
      × Only g.cells (λ a. false)
      × Only g.abonents (λ a. false)
unfolding free_loop
free_loop-Only h prev [] s d o only_cells only_abonents = (h, refl, only_cells, only_abonents)
free_loop-Only h prev (c ∷ cs) s d o only_cells only_abonents =
    let g : Heap = record {
      cells = write h.cells c.at none;
      abonents = write h.abonents c.«data» none;
    } in
    let (e, f, k, l) =
      free_loop-Only g c.at cs (Seg-write h.cells c.at cs 0 c.at none d.0 s.2) d.1
        (Owned-write h.abonents cs c.«data» none o.2 o.3)
        (Only-less h.cells (λ a. has a (c ∷ cs)) (λ a. has a cs) c.at only_cells (λ a. refl))
        (Only-less h.abonents (λ a. owns a (c ∷ cs)) (λ a. owns a cs) c.«data» only_abonents
          (λ a. refl)) in
    (
      e,
      rw
          (
            ne_zero c.at s.0,
            load-eq h.cells c.at s.0 s.1,
            release-eq h.abonents c.«data» o.0 o.1,
            release-eq h.cells c.at s.0 s.1,
          )
          f,
      k,
      l,
    )

-- `dir_free` frees every cell and every abonent once; nothing is left in the memories.
pub dir_free-Only :
    (h : Heap) (d : Directory) (cs : Items)
    → IsDirectory h d cs
    → (g : Heap) × (dir_free h d ≡ some (g, record { capacity = 0; head = 0; tail = 0 }))
      × Only g.cells (λ a. false)
      × Only g.abonents (λ a. false)
unfolding dir_free
dir_free-Only h d cs is =
    let (g, e, k, l) =
      free_loop-Only h 0 cs is.chain is.distinct is.owned is.only_cells is.only_abonents in
    (g, rw (is.capacity, is.head) (rw e refl), k, l)
