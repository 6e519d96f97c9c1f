-- ===== src/Linked/Adding.antt =====
-- `cell_add` puts one cell behind the list.
use eltex_course.Base.{
  ◌+◌, ◌<◌, ◌≡◌, refl, ◌≢◌, true, false, Bool-cases, inl, inr, ◌||◌, [], ◌∷◌, ◌++◌, Option, none,
  some, arith, ◌==◌, sym, ap, ◌∙◌, length, length-snoc,
}
use eltex_course.Memory.{Ptr, Memory, write, write_self, write-ne, load-eq, store-eq, fill-eq}
use eltex_course.Linked.{Abonent, Cell, Directory, Heap, cell_add, add_first, add_last}
use eltex_course.Linked.Chain.{
  Item, Items, cell, first, last, has, Seg, Distinct, Seg-write, Seg-join, last-append, has-append,
  Seg-IsLast,
}
use eltex_course.Linked.Owned.{owns, Owned, owns-append, Owned-snoc, Only, Only-write, Only-more}
use eltex_course.Linked.Directories.{IsDirectory, IsTail}

Seg-fresh :
    (m : Memory Cell) (prev : Ptr) (cs : Items) (next a : Ptr)
    → Seg m prev cs next
    → m a ≡ none
    → has a cs ≡ false
Seg-fresh m prev [] next a s e = refl
Seg-fresh m prev (c ∷ cs) next a s e = elim (Bool-cases (a == c.at)) [
  | inl same ↦ absurd (ground (arith, same, e, s.1))
  | inr other ↦ rw other (Seg-fresh m c.at cs next a s.2 e)
]

pub Owned-fresh :
    (m : Memory Abonent) (cs : Items) (a : Ptr) → Owned m cs → m a ≡ none → owns a cs ≡ false
Owned-fresh m [] a s e = refl
Owned-fresh m (c ∷ cs) a s e = elim (Bool-cases (a == c.«data»)) [
  | inl same ↦ absurd (ground (arith, same, e, s.1))
  | inr other ↦ rw other (Owned-fresh m cs a s.3 e)
]

Distinct-snoc :
    (cs : Items) (c : Item) → Distinct cs → has c.at cs ≡ false → Distinct (cs ++ c ∷ [])
Distinct-snoc [] c d out = (refl, tt)
Distinct-snoc (x ∷ cs) c d out =
    (ground (arith, d.0, out, has-append x.at cs (c ∷ [])), Distinct-snoc cs c d.1 (ground arith))

has-snoc : (a : Ptr) (cs : Items) (c : Item) → has a (cs ++ c ∷ []) ≡ ((a == c.at) || has a cs)
has-snoc a cs c = ground (arith, has-append a cs (c ∷ []))

owns-snoc :
    (a : Ptr) (cs : Items) (c : Item) → owns a (cs ++ c ∷ []) ≡ ((a == c.«data») || owns a cs)
owns-snoc a cs c = ground (arith, owns-append a cs (c ∷ []))

-- The directory owns a new abonent, which no cell holds yet.
pub record IsOffered (h : Heap) (d : Directory) (cs : Items) (p : Ptr) (ab : Abonent) : Type 0 where
  pub ne : p ≢ 0
  pub holds : h.abonents p ≡ some ab
  pub fresh : owns p cs ≡ false
  pub owned : Owned h.abonents cs
  pub only : Only h.abonents (λ a. (a == p) || owns a cs)
  pub head : d.head ≡ first cs 0
  pub tail : IsTail d.tail cs
  pub capacity : d.capacity ≡ length cs
  pub chain : Seg h.cells 0 cs 0
  pub distinct : Distinct cs
  pub only_cells : Only h.cells (λ a. has a cs)

module _ (h : Heap) (d : Directory) (p fresh : Ptr) (ab : Abonent) where
  abbrev new : Item
  new = record { at = fresh; «data» = p; abonent = ab }

  abbrev Added : Items → Option (Heap × Directory) → Type 0
  Added cs r = (g : Heap × Directory) × (r ≡ some g) × IsDirectory g.0 g.1 (cs ++ new ∷ [])

  added_abonents :
      (cs : Items) → IsOffered h d cs p ab → Only h.abonents (λ a. owns a (cs ++ new ∷ []))
  unfolding Only
  added_abonents cs o = λ a out. o.only a (sym (owns-snoc a cs new) ∙ out)

  add_first-Added : IsOffered h d [] p ab → fresh ≢ 0 → Added [] (add_first h d fresh p)
  unfolding add_first
  add_first-Added o ne =
      let n = cell new 0 0 in
      (
        (
          record { cells = write h.cells fresh (some n); abonents = h.abonents },
          record { head = fresh; tail = fresh; capacity = d.capacity + 1 },
        ),
        rw (fill-eq h.cells fresh ne n) refl,
        record {
          head = refl;
          tail = refl;
          capacity = omega (arith, o.capacity);
          chain = (ne, write_self h.cells fresh _, tt);
          distinct = (refl, tt);
          owned = (o.ne, o.holds, refl, tt);
          only_cells =
              Only-more h.cells (λ a. false) (λ a. has a (new ∷ [])) fresh (some n) o.only_cells
                (λ a. refl);
          only_abonents = added_abonents [] o;
        },
      )

  add_last-Added :
      (c : Item) (cs : Items)
      → IsOffered h d (c ∷ cs) p ab
      → fresh ≢ 0
      → h.cells fresh ≡ none
      → Added (c ∷ cs) (add_last h d fresh p)
  unfolding add_last
  add_last-Added c cs o ne free =
      let all = c ∷ cs in
      let a = last cs c.at in
      let n = cell new a 0 in
      let out : has fresh all ≡ false = Seg-fresh h.cells 0 all 0 fresh o.chain free in
      let m = write h.cells fresh (some n) in
      let l =
        Seg-IsLast m 0 c cs 0 fresh (Seg-write h.cells 0 all 0 fresh (some n) out o.chain)
          o.distinct in
      let w = record (l.old) { next = fresh } in
      let kept : write m a (some w) fresh ≡ some n =
        write-ne m a (some w) fresh (λ e. ground (arith, out, l.here, ap (λ b. has b all) e))
        ∙ write_self h.cells fresh (some n) in
      let only =
        Only-more h.cells (λ b. has b all) (λ b. has b (all ++ new ∷ [])) fresh (some n)
          o.only_cells (λ b. has-snoc b all new) in
      (
        (
          record { cells = write m a (some w); abonents = h.abonents },
          record { head = d.head; tail = fresh; capacity = d.capacity + 1 },
        ),
        simp (o.tail) (
            rw (fill-eq h.cells fresh ne n, load-eq m a l.ne l.holds, store-eq m a l.ne w l.holds)
              refl),
        record {
          head = o.head;
          tail = sym (last-append cs (new ∷ []) c.at);
          capacity = omega (arith, o.capacity, length-snoc all new);
          chain = Seg-join (write m a (some w)) 0 all (new ∷ []) 0 l.linked (ne, kept, tt);
          distinct = Distinct-snoc all new o.distinct out;
          owned = Owned-snoc h.abonents all new o.owned o.fresh o.ne o.holds;
          only_cells =
              Only-write m (λ b. has b (all ++ new ∷ [])) a (some w) only
                (ground (arith, l.here, has-snoc a all new));
          only_abonents = added_abonents all o;
        },
      )

  some_room : (cs : Items) → IsOffered h d cs p ab → length cs < 100 → (d.capacity == 100) ≡ false
  some_room cs o room = ground (arith, o.capacity)

  some_head : (c : Item) (cs : Items) → IsOffered h d (c ∷ cs) p ab → (d.head == 0) ≡ false
  some_head c cs o = ground (arith, o.head, o.chain.0)

  no_head : IsOffered h d [] p ab → (d.head == 0) ≡ true
  no_head o = ground (arith, o.head)

  -- With less than a hundred cells, `cell_add` of a new abonent puts it behind the list.
  pub cell_add-IsDirectory :
      (cs : Items)
      → IsOffered h d cs p ab
      → length cs < 100
      → fresh ≢ 0
      → h.cells fresh ≡ none
      → Added cs (cell_add h d fresh p)
  unfolding cell_add
  cell_add-IsDirectory [] o room ne free =
      rw (some_room [] o room, no_head o) (add_first-Added o ne)
  cell_add-IsDirectory (c ∷ cs) o room ne free =
      rw (some_room (c ∷ cs) o room, some_head c cs o) (add_last-Added c cs o ne free)
