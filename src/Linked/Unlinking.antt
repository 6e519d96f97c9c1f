-- ===== src/Linked/Unlinking.antt =====
-- The three branches of `cell_remove`: the neighbours of a cell point past it, and it is freed.
use eltex_course.Base.{
  ◌-◌, ◌≡◌, refl, ◌≢◌, true, false, [], ◌∷◌, ◌++◌, Option, none, some, arith, ◌==◌, if◌then◌else◌,
  ap, ◌∙◌, length, length-append, ◌>>=◌,
}
use eltex_course.Memory.{Ptr, Memory, write, write-ne, ne_zero, load-eq, store-eq, release-eq}
use eltex_course.Linked.{Cell, Directory, Heap, set_prev, set_next, free_cell}
use eltex_course.Linked.Chain.{
  Item, Items, cell, first, last, has, Seg, Distinct, Seg-write, Seg-split, Seg-join, has-append,
  Distinct-apart, Distinct-apart_left, Distinct-without, Distinct-left, Distinct-right, Seg-IsLast,
  Seg-first,
}
use eltex_course.Linked.Owned.{
  owns, Owned, Owned-at, Owned-without, Only, Only-write, Only-less, has-middle, owns-middle,
}
use eltex_course.Linked.Directories.{IsDirectory, IsTail}

-- The cells after a removal, before the cell itself is freed.
pub record Unlinked (h : Heap) (xs : Items) (c : Item) (ys : Items) (m : Memory Cell) : Type 0 where
  pub holds : (x : Cell) × (m c.at ≡ some x)
  pub left : Seg m 0 xs (first ys 0)
  pub right : Seg m (last xs 0) ys 0
  pub only : Only m (λ a. has a (xs ++ c ∷ ys))

pub has-last : (y : Item) (ys : Items) → has (last ys y.at) (y ∷ ys) ≡ true
has-last y [] = ground arith
has-last y (z ∷ ys) = ground (arith, has-last z ys)

-- The two neighbours of a cell point at each other.
module _ (h : Heap) (xs ys : Items) (c : Item) where
  -- The address is in front of the cell, or behind it.
  has-left : (a : Ptr) → has a xs ≡ true → has a (xs ++ c ∷ ys) ≡ true
  has-left a e = ground (arith, e, has-append a xs (c ∷ ys))

  has-right : (a : Ptr) → has a ys ≡ true → has a (xs ++ c ∷ ys) ≡ true
  has-right a e = ground (arith, e, has-append a xs (c ∷ ys))

  pub free_cell-IsDirectory :
      (d : Directory) (m : Memory Cell)
      → Unlinked h xs c ys m
      → c.at ≢ 0
      → d.head ≡ first (xs ++ ys) 0
      → IsTail d.tail (xs ++ ys)
      → d.capacity ≡ length (xs ++ c ∷ ys)
      → Distinct (xs ++ c ∷ ys)
      → Owned h.abonents (xs ++ c ∷ ys)
      → Only h.abonents (λ a. owns a (xs ++ c ∷ ys))
      → (g : Heap × Directory) × (free_cell m h.abonents d c.at c.«data» ≡ some g)
        × IsDirectory g.0 g.1 (xs ++ ys)
  unfolding free_cell
  free_cell-IsDirectory d m u ne head tail capacity distinct owned only =
      let ab = Owned-at h.abonents xs ys c owned in
      let out_left : has c.at xs ≡ false =
        Distinct-apart_left c.at xs (c ∷ ys) distinct (ground arith) in
      let out_right : has c.at ys ≡ false = (Distinct-right xs (c ∷ ys) distinct).0 in
      (
        (
          record { cells = write m c.at none; abonents = write h.abonents c.«data» none },
          record d { capacity = d.capacity - 1 },
        ),
        rw (release-eq h.abonents c.«data» ab.0 ab.1, release-eq m c.at ne u.holds.1) refl,
        record {
          head = head;
          tail = tail;
          capacity = omega (arith, capacity, length-append xs (c ∷ ys), length-append xs ys);
          chain =
              Seg-join (write m c.at none) 0 xs ys 0
                (Seg-write m 0 xs (first ys 0) c.at none out_left u.left)
                (Seg-write m (last xs 0) ys 0 c.at none out_right u.right);
          distinct = Distinct-without xs ys c distinct;
          owned = Owned-without h.abonents xs ys c owned;
          only_cells =
              Only-less m (λ a. has a (xs ++ c ∷ ys)) (λ a. has a (xs ++ ys)) c.at u.only
                (λ a. has-middle a xs ys c);
          only_abonents =
              Only-less h.abonents (λ a. owns a (xs ++ c ∷ ys)) (λ a. owns a (xs ++ ys)) c.«data»
                only (λ a. owns-middle a xs ys c);
        },
      )

  -- A write to another cell leaves the cell itself.
  kept :
      (m : Memory Cell) (a : Ptr) (v : Option Cell) (zs : Items)
      → has c.at zs ≡ false
      → has a zs ≡ true
      → write m a v c.at ≡ m c.at
  kept m a v zs out here =
      write-ne m a v c.at (λ e. ground (arith, out, here, ap (λ p. has p zs) e))

module _ (h : Heap) (c : Item) where
  pub unlink_head :
      (ys : Items)
      → Seg h.cells 0 (c ∷ ys) 0
      → Distinct (c ∷ ys)
      → Only h.cells (λ a. has a (c ∷ ys))
      → (m : Memory Cell) × ((if first ys 0 == 0
            then some h.cells
            else set_prev h.cells (first ys 0) 0)
          ≡ some m)
        × Unlinked h [] c ys m
  unfolding set_prev
  unlink_head [] s d only =
      (h.cells, refl, record { holds = (cell c 0 0, s.1); left = tt; right = tt; only = only })
  unlink_head (y ∷ ys) s d only =
      let (ne, e, t) = s.2 in
      let v = some (cell y 0 (first ys 0)) in
      (
        write h.cells y.at v,
        rw
            (
              ne_zero y.at ne,
              load-eq h.cells y.at ne e,
              store-eq h.cells y.at ne (cell y 0 (first ys 0)) e,
            )
            refl,
        record {
          holds = (
            cell c 0 y.at,
            kept h [] (y ∷ ys) c h.cells y.at v (y ∷ ys) d.0 (ground arith) ∙ s.1,
          );
          left = tt;
          right = Seg-first h.cells c.at 0 y ys 0 s.2 d.1;
          only = Only-write h.cells (λ a. has a (c ∷ y ∷ ys)) y.at v only (ground arith);
        },
      )

  pub unlink_tail :
      (x : Item) (xs : Items)
      → Seg h.cells 0 (x ∷ xs ++ c ∷ []) 0
      → Distinct (x ∷ xs ++ c ∷ [])
      → Only h.cells (λ a. has a (x ∷ xs ++ c ∷ []))
      → (m : Memory Cell) × ((if last xs x.at == 0
            then some h.cells
            else set_next h.cells (last xs x.at) 0)
          ≡ some m)
        × Unlinked h (x ∷ xs) c [] m
  unfolding set_next
  unlink_tail x xs s d only =
      let a = last xs x.at in
      let (s_left, s_right) = Seg-split h.cells 0 (x ∷ xs) (c ∷ []) 0 s in
      let l = Seg-IsLast h.cells 0 x xs c.at 0 s_left (Distinct-left (x ∷ xs) (c ∷ []) d) in
      let v = some (record (l.old) { next = 0 }) in
      (
        write h.cells a v,
        rw
            (
              ne_zero a l.ne,
              load-eq h.cells a l.ne l.holds,
              store-eq h.cells a l.ne (record (l.old) { next = 0 }) l.holds,
            )
            refl,
        record {
          holds = (
            cell c a 0,
            kept h (x ∷ xs) [] c h.cells a v (x ∷ xs)
                  (Distinct-apart_left c.at (x ∷ xs) (c ∷ []) d (ground arith)) l.here
                ∙ s_right.1,
          );
          left = l.linked;
          right = tt;
          only =
              Only-write h.cells (λ b. has b (x ∷ xs ++ c ∷ [])) a v only
                (has-left h (x ∷ xs) [] c a l.here);
        },
      )

  pub unlink_middle :
      (x : Item) (xs : Items) (y : Item) (ys : Items)
      → Seg h.cells 0 (x ∷ xs ++ c ∷ y ∷ ys) 0
      → Distinct (x ∷ xs ++ c ∷ y ∷ ys)
      → Only h.cells (λ a. has a (x ∷ xs ++ c ∷ y ∷ ys))
      → (m : Memory Cell) × ((set_prev h.cells y.at (last xs x.at) >>= λ m.
            set_next m (last xs x.at) y.at)
          ≡ some m)
        × Unlinked h (x ∷ xs) c (y ∷ ys) m
  unfolding set_prev set_next
  unlink_middle x xs y ys s d only =
      let a = last xs x.at in
      let front = x ∷ xs in
      let (s_left, s_right) = Seg-split h.cells 0 front (c ∷ y ∷ ys) 0 s in
      let (d_c, d_back) = Distinct-right front (c ∷ y ∷ ys) d in
      let d_front = Distinct-left front (c ∷ y ∷ ys) d in
      let y_out : has y.at front ≡ false =
        Distinct-apart_left y.at front (c ∷ y ∷ ys) d (ground arith) in
      let v = some (cell y a (first ys 0)) in
      let m1 = write h.cells y.at v in
      let l =
        Seg-IsLast m1 0 x xs c.at y.at (Seg-write h.cells 0 front c.at y.at v y_out s_left)
          d_front in
      let w = some (record (l.old) { next = y.at }) in
      let a_out : has a (y ∷ ys) ≡ false =
        Distinct-apart a front (y ∷ ys) (Distinct-without front (y ∷ ys) c d) l.here in
      (
        write m1 a w,
        rw
            (
              load-eq h.cells y.at s_right.2.0 s_right.2.1,
              store-eq h.cells y.at s_right.2.0 (cell y a (first ys 0)) s_right.2.1,
              load-eq m1 a l.ne l.holds,
              store-eq m1 a l.ne (record (l.old) { next = y.at }) l.holds,
            )
            refl,
        record {
          holds = (
            cell c a y.at,
            kept h front (y ∷ ys) c m1 a w front
                  (Distinct-apart_left c.at front (c ∷ y ∷ ys) d (ground arith)) l.here
                ∙ kept h front (y ∷ ys) c h.cells y.at v (y ∷ ys) d_c (ground arith)
                ∙ s_right.1,
          );
          left = l.linked;
          right =
              Seg-write m1 a (y ∷ ys) 0 a w a_out
                (Seg-first h.cells c.at a y ys 0 s_right.2 d_back);
          only =
              Only-write m1 (λ b. has b (front ++ c ∷ y ∷ ys)) a w
                (Only-write h.cells (λ b. has b (front ++ c ∷ y ∷ ys)) y.at v only
                  (has-right h front (y ∷ ys) c y.at (ground arith)))
                (has-left h front (y ∷ ys) c a l.here);
        },
      )
