-- ===== src/Linked/Removing.antt =====
-- `cell_remove` takes one cell out of the list.
use eltex_course.Base.{
  bind_twice, ◌≡◌, refl, true, false, [], ◌∷◌, ◌++◌, append-nil, some, arith, ◌==◌, sym, ap, ◌∙◌,
}
use eltex_course.Memory.{ne_zero, load-eq}
use eltex_course.Linked.{
  Directory, Heap, set_prev, set_next, free_cell, remove_head, remove_tail, remove_middle,
  cell_remove,
}
use eltex_course.Linked.Chain.{
  Item, Items, first, last, Seg-split, last-append, has-append, Distinct-right,
}
use eltex_course.Linked.Directories.{IsDirectory, IsTail}
use eltex_course.Linked.Unlinking.{
  has-last, free_cell-IsDirectory, unlink_head, unlink_tail, unlink_middle,
}

module _ (h : Heap) (d : Directory) (c : Item) where
  removed_head :
      (ys : Items)
      → IsDirectory h d (c ∷ ys)
      → (g : Heap × Directory) × (cell_remove h d c.at ≡ some g) × IsDirectory g.0 g.1 ys
  unfolding cell_remove remove_head
  removed_head ys is =
      let (ne, e, s) = is.chain in
      let (m, f, u) = unlink_head h c ys is.chain is.distinct is.only_cells in
      let tail : IsTail d.tail ys =
        elim ys as (λ ys. IsTail d.tail (c ∷ ys) → IsTail d.tail ys) [
          | [] ↦ λ t. tt
          | y ∷ ys ↦ λ t. t
        ]
          is.tail in
      let (g, k, r) =
        free_cell-IsDirectory h [] ys c (record d { head = first ys 0 }) m u ne refl tail
          is.capacity is.distinct is.owned is.only_abonents in
      let front : (d.head == c.at) ≡ true = ground (arith, is.head) in
      (g, rw (ne_zero c.at ne, load-eq h.cells c.at ne e, front) (simp (f) k), r)

  removed_tail :
      (x : Item) (xs : Items)
      → IsDirectory h d (x ∷ xs ++ c ∷ [])
      → (g : Heap × Directory) × (cell_remove h d c.at ≡ some g)
        × IsDirectory g.0 g.1 (x ∷ xs ++ [])
  unfolding cell_remove remove_tail
  removed_tail x xs is =
      let (s_left, s_right) = Seg-split h.cells 0 (x ∷ xs) (c ∷ []) 0 is.chain in
      let (ne, e, s) = s_right in
      let (m, f, u) = unlink_tail h c x xs is.chain is.distinct is.only_cells in
      let front : (d.head == c.at) ≡ false =
        ground (arith, is.head, is.distinct.0, has-append x.at xs (c ∷ [])) in
      let back : (d.tail == c.at) ≡ true = ground (arith, is.tail, last-append xs (c ∷ []) x.at) in
      let tail : last xs x.at ≡ last (xs ++ []) x.at =
        ap (λ l. last l x.at) (sym (append-nil xs)) in
      let (g, k, r) =
        free_cell-IsDirectory h (x ∷ xs) [] c (record d { tail = last xs x.at }) m u ne is.head tail
          is.capacity is.distinct is.owned is.only_abonents in
      (g, rw (ne_zero c.at ne, load-eq h.cells c.at ne e, front, back) (simp (f) k), r)

  removed_middle :
      (x : Item) (xs : Items) (y : Item) (ys : Items)
      → IsDirectory h d (x ∷ xs ++ c ∷ y ∷ ys)
      → (g : Heap × Directory) × (cell_remove h d c.at ≡ some g)
        × IsDirectory g.0 g.1 (x ∷ xs ++ y ∷ ys)
  unfolding cell_remove remove_middle
  removed_middle x xs y ys is =
      let a = last xs x.at in
      let all = x ∷ xs ++ c ∷ y ∷ ys in
      let (s_left, s_right) = Seg-split h.cells 0 (x ∷ xs) (c ∷ y ∷ ys) 0 is.chain in
      let (ne, e, s) = s_right in
      let (m, f, u) = unlink_middle h c x xs y ys is.chain is.distinct is.only_cells in
      let end = is.tail ∙ last-append xs (c ∷ y ∷ ys) x.at in
      let front : (d.head == c.at) ≡ false =
        ground (arith, is.head, is.distinct.0, has-append x.at xs (c ∷ y ∷ ys)) in
      let back : (d.tail == c.at) ≡ false =
        ground (arith, end, has-last y ys, (Distinct-right (x ∷ xs) (c ∷ y ∷ ys) is.distinct).0) in
      let (g, k, r) =
        free_cell-IsDirectory h (x ∷ xs) (y ∷ ys) c d m u ne is.head
          (end ∙ sym (last-append xs (y ∷ ys) x.at)) is.capacity is.distinct is.owned
          is.only_abonents in
      (
        g,
        rw (ne_zero c.at ne, load-eq h.cells c.at ne e, front, back)
            (bind_twice (set_prev h.cells y.at a) (λ m. set_next m a y.at)
              (λ m. free_cell m h.abonents d c.at c.«data») m _ f k),
        r,
      )

  -- `cell_remove` of any cell of the list gives the list without it, and frees the cell and its
  -- abonent.
  pub cell_remove-IsDirectory :
      (xs ys : Items)
      → IsDirectory h d (xs ++ c ∷ ys)
      → (g : Heap × Directory) × (cell_remove h d c.at ≡ some g) × IsDirectory g.0 g.1 (xs ++ ys)
  cell_remove-IsDirectory [] ys is = removed_head ys is
  cell_remove-IsDirectory (x ∷ xs) [] is = removed_tail x xs is
  cell_remove-IsDirectory (x ∷ xs) (y ∷ ys) is = removed_middle x xs y ys is
