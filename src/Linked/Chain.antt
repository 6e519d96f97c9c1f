-- ===== src/Linked/Chain.antt =====
-- Segments of doubly linked cells.
use eltex_course.Base.{
  ◌≡◌, refl, ◌≢◌, Bool, true, false, ◌||◌, List, [], ◌∷◌, ◌++◌, Option, some, arith, ◌==◌, sym, ap,
  ◌∙◌,
}
use eltex_course.Memory.{Ptr, Memory, write, write_self, write-ne}
use eltex_course.Linked.{Abonent, Cell}

-- A cell of the list with its address and its abonent.
pub record Item : Type 0 where
  pub at : Ptr
  pub «data» : Ptr
  pub abonent : Abonent

abbrev pub Items : Type 0
Items = List Item

abbrev pub cell : Item → Ptr → Ptr → Cell
cell c prev next = record { «data» = c.«data»; prev = prev; next = next }

abbrev pub first : Items → Ptr → Ptr
first [] next = next
first (c ∷ cs) next = c.at

abbrev pub last : Items → Ptr → Ptr
last [] prev = prev
last (c ∷ cs) prev = last cs c.at

abbrev pub has : Ptr → Items → Bool
has a [] = false
has a (c ∷ cs) = (a == c.at) || has a cs

-- The cells of the list, behind `prev` and in front of `next`.
abbrev pub Seg : Memory Cell → Ptr → Items → Ptr → Type 0
Seg m prev [] next = Unit {0}
Seg m prev (c ∷ cs) next =
    (c.at ≢ 0) × (m c.at ≡ some (cell c prev (first cs next))) × Seg m c.at cs next

abbrev pub Distinct : Items → Type 0
Distinct [] = Unit {0}
Distinct (c ∷ cs) = (has c.at cs ≡ false) × Distinct cs

pub Seg-write :
    (m : Memory Cell) (prev : Ptr) (cs : Items) (next a : Ptr) (x : Option Cell)
    → has a cs ≡ false
    → Seg m prev cs next
    → Seg (write m a x) prev cs next
unfolding write
Seg-write m prev [] next a x out h = tt
Seg-write m prev (c ∷ cs) next a x out h = ground (arith, Seg-write m c.at cs next a x)

first-append : (xs ys : Items) (next : Ptr) → first (xs ++ ys) next ≡ first xs (first ys next)
first-append [] ys next = refl
first-append (x ∷ xs) ys next = refl

pub last-append : (xs ys : Items) (prev : Ptr) → last (xs ++ ys) prev ≡ last ys (last xs prev)
last-append [] ys prev = refl
last-append (x ∷ xs) ys prev = last-append xs ys x.at

pub Seg-split :
    (m : Memory Cell) (prev : Ptr) (xs ys : Items) (next : Ptr)
    → Seg m prev (xs ++ ys) next
    → Seg m prev xs (first ys next) × Seg m (last xs prev) ys next
Seg-split m prev [] ys next h = (tt, h)
Seg-split m prev (x ∷ xs) ys next h =
    let (k, l) = Seg-split m x.at xs ys next h.2 in
    ((h.0, h.1 ∙ ap (λ n. some (cell x prev n)) (first-append xs ys next), k), l)

pub Seg-join :
    (m : Memory Cell) (prev : Ptr) (xs ys : Items) (next : Ptr)
    → Seg m prev xs (first ys next)
    → Seg m (last xs prev) ys next
    → Seg m prev (xs ++ ys) next
Seg-join m prev [] ys next h k = k
Seg-join m prev (x ∷ xs) ys next h k = (
  h.0,
  h.1 ∙ ap (λ n. some (cell x prev n)) (sym (first-append xs ys next)),
  Seg-join m x.at xs ys next h.2 k,
)

pub has-append : (a : Ptr) (xs ys : Items) → has a (xs ++ ys) ≡ (has a xs || has a ys)
has-append a [] ys = refl
has-append a (x ∷ xs) ys = ground (arith, has-append a xs ys)

-- A segment and what comes behind it share no address.
pub Distinct-apart :
    (a : Ptr) (xs ys : Items) → Distinct (xs ++ ys) → has a xs ≡ true → has a ys ≡ false
Distinct-apart a [] ys d h = ground arith
Distinct-apart a (x ∷ xs) ys d h =
    ground (arith, d.0, Distinct-apart a xs ys d.1, has-append x.at xs ys, has-append a xs ys)

pub Distinct-apart_left :
    (a : Ptr) (xs ys : Items) → Distinct (xs ++ ys) → has a ys ≡ true → has a xs ≡ false
Distinct-apart_left a [] ys d h = refl
Distinct-apart_left a (x ∷ xs) ys d h =
    ground (arith, d.0, Distinct-apart_left a xs ys d.1, has-append x.at xs ys, has-append a xs ys)

pub Distinct-without : (xs ys : Items) (c : Item) → Distinct (xs ++ c ∷ ys) → Distinct (xs ++ ys)
Distinct-without [] ys c d = d.1
Distinct-without (x ∷ xs) ys c d = (
  ground (arith, d.0, has-append x.at xs (c ∷ ys), has-append x.at xs ys),
  Distinct-without xs ys c d.1,
)

pub Distinct-left : (xs ys : Items) → Distinct (xs ++ ys) → Distinct xs
Distinct-left [] ys d = tt
Distinct-left (x ∷ xs) ys d = (ground (arith, d.0, has-append x.at xs ys), Distinct-left xs ys d.1)

pub Distinct-right : (xs ys : Items) → Distinct (xs ++ ys) → Distinct ys
Distinct-right [] ys d = d
Distinct-right (x ∷ xs) ys d = Distinct-right xs ys d.1

-- The cell in front of `next` can point elsewhere.
pub record IsLast (m : Memory Cell) (prev : Ptr) (cs : Items) (next : Ptr) (a : Ptr) : Type 0 where
  pub old : Cell
  pub ne : a ≢ 0
  pub holds : m a ≡ some old
  pub here : has a cs ≡ true
  pub linked : Seg (write m a (some (record old { next = next }))) prev cs next

pub Seg-IsLast :
    (m : Memory Cell) (prev : Ptr) (x : Item) (xs : Items) (next next' : Ptr)
    → Seg m prev (x ∷ xs) next
    → Distinct (x ∷ xs)
    → IsLast m prev (x ∷ xs) next' (last xs x.at)
Seg-IsLast m prev x [] next next' h d = record {
  old = cell x prev next;
  ne = h.0;
  holds = h.1;
  here = ground arith;
  linked = (h.0, write_self m x.at _, tt);
}
Seg-IsLast m prev x (y ∷ ys) next next' h d =
    let l = Seg-IsLast m x.at y ys next next' h.2 d.1 in
    record {
      old = l.old;
      ne = l.ne;
      holds = l.holds;
      here = ground (arith, l.here);
      linked = (
        h.0,
        write-ne m (last ys y.at) _ x.at
              (λ e. ground (arith, l.here, d.0, ap (λ a. has a (y ∷ ys)) e))
            ∙ h.1,
        l.linked,
      );
    }

-- The first cell can point back elsewhere.
pub Seg-first :
    (m : Memory Cell) (prev prev' : Ptr) (y : Item) (ys : Items) (next : Ptr)
    → Seg m prev (y ∷ ys) next
    → Distinct (y ∷ ys)
    → Seg (write m y.at (some (cell y prev' (first ys next)))) prev' (y ∷ ys) next
Seg-first m prev prev' y ys next h d =
    (h.0, write_self m y.at _, Seg-write m y.at ys next y.at _ d.0 h.2)
