-- ===== src/Linked/Owned.antt =====
-- The abonents that the cells of a list own, and heaps that hold nothing but a list.
use eltex_course.Base.{
  ◌≡◌, refl, ◌≢◌, Bool, true, false, Bool-cases, inl, inr, ◌||◌, [], ◌∷◌, ◌++◌, Option, none, some,
  arith, ◌==◌,
}
use eltex_course.Memory.{Ptr, Memory, write}
use eltex_course.Linked.{Abonent}
use eltex_course.Linked.Chain.{Item, Items, has, has-append}

abbrev pub owns : Ptr → Items → Bool
owns p [] = false
owns p (c ∷ cs) = (p == c.«data») || owns p cs

abbrev pub Owned : Memory Abonent → Items → Type 0
Owned m [] = Unit {0}
Owned m (c ∷ cs) =
    (c.«data» ≢ 0) × (m c.«data» ≡ some c.abonent) × (owns c.«data» cs ≡ false) × Owned m cs

pub owns-append : (a : Ptr) (xs ys : Items) → owns a (xs ++ ys) ≡ (owns a xs || owns a ys)
owns-append a [] ys = refl
owns-append a (x ∷ xs) ys = ground (arith, owns-append a xs ys)

pub Owned-write :
    (m : Memory Abonent) (cs : Items) (p : Ptr) (x : Option Abonent)
    → owns p cs ≡ false
    → Owned m cs
    → Owned (write m p x) cs
unfolding write
Owned-write m [] p x out h = tt
Owned-write m (c ∷ cs) p x out h = ground (arith, Owned-write m cs p x)

pub Owned-at :
    (m : Memory Abonent) (xs ys : Items) (c : Item)
    → Owned m (xs ++ c ∷ ys)
    → (c.«data» ≢ 0) × (m c.«data» ≡ some c.abonent)
Owned-at m [] ys c h = (h.0, h.1)
Owned-at m (x ∷ xs) ys c h = Owned-at m xs ys c h.3

-- The abonent of one cell is freed.
pub Owned-without :
    (m : Memory Abonent) (xs ys : Items) (c : Item)
    → Owned m (xs ++ c ∷ ys)
    → Owned (write m c.«data» none) (xs ++ ys)
unfolding write
Owned-without m [] ys c h = Owned-write m ys c.«data» none h.2 h.3
Owned-without m (x ∷ xs) ys c h = ground (
  arith,
  h.0,
  h.1,
  h.2,
  Owned-without m xs ys c h.3,
  owns-append x.«data» xs (c ∷ ys),
  owns-append x.«data» xs ys,
)

pub Owned-snoc :
    (m : Memory Abonent) (xs : Items) (c : Item)
    → Owned m xs
    → owns c.«data» xs ≡ false
    → c.«data» ≢ 0
    → m c.«data» ≡ some c.abonent
    → Owned m (xs ++ c ∷ [])
Owned-snoc m [] c h out ne e = (ne, e, refl, tt)
Owned-snoc m (x ∷ xs) c h out ne e = (
  h.0,
  h.1,
  ground (arith, h.2, out, owns-append x.«data» xs (c ∷ [])),
  Owned-snoc m xs c h.3 (ground arith) ne e,
)

-- The memory holds nothing but what the test names.
unfoldable pub Only : {N : Type 0} → Memory N → (Ptr → Bool) → Type 0
Only m test = (a : Ptr) → test a ≡ false → m a ≡ none

pub Only-write :
    {N : Type 0} (m : Memory N) (test : Ptr → Bool) (p : Ptr) (x : Option N)
    → Only m test
    → test p ≡ true
    → Only (write m p x) test
unfolding Only write
Only-write m test p x only h a out = elim (Bool-cases (a == p)) [
  | inl same ↦ absurd (ground (arith, same, out, h))
  | inr other ↦ rw other (only a out)
]

-- Another place is free now, or is named now.
pub Only-less :
    {N : Type 0} (m : Memory N) (test test' : Ptr → Bool) (p : Ptr)
    → Only m test
    → ((a : Ptr) → test a ≡ ((a == p) || test' a))
    → Only (write m p none) test'
unfolding Only write
Only-less m test test' p only same a out = elim (Bool-cases (a == p)) [
  | inl here ↦ rw here refl
  | inr other ↦ rw other (only a (ground (arith, same a, other, out)))
]

pub Only-more :
    {N : Type 0} (m : Memory N) (test test' : Ptr → Bool) (p : Ptr) (x : Option N)
    → Only m test
    → ((a : Ptr) → test' a ≡ ((a == p) || test a))
    → Only (write m p x) test'
unfolding Only write
Only-more m test test' p x only same a out = elim (Bool-cases (a == p)) [
  | inl here ↦ absurd (ground (arith, same a, here, out))
  | inr other ↦ rw other (only a (ground (arith, same a, other, out)))
]

pub has-middle :
    (a : Ptr) (xs ys : Items) (c : Item) → has a (xs ++ c ∷ ys) ≡ ((a == c.at) || has a (xs ++ ys))
has-middle a xs ys c = ground (arith, has-append a xs (c ∷ ys), has-append a xs ys)

pub owns-middle :
    (a : Ptr) (xs ys : Items) (c : Item)
    → owns a (xs ++ c ∷ ys) ≡ ((a == c.«data») || owns a (xs ++ ys))
owns-middle a xs ys c = ground (arith, owns-append a xs (c ∷ ys), owns-append a xs ys)
