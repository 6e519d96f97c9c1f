-- ===== src/Memory.antt =====
-- Objects that `malloc` gives out, at addresses; address 0 is `NULL`. A read or a write through
-- `NULL`, or through an address that holds no object, is a fault, `none`.
use eltex_course.Base.{ℕ, ◌≡◌, ◌≢◌, false, Option, none, some, arith, ◌==◌, if◌then◌else◌}

abbrev pub Ptr : Type 0
Ptr = ℕ

abbrev pub Memory : Type 0 → Type 0
Memory N = Ptr → Option N

module _ {N : Type 0} where
  unfoldable pub write : Memory N → Ptr → Option N → Memory N
  write m p c a = if a == p then c else m a

  -- `*p`
  unfoldable pub load : Memory N → Ptr → Option N
  load m p = if p == 0 then none else m p

  -- `*p = n`, where `p` holds an object
  unfoldable pub store : Memory N → Ptr → N → Option (Memory N)
  store m p n =
      if p == 0 then none else elim (m p) [ none ↦ none | some _ ↦ some (write m p (some n)) ]

  -- the first write through what `malloc` returned, with no check for `NULL`
  unfoldable pub fill : Memory N → Ptr → N → Option (Memory N)
  fill m p n = if p == 0 then none else some (write m p (some n))

  -- `free(p)`
  unfoldable pub release : Memory N → Ptr → Option (Memory N)
  release m p =
      if p == 0 then some m else elim (m p) [ none ↦ none | some _ ↦ some (write m p none) ]

pub ne_zero : (p : Ptr) → p ≢ 0 → (p == 0) ≡ false
ne_zero p h = ground arith

module _ {N : Type 0} (m : Memory N) (p : Ptr) (ne : p ≢ 0) where
  pub load-eq : {n : N} → m p ≡ some n → load m p ≡ some n
  unfolding load
  load-eq e = rw (ne_zero p ne) e

  pub store-eq : {n : N} (n' : N) → m p ≡ some n → store m p n' ≡ some (write m p (some n'))
  unfolding store
  store-eq n' e = rw (ne_zero p ne, e)

  pub fill-eq : (n : N) → fill m p n ≡ some (write m p (some n))
  unfolding fill
  fill-eq n = rw (ne_zero p ne)

  pub release-eq : {n : N} → m p ≡ some n → release m p ≡ some (write m p none)
  unfolding release
  release-eq e = rw (ne_zero p ne, e)

pub write_self : {N : Type 0} (m : Memory N) (p : Ptr) (x : Option N) → write m p x p ≡ x
unfolding write
write_self m p x = ground arith

pub write-ne :
    {N : Type 0} (m : Memory N) (p : Ptr) (x : Option N) (a : Ptr) → a ≢ p → write m p x a ≡ m a
unfolding write
write-ne m p x a h = ground arith
