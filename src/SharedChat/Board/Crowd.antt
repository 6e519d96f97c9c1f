-- ===== src/SharedChat/Board/Crowd.antt =====
-- The marks of the clients that have read, one for each.
use mathlib.Core.Path.{subst}
use mathlib.Core.Option.{some-injective, none-ne-some}
use eltex_course.Base.{
  ℕ, zero, suc, ◌+◌, ◌≡◌, ◌<◌, refl, ap, ◌∙◌, Bool, true, false, List, [], ◌∷◌, some, ◌==◌,
  if◌then◌else◌, get_elem?, get_or, set, length, length-set, replicate, Bytes, arith,
}
use eltex_course.SharedChat.Board.{Reader, slot, checksum, heard}

-- The clients as they were before the text, with who has read it.
abbrev pub Crowd : Type 0
Crowd = List (Reader × Bool)

module _ (text : Bytes) where
  abbrev pub now : Reader × Bool → Reader
  now p = if p.1 then heard p.0 text else p.0

  abbrev pub readers_of : Crowd → List Reader
  readers_of [] = []
  readers_of (p ∷ ps) = now p ∷ readers_of ps

abbrev pub marks_of : Crowd → List ℕ
marks_of [] = replicate 50 0
marks_of ((r, f) ∷ ps) = if f then set (marks_of ps) (slot r.pid) 1 else marks_of ps

abbrev pub told : Crowd → ℕ → Crowd
told [] i = []
told ((r, f) ∷ ps) zero = (r, true) ∷ ps
told (p ∷ ps) (suc i) = p ∷ told ps i

abbrev pub count_told : Crowd → ℕ
count_told [] = 0
count_told ((r, f) ∷ ps) = (if f then 1 else 0) + count_told ps

abbrev pub firsts : Crowd → List Reader
firsts [] = []
firsts ((r, f) ∷ ps) = r ∷ firsts ps

-- No client of the list has the place in `am_i_read`.
abbrev pub Free : ℕ → List Reader → Type 0
Free c [] = Unit {0}
Free c (r ∷ rs) = ((slot r.pid == c) ≡ false) × Free c rs

abbrev pub Distinct : List Reader → Type 0
Distinct [] = Unit {0}
Distinct (r ∷ rs) = Free (slot r.pid) rs × Distinct rs

-- Reading and writing a list of numbers.
pub get_or-set_self : (xs : List ℕ) (i v d : ℕ) → i < length xs → get_or (set xs i v) i d ≡ v
get_or-set_self [] i v d h = absurd (omega arith)
get_or-set_self (x ∷ xs) zero v d h = refl
get_or-set_self (x ∷ xs) (suc i) v d h = get_or-set_self xs i v d (omega arith)

pub get_or-set_other :
    (xs : List ℕ) (i j v d : ℕ) → (i == j) ≡ false → get_or (set xs i v) j d ≡ get_or xs j d
get_or-set_other [] i j v d h = refl
get_or-set_other (x ∷ xs) zero zero v d h = absurd (ground arith)
get_or-set_other (x ∷ xs) zero (suc j) v d h = refl
get_or-set_other (x ∷ xs) (suc i) zero v d h = refl
get_or-set_other (x ∷ xs) (suc i) (suc j) v d h = get_or-set_other xs i j v d (ground arith)

set_twice : (xs : List ℕ) (i v w : ℕ) → set (set xs i v) i w ≡ set xs i w
set_twice [] i v w = refl
set_twice (x ∷ xs) zero v w = refl
set_twice (x ∷ xs) (suc i) v w = ap (◌∷◌ x) (set_twice xs i v w)

set-set_comm :
    (xs : List ℕ) (i j v w : ℕ) → (i == j) ≡ false → set (set xs i v) j w ≡ set (set xs j w) i v
set-set_comm [] i j v w h = refl
set-set_comm (x ∷ xs) zero zero v w h = absurd (ground arith)
set-set_comm (x ∷ xs) zero (suc j) v w h = refl
set-set_comm (x ∷ xs) (suc i) zero v w h = refl
set-set_comm (x ∷ xs) (suc i) (suc j) v w h = ap (◌∷◌ x) (set-set_comm xs i j v w (ground arith))

checksum-set :
    (xs : List ℕ) (i v : ℕ)
    → i < length xs
    → checksum (set xs i v) + get_or xs i 0 ≡ checksum xs + v
unfolding checksum
checksum-set [] i v h = absurd (omega arith)
checksum-set (x ∷ xs) zero v h = omega arith
checksum-set (x ∷ xs) (suc i) v h = omega (arith, checksum-set xs i v (omega arith))

pub length-marks_of : (ps : Crowd) → length (marks_of ps) ≡ 50
length-marks_of [] = refl
length-marks_of ((r, true) ∷ ps) = length-set (marks_of ps) (slot r.pid) 1 ∙ length-marks_of ps
length-marks_of ((r, false) ∷ ps) = length-marks_of ps

slot_inside : (ps : Crowd) (pid : ℕ) → slot pid < length (marks_of ps)
slot_inside ps pid = omega (arith, length-marks_of ps)

get_or-replicate : (n c : ℕ) → get_or {A = ℕ} (replicate n 0) c 0 ≡ 0
get_or-replicate zero c = refl
get_or-replicate (suc n) zero = refl
get_or-replicate (suc n) (suc c) = get_or-replicate n c

get_or-Free : (ps : Crowd) (c : ℕ) → Free c (firsts ps) → get_or (marks_of ps) c 0 ≡ 0
get_or-Free [] c h = get_or-replicate 50 c
get_or-Free ((r, true) ∷ ps) c h =
    get_or-set_other (marks_of ps) (slot r.pid) c 1 0 h.0 ∙ get_or-Free ps c h.1
get_or-Free ((r, false) ∷ ps) c h = get_or-Free ps c h.1

checksum-replicate : (n : ℕ) → checksum (replicate n 0) ≡ 0
unfolding checksum
checksum-replicate zero = refl
checksum-replicate (suc n) = omega (arith, checksum-replicate n)

pub checksum-marks_of : (ps : Crowd) → Distinct (firsts ps) → checksum (marks_of ps) ≡ count_told ps
checksum-marks_of [] d = checksum-replicate 50
checksum-marks_of ((r, false) ∷ ps) d = omega (arith, checksum-marks_of ps d.1)
checksum-marks_of ((r, true) ∷ ps) d = omega (
  arith,
  checksum-marks_of ps d.1,
  checksum-set (marks_of ps) (slot r.pid) 1 (slot_inside ps r.pid),
  get_or-Free ps (slot r.pid) d.0,
)

-- Whether a client has its mark.
abbrev pub mark : Bool → ℕ
mark f = if f then 1 else 0

Free-at :
    (ps : Crowd) (c i : ℕ) (r : Reader) (f : Bool)
    → Free c (firsts ps)
    → get_elem? ps i ≡ some (r, f)
    → (slot r.pid == c) ≡ false
Free-at [] c i r f h e = absurd (none-ne-some (r, f) e)
Free-at ((q, g) ∷ ps) c zero r f h e =
    subst (λ p. (slot p.0.pid == c) ≡ false) (some-injective (q, g) (r, f) e) h.0
Free-at ((q, g) ∷ ps) c (suc i) r f h e = Free-at ps c i r f h.1 e

==_sym : (a b : ℕ) → (a == b) ≡ false → (b == a) ≡ false
==_sym a b h = ground arith

mark-here :
    (ps : Crowd) (r : Reader) (f : Bool)
    → Free (slot r.pid) (firsts ps)
    → get_or (marks_of ((r, f) ∷ ps)) (slot r.pid) 0 ≡ mark f
mark-here ps r true h = get_or-set_self (marks_of ps) (slot r.pid) 1 0 (slot_inside ps r.pid)
mark-here ps r false h = get_or-Free ps (slot r.pid) h

mark-there :
    (ps : Crowd) (q : Reader) (g : Bool) (c : ℕ)
    → (slot q.pid == c) ≡ false
    → get_or (marks_of ((q, g) ∷ ps)) c 0 ≡ get_or (marks_of ps) c 0
mark-there ps q true c h = get_or-set_other (marks_of ps) (slot q.pid) c 1 0 h
mark-there ps q false c h = refl

pub get_or-marks_of :
    (ps : Crowd) (i : ℕ) (r : Reader) (f : Bool)
    → Distinct (firsts ps)
    → get_elem? ps i ≡ some (r, f)
    → get_or (marks_of ps) (slot r.pid) 0 ≡ mark f
get_or-marks_of [] i r f d e = absurd (none-ne-some (r, f) e)
get_or-marks_of ((q, g) ∷ ps) zero r f d e =
    subst (λ p. get_or (marks_of ((q, g) ∷ ps)) (slot p.0.pid) 0 ≡ mark p.1)
      (some-injective (q, g) (r, f) e) (mark-here ps q g d.0)
get_or-marks_of ((q, g) ∷ ps) (suc i) r f d e =
    mark-there ps q g (slot r.pid)
      (==_sym (slot r.pid) (slot q.pid) (Free-at ps (slot q.pid) i r f d.0 e))
    ∙ get_or-marks_of ps i r f d.1 e

set-marks_of-head :
    (ps : Crowd) (q : Reader) (g : Bool)
    → set (marks_of ((q, g) ∷ ps)) (slot q.pid) 1 ≡ marks_of ((q, true) ∷ ps)
set-marks_of-head ps q true = set_twice (marks_of ps) (slot q.pid) 1 1
set-marks_of-head ps q false = refl

set-marks_of-tail :
    (ps rs : Crowd) (q : Reader) (g : Bool) (c : ℕ)
    → set (marks_of ps) c 1 ≡ marks_of rs
    → (slot q.pid == c) ≡ false
    → set (marks_of ((q, g) ∷ ps)) c 1 ≡ marks_of ((q, g) ∷ rs)
set-marks_of-tail ps rs q true c e h =
    set-set_comm (marks_of ps) (slot q.pid) c 1 1 h ∙ ap (λ m. set m (slot q.pid) 1) e
set-marks_of-tail ps rs q false c e h = e

-- The mark of a client is that of the crowd in which it is told.
pub set-marks_of :
    (ps : Crowd) (i : ℕ) (r : Reader) (f : Bool)
    → Distinct (firsts ps)
    → get_elem? ps i ≡ some (r, f)
    → set (marks_of ps) (slot r.pid) 1 ≡ marks_of (told ps i)
set-marks_of [] i r f d e = absurd (none-ne-some (r, f) e)
set-marks_of ((q, g) ∷ ps) zero r f d e =
    subst (λ p. set (marks_of ((q, g) ∷ ps)) (slot p.0.pid) 1 ≡ marks_of ((q, true) ∷ ps))
      (some-injective (q, g) (r, f) e) (set-marks_of-head ps q g)
set-marks_of ((q, g) ∷ ps) (suc i) r f d e =
    set-marks_of-tail ps (told ps i) q g (slot r.pid) (set-marks_of ps i r f d.1 e)
      (==_sym (slot r.pid) (slot q.pid) (Free-at ps (slot q.pid) i r f d.0 e))
