-- ===== src/Servers/Buffered/Answers.antt =====
-- Where each request is: with a thread, answered, or lost to the end of the server.
use mathlib.Core.Path.{subst}
use mathlib.Core.Option.{none-ne-some}
use eltex_course.Base.{
  ℕ, zero, suc, ◌+◌, ◌<◌, ◌≡◌, refl, ap, Bool, true, false, Bool-cases, inl, inr, List, [], ◌∷◌,
  ◌++◌, Option, some, ◌==◌, if◌then◌else◌, get_elem?, set, length, total, total-set, arith,
}
use eltex_course.Servers.Buffered.{
  Ready, idle, busy, killed, Place, testing, replied, ended, Slot, Main, searching, receiving,
  stopped, System, fresh_slot, is_idle, search_turn, handle_at, handle,
}

abbrev pub one_if : Bool → ℕ
one_if b = if b then 1 else 0

-- How often a client stands in a list.
abbrev pub count : ℕ → List ℕ → ℕ
count c [] = 0
count c (d ∷ ds) = one_if (d == c) + count c ds

pub count-append : (c : ℕ) (xs ys : List ℕ) → count c (xs ++ ys) ≡ count c xs + count c ys
count-append c [] ys = omega arith
count-append c (x ∷ xs) ys = omega (arith, count-append c xs ys)

-- A client that waits for its answer.
abbrev pub held_at : ℕ → Place → Ready → ℕ → ℕ
held_at c testing idle client = 0
held_at c testing busy client = one_if (client == c)
held_at c testing killed client = 0
held_at c replied r client = 0
held_at c ended r client = 0

abbrev pub held : ℕ → Slot → ℕ
held c d = held_at c d.place d.is_ready d.client

-- While the server listens, a thread is free, at work, or has replied.
abbrev pub bad_at : Place → Ready → ℕ
bad_at testing idle = 0
bad_at testing busy = 0
bad_at testing killed = 1
bad_at replied idle = 1
bad_at replied busy = 0
bad_at replied killed = 1
bad_at ended r = 1

abbrev pub bad : Slot → ℕ
bad d = bad_at d.place d.is_ready

-- `main` takes a datagram for a thread that is free.
abbrev pub IsFree : List Slot → ℕ → Type 0
IsFree slots f =
    (d : Slot) × (get_elem? slots f ≡ some d) × (d.is_ready ≡ idle) × (d.place ≡ testing)

abbrev pub IsMain : Main → List Slot → ℕ → Type 0
IsMain (searching i) slots lost = (i < 3) × (lost ≡ 0) × (total bad slots ≡ 0)
IsMain (receiving f) slots lost = IsFree slots f × (lost ≡ 0) × (total bad slots ≡ 0)
IsMain stopped slots lost = Unit {0}

-- Each request that `main` has taken is with one thread, answered once, or lost; none is lost while the
-- server listens.
pub record Sound (c : ℕ) (s : System) : Type 0 where
  pub lost : ℕ
  pub balance : count c s.answered + total (held c) s.slots + lost ≡ count c s.asked
  pub main : IsMain s.main s.slots lost
  pub size : length s.slots ≡ 3

abbrev pub Keeps : ℕ → Option System → Type 0
Keeps c r = (g : System) × (r ≡ some g) × Sound c g

-- A step of a thread moves what it holds to the answers.
held-handle_at :
    (c : ℕ) (p : Place) (r : Ready) (d : Slot)
    → p ≡ d.place
    → r ≡ d.is_ready
    → held c (handle_at p r d).0 + count c (handle_at p r d).1 ≡ held_at c p r d.client
unfolding handle_at
held-handle_at c testing idle d e f = rw⁻¹ (e, f) refl
held-handle_at c testing busy d e f = omega arith
held-handle_at c testing killed d e f = refl
held-handle_at c replied r d e f = refl
held-handle_at c ended r d e f = rw⁻¹ e refl

pub held-handle : (c : ℕ) (d : Slot) → held c (handle d).0 + count c (handle d).1 ≡ held c d
held-handle c d = held-handle_at c d.place d.is_ready d refl refl

bad-handle_at :
    (p : Place) (r : Ready) (d : Slot)
    → p ≡ d.place
    → r ≡ d.is_ready
    → bad_at p r ≡ 0
    → bad (handle_at p r d).0 ≡ 0
unfolding handle_at
bad-handle_at testing idle d e f b = rw⁻¹ (e, f) refl
bad-handle_at testing busy d e f b = rw⁻¹ f refl
bad-handle_at testing killed d e f b = absurd (omega (arith, b))
bad-handle_at replied r d e f b = refl
bad-handle_at ended r d e f b = absurd (omega (arith, b))

pub bad-handle : (d : Slot) → bad d ≡ 0 → bad (handle d).0 ≡ 0
bad-handle d b = bad-handle_at d.place d.is_ready d refl refl b

-- A slot of the array.
slot_at : (slots : List Slot) (i : ℕ) → i < length slots → (d : Slot) × (get_elem? slots i ≡ some d)
slot_at [] i h = absurd (omega arith)
slot_at (d ∷ slots) zero h = (d, refl)
slot_at (d ∷ slots) (suc i) h = slot_at slots i (omega arith)

pub get_elem?-set_self :
    (slots : List Slot) (i : ℕ) (d e : Slot)
    → get_elem? slots i ≡ some d
    → get_elem? (set slots i e) i ≡ some e
get_elem?-set_self [] i d e f = absurd (none-ne-some d f)
get_elem?-set_self (x ∷ slots) zero d e f = refl
get_elem?-set_self (x ∷ slots) (suc i) d e f = get_elem?-set_self slots i d e f

pub get_elem?-set_other :
    (slots : List Slot) (i j : ℕ) (e : Slot)
    → (i == j) ≡ false
    → get_elem? (set slots i e) j ≡ get_elem? slots j
get_elem?-set_other [] i j e h = refl
get_elem?-set_other (x ∷ slots) zero zero e h = absurd (ground arith)
get_elem?-set_other (x ∷ slots) zero (suc j) e h = refl
get_elem?-set_other (x ∷ slots) (suc i) zero e h = refl
get_elem?-set_other (x ∷ slots) (suc i) (suc j) e h = get_elem?-set_other slots i j e (ground arith)

pub bad_none :
    (slots : List Slot) (i : ℕ) (d : Slot)
    → total bad slots ≡ 0
    → get_elem? slots i ≡ some d
    → bad d ≡ 0
bad_none slots i d t e = omega (arith, t, total-set bad slots i d fresh_slot e)

idle-testing : (p : Place) (r : Ready) → bad_at p r ≡ 0 → r ≡ idle → p ≡ testing
idle-testing testing r b e = refl
idle-testing replied idle b e = absurd (omega (arith, b))
idle-testing replied busy b e = absurd (omega (arith, ap (λ r. bad_at replied r) e))
idle-testing replied killed b e = absurd (omega (arith, b))
idle-testing ended r b e = absurd (omega (arith, b))

of_is_idle : (r : Ready) → is_idle r ≡ true → r ≡ idle
of_is_idle idle e = refl
of_is_idle busy e = absurd (ground arith)
of_is_idle killed e = absurd (ground arith)

next_index :
    (i : ℕ)
    → i < 3
    → (slots : List Slot) → (lost : ℕ) → lost ≡ 0
    → total bad slots ≡ 0
    → IsMain (if i == 2 then searching 1 else searching (i + 1)) slots lost
next_index i h slots lost l b = elim (Bool-cases (i == 2)) [
  | inl last ↦ rw last (omega arith, l, b)
  | inr more ↦ rw more (ground (arith, h), l, b)
]

pub search_turn-Keeps :
    (c : ℕ) (s : System) (i : ℕ) → Sound c s → s.main ≡ searching i → Keeps c (search_turn s i)
unfolding search_turn
search_turn-Keeps c s i h e =
    let (l, n, b) = subst (λ m. IsMain m s.slots h.lost) e h.main in
    let (d, found) = slot_at s.slots i (omega (arith, l, h.size)) in
    elim (Bool-cases (is_idle d.is_ready)) [
      | inl free ↦
          let r = of_is_idle d.is_ready free in
          (
            record s { main = receiving i },
            rw (found, free) refl,
            record {
              lost = h.lost;
              balance = h.balance;
              main = (
                (d, found, r, idle-testing d.place d.is_ready (bad_none s.slots i d b found) r),
                n,
                b,
              );
              size = h.size;
            },
          )
      | inr taken ↦ (
        record s { main = if i == 2 then searching 1 else searching (i + 1) },
        rw (found, taken) refl,
        record {
          lost = h.lost;
          balance = h.balance;
          main = next_index i l s.slots h.lost n b;
          size = h.size;
        },
      )
    ]
