-- ===== src/Warehouse/Balance.antt =====
-- Nothing is lost in the storage, whatever the order of the threads.
use mathlib.Core.Path.{subst}
use mathlib.Core.Bool.{false≢true}
use eltex_course.Base.{
  ℕ, ◌+◌, ◌≤◌, ◌≡◌, refl, sym, ◌∙◌, true, false, Bool-cases, inl, inr, List, [], ◌∷◌, some, ◌==◌,
  get_elem?, set, total, total-set, Every, Every-self, Every-bind, arith,
}
use eltex_course.Warehouse.{
  Warehouse, Event, customer, loader, joined, get_items, set_item, customer_routine, loader_routine,
  sum, step, run,
}

-- What was stored and is no longer in the cells has gone to what was needed; and the loader has been
-- told only when nothing is needed.
pub record Accounted (stored needed : ℕ) (s : Warehouse) : Type 0 where
  pub even : sum s.storedge + needed ≡ stored + sum s.needs
  pub served : s.is_loader_working ≡ false → sum s.needs ≡ 0

get_items_even : (cell need : ℕ) → (get_items cell need).0 + need ≡ cell + (get_items cell need).1
unfolding get_items
get_items_even cell need = ground arith

get_items_less : (cell need : ℕ) → (get_items cell need).1 ≤ need
unfolding get_items
get_items_less cell need = omega arith

taken-Accounted :
    (stored needed k choice need cell : ℕ) (s : Warehouse)
    → Accounted stored needed s
    → get_elem? s.needs k ≡ some need
    → get_elem? s.storedge choice ≡ some cell
    → Accounted stored needed (record s {
      storedge = set s.storedge choice (get_items cell need).0;
      needs = set s.needs k (get_items cell need).1;
    })
taken-Accounted stored needed k choice need cell s b e f =
    let (left, more) = get_items cell need in
    let stock = total-set (λ x. x) s.storedge choice cell left f in
    let wish = total-set (λ x. x) s.needs k need more e in
    record {
      even = omega (arith, b.even, stock, wish, get_items_even cell need);
      served = λ off. omega (arith, b.served off, wish, get_items_less cell need);
    }

customer-Accounted :
    (stored needed k choice : ℕ) (s : Warehouse)
    → Accounted stored needed s
    → Every (Accounted stored needed) (customer_routine s k choice)
unfolding customer_routine
customer-Accounted stored needed k choice s b =
    Every-bind (λ need. get_elem? s.needs k ≡ some need) (Accounted stored needed)
      (get_elem? s.needs k) _ (Every-self (get_elem? s.needs k))
      (λ need e.
        Every-bind (λ cell. get_elem? s.storedge choice ≡ some cell) (Accounted stored needed)
          (get_elem? s.storedge choice) _ (Every-self (get_elem? s.storedge choice))
          (λ cell f. elim (Bool-cases (need == 0)) [
            | inl z ↦ rw z tt
            | inr n ↦ rw n (taken-Accounted stored needed k choice need cell s b e f)
          ]))

loader-Accounted :
    (stored needed choice : ℕ) (s : Warehouse)
    → Accounted stored needed s
    → Every (Accounted (stored + 500) needed) (loader_routine s choice)
unfolding loader_routine set_item
loader-Accounted stored needed choice s b =
    Every-bind (λ cell. get_elem? s.storedge choice ≡ some cell) (Accounted (stored + 500) needed)
      (get_elem? s.storedge choice) _ (Every-self (get_elem? s.storedge choice))
      (λ cell f. elim (Bool-cases s.is_loader_working) [
        | inr off ↦ rw off tt
        | inl on ↦ rw on (record {
          even = omega (arith, b.even, total-set (λ x. x) s.storedge choice cell (cell + 500) f);
          served = λ off. absurd (false≢true (sym off));
        })
      ])

-- The items that an event brings.
abbrev pub brought : Event → ℕ
brought (customer k choice) = 0
brought (loader choice) = 500
brought joined = 0

step-Accounted :
    (stored needed : ℕ) (s : Warehouse) (e : Event)
    → Accounted stored needed s
    → Every (Accounted (stored + brought e) needed) (step s e)
unfolding step
step-Accounted stored needed s (customer k choice) b =
    subst (λ n. Every (Accounted n needed) (customer_routine s k choice)) (omega arith)
      (customer-Accounted stored needed k choice s b)
step-Accounted stored needed s (loader choice) b = loader-Accounted stored needed choice s b
step-Accounted stored needed s joined b = elim (Bool-cases (sum s.needs == 0)) [
  | inr more ↦ rw more tt
  | inl done ↦ rw done (record { even = omega (arith, b.even); served = λ off. ground arith })
]

run-Every :
    (stored needed : ℕ) (s : Warehouse) (es : List Event)
    → Accounted stored needed s
    → Every (Accounted (stored + total brought es) needed) (run s es)
unfolding run
run-Every stored needed s [] b = subst (λ n. Accounted n needed s) (omega arith) b
run-Every stored needed s (e ∷ es) b =
    Every-bind (Accounted (stored + brought e) needed)
      (Accounted (stored + total brought (e ∷ es)) needed) (step s e) (λ g. run g es)
      (step-Accounted stored needed s e b)
      (λ g h.
        subst (λ n. Every (Accounted n needed) (run g es)) (omega arith)
          (run-Every (stored + brought e) needed g es h))

-- After any order of steps of the customers and the loader what was in the cells and what the loader
-- has put is in the cells or has gone to the customers, to the last item; and a loader that was told
-- to end has left no customer in need.
pub run-Accounted :
    (es : List Event) (s g : Warehouse)
    → s.is_loader_working ≡ true
    → run s es ≡ some g
    → (sum g.storedge + sum s.needs ≡ sum s.storedge + total brought es + sum g.needs)
      × (g.is_loader_working ≡ false → sum g.needs ≡ 0)
run-Accounted es s g on e =
    let start : Accounted (sum s.storedge) (sum s.needs) s = record {
      even = refl;
      served = λ off. absurd (false≢true (sym off ∙ on));
    } in
    let b =
      subst (Every (Accounted (sum s.storedge + total brought es) (sum s.needs))) e
        (run-Every (sum s.storedge) (sum s.needs) s es start) in
    (b.even, b.served)
