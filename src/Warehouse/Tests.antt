-- ===== src/Warehouse/Tests.antt =====
-- Two customers at a small storage.
use eltex_course.Base.{◌≡◌, ◌+◌, refl, true, false, List, [], ◌∷◌, total}
use eltex_course.Warehouse.{
  Warehouse, Event, customer, loader, joined, get_items, set_item, customer_routine, loader_routine,
  sum, step, run,
}
use eltex_course.Warehouse.Balance.{brought, run-Accounted}

abbrev opened : Warehouse
opened = record { storedge = 500 ∷ 500 ∷ []; needs = 700 ∷ 600 ∷ []; is_loader_working = true }

abbrev day : List Event
day =
    customer 0 1
    ∷ customer 1 1
    ∷ loader 1
    ∷ customer 1 1
    ∷ customer 0 0
    ∷ customer 1 0
    ∷ joined
    ∷ []

abbrev closed : Warehouse
closed = record { storedge = 200 ∷ 0 ∷ []; needs = 0 ∷ 0 ∷ []; is_loader_working = false }

run-Accounted_example :
    (sum (200 ∷ 0 ∷ []) + sum (700 ∷ 600 ∷ [])
      ≡ sum (500 ∷ 500 ∷ []) + total brought day + sum (0 ∷ 0 ∷ []))
    × (false ≡ false → sum (0 ∷ 0 ∷ []) ≡ 0)
unfolding run step customer_routine loader_routine get_items set_item
run-Accounted_example = run-Accounted day opened closed refl refl
