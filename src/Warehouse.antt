-- ===== src/Warehouse.antt =====
-- task11/task11.3/main.c: customers take from the cells of a storage that a loader fills. Each
-- access of a cell stands under the mutex of the cell, so that it is one step. `none` is a step that
-- a thread does not take: a customer that needs nothing has ended, and so has the loader once it
-- was told. In the source the loader tests `is_loader_working` before it locks the cell; here test and
-- put are one step, so that the one put that may follow the end is left out. The sums of a cell stay below the bounds of `int`.
pub mod Balance
mod Tests
use eltex_course.Base.{
  ℕ, zero, suc, ◌+◌, ◌-◌, min, Bool, true, false, List, [], ◌∷◌, Option, none, some, ◌==◌,
  if◌then◌else◌, get_elem?, set, total, ◌>>=◌,
}

pub record Warehouse : Type 0 where
  pub storedge : List ℕ
  -- `need` of each customer.
  pub needs : List ℕ
  pub is_loader_working : Bool

-- A round of `customer_routine` with the choice of `rand`, one of `loader_routine`, and `main`
-- behind the joins of the customers.
pub data Event : Type 0 where
  customer : ℕ → ℕ → Event
  loader : ℕ → Event
  joined : Event

-- `get_items`: what is left in the cell, and what is still needed.
unfoldable pub get_items : ℕ → ℕ → ℕ × ℕ
get_items cell need = let min_val = min cell need in (cell - min_val, need - min_val)

unfoldable pub set_item : ℕ → ℕ
set_item cell = cell + 500

unfoldable pub customer_routine : Warehouse → ℕ → ℕ → Option Warehouse
customer_routine s k choice = do
  need ← get_elem? s.needs k
  cell ← get_elem? s.storedge choice
  if need == 0
      then none
      else some (record s {
        storedge = set s.storedge choice (get_items cell need).0;
        needs = set s.needs k (get_items cell need).1;
      })

unfoldable pub loader_routine : Warehouse → ℕ → Option Warehouse
loader_routine s choice = do
  cell ← get_elem? s.storedge choice
  if s.is_loader_working
      then some (record s { storedge = set s.storedge choice (set_item cell) })
      else none

abbrev pub sum : List ℕ → ℕ
sum xs = total (λ x. x) xs

unfoldable pub step : Warehouse → Event → Option Warehouse
step s (customer k choice) = customer_routine s k choice
step s (loader choice) = loader_routine s choice
step s joined = if sum s.needs == 0 then some (record s { is_loader_working = false }) else none

unfoldable pub run : Warehouse → List Event → Option Warehouse
run s [] = some s
run s (e ∷ es) = step s e >>= λ g. run g es
