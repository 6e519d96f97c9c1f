-- ===== src/Drivers/Tests.antt =====
-- Two drivers, the second of them with a timer that has gone off.
use eltex_course.Base.{ℕ, ◌≡◌, refl, Bool, true, false, [], ◌∷◌, none, some, if◌then◌else◌, arith}
use eltex_course.Drivers.Driver.{Timer, Driver, expire}
use eltex_course.Drivers.Manager.{
  get_drivers, send_task, get_status, Shown, statuses, nothing, Manager, command_step,
}
use eltex_course.Drivers.Asking.{AllIdle}
use eltex_course.Drivers.Commands.{IsManager, Knows, command_step-get_drivers}
use eltex_course.Drivers.Safety.{
  command_step-IsManager, command_step_unknown, command_step-send_task_zero,
}

-- The seconds left, and whether it has gone off.
abbrev Clock : Type 0
Clock = ℕ × Bool

left_of : Clock → ℕ
left_of c = if c.1 then 0 else c.0

clock : Timer Clock
unfolding left_of
clock = record {
  disarmed = (0, false);
  settime = λ t n. (n, false);
  gettime = left_of;
  is_ready = λ t. t.1;
}

abbrev first : Driver Clock
first = record {
  pid = 70;
  channel = 0;
  status = 1;
  timer = (4, false);
  is_running = true;
  out = [];
}

abbrev second : Driver Clock
second = record {
  pid = 71;
  channel = 1;
  status = 1;
  timer = (9, true);
  is_running = true;
  out = [];
}

abbrev manager : Manager Clock
manager = record { drivers = first ∷ second ∷ []; last_index = 2 }

both-AllIdle : AllIdle 0 (first ∷ second ∷ [])
both-AllIdle = (
  record { channel = refl; running = refl; out = refl },
  (record { channel = refl; running = refl; out = refl }, tt),
)

manager-IsManager : IsManager manager
manager-IsManager = record { idle = both-AllIdle; last = refl; few = omega arith }

second-Knows : Knows manager.drivers 71
second-Knows = record {
  pre = first ∷ [];
  driver = second;
  post = [];
  split = refl;
  is = refl;
  absent = (refl, tt);
}

command_step-IsManager_example :
    (g : Manager Clock) × (shown : Shown) × (command_step clock 0 manager (send_task 71 5)
      ≡ some (g, shown))
    × IsManager g
command_step-IsManager_example =
    command_step-IsManager clock 0 manager (send_task 71 5) manager-IsManager (second-Knows, refl)

-- The second one is no longer busy.
command_step-get_drivers_example :
    command_step clock 0 manager get_drivers
    ≡ some (
      record manager { drivers = first ∷ record second { status = 0 } ∷ [] },
      statuses ((70, record { stat = 1; time = 4 }) ∷ (71, record { stat = 0; time = 0 }) ∷ []),
    )
unfolding clock expire left_of
command_step-get_drivers_example = command_step-get_drivers clock 0 manager both-AllIdle

command_step_unknown_example :
    (command_step clock 0 manager (send_task 72 5) ≡ none)
    × (command_step clock 0 manager (get_status 72) ≡ none)
command_step_unknown_example = command_step_unknown clock 0 5 72 manager (refl, (refl, tt))

command_step-send_task_zero_example :
    command_step clock 2 manager (send_task 70 0)
    ≡ some (
      record {
        drivers = record first { out = record { stat = 1; time = 4 } ∷ [] } ∷ second ∷ [];
        last_index = 2;
      },
      nothing,
    )
unfolding clock expire left_of
command_step-send_task_zero_example =
    command_step-send_task_zero clock 2 [] (second ∷ []) first both-AllIdle tt
