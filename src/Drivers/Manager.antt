-- ===== src/Drivers/Manager.antt =====
-- task_drivers/main.c, `main`: the parent, one command a step. The drivers stand in the order of
-- `pids`. `none` is an access outside of the arrays, a write to a driver that has ended, or a read
-- that nobody answers; `fork` and the pipes succeed. A driver handles a message when it is written,
-- which is before the parent reads, since `read` waits for the answer.
use eltex_course.Base.{
  ℕ, zero, suc, ◌+◌, true, List, [], ◌∷◌, ◌++◌, Option, none, some, ◌==◌, if◌then◌else◌, length,
  get_elem?, set,
}
use eltex_course.Base.{◌>>=◌}
use eltex_course.Drivers.Driver.{Timer, Msg, Driver, driver_round}

pub data Command : Type 0 where
  create_driver : ℕ → Command
  quit : Command
  get_drivers : Command
  send_task : ℕ → ℕ → Command
  get_status : ℕ → Command
  other : Command

-- What a command prints: process ids with the messages read for them.
pub data Shown : Type 0 where
  already_max : Shown
  created : ℕ → Shown
  statuses : List (ℕ × Msg) → Shown
  nothing : Shown
  ended : Shown

pub record Manager {ℓ} (T : Type ℓ) : Type ℓ where
  pub drivers : List (Driver T)
  pub last_index : ℕ

abbrev pub max_drivers : ℕ
max_drivers = 10

abbrev pub status_request : Msg
status_request = record { stat = 2; time = 0 }

module _ {ℓ} {T : Type ℓ} (tm : Timer T) where
  unfoldable pub finf_loop : ℕ → List (Driver T) → ℕ → Option ℕ
  finf_loop i [] pid = none
  finf_loop i (d ∷ ds) pid = if d.pid == pid then some i else finf_loop (i + 1) ds pid

  -- -1 is `none`.
  unfoldable pub finf_index : List (Driver T) → ℕ → Option ℕ
  finf_index ds pid = finf_loop 0 ds pid

  -- The driver at the other end of the pipes at `i`.
  unfoldable pub reader : List (Driver T) → ℕ → Option (Driver T)
  reader ds i = do d ← get_elem? ds i; if d.channel == i then some d else none

  unfoldable pub write : List (Driver T) → ℕ → Msg → Option (List (Driver T))
  write ds i m = do
    d ← reader ds i
    if d.is_running then some (set ds i (driver_round tm d m)) else none

  unfoldable pub first_of : List Msg → Option (Msg × List Msg)
  first_of [] = none
  first_of (m ∷ ms) = some (m, ms)

  unfoldable pub read : List (Driver T) → ℕ → Option (Msg × List (Driver T))
  read ds i = do
    d ← reader ds i
    (m, ms) ← first_of d.out
    some (m, set ds i (record d { out = ms }))

  unfoldable pub ask : List (Driver T) → ℕ → Option ((ℕ × Msg) × List (Driver T))
  ask ds i = do
    ds ← write ds i status_request
    (m, ds) ← read ds i
    d ← get_elem? ds i
    some ((d.pid, m), ds)

  -- The rounds left, and `i`.
  unfoldable pub ask_loop : ℕ → ℕ → List (Driver T) → Option (List (ℕ × Msg) × List (Driver T))
  ask_loop zero i ds = some ([], ds)
  ask_loop (suc k) i ds = do (s, ds) ← ask ds i; (ss, ds) ← ask_loop k (i + 1) ds; some (s ∷ ss, ds)

  unfoldable pub quit_loop : ℕ → ℕ → List (Driver T) → Option (List (Driver T))
  quit_loop zero i ds = some ds
  quit_loop (suc k) i ds = do
    ds ← write ds i (record { stat = 3; time = 0 })
    quit_loop k (i + 1) ds

  unfoldable pub new_driver : Manager T → ℕ → Driver T
  new_driver s pid = record {
    pid = pid;
    channel = s.last_index;
    status = 0;
    timer = tm.disarmed;
    is_running = true;
    out = [];
  }

  unfoldable pub create : Manager T → ℕ → Manager T × Shown
  create s pid = if length s.drivers == max_drivers then (s, already_max) else (
    record { drivers = s.drivers ++ new_driver s pid ∷ []; last_index = s.last_index + 1 },
    created pid,
  )

  -- `junk` is what `m.stat` holds where the source does not set it.
  unfoldable pub command_step : ℕ → Manager T → Command → Option (Manager T × Shown)
  command_step junk s (create_driver pid) = some (create s pid)
  command_step junk s quit = do
    ds ← quit_loop (length s.drivers) 0 s.drivers
    some (record s { drivers = ds }, ended)
  command_step junk s get_drivers = do
    (ss, ds) ← ask_loop (length s.drivers) 0 s.drivers
    some (record s { drivers = ds }, statuses ss)
  command_step junk s (send_task pid time) = do
    i ← finf_index s.drivers pid
    ds ← write s.drivers i (record { stat = junk; time = time })
    some (record s { drivers = ds }, nothing)
  command_step junk s (get_status pid) = do
    i ← finf_index s.drivers pid
    (shown, ds) ← ask s.drivers i
    some (record s { drivers = ds }, statuses (shown ∷ []))
  command_step junk s other = some (s, nothing)
