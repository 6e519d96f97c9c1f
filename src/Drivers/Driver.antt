-- ===== src/Drivers/Driver.antt =====
-- task_drivers/main.c, `driver_handler`: one round of a driver after `select`.
-- The timer is the kernel's; `T` is its state, of which nothing is assumed: between two commands it goes on
-- by itself. A message is handled when it is there.
use eltex_course.Base.{ℕ, Bool, false, List, [], ◌∷◌, ◌++◌, ◌==◌, if◌then◌else◌}

-- What the kernel gives for a timer: `timerfd_settime` with no interval, the whole seconds of
-- `timerfd_gettime`, whether `select` finds it readable, and a disarmed one.
pub record Timer {ℓ} (T : Type ℓ) : Type ℓ where
  pub disarmed : T
  pub settime : T → ℕ → T
  pub gettime : T → ℕ
  pub is_ready : T → Bool

-- `struct msg`
pub record Msg : Type 0 where
  pub time : ℕ
  pub stat : ℕ

pub record Driver {ℓ} (T : Type ℓ) : Type ℓ where
  pub pid : ℕ
  -- The place of its two pipes.
  pub channel : ℕ
  pub status : ℕ
  pub timer : T
  pub is_running : Bool
  -- What is in the pipe to the parent.
  pub out : List Msg

module _ {ℓ} {T : Type ℓ} (tm : Timer T) where
  -- `FD_ISSET(timefd, &fds)`; the timer is never read, so that it stays readable.
  unfoldable pub expire : Driver T → Driver T
  expire d = if tm.is_ready d.timer then record d { status = 0 } else d

  -- `FD_ISSET(in[0], &fds)`
  unfoldable pub take_message : Driver T → Msg → Driver T
  take_message d m =
      if m.time == 0
      then if m.stat == 2
        then record d { out = d.out ++ record { stat = d.status; time = tm.gettime d.timer } ∷ [] }
        else if m.stat == 3
        then record d { is_running = false }
        else d
      else record d { timer = tm.settime d.timer m.time; status = 1 }

  unfoldable pub driver_round : Driver T → Msg → Driver T
  driver_round d m = if d.is_running then take_message (expire d) m else d
