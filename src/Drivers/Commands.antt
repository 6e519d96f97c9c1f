-- ===== src/Drivers/Commands.antt =====
-- The commands of the parent against drivers that wait.
use eltex_course.Base.{ℕ, ◌≤◌, ◌≡◌, refl, false, List, [], ◌∷◌, ◌++◌, some, ◌==◌, length}
use eltex_course.Drivers.Driver.{Timer, Driver, expire, take_message}
use eltex_course.Drivers.Manager.{
  quit, get_drivers, send_task, get_status, statuses, nothing, ended, Manager, max_drivers,
  command_step,
}
use eltex_course.Drivers.Idle.{IsIdle, answer, write-IsIdle, ask-IsIdle}
use eltex_course.Drivers.Asking.{
  AllIdle, Absent, expire_all, answers, end_all, ask_loop-answers, quit_loop-end_all,
  finf_index-Absent,
}

-- Between two commands.
pub record IsManager {ℓ} {T : Type ℓ} (s : Manager T) : Type ℓ where
  pub idle : AllIdle 0 s.drivers
  pub last : s.last_index ≡ length s.drivers
  pub few : length s.drivers ≤ max_drivers

-- A driver with a process id, the first with it.
pub record Knows {ℓ} {T : Type ℓ} (ds : List (Driver T)) (pid : ℕ) : Type ℓ where
  pub pre : List (Driver T)
  pub driver : Driver T
  pub post : List (Driver T)
  pub split : ds ≡ pre ++ driver ∷ post
  pub is : driver.pid ≡ pid
  pub absent : Absent driver.pid pre

module _ {ℓ} {T : Type ℓ} (tm : Timer T) where
  -- `get_drivers` tells of every driver, in order, what it answers once its timer has been looked
  -- at, and changes nothing else.
  pub command_step-get_drivers :
      (junk : ℕ) (s : Manager T)
      → AllIdle 0 s.drivers
      → command_step tm junk s get_drivers
        ≡ some (record s { drivers = expire_all tm s.drivers }, statuses (answers tm s.drivers))
  unfolding command_step
  command_step-get_drivers junk s h = rw (ask_loop-answers tm [] s.drivers h) refl

  -- `quit` ends every driver, so that the parent can wait for all.
  pub command_step-quit :
      (junk : ℕ) (s : Manager T)
      → AllIdle 0 s.drivers
      → command_step tm junk s quit ≡ some (record s { drivers = end_all tm s.drivers }, ended)
  unfolding command_step
  command_step-quit junk s h = rw (quit_loop-end_all tm [] s.drivers h) refl

  unfoldable pub busy : Driver T → ℕ → Driver T
  busy d time = record d { timer = tm.settime d.timer time; status = 1 }

  take_message-busy :
      (d : Driver T) (junk time : ℕ)
      → (time == 0) ≡ false
      → take_message tm d (record { stat = junk; time = time }) ≡ busy d time
  unfolding take_message busy
  take_message-busy d junk time h = rw h refl

  pub send-busy :
      (junk time last : ℕ) (pre post : List (Driver T)) (d : Driver T)
      → IsIdle (length pre) d
      → Absent d.pid pre
      → (time == 0) ≡ false
      → command_step tm junk
          (record { drivers = pre ++ d ∷ post; last_index = last })
          (send_task d.pid time)
        ≡ some
            (record { drivers = pre ++ busy (expire tm d) time ∷ post; last_index = last }, nothing)
  unfolding command_step
  send-busy junk time last pre post d h a n =
      rw
        (
          finf_index-Absent tm pre post d a,
          write-IsIdle tm pre post d (record { stat = junk; time = time }) h,
          take_message-busy (expire tm d) junk time n,
        )
        refl

  pub status-IsIdle :
      (junk last : ℕ) (pre post : List (Driver T)) (d : Driver T)
      → IsIdle (length pre) d
      → Absent d.pid pre
      → command_step tm junk
          (record { drivers = pre ++ d ∷ post; last_index = last })
          (get_status d.pid)
        ≡ some (
          record { drivers = pre ++ expire tm d ∷ post; last_index = last },
          statuses (((expire tm d).pid, answer tm d) ∷ []),
        )
  unfolding command_step
  status-IsIdle junk last pre post d h a =
      rw (finf_index-Absent tm pre post d a, ask-IsIdle tm pre post d h) refl

  pub busy-IsIdle : (n : ℕ) (d : Driver T) (time : ℕ) → IsIdle n d → IsIdle n (busy d time)
  unfolding busy
  busy-IsIdle n d time h = record { channel = h.channel; running = h.running; out = h.out }
