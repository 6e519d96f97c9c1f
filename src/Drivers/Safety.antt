-- ===== src/Drivers/Safety.antt =====
-- The commands that leave the drivers waiting, and those that do not.
use mathlib.Core.Path.{subst}
use eltex_course.Base.{
  ℕ, suc, ◌≡◌, refl, sym, ap, ◌∙◌, false, Bool-cases, inl, inr, List, [], ◌∷◌, ◌++◌, none, some,
  ◌==◌, length, length-append, length-snoc, arith,
}
use eltex_course.Drivers.Driver.{Timer, Driver, expire, take_message}
use eltex_course.Drivers.Manager.{
  Command, create_driver, quit, get_drivers, send_task, get_status, other, Shown, statuses, nothing,
  Manager, max_drivers, finf_index, new_driver, create, command_step,
}
use eltex_course.Drivers.Idle.{IsIdle, answer, expire-IsIdle, write-IsIdle}
use eltex_course.Drivers.Asking.{
  AllIdle, Absent, expire_all, end_all, expire_all-AllIdle, finf_index-Absent, finf_loop_missing,
  AllIdle-here, AllIdle-put, AllIdle-end,
}
use eltex_course.Drivers.Commands.{
  IsManager, Knows, command_step-get_drivers, command_step-quit, busy, send-busy, busy-IsIdle,
  status-IsIdle,
}

-- The commands that the parent can answer: a task has some seconds, and a driver that is named is
-- known.
abbrev pub Safe {ℓ} : {T : Type ℓ} → List (Driver T) → Command → Type ℓ
Safe ds (create_driver pid) = Unit
Safe ds quit = Unit
Safe ds get_drivers = Unit
Safe ds (send_task pid time) = Knows ds pid × ((time == 0) ≡ false)
Safe ds (get_status pid) = Knows ds pid
Safe ds other = Unit

pub record HasEnded {ℓ} {T : Type ℓ} (d : Driver T) : Type ℓ where
  pub stopped : d.is_running ≡ false

abbrev pub AllEnded {ℓ} : {T : Type ℓ} → List (Driver T) → Type ℓ
AllEnded [] = Unit
AllEnded (d ∷ ds) = HasEnded d × AllEnded ds

-- After `quit` all drivers have ended, after the others all wait.
abbrev pub After {ℓ} : {T : Type ℓ} → Command → Manager T → Type ℓ
After (create_driver pid) g = IsManager g
After quit g = AllEnded g.drivers
After get_drivers g = IsManager g
After (send_task pid time) g = IsManager g
After (get_status pid) g = IsManager g
After other g = IsManager g

module _ {ℓ} {T : Type ℓ} (tm : Timer T) where
  end_all-AllEnded : (ds : List (Driver T)) → AllEnded (end_all tm ds)
  end_all-AllEnded [] = tt
  end_all-AllEnded (d ∷ ds) = (record { stopped = refl }, end_all-AllEnded ds)

  -- The command is answered.
  Answered : ℕ → Manager T → Command → Type ℓ
  Answered junk s c =
      (g : Manager T) × (shown : Shown) × (command_step tm junk s c ≡ some (g, shown)) × After c g

  put-IsManager :
      (pre post : List (Driver T)) (d e : Driver T) (last : ℕ)
      → IsManager (record { drivers = pre ++ d ∷ post; last_index = last })
      → IsIdle (length pre) e
      → IsManager (record { drivers = pre ++ e ∷ post; last_index = last })
  put-IsManager pre post d e last h i = record {
    idle = AllIdle-put pre post d e h.idle i;
    last = omega (arith, h.last, length-append pre (d ∷ post), length-append pre (e ∷ post));
    few = omega (arith, h.few, length-append pre (d ∷ post), length-append pre (e ∷ post));
  }

  expire_all-IsManager :
      (s : Manager T) → IsManager s → IsManager (record s { drivers = expire_all tm s.drivers })
  expire_all-IsManager s h = record {
    idle = expire_all-AllIdle tm 0 s.drivers h.idle;
    last = h.last ∙ sym (length-expire_all s.drivers);
    few = omega (arith, h.few, length-expire_all s.drivers);
  }
    where
      length-expire_all : (ds : List (Driver T)) → length (expire_all tm ds) ≡ length ds
      length-expire_all [] = refl
      length-expire_all (d ∷ ds) = ap suc (length-expire_all ds)

  create-IsManager : (s : Manager T) (pid : ℕ) → IsManager s → IsManager (create tm s pid).0
  unfolding create new_driver
  create-IsManager s pid h = elim (Bool-cases (length s.drivers == max_drivers)) [
    | inl full ↦ rw full h
    | inr room ↦ rw room (record {
      idle =
          AllIdle-end s.drivers _ h.idle (record { channel = h.last; running = refl; out = refl });
      last = omega (arith, h.last, length-snoc s.drivers (new_driver tm s pid));
      few = ground (arith, h.few, length-snoc s.drivers (new_driver tm s pid));
    })
  ]

  send-Answered :
      (junk time last : ℕ) (pre post : List (Driver T)) (d : Driver T)
      → IsManager (record { drivers = pre ++ d ∷ post; last_index = last })
      → Absent d.pid pre
      → (time == 0) ≡ false
      → Answered junk
          (record { drivers = pre ++ d ∷ post; last_index = last })
          (send_task d.pid time)
  unfolding Answered
  send-Answered junk time last pre post d h a n =
      let i = AllIdle-here pre post d h.idle in
      let b = busy tm (expire tm d) time in
      (
        record { drivers = pre ++ b ∷ post; last_index = last },
        nothing,
        send-busy tm junk time last pre post d i a n,
        put-IsManager pre post d b last h
            (busy-IsIdle tm (length pre) (expire tm d) time (expire-IsIdle tm (length pre) d i)),
      )

  status-Answered :
      (junk last : ℕ) (pre post : List (Driver T)) (d : Driver T)
      → IsManager (record { drivers = pre ++ d ∷ post; last_index = last })
      → Absent d.pid pre
      → Answered junk (record { drivers = pre ++ d ∷ post; last_index = last }) (get_status d.pid)
  unfolding Answered
  status-Answered junk last pre post d h a =
      let i = AllIdle-here pre post d h.idle in
      (
        record { drivers = pre ++ expire tm d ∷ post; last_index = last },
        statuses (((expire tm d).pid, answer tm d) ∷ []),
        status-IsIdle tm junk last pre post d i a,
        put-IsManager pre post d (expire tm d) last h (expire-IsIdle tm (length pre) d i),
      )

  split :
      (s : Manager T) (pid : ℕ)
      → IsManager s
      → (k : Knows s.drivers pid) → IsManager (record s { drivers = k.pre ++ k.driver ∷ k.post })
  split s pid h k = subst (λ ds. IsManager (record s { drivers = ds })) k.split h

  named :
      (junk : ℕ) (s : Manager T) (pid : ℕ) (c : ℕ → Command) (k : Knows s.drivers pid)
      → Answered junk (record s { drivers = k.pre ++ k.driver ∷ k.post }) (c k.driver.pid)
      → Answered junk s (c pid)
  named junk s pid c k r =
      subst (λ p. Answered junk s (c p)) k.is
        (subst (λ ds. Answered junk (record s { drivers = ds }) (c k.driver.pid)) (sym k.split) r)

  -- Every safe command is answered without a fault: after `quit` all drivers have ended; after any
  -- other at most `max_drivers` drivers are known, each runs and uses the pipes of its own place,
  -- and no answer is left unread.
  pub command_step-IsManager :
      (junk : ℕ) (s : Manager T) (c : Command)
      → IsManager s
      → Safe s.drivers c
      → (g : Manager T) × (shown : Shown) × (command_step tm junk s c ≡ some (g, shown)) × After c g
  unfolding command_step Answered
  command_step-IsManager junk s (create_driver pid) h safe =
      ((create tm s pid).0, (create tm s pid).1, refl, create-IsManager s pid h)
  command_step-IsManager junk s quit h safe =
      (_, _, command_step-quit tm junk s h.idle, end_all-AllEnded s.drivers)
  command_step-IsManager junk s get_drivers h safe =
      (_, _, command_step-get_drivers tm junk s h.idle, expire_all-IsManager s h)
  command_step-IsManager junk s (send_task pid time) h (k, n) =
      named junk s pid (λ p. send_task p time) k
        (send-Answered junk time s.last_index k.pre k.post k.driver (split s pid h k) k.absent n)
  command_step-IsManager junk s (get_status pid) h k =
      named junk s pid get_status k
        (status-Answered junk s.last_index k.pre k.post k.driver (split s pid h k) k.absent)
  command_step-IsManager junk s other h safe = (s, nothing, refl, h)

  -- A command that names a driver that is not known makes the parent use the index -1.
  pub command_step_unknown :
      (junk time pid : ℕ) (s : Manager T)
      → Absent pid s.drivers
      → (command_step tm junk s (send_task pid time) ≡ none)
        × (command_step tm junk s (get_status pid) ≡ none)
  unfolding command_step finf_index
  command_step_unknown junk time pid s h = (
    rw (finf_loop_missing tm 0 s.drivers pid h) refl,
    rw (finf_loop_missing tm 0 s.drivers pid h) refl,
  )

  take_message-stale :
      (d : Driver T)
      → d.out ≡ []
      → take_message tm d (record { stat = 2; time = 0 })
        ≡ record d { out = record { stat = d.status; time = tm.gettime d.timer } ∷ [] }
  unfolding take_message
  take_message-stale d h = rw h refl

  -- A task of no seconds, sent while `m.stat` holds the 2 of an earlier request, is taken for a
  -- request: the driver writes an answer that the parent does not read.
  pub command_step-send_task_zero :
      (last : ℕ) (pre post : List (Driver T)) (d : Driver T)
      → AllIdle 0 (pre ++ d ∷ post)
      → Absent d.pid pre
      → command_step tm 2
          (record { drivers = pre ++ d ∷ post; last_index = last })
          (send_task d.pid 0)
        ≡ some (
          record {
            drivers = pre ++ record (expire tm d) { out = answer tm d ∷ [] } ∷ post;
            last_index = last;
          },
          nothing,
        )
  unfolding command_step
  command_step-send_task_zero last pre post d h a =
      let i = AllIdle-here pre post d h in
      rw
        (
          finf_index-Absent tm pre post d a,
          write-IsIdle tm pre post d (record { stat = 2; time = 0 }) i,
          take_message-stale (expire tm d) (expire-IsIdle tm (length pre) d i).out,
        )
        refl
