-- ===== src/Drivers/Idle.antt =====
-- Drivers that wait for a message, and one exchange with such a driver.
use eltex_course.Base.{
  ℕ, ◌≡◌, refl, ap, ◌∙◌, true, Bool-cases, inl, inr, List, [], ◌∷◌, ◌++◌, some, ==_refl, length,
  get_elem?-length, set-length,
}
use eltex_course.Drivers.Driver.{Timer, Msg, Driver, expire, take_message, driver_round}
use eltex_course.Drivers.Manager.{status_request, reader, write, first_of, read, ask}

-- The driver at a place uses the pipes of that place, and has no answer that is not read.
pub record IsIdle {ℓ} {T : Type ℓ} (n : ℕ) (d : Driver T) : Type ℓ where
  pub channel : d.channel ≡ n
  pub running : d.is_running ≡ true
  pub out : d.out ≡ []

module _ {ℓ} {T : Type ℓ} (tm : Timer T) where
  -- What a driver answers to a request for its status.
  abbrev pub answer : Driver T → Msg
  answer d = record { stat = (expire tm d).status; time = tm.gettime (expire tm d).timer }

  pub expire-IsIdle : (n : ℕ) (d : Driver T) → IsIdle n d → IsIdle n (expire tm d)
  unfolding expire
  expire-IsIdle n d h = elim (Bool-cases (tm.is_ready d.timer)) [
    | inl e ↦ rw e (record { channel = h.channel; running = h.running; out = h.out })
    | inr e ↦ rw e h
  ]

  pub reader-length :
      (pre post : List (Driver T)) (d : Driver T)
      → d.channel ≡ length pre
      → reader tm (pre ++ d ∷ post) (length pre) ≡ some d
  unfolding reader
  reader-length pre post d h = rw (get_elem?-length pre d post, h, ==_refl (length pre)) refl

  driver_round-running :
      (d : Driver T) (m : Msg)
      → d.is_running ≡ true
      → driver_round tm d m ≡ take_message tm (expire tm d) m
  unfolding driver_round
  driver_round-running d m h = simp (h) refl

  pub write-IsIdle :
      (pre post : List (Driver T)) (d : Driver T) (m : Msg)
      → IsIdle (length pre) d
      → write tm (pre ++ d ∷ post) (length pre) m
        ≡ some (pre ++ take_message tm (expire tm d) m ∷ post)
  unfolding write
  write-IsIdle pre post d m h = rw (reader-length pre post d h.channel) (
      simp (h.running) (
        ap some (
          set-length pre d (driver_round tm d m) post
          ∙ ap (λ x. pre ++ x ∷ post) (driver_round-running d m h.running))))

  no_out : (d : Driver T) → d.out ≡ [] → record d { out = [] } ≡ d
  no_out d h = rw h refl

  take_message-status :
      (d : Driver T)
      → d.out ≡ []
      → take_message tm d status_request
        ≡ record d { out = record { stat = d.status; time = tm.gettime d.timer } ∷ [] }
  unfolding take_message
  take_message-status d h = rw h refl

  read-answered :
      (pre post : List (Driver T)) (d : Driver T) (m : Msg)
      → d.channel ≡ length pre
      → d.out ≡ []
      → read tm (pre ++ record d { out = m ∷ [] } ∷ post) (length pre) ≡ some (m, pre ++ d ∷ post)
  unfolding read first_of
  read-answered pre post d m c o = rw (reader-length pre post (record d { out = m ∷ [] }) c) (
      rw (set-length pre (record d { out = m ∷ [] }) (record d { out = [] }) post, no_out d o) refl)

  -- An exchange reads the answer and leaves the driver waiting.
  pub ask-IsIdle :
      (pre post : List (Driver T)) (d : Driver T)
      → IsIdle (length pre) d
      → ask tm (pre ++ d ∷ post) (length pre)
        ≡ some (((expire tm d).pid, answer d), pre ++ expire tm d ∷ post)
  unfolding ask
  ask-IsIdle pre post d h =
      let i = expire-IsIdle (length pre) d h in
      rw
        (
          write-IsIdle pre post d status_request h,
          take_message-status (expire tm d) i.out,
          read-answered pre post (expire tm d) (answer d) i.channel i.out,
          get_elem?-length pre (expire tm d) post,
        )
        refl
