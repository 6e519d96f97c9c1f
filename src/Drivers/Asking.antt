-- ===== src/Drivers/Asking.antt =====
-- The loops of the parent against drivers that wait.
use mathlib.Core.Path.{subst}
use eltex_course.Base.{
  ℕ, ◌+◌, ◌≡◌, refl, ap, ◌∙◌, false, List, [], ◌∷◌, ◌++◌, none, some, ◌==◌, ==_refl, length,
  length-snoc, append-snoc, arith,
}
use eltex_course.Drivers.Driver.{Timer, Msg, Driver, expire, take_message}
use eltex_course.Drivers.Manager.{finf_loop, finf_index, ask_loop, quit_loop}
use eltex_course.Drivers.Idle.{IsIdle, answer, expire-IsIdle, write-IsIdle, ask-IsIdle}

-- All drivers from a place on wait.
abbrev pub AllIdle {ℓ} : {T : Type ℓ} → ℕ → List (Driver T) → Type ℓ
AllIdle n [] = Unit
AllIdle n (d ∷ ds) = IsIdle n d × AllIdle (n + 1) ds

-- No driver has the process id.
abbrev pub Absent {ℓ} : {T : Type ℓ} → ℕ → List (Driver T) → Type 0
Absent pid [] = Unit
Absent pid (d ∷ ds) = ((d.pid == pid) ≡ false) × Absent pid ds

module _ {ℓ} {T : Type ℓ} (tm : Timer T) where
  abbrev pub expire_all : List (Driver T) → List (Driver T)
  expire_all [] = []
  expire_all (d ∷ ds) = expire tm d ∷ expire_all ds

  abbrev pub answers : List (Driver T) → List (ℕ × Msg)
  answers [] = []
  answers (d ∷ ds) = ((expire tm d).pid, answer tm d) ∷ answers ds

  pub expire_all-AllIdle : (n : ℕ) (ds : List (Driver T)) → AllIdle n ds → AllIdle n (expire_all ds)
  expire_all-AllIdle n [] h = tt
  expire_all-AllIdle n (d ∷ ds) h = (expire-IsIdle tm n d h.0, expire_all-AllIdle (n + 1) ds h.1)

  pub ask_loop-answers :
      (pre ds : List (Driver T))
      → AllIdle (length pre) ds
      → ask_loop tm (length ds) (length pre) (pre ++ ds) ≡ some (answers ds, pre ++ expire_all ds)
  unfolding ask_loop
  ask_loop-answers pre [] h = refl
  ask_loop-answers pre (d ∷ ds) h =
      let next =
        ask_loop-answers (pre ++ expire tm d ∷ []) ds (rw (length-snoc pre (expire tm d)) h.1) in
      rw (ask-IsIdle tm pre ds d h.0) (
        rw
          (
            ← length-snoc pre (expire tm d),
            ← append-snoc pre (expire tm d) ds,
            next,
            append-snoc pre (expire tm d) (expire_all ds),
          )
          refl)

  abbrev pub end_all : List (Driver T) → List (Driver T)
  end_all [] = []
  end_all (d ∷ ds) = record (expire tm d) { is_running = false } ∷ end_all ds

  take_message-end :
      (d : Driver T)
      → take_message tm d (record { stat = 3; time = 0 }) ≡ record d { is_running = false }
  unfolding take_message
  take_message-end d = refl

  pub quit_loop-end_all :
      (pre ds : List (Driver T))
      → AllIdle (length pre) ds
      → quit_loop tm (length ds) (length pre) (pre ++ ds) ≡ some (pre ++ end_all ds)
  unfolding quit_loop
  quit_loop-end_all pre [] h = refl
  quit_loop-end_all pre (d ∷ ds) h =
      let e = record (expire tm d) { is_running = false } in
      let next = quit_loop-end_all (pre ++ e ∷ []) ds (rw (length-snoc pre e) h.1) in
      rw
        (
          write-IsIdle tm pre ds d (record { stat = 3; time = 0 }) h.0,
          take_message-end (expire tm d),
        )
        (rw (← length-snoc pre e, ← append-snoc pre e ds, next, append-snoc pre e (end_all ds))
          refl)

  finf_loop-Absent :
      (i : ℕ) (pre post : List (Driver T)) (d : Driver T)
      → Absent d.pid pre
      → finf_loop tm i (pre ++ d ∷ post) d.pid ≡ some (i + length pre)
  unfolding finf_loop
  finf_loop-Absent i [] post d h = rw (==_refl d.pid) (ap some (omega arith))
  finf_loop-Absent i (x ∷ pre) post d h =
      rw h.0 (finf_loop-Absent (i + 1) pre post d h.1 ∙ ap some (omega arith))

  pub finf_index-Absent :
      (pre post : List (Driver T)) (d : Driver T)
      → Absent d.pid pre
      → finf_index tm (pre ++ d ∷ post) d.pid ≡ some (length pre)
  unfolding finf_index
  finf_index-Absent pre post d h = finf_loop-Absent 0 pre post d h ∙ ap some (omega arith)

  pub finf_loop_missing :
      (i : ℕ) (ds : List (Driver T)) (pid : ℕ) → Absent pid ds → finf_loop tm i ds pid ≡ none
  unfolding finf_loop
  finf_loop_missing i [] pid h = refl
  finf_loop_missing i (d ∷ ds) pid h = rw h.0 (finf_loop_missing (i + 1) ds pid h.1)

module _ {ℓ} {T : Type ℓ} where
  AllIdle-at :
      (n : ℕ) (pre post : List (Driver T)) (d : Driver T)
      → AllIdle n (pre ++ d ∷ post)
      → IsIdle (n + length pre) d
  AllIdle-at n [] post d h = subst (λ k. IsIdle k d) (omega arith) h.0
  AllIdle-at n (x ∷ pre) post d h =
      subst (λ k. IsIdle k d) (omega arith) (AllIdle-at (n + 1) pre post d h.1)

  AllIdle-replace :
      (n : ℕ) (pre post : List (Driver T)) (d e : Driver T)
      → AllIdle n (pre ++ d ∷ post)
      → IsIdle (n + length pre) e
      → AllIdle n (pre ++ e ∷ post)
  AllIdle-replace n [] post d e h i = (subst (λ k. IsIdle k e) (omega arith) i, h.1)
  AllIdle-replace n (x ∷ pre) post d e h i =
      (h.0, AllIdle-replace (n + 1) pre post d e h.1 (subst (λ k. IsIdle k e) (omega arith) i))

  AllIdle-snoc :
      (n : ℕ) (ds : List (Driver T)) (d : Driver T)
      → AllIdle n ds
      → IsIdle (n + length ds) d
      → AllIdle n (ds ++ d ∷ [])
  AllIdle-snoc n [] d h i = (subst (λ k. IsIdle k d) (omega arith) i, tt)
  AllIdle-snoc n (x ∷ ds) d h i =
      (h.0, AllIdle-snoc (n + 1) ds d h.1 (subst (λ k. IsIdle k d) (omega arith) i))

  pub AllIdle-here :
      (pre post : List (Driver T)) (d : Driver T)
      → AllIdle 0 (pre ++ d ∷ post)
      → IsIdle (length pre) d
  AllIdle-here pre post d h = subst (λ k. IsIdle k d) (omega arith) (AllIdle-at 0 pre post d h)

  pub AllIdle-put :
      (pre post : List (Driver T)) (d e : Driver T)
      → AllIdle 0 (pre ++ d ∷ post)
      → IsIdle (length pre) e
      → AllIdle 0 (pre ++ e ∷ post)
  AllIdle-put pre post d e h i =
      AllIdle-replace 0 pre post d e h (subst (λ k. IsIdle k e) (omega arith) i)

  pub AllIdle-end :
      (ds : List (Driver T)) (d : Driver T)
      → AllIdle 0 ds
      → IsIdle (length ds) d
      → AllIdle 0 (ds ++ d ∷ [])
  AllIdle-end ds d h i = AllIdle-snoc 0 ds d h (subst (λ k. IsIdle k d) (omega arith) i)
