-- ===== src/Producer/Runs.antt =====
-- All runs of the server, whatever the order of its threads.
use mathlib.Core.Path.{subst}
use eltex_course.Base.{
  ℕ, ◌+◌, ◌≡◌, refl, ap, ◌∙◌, false, List, [], ◌∷◌, some, total, Every, Every-bind, arith,
}
use eltex_course.Producer.{
  Handler, waiting, replying, stopped, System, start, Event, from_client, kill_text, thread, step,
  run,
}
use eltex_course.Producer.Laws.{
  count, queued, held, running, Balanced, brought, step-client, step-kill, step-thread,
}

-- How many requests of a client the events bring.
abbrev pub asked : ℕ → List Event → ℕ
asked c [] = 0
asked c (e ∷ es) = brought c e + asked c es

step-Balanced :
    (c n : ℕ) (s : System) (e : Event)
    → Balanced c n s
    → Every (Balanced c (n + brought c e)) (step s e)
step-Balanced c n s (from_client d) b = step-client c n d s b
step-Balanced c n s kill_text b = step-kill c n s b
step-Balanced c n s (thread i) b = step-thread c n i s b

run-Every :
    (c n : ℕ) (s : System) (es : List Event)
    → Balanced c n s
    → Every (Balanced c (n + asked c es)) (run s es)
unfolding run
run-Every c n s [] b = subst (λ k. Balanced c k s) (omega arith) b
run-Every c n s (e ∷ es) b =
    Every-bind (Balanced c (n + brought c e)) (Balanced c (n + asked c (e ∷ es))) (step s e)
      (λ g. run g es) (step-Balanced c n s e b)
      (λ g h.
        subst (λ k. Every (Balanced c k) (run g es)) (omega arith)
          (run-Every c (n + brought c e) g es h))

start-Balanced : (c : ℕ) → Balanced c 0 start
unfolding start
start-Balanced c = record { requests = refl; ends = refl; no_kills = λ on. refl }

-- After any order of steps each request is in the queue, with a thread or answered, once; as long as
-- the server listens its three threads run, and later as many as are still to be told to end.
pub run-Balanced :
    (c : ℕ) (es : List Event) (g : System) → run start es ≡ some g → Balanced c (asked c es) g
run-Balanced c es g e =
    subst (λ k. Balanced c k g) (omega arith)
      (subst (Every (Balanced c (0 + asked c es))) e (run-Every c 0 start es (start-Balanced c)))

no_runner : (c : ℕ) (hs : List Handler) → total running hs ≡ 0 → total (held c) hs ≡ 0
no_runner c [] e = refl
no_runner c (waiting ∷ hs) e = absurd (omega arith)
no_runner c (replying d ∷ hs) e = absurd (omega arith)
no_runner c (stopped ∷ hs) e = omega (arith, no_runner c hs (omega arith))

-- After any order of steps from the start, when the server has been told to end and its queue has
-- run empty, all threads have ended, and every client has been answered as often as it asked.
pub run_ended :
    (c : ℕ) (es : List Event) (g : System)
    → run start es ≡ some g
    → g.listening ≡ false
    → g.queue ≡ []
    → (total running g.handlers ≡ 0) × (count c g.answered ≡ asked c es)
run_ended c es g e off empty =
    let b = run-Balanced c es g e in
    let none_runs : total running g.handlers ≡ 0 = b.ends ∙ rw (off, empty) refl in
    (none_runs, omega (arith, b.requests, no_runner c g.handlers none_runs, ap (queued c) empty))
