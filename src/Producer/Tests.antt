-- ===== src/Producer/Tests.antt =====
-- Two clients, one of them twice, and the end.
use eltex_course.Base.{◌≡◌, refl, true, false, List, [], ◌∷◌, total}
use eltex_course.Producer.{
  request, waiting, replying, stopped, start, thread_killer, Event, from_client, kill_text, thread,
  act, step, run,
}
use eltex_course.Producer.Laws.{count, running, Balanced}
use eltex_course.Producer.Runs.{run-Balanced, run_ended}

-- The second thread answers before the first one, which has taken its request earlier.
abbrev busy_events : List Event
busy_events = from_client 5 ∷ from_client 6 ∷ thread 0 ∷ thread 1 ∷ from_client 5 ∷ thread 1 ∷ []

abbrev all_events : List Event
all_events =
    from_client 5
    ∷ from_client 6
    ∷ thread 0
    ∷ thread 1
    ∷ from_client 5
    ∷ thread 1
    ∷ kill_text
    ∷ thread 1
    ∷ thread 0
    ∷ thread 0
    ∷ thread 2
    ∷ thread 1
    ∷ thread 1
    ∷ []

run-Balanced_example : Balanced 5 2 (record {
  listening = true;
  queue = request 5 ∷ [];
  handlers = replying 5 ∷ waiting ∷ waiting ∷ [];
  answered = 6 ∷ [];
})
unfolding start step act run
run-Balanced_example = run-Balanced 5 busy_events _ refl

run_ended_example :
    (total running (stopped ∷ stopped ∷ stopped ∷ []) ≡ 0) × (count 5 (6 ∷ 5 ∷ 5 ∷ []) ≡ 2)
unfolding start step act run thread_killer
run_ended_example =
    run_ended 5 all_events
      (record {
        listening = false;
        queue = [];
        handlers = stopped ∷ stopped ∷ stopped ∷ [];
        answered = 6 ∷ 5 ∷ 5 ∷ [];
      })
      refl refl refl
