-- ===== src/Servers/Tests.antt =====
-- The servers on a few requests.
use eltex_course.Base.{ℕ, ◌≡◌, ◌++◌, refl, inl, List, [], ◌∷◌, map, some, replicate}
use eltex_course.Servers.Buffered
use eltex_course.Servers.Buffered.{
  busy, idle, testing, Slot, searching, main_turn, datagram, handler_turn, Event,
}
use eltex_course.Servers.Buffered.Answers.{Sound}
use eltex_course.Servers.Buffered.Runs.{run-Sound}
use eltex_course.Servers.Buffered.Starving.{
  Meanwhile, main_looks, first_works, comes, event, Starves, run-Starves,
}
use eltex_course.Servers.Multiplexed
use eltex_course.Servers.Multiplexed.{Round, Time}
use eltex_course.Servers.Multiplexed.Rounds.{After, answers, run-answers}

-- "a"
abbrev text : List ℕ
text = 97 ∷ []

abbrev events : List Event
events = main_turn ∷ datagram 5 text ∷ handler_turn 0 ∷ main_turn ∷ main_turn ∷ datagram 6 text ∷ []

run-Sound_example :
    (g : Buffered.System) × (Buffered.run Buffered.start events ≡ some g) × Sound 5 g
run-Sound_example = run-Sound 5 events

abbrev working : Slot
working = record { client = 5; is_ready = busy; place = testing }

abbrev free : Slot
free = record { client = 5; is_ready = idle; place = testing }

abbrev starving : Buffered.System
starving = record {
  slots = free ∷ working ∷ working ∷ [];
  main = searching 1;
  asked = [];
  answered = [];
}

abbrev meanwhile : List Meanwhile
meanwhile = main_looks ∷ comes 7 text ∷ first_works ∷ main_looks ∷ []

run-Starves_example :
    (g : Buffered.System) × (Buffered.run starving (map event meanwhile) ≡ some g)
    × Starves g
    × (g.asked ≡ [])
run-Starves_example = run-Starves starving meanwhile (record {
  first = free;
  second = working;
  third = working;
  slots = refl;
  second_busy = refl;
  third_busy = refl;
  main = inl refl;
})

-- 12:05:09, with a datagram and a connection.
abbrev rounds : List Round
rounds =
    record {
      now = record { tm_hour = 12; tm_min = 5; tm_sec = 9 };
      from_udp = some (5, text ++ replicate 15 0);
      from_tcp = some (text ++ replicate 15 0);
    }
    ∷ []

abbrev fresh_server : Multiplexed.System
fresh_server = record { buff = replicate 16 0; descriptors = 2; replies = [] }

run-answers_example :
    After fresh_server (answers rounds).0 (answers rounds).1 (Multiplexed.run fresh_server rounds).0
    × ((Multiplexed.run fresh_server rounds).1 ≡ (answers rounds).2)
run-answers_example = run-answers fresh_server rounds refl ((refl, refl), tt)
