-- ===== src/Counters/Tests.antt =====
-- Two threads that count to 3.
use eltex_course.Base.{◌≡◌, refl, inl, true, false, [], ◌∷◌, some, arith}
use eltex_course.Counters.{started, round, mutex_round, run, mapreduce}
use eltex_course.Counters.Exact.{IsCount, run-IsCount, mapreduce-count}

run-IsCount_example : IsCount 3 (record { num = 3; working = true ∷ false ∷ [] })
unfolding run started round mutex_round
run-IsCount_example = run-IsCount 3 2 (0 ∷ 1 ∷ 1 ∷ 1 ∷ []) _ (inl refl)

mapreduce-count_example : mapreduce 10 20 4 ≡ some 20
mapreduce-count_example = mapreduce-count 10 20 4 (omega arith) (omega arith)
