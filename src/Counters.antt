-- ===== src/Counters.antt =====
-- task11/task11.2: four ways to count to `N` = 5000000 with `T` = 4 threads. The rounds under the
-- mutex or the spinlock are one step each; a thread that has left its loop takes no step.
pub mod Exact
mod Tests
use eltex_course.Base.{
  ℕ, zero, suc, ◌+◌, ◌/◌, Bool, true, false, List, [], ◌∷◌, Option, none, some, ◌==◌, leb,
  if◌then◌else◌, get_elem?, set, replicate, total, ◌>>=◌,
}

pub record Counter : Type 0 where
  pub num : ℕ
  -- Whether each thread is in its loop.
  pub working : List Bool

-- mutex.c and spinlock.c, `main` behind the calls of `pthread_create`.
unfoldable pub started : ℕ → Counter
started threads = record { num = 0; working = replicate threads true }

-- A round of thread `i`, where `full` is the test that ends the loop.
unfoldable pub round : (ℕ → Bool) → Counter → ℕ → Option Counter
round full s i = do
  works ← get_elem? s.working i
  if works
      then some (
          if full s.num
          then record s { working = set s.working i false }
          else record s { num = s.num + 1 })
      else none

-- `*num >= N`
unfoldable pub mutex_round : ℕ → Counter → ℕ → Option Counter
mutex_round n s i = round (λ k. leb n k) s i

-- `*num == N`
unfoldable pub spinlock_round : ℕ → Counter → ℕ → Option Counter
spinlock_round n s i = round (λ k. k == n) s i

-- The threads that take a round, in order.
unfoldable pub run : (Counter → ℕ → Option Counter) → Counter → List ℕ → Option Counter
run f s [] = some s
run f s (i ∷ is) = f s i >>= λ g. run f g is

-- sequential.c, and `thread_work` of mapreduce.c: the loop from `num`, on fuel.
unfoldable pub work : ℕ → ℕ → ℕ → Option ℕ
work zero n num = none
work (suc k) n num = let rest = work k n (num + 1) in if num + 1 == n then some (num + 1) else rest

-- mapreduce.c, `main`: each thread on its own result, and their sum; the threads share nothing.
unfoldable pub map_loop : ℕ → ℕ → ℕ → Option ℕ
map_loop fuel zero part = some 0
map_loop fuel (suc threads) part = do
  result ← work fuel part 0
  rest ← map_loop fuel threads part
  some (result + rest)

unfoldable pub mapreduce : ℕ → ℕ → ℕ → Option ℕ
mapreduce fuel n threads = map_loop fuel threads (n / threads)
