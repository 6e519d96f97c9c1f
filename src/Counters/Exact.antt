-- ===== src/Counters/Exact.antt =====
-- The threads count exactly to the end.
use mathlib.Core.Path.{subst}
use eltex_course.Base.{
  ℕ, zero, suc, ◌+◌, ◌*◌, ◌/◌, ◌≡◌, ◌≤◌, ◌<◌, refl, ap, Bool, true, false, Bool-cases, inl, inr,
  List, [], ◌∷◌, some, ◌==◌, leb, if◌then◌else◌, get_elem?, set, replicate, total, Every,
  Every-self, Every-bind, arith, ◌⊎◌,
}
use eltex_course.Counters.{
  Counter, started, round, mutex_round, spinlock_round, run, work, map_loop, mapreduce,
}

-- The threads that have left their loops.
abbrev pub left : List Bool → ℕ
left bs = total (λ b. if b then 0 else 1) bs

-- The count stays in its bounds, and no thread leaves before it is full.
pub record IsCount (n : ℕ) (s : Counter) : Type 0 where
  pub bound : s.num ≤ n
  pub full : 0 < left s.working → s.num ≡ n

module _ (n : ℕ) (test : ℕ → Bool) (ends : (k : ℕ) → k ≤ n → test k ≡ true → k ≡ n)
    (goes : (k : ℕ) → k ≤ n → test k ≡ false → k < n) where
  working_round-Every :
      (s : Counter) (i : ℕ)
      → IsCount n s
      → Every (IsCount n) (
          some (
            if test s.num
            then record s { working = set s.working i false }
            else record s { num = s.num + 1 }))
  working_round-Every s i h = elim (Bool-cases (test s.num)) [
    | inl full ↦ rw full (record { bound = h.bound; full = λ _. ends s.num h.bound full })
    | inr more ↦ rw more (record {
      bound = omega (arith, goes s.num h.bound more);
      full = λ some_left. absurd (omega (arith, h.full some_left, goes s.num h.bound more));
    })
  ]

  round-Every : (s : Counter) (i : ℕ) → IsCount n s → Every (IsCount n) (round test s i)
  unfolding round
  round-Every s i h =
      Every-bind (λ b. get_elem? s.working i ≡ some b) (IsCount n) (get_elem? s.working i) _
        (Every-self (get_elem? s.working i))
        (λ works e. elim (Bool-cases works) [
          | inr off ↦ rw off tt
          | inl on ↦ rw on (working_round-Every s i h)
        ])

  run-Every : (s : Counter) (is : List ℕ) → IsCount n s → Every (IsCount n) (run (round test) s is)
  unfolding run
  run-Every s [] h = h
  run-Every s (i ∷ is) h =
      Every-bind (IsCount n) (IsCount n) (round test s i) (λ g. run (round test) g is)
        (round-Every s i h) (λ g k. run-Every g is k)

left-replicate : (t : ℕ) → left (replicate t true) ≡ 0
left-replicate zero = refl
left-replicate (suc t) = omega (arith, left-replicate t)

started-IsCount : (n threads : ℕ) → IsCount n (started threads)
unfolding started
started-IsCount n threads = record {
  bound = omega arith;
  full = λ h. absurd (omega (arith, left-replicate threads));
}

-- In any order of the threads, with the mutex as with the spinlock, the count never passes `n`, and
-- once a thread has left its loop it is `n`.
pub run-IsCount :
    (n threads : ℕ) (is : List ℕ) (g : Counter)
    → (run (mutex_round n) (started threads) is ≡ some g)
      ⊎ (run (spinlock_round n) (started threads) is ≡ some g)
    → IsCount n g
unfolding mutex_round spinlock_round
run-IsCount n threads is g (inl e) = subst (Every (IsCount n)) e (
    run-Every n (λ k. leb n k) (λ k h t. ground arith) (λ k h t. ground arith) (started threads) is
      (started-IsCount n threads))
run-IsCount n threads is g (inr e) = subst (Every (IsCount n)) e (
    run-Every n (λ k. k == n) (λ k h t. ground arith) (λ k h t. ground arith) (started threads) is
      (started-IsCount n threads))

work-count : (fuel n num : ℕ) → num < n → n < num + fuel + 1 → work fuel n num ≡ some n
unfolding work
work-count zero n num h f = absurd (omega arith)
work-count (suc k) n num h f = elim (Bool-cases (num + 1 == n)) [
  | inl e ↦ rw e (ap some (ground arith))
  | inr e ↦ rw e (work-count k n (num + 1) (ground arith) (omega arith))
]

map_loop-count :
    (fuel threads part : ℕ)
    → 0 < part
    → part ≤ fuel
    → map_loop fuel threads part ≡ some (threads * part)
unfolding map_loop
map_loop-count fuel zero part h f = ap some (omega arith)
map_loop-count fuel (suc threads) part h f =
    rw (work-count fuel part 0 h (omega arith), map_loop-count fuel threads part h f)
      (ap some (grind arith))

-- With at least one round for each thread the loops of mapreduce.c end, and the sum of the results
-- is the count for one thread, `n / threads`, for every thread.
pub mapreduce-count :
    (fuel n threads : ℕ)
    → 0 < n / threads
    → n / threads ≤ fuel
    → mapreduce fuel n threads ≡ some (threads * (n / threads))
unfolding mapreduce
mapreduce-count fuel n threads h f = map_loop-count fuel threads (n / threads) h f
