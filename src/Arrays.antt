-- ===== src/Arrays.antt =====
-- task2/array_revers.c: the array that is filled and reversed. `none` is an access outside of the array, or
-- a loop without an end.
pub mod Reversing
mod Tests
use eltex_course.Base.{
  ℕ, zero, suc, ◌+◌, ◌-◌, List, [], ◌∷◌, ◌++◌, Option, none, some, ltb, if◌then◌else◌, get_elem?,
  set, ◌>>=◌,
}

-- The array with the rounds left and the next number.
unfoldable pub fill_loop : ℕ → ℕ → List ℕ
fill_loop zero i = []
fill_loop (suc k) i = (i + 1) ∷ fill_loop k (i + 1)

unfoldable pub swap : List ℕ → ℕ → ℕ → Option (List ℕ)
swap arr i j = do
  buff ← get_elem? arr i
  other ← get_elem? arr j
  some (set (set arr i other) j buff)

-- `i < len - i`, on fuel
unfoldable pub revers_loop : ℕ → List ℕ → ℕ → ℕ → Option (List ℕ)
revers_loop zero arr len i = none
revers_loop (suc k) arr len i =
    let rest = swap arr i (len - i - 1) >>= λ arr. revers_loop k arr len (i + 1) in
    if ltb i (len - i) then rest else some arr

-- `main` at a length, with enough fuel.
unfoldable pub revers : ℕ → Option (List ℕ)
revers len = revers_loop (len + 1) (fill_loop len 0) len 0
