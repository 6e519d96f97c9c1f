-- ===== src/Substring.antt =====
-- task3/substr.c: the search of a text in another one, and the loop that reads a line into memory that
-- `realloc` extends. `none` is an access outside of the memory.
pub mod Finding
pub mod Reading
mod Tests
use eltex_course.Base.{
  ℕ, zero, suc, ◌+◌, ◌-◌, ◌*◌, List, [], ◌∷◌, ◌++◌, Option, none, some, ◌==◌, ltb, if◌then◌else◌,
  get_elem?, set, length, take, drop, replicate, Bytes, str_eq, c_str, ◌>>=◌,
}

-- `strcmp` of the text at `i`, whose end is marked at `i + ss_size`, and `sstr`; the mark goes away where
-- they differ.
unfoldable pub compare_at : List ℕ → List ℕ → ℕ → ℕ → Option (Option ℕ × List ℕ)
compare_at str sstr ss_size i = do
  buff ← get_elem? str (i + ss_size)
  let marked = set str (i + ss_size) 0
  some (
      if str_eq (c_str (drop i marked)) (c_str sstr)
      then (some i, marked)
      else (none, set marked (i + ss_size) buff))

-- The test of the first bytes.
unfoldable pub try_at : List ℕ → List ℕ → ℕ → ℕ → Option (Option ℕ × List ℕ)
try_at str sstr ss_size i = do
  a ← get_elem? str i
  b ← get_elem? sstr 0
  if a == b then compare_at str sstr ss_size i else some (none, str)

-- The rounds left of the loop.
unfoldable pub find_loop : ℕ → List ℕ → List ℕ → ℕ → ℕ → Option (Option ℕ × List ℕ)
find_loop zero str sstr ss_size i = some (none, str)
find_loop (suc k) str sstr ss_size i = try_at str sstr ss_size i >>= λ r. elim (r.0) [
  | none ↦ find_loop k r.1 sstr ss_size (i + 1)
  | some j ↦ some r
]

-- `NULL` is the inner `none`; with the memory of `str` behind it.
unfoldable pub find_subbstr : List ℕ → List ℕ → ℕ → ℕ → Option (Option ℕ × List ℕ)
find_subbstr str sstr s_size ss_size = find_loop (s_size + 1 - ss_size) str sstr ss_size 0

-- `p[i] = v`
unfoldable pub put : List ℕ → ℕ → ℕ → Option (List ℕ)
put p i v = if ltb i (length p) then some (set p i v) else none

-- `realloc(p, n)`; the new places hold anything, here 0.
unfoldable pub realloc : List ℕ → ℕ → List ℕ
realloc p n = take n p ++ replicate (n - length p) 0

-- The loop of `main`: the memory, and how many bytes were read. `str_size` stays what it was.
unfoldable pub read_loop : ℕ → List ℕ → ℕ → Bytes → Option (List ℕ × ℕ)
read_loop str_size str i [] = some (str, i)
read_loop str_size str i (c ∷ cs) = do
  str ← put (if i + 1 == str_size then realloc str (str_size * 2) else str) i c
  str ← put str (i + 1) 0
  read_loop str_size str (i + 1) cs

-- A line without its end, into ten bytes of `malloc`.
unfoldable pub read_line : List ℕ → Bytes → Option (List ℕ × ℕ)
read_line fresh line = read_loop 10 fresh 0 line

-- `main` at two lines. `malloc` gives ten bytes for each.
unfoldable pub main_search : List ℕ → List ℕ → Bytes → Bytes → Option (Option ℕ × List ℕ)
main_search fresh fresh' text sub = do
  (str, str_size) ← read_line fresh text
  (sstr, sstr_size) ← read_line fresh' sub
  find_subbstr str sstr str_size sstr_size
