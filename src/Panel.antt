-- ===== src/Panel.antt =====
-- task9/fake_mc/src/indexes.c and my_funcs.c: one panel of the file manager, as the part of a
-- directory that its window shows and the entry that is chosen. A panel is drawn after each key.
-- Directories have at least one entry, `.`; `scandir` gives how many.
pub mod Visible
mod Tests
use eltex_course.Base.{
  ℕ, zero, suc, ◌+◌, ◌-◌, min, Bool, true, false, List, [], ◌∷◌, Option, none, some, ◌==◌, ltb,
  if◌then◌else◌, ◌>>=◌,
}

-- `struct index`, the number of the entries and the chosen one.
pub record Panel : Type 0 where
  pub up : ℕ
  pub down : ℕ
  pub ndirs : ℕ
  pub target : ℕ

unfoldable pub refresh_index : Panel → Panel
refresh_index p =
    if ltb p.target p.up
    then record p { down = p.down - (p.up - p.target); up = p.target }
    else if p.target == p.down
    then record p { down = p.down + 1; up = p.up + 1 }
    else p

-- The loop of `print_dirs`, whose test is `i != end`: the entries that are printed, on fuel.
unfoldable pub print_loop : ℕ → ℕ → ℕ → Option (List ℕ)
print_loop zero i end = none
print_loop (suc k) i end =
    let rest = print_loop k (i + 1) end in
    if i == end then some [] else (rest >>= λ is. some (i ∷ is))

unfoldable pub print_dirs : ℕ → Panel → Option (List ℕ)
print_dirs fuel p = print_loop fuel p.up (min p.ndirs p.down)

-- The keys, where a directory that is opened has some entries.
pub data Key : Type 0 where
  key_down : Key
  key_up : Key
  key_open : ℕ → Key

unfoldable pub move_down : Panel → Panel
move_down p =
    refresh_index (if p.target == p.ndirs - 1 then p else record p { target = p.target + 1 })

unfoldable pub move_up : Panel → Panel
move_up p = refresh_index (if p.target == 0 then p else record p { target = p.target - 1 })

-- The chosen entry is a directory.
unfoldable pub open_dir : Panel → ℕ → Panel
open_dir p n = refresh_index (record p { ndirs = n; target = 0 })

unfoldable pub press : Panel → Key → Panel
press p key_down = move_down p
press p key_up = move_up p
press p (key_open n) = open_dir p n

unfoldable pub press_all : Panel → List Key → Panel
press_all p [] = p
press_all p (k ∷ ks) = press_all (press p k) ks
