-- ===== src/Panel/Visible.antt =====
-- The chosen entry is always in the window.
use eltex_course.Base.{
  ℕ, zero, suc, ◌+◌, ◌-◌, min, ◌≡◌, ◌≤◌, ◌<◌, refl, ap, ◌∙◌, true, false, Bool-cases, inl, inr,
  List, [], ◌∷◌, some, ◌==◌, ltb, arith,
}
use eltex_course.Panel.{
  Panel, refresh_index, print_loop, print_dirs, Key, key_down, key_up, key_open, move_down, move_up,
  open_dir, press, press_all,
}

-- The window is `rows` high and shows the chosen entry.
pub record IsVisible (rows : ℕ) (p : Panel) : Type 0 where
  pub above : p.up ≤ p.target
  pub below : p.target < p.down
  pub inside : p.target < p.ndirs
  pub height : p.down ≡ p.up + rows

-- A window whose chosen entry has moved by at most one line out of it, or is the first.
record IsNear (rows : ℕ) (p : Panel) : Type 0 where
  some_rows : 0 < rows
  below : p.target ≤ p.down
  inside : p.target < p.ndirs
  height : p.down ≡ p.up + rows

refresh_index-IsVisible : (rows : ℕ) (p : Panel) → IsNear rows p → IsVisible rows (refresh_index p)
unfolding refresh_index
refresh_index-IsVisible rows p h = elim (Bool-cases (ltb p.target p.up)) [
  | inl less ↦ simp (less) (record {
    above = ground arith;
    below = ground (arith, h.height, h.some_rows);
    inside = h.inside;
    height = ground (arith, h.height);
  })
  | inr more ↦ elim (Bool-cases (p.target == p.down)) [
    | inl same ↦
        simp (more, same)
          (record {
            above = ground (arith, h.height, h.some_rows);
            below = ground arith;
            inside = h.inside;
            height = ground (arith, h.height);
          })
    | inr other ↦
        simp (more, other)
          (record {
            above = ground arith;
            below = ground (arith, h.below);
            inside = h.inside;
            height = h.height;
          })
  ]
]

open_dir-IsVisible :
    (rows n : ℕ) (p : Panel) → 0 < n → IsVisible rows p → IsVisible rows (open_dir p n)
unfolding open_dir
open_dir-IsVisible rows n p some_entries h =
    refresh_index-IsVisible rows (record p { ndirs = n; target = 0 })
      (record {
        some_rows = omega (arith, h.above, h.below, h.height);
        below = omega arith;
        inside = some_entries;
        height = h.height;
      })

visible-IsNear : (rows : ℕ) (p : Panel) → IsVisible rows p → IsNear rows p
visible-IsNear rows p h = record {
  some_rows = omega (arith, h.above, h.below, h.height);
  below = omega (arith, h.below);
  inside = h.inside;
  height = h.height;
}

move_down-IsVisible : (rows : ℕ) (p : Panel) → IsVisible rows p → IsVisible rows (move_down p)
unfolding move_down
move_down-IsVisible rows p h = elim (Bool-cases (p.target == p.ndirs - 1)) [
  | inl last ↦ rw last (refresh_index-IsVisible rows p (visible-IsNear rows p h))
  | inr more ↦ rw more (
      refresh_index-IsVisible rows (record p { target = p.target + 1 })
        (record {
          some_rows = (visible-IsNear rows p h).some_rows;
          below = omega (arith, h.below);
          inside = ground (arith, h.inside);
          height = h.height;
        }))
]

move_up-IsVisible : (rows : ℕ) (p : Panel) → IsVisible rows p → IsVisible rows (move_up p)
unfolding move_up
move_up-IsVisible rows p h = elim (Bool-cases (p.target == 0)) [
  | inl first ↦ rw first (refresh_index-IsVisible rows p (visible-IsNear rows p h))
  | inr more ↦ rw more (
      refresh_index-IsVisible rows (record p { target = p.target - 1 })
        (record {
          some_rows = (visible-IsNear rows p h).some_rows;
          below = omega (arith, h.below);
          inside = omega (arith, h.inside);
          height = h.height;
        }))
]

-- Directories that are opened have an entry.
abbrev pub AllFilled : List Key → Type 0
AllFilled [] = Unit {0}
AllFilled (key_down ∷ ks) = AllFilled ks
AllFilled (key_up ∷ ks) = AllFilled ks
AllFilled (key_open n ∷ ks) = (0 < n) × AllFilled ks

-- Whatever keys are pressed, as long as no directory is empty, the window keeps its height and the
-- chosen entry is one of the directory and stands in the window.
pub press_all-IsVisible :
    (rows : ℕ) (p : Panel) (ks : List Key)
    → IsVisible rows p
    → AllFilled ks
    → IsVisible rows (press_all p ks)
unfolding press_all press
press_all-IsVisible rows p [] h f = h
press_all-IsVisible rows p (key_down ∷ ks) h f =
    press_all-IsVisible rows (move_down p) ks (move_down-IsVisible rows p h) f
press_all-IsVisible rows p (key_up ∷ ks) h f =
    press_all-IsVisible rows (move_up p) ks (move_up-IsVisible rows p h) f
press_all-IsVisible rows p (key_open n ∷ ks) h f =
    press_all-IsVisible rows (open_dir p n) ks (open_dir-IsVisible rows n p f.0 h) f.1

-- The numbers from `i`, `k` of them.
abbrev pub range : ℕ → ℕ → List ℕ
range zero i = []
range (suc k) i = i ∷ range k (i + 1)

print_loop-range : (fuel k i : ℕ) → k < fuel → print_loop fuel i (i + k) ≡ some (range k i)
unfolding print_loop
print_loop-range zero k i h = absurd (omega arith)
print_loop-range (suc fuel) zero i h = let e : (i == i + 0) ≡ true = ground arith in rw e refl
print_loop-range (suc fuel) (suc k) i h =
    let e : (i == i + suc k) ≡ false = ground arith in
    let next : i + suc k ≡ i + 1 + k = omega arith in
    rw e (rw (next, print_loop-range fuel k (i + 1) (omega arith)) refl)

-- In such a panel the loop of `print_dirs` ends, and prints the entries from the first line of the
-- window to the last one, or to the end of the directory.
pub print_dirs-range :
    (rows fuel : ℕ) (p : Panel)
    → IsVisible rows p
    → rows < fuel
    → print_dirs fuel p ≡ some (range (min p.ndirs p.down - p.up) p.up)
unfolding print_dirs
print_dirs-range rows fuel p h f =
    let end : min p.ndirs p.down ≡ p.up + (min p.ndirs p.down - p.up) =
      omega (arith, h.above, h.below, h.inside) in
    ap (print_loop fuel p.up) end
    ∙ print_loop-range fuel (min p.ndirs p.down - p.up) p.up (omega (arith, h.height))
