-- ===== src/Panel/Tests.antt =====
-- A window of two lines on a directory of four entries.
use eltex_course.Base.{◌≡◌, refl, [], ◌∷◌, some, arith}
use eltex_course.Panel.{
  Panel, refresh_index, print_dirs, key_down, key_up, move_down, move_up, press, press_all,
}
use eltex_course.Panel.Visible.{IsVisible, press_all-IsVisible, print_dirs-range}

abbrev window : Panel
window = record { up = 0; down = 2; ndirs = 4; target = 0 }

window-IsVisible : IsVisible 2 window
window-IsVisible = record {
  above = omega arith;
  below = omega arith;
  inside = omega arith;
  height = refl;
}

press_all-IsVisible_example : IsVisible 2 (record { up = 1; down = 3; ndirs = 4; target = 1 })
unfolding press_all press move_down move_up refresh_index
press_all-IsVisible_example =
    press_all-IsVisible 2 window (key_down ∷ key_down ∷ key_up ∷ []) window-IsVisible tt

print_dirs-range_example : print_dirs 9 window ≡ some (0 ∷ 1 ∷ [])
print_dirs-range_example = print_dirs-range 2 9 window window-IsVisible (omega arith)
