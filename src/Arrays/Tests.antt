-- ===== src/Arrays/Tests.antt =====
-- Five numbers.
use eltex_course.Base.{◌≡◌, some}
use eltex_course.Arrays.{fill_loop, revers}
use eltex_course.Arrays.Reversing.{reversed, downward, revers-reversed}

revers-reversed_example :
    (revers 5 ≡ some (reversed (fill_loop 5 0))) × (reversed (fill_loop 5 0) ≡ downward 5)
revers-reversed_example = revers-reversed 5
