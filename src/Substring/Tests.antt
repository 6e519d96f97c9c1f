-- ===== src/Substring/Tests.antt =====
-- The search for "b" in "ab", and a line that is too long.
use eltex_course.Base.{ℕ, ◌≡◌, refl, List, [], ◌∷◌, none, some, replicate, arith}
use eltex_course.Substring.{read_line, main_search}
use eltex_course.Substring.Finding.{occurs}
use eltex_course.Substring.Reading.{read_line-overflow, main_search-occurs}

abbrev fresh : List ℕ
fresh = replicate 10 7

read_line-overflow_example : read_line fresh (replicate 25 97) ≡ none
read_line-overflow_example = read_line-overflow fresh (replicate 25 97) refl (omega arith)

main_search-occurs_example :
    (str : List ℕ) × (main_search fresh fresh (97 ∷ 98 ∷ []) (98 ∷ [])
      ≡ some (occurs 2 (97 ∷ 98 ∷ []) (98 ∷ []) 0, str))
main_search-occurs_example =
    main_search-occurs fresh fresh 97 (98 ∷ []) 98 [] refl refl (omega arith) (omega arith)
      (omega arith, (omega arith, tt)) (omega arith, tt)
