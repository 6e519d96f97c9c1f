-- ===== src/Ether/Tests.antt =====
-- Headers with concrete addresses.
use eltex_course.Base.{◌≡◌, refl, [], ◌∷◌, ◌++◌, Bytes, length, arith}
use eltex_course.Ether.{check_sum, stored, ip_header}
use eltex_course.Ether.Sealing.{check_sum-stored, check_sum-ip_header}

-- 192.168.3.4 and 192.168.3.2
abbrev sender : Bytes
sender = 192 ∷ 168 ∷ 3 ∷ 4 ∷ []

abbrev receiver : Bytes
receiver = 192 ∷ 168 ∷ 3 ∷ 2 ∷ []

check_sum-stored_example :
    check_sum (1 ∷ 2 ∷ (stored (check_sum (1 ∷ 2 ∷ 0 ∷ 0 ∷ 9 ∷ [])) ++ 9 ∷ [])) ≡ 0
check_sum-stored_example =
    check_sum-stored (1 ∷ 2 ∷ []) (9 ∷ []) tt
      (omega arith, (omega arith, (omega arith, (omega arith, (omega arith, tt))))) (omega arith)

check_sum-ip_header_example :
    (length (ip_header sender receiver) ≡ 20) × (check_sum (ip_header sender receiver) ≡ 0)
check_sum-ip_header_example =
    check_sum-ip_header sender receiver
      (omega arith, (omega arith, (omega arith, (omega arith, tt))))
      (omega arith, (omega arith, (omega arith, (omega arith, tt)))) refl refl
