-- ===== src/Ether/Sealing.antt =====
-- The check sum put into its field makes the check sum of the whole 0.
use eltex_course.Base.{
  ℕ, ◌+◌, ◌*◌, ◌-◌, ◌≡◌, ◌≤◌, ◌<◌, refl, ◌∙◌, [], ◌∷◌, ◌++◌, Bytes, length, length-append, arith,
}
use eltex_course.Ether.{sum_loop, fold, check_sum, stored, header_start, header, ip_header}

abbrev pub AllBytes : Bytes → Type 0
AllBytes [] = Unit {0}
AllBytes (b ∷ bs) = (b < 256) × AllBytes bs

fold_bound : (s : ℕ) → fold s ≤ 65535
unfolding fold
fold_bound s = omega arith

fold-complement : (s : ℕ) → s < 4294901760 → fold (s + (65535 - fold s)) ≡ 65535
unfolding fold
fold-complement s h = omega arith

sum_loop_bound : (bs : Bytes) → AllBytes bs → sum_loop bs ≤ 65535 * length bs
unfolding sum_loop
sum_loop_bound [] h = omega arith
sum_loop_bound (b ∷ []) h = omega arith
sum_loop_bound (b ∷ c ∷ bs) h = omega (arith, sum_loop_bound bs h.1.1)

-- A text of two-byte words.
abbrev pub AllWords : Bytes → Type 0
AllWords [] = Unit {0}
AllWords (b ∷ []) = ⊥
AllWords (b ∷ c ∷ bs) = AllWords bs

sum_loop-append :
    (pre bs : Bytes) → AllWords pre → sum_loop (pre ++ bs) ≡ sum_loop pre + sum_loop bs
unfolding sum_loop
sum_loop-append [] bs h = omega arith
sum_loop-append (b ∷ []) bs h = absurd h
sum_loop-append (b ∷ c ∷ pre) bs h = omega (arith, sum_loop-append pre bs h)

stored_sum : (n : ℕ) (post : Bytes) → n ≤ 65535 → sum_loop (stored n ++ post) ≡ n + sum_loop post
unfolding sum_loop
stored_sum n post h = omega arith

-- A text of words with a field of two zero bytes, in memory of at most 65535 bytes, has the check
-- sum 0 as soon as its check sum is stored in the field.
pub check_sum-stored :
    (pre post : Bytes)
    → AllWords pre
    → AllBytes (pre ++ 0 ∷ 0 ∷ post)
    → length (pre ++ 0 ∷ 0 ∷ post) ≤ 65535
    → check_sum (pre ++ (stored (check_sum (pre ++ 0 ∷ 0 ∷ post)) ++ post)) ≡ 0
unfolding check_sum sum_loop
check_sum-stored pre post w b l =
    let s = sum_loop pre + sum_loop post in
    let zeros : sum_loop (pre ++ 0 ∷ 0 ∷ post) ≡ s =
      sum_loop-append pre (0 ∷ 0 ∷ post) w ∙ omega arith in
    let c = 65535 - fold s in
    let sealed : sum_loop (pre ++ (stored c ++ post)) ≡ s + c =
      sum_loop-append pre (stored c ++ post) w ∙ omega (arith, stored_sum c post (omega arith)) in
    let small : s < 4294901760 = omega (arith, zeros, l, sum_loop_bound (pre ++ 0 ∷ 0 ∷ post) b) in
    rw (zeros, sealed, fold-complement s small) refl

AllBytes-append : (xs ys : Bytes) → AllBytes xs → AllBytes ys → AllBytes (xs ++ ys)
AllBytes-append [] ys h k = k
AllBytes-append (x ∷ xs) ys h k = (h.0, AllBytes-append xs ys h.1 k)

header_start-AllBytes : AllBytes header_start
unfolding header_start
header_start-AllBytes = (
  omega arith,
  (
    omega arith,
    (
      omega arith,
      (
        omega arith,
        (
          omega arith,
          (omega arith, (omega arith, (omega arith, (omega arith, (omega arith, tt))))),
        ),
      ),
    ),
  ),
)

-- The header that is sent is 20 bytes long, and its check sum is 0 for every two addresses of four
-- bytes.
pub check_sum-ip_header :
    (saddr daddr : Bytes)
    → AllBytes saddr
    → AllBytes daddr
    → length saddr ≡ 4
    → length daddr ≡ 4
    → (length (ip_header saddr daddr) ≡ 20) × (check_sum (ip_header saddr daddr) ≡ 0)
unfolding ip_header header header_start
check_sum-ip_header saddr daddr s d ls ld =
    let tail = AllBytes-append saddr daddr s d in
    let long = length-append saddr daddr in
    (
      omega (arith, long, ls, ld),
      check_sum-stored header_start (saddr ++ daddr) tt
          (AllBytes-append header_start (0 ∷ 0 ∷ (saddr ++ daddr)) header_start-AllBytes
            (omega arith, (omega arith, tail)))
          (omega (arith, long, ls, ld)),
    )
