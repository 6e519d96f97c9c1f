-- ===== src/Decimal.antt =====
-- `%d` of `printf` on a number that is not negative, and `atoi` on digits.
use eltex_course.Base.{
  ℕ, zero, suc, ◌+◌, ◌-◌, ◌*◌, ◌/◌, ◌%◌, ◌<◌, ◌≤◌, ◌≡◌, refl, ◌∙◌, Bool, true, ◌&&◌, [], ◌∷◌, ltb,
  leb, if◌then◌else◌, Bytes, arith, length, Bool-cases, inl, inr, ltb→lt, ltb→ge, ap,
}

abbrev pub is_digit : ℕ → Bool
is_digit c = leb 48 c && leb c 57

atoi_loop : ℕ → Bytes → ℕ
atoi_loop acc [] = acc
atoi_loop acc (c ∷ cs) =
    let rest = atoi_loop (acc * 10 + (c - 48)) cs in if is_digit c then rest else acc

-- On a text that begins with a digit, or with none.
unfoldable pub atoi : Bytes → ℕ
unfolding atoi_loop
atoi s = atoi_loop 0 s

digits_loop : ℕ → ℕ → Bytes → Bytes
digits_loop zero n acc = acc
digits_loop (suc k) n acc =
    let rest = digits_loop k (n / 10) ((48 + n % 10) ∷ acc) in
    if ltb n 10 then (48 + n) ∷ acc else rest

unfoldable pub decimal : ℕ → Bytes
unfolding digits_loop
decimal n = digits_loop (n + 1) n []

atoi_loop-digit :
    (acc d : ℕ) (cs : Bytes) → d < 10 → atoi_loop acc ((48 + d) ∷ cs) ≡ atoi_loop (acc * 10 + d) cs
unfolding atoi_loop
atoi_loop-digit acc d cs h = rw (digit d h, minus d) refl
  where
    digit : (d : ℕ) → d < 10 → is_digit (48 + d) ≡ true
    digit d h = ground arith

    minus : (d : ℕ) → 48 + d - 48 ≡ d
    minus d = omega arith

atoi_loop-digits_loop :
    (k n : ℕ) (cs : Bytes) → n < k → atoi_loop 0 (digits_loop k n cs) ≡ atoi_loop n cs
unfolding digits_loop
atoi_loop-digits_loop zero n cs h = absurd (omega arith)
atoi_loop-digits_loop (suc k) n cs h = elim (Bool-cases (ltb n 10)) [
  | inl small ↦
      rw small (atoi_loop-digit 0 n cs (ltb→lt n 10 small) ∙ ap (λ m. atoi_loop m cs) (omega arith))
  | inr big ↦ rw big (
      atoi_loop-digits_loop k (n / 10) ((48 + n % 10) ∷ cs) (omega (arith, ltb→ge n 10 big))
      ∙ atoi_loop-digit (n / 10) (n % 10) cs (omega arith)
      ∙ ap (λ m. atoi_loop m cs) (omega arith))
]

-- `atoi` reads back what `%d` prints.
pub atoi-decimal : (n : ℕ) → atoi (decimal n) ≡ n
unfolding atoi decimal
atoi-decimal n = atoi_loop-digits_loop (n + 1) n [] (omega arith)

-- All bytes are digits, and there is one.
abbrev pub AllDigits : Bytes → Type 0
AllDigits [] = Unit {0}
AllDigits (c ∷ cs) = (48 ≤ c) × (c ≤ 57) × AllDigits cs

digits_loop-AllDigits : (k n : ℕ) (cs : Bytes) → AllDigits cs → AllDigits (digits_loop k n cs)
unfolding digits_loop
digits_loop-AllDigits zero n cs h = h
digits_loop-AllDigits (suc k) n cs h = elim (Bool-cases (ltb n 10)) [
  | inl small ↦ rw small (omega arith, omega (arith, ltb→lt n 10 small), h)
  | inr big ↦
      rw big (digits_loop-AllDigits k (n / 10) ((48 + n % 10) ∷ cs) (omega arith, omega arith, h))
]

pub decimal-AllDigits : (n : ℕ) → AllDigits (decimal n)
unfolding decimal
decimal-AllDigits n = digits_loop-AllDigits (n + 1) n [] tt

length-digits_loop : (k n : ℕ) (cs : Bytes) → length cs ≤ length (digits_loop k n cs)
unfolding digits_loop
length-digits_loop zero n cs = omega arith
length-digits_loop (suc k) n cs = ground (arith, length-digits_loop k (n / 10) ((48 + n % 10) ∷ cs))

pub decimal_nonempty : (n : ℕ) → 0 < length (decimal n)
unfolding decimal digits_loop
decimal_nonempty zero = omega arith
decimal_nonempty (suc n) =
    ground (arith, length-digits_loop (n + 1) (suc n / 10) ((48 + suc n % 10) ∷ []))
