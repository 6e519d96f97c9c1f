-- ===== src/Arrays/Reversing.antt =====
-- The loop reverses the array.
use mathlib.Core.Path.{subst}
use eltex_course.Base.{
  ℕ, zero, suc, ◌+◌, ◌-◌, ◌≤◌, ◌<◌, ◌≡◌, refl, sym, ap, ◌∙◌, List, [], ◌∷◌, ◌++◌, append_assoc,
  append-snoc, append-nil, some, lt→ltb, ge→ltb, get_elem?, get_elem?-length, set, set-length,
  length, length-append, length-snoc, arith,
}
use eltex_course.Arrays.{fill_loop, swap, revers_loop, revers}

abbrev pub reversed : List ℕ → List ℕ
reversed [] = []
reversed (x ∷ xs) = reversed xs ++ x ∷ []

reversed-snoc : (xs : List ℕ) (b : ℕ) → reversed (xs ++ b ∷ []) ≡ b ∷ reversed xs
reversed-snoc [] b = refl
reversed-snoc (x ∷ xs) b = ap (λ l. l ++ x ∷ []) (reversed-snoc xs b)

-- The last element of a list.
last_of : (x : ℕ) (xs : List ℕ) → (n : List ℕ) × (b : ℕ) × (x ∷ xs ≡ n ++ b ∷ [])
last_of x [] = ([], x, refl)
last_of x (y ∷ ys) = let (n, b, e) = last_of y ys in (x ∷ n, b, ap (◌∷◌ x) e)

-- Elements at the places of two lengths.
swap-length :
    (pre n post : List ℕ) (a b i j : ℕ)
    → i ≡ length pre
    → j ≡ length (pre ++ a ∷ n)
    → swap ((pre ++ a ∷ n) ++ b ∷ post) i j ≡ some ((pre ++ b ∷ n) ++ a ∷ post)
unfolding swap
swap-length pre n post a b i j e f =
    let whole : (pre ++ a ∷ n) ++ b ∷ post ≡ pre ++ a ∷ (n ++ b ∷ post) =
      append_assoc pre (a ∷ n) (b ∷ post) in
    let first : get_elem? ((pre ++ a ∷ n) ++ b ∷ post) i ≡ some a =
      ap (get_elem? ((pre ++ a ∷ n) ++ b ∷ post)) e
      ∙ ap (λ l. get_elem? l (length pre)) whole
      ∙ get_elem?-length pre a (n ++ b ∷ post) in
    let second : get_elem? ((pre ++ a ∷ n) ++ b ∷ post) j ≡ some b =
      ap (get_elem? ((pre ++ a ∷ n) ++ b ∷ post)) f ∙ get_elem?-length (pre ++ a ∷ n) b post in
    let one : set ((pre ++ a ∷ n) ++ b ∷ post) i b ≡ (pre ++ b ∷ n) ++ b ∷ post =
      ap (λ k. set ((pre ++ a ∷ n) ++ b ∷ post) k b) e
      ∙ ap (λ l. set l (length pre) b) whole
      ∙ set-length pre a b (n ++ b ∷ post)
      ∙ sym (append_assoc pre (b ∷ n) (b ∷ post)) in
    let same : j ≡ length (pre ++ b ∷ n) =
      omega (arith, f, length-append pre (a ∷ n), length-append pre (b ∷ n)) in
    let two : set ((pre ++ b ∷ n) ++ b ∷ post) j a ≡ (pre ++ b ∷ n) ++ a ∷ post =
      ap (λ k. set ((pre ++ b ∷ n) ++ b ∷ post) k a) same ∙ set-length (pre ++ b ∷ n) b a post in
    rw (first, second, one, two) refl

swap-same :
    (pre post : List ℕ) (a i : ℕ)
    → i ≡ length pre
    → swap (pre ++ a ∷ post) i i ≡ some (pre ++ a ∷ post)
unfolding swap
swap-same pre post a i e =
    let found : get_elem? (pre ++ a ∷ post) i ≡ some a =
      ap (get_elem? (pre ++ a ∷ post)) e ∙ get_elem?-length pre a post in
    let again : set (pre ++ a ∷ post) i a ≡ pre ++ a ∷ post =
      ap (λ k. set (pre ++ a ∷ post) k a) e ∙ set-length pre a a post in
    rw (found, again, again) refl

-- The elements between two that are exchanged move one place outward in the parts that are done.
outward :
    (pre n post : List ℕ) (b a : ℕ)
    → (pre ++ b ∷ n) ++ a ∷ post ≡ ((pre ++ b ∷ []) ++ n) ++ a ∷ post
outward pre n post b a = ap (λ l. l ++ a ∷ post) (sym (append-snoc pre b n))

snoc-between :
    (pre n post : List ℕ) (b : ℕ) → (pre ++ (n ++ b ∷ [])) ++ post ≡ (pre ++ n) ++ b ∷ post
snoc-between pre n post b =
    ap (λ l. l ++ post) (sym (append_assoc pre n (b ∷ []))) ∙ append-snoc (pre ++ n) b post

inward :
    (pre n post : List ℕ) (a b : ℕ)
    → (pre ++ reversed (a ∷ (n ++ b ∷ []))) ++ post ≡ ((pre ++ b ∷ []) ++ reversed n) ++ a ∷ post
inward pre n post a b =
    ap (λ l. (pre ++ (l ++ a ∷ [])) ++ post) (reversed-snoc n b)
    ∙ snoc-between pre (b ∷ reversed n) post a
    ∙ outward pre (reversed n) post b a

last_round :
    (k : ℕ) (arr : List ℕ) (len i : ℕ)
    → 0 < k
    → len - (i + 1) ≤ i + 1
    → revers_loop k arr len (i + 1) ≡ some arr
unfolding revers_loop
last_round zero arr len i h m = absurd (omega (arith, h))
last_round (suc k) arr len i h m = rw (ge→ltb (i + 1) (len - (i + 1)) m) refl

-- The loop at the place `i` of an array whose ends are done.
Done : ℕ → List ℕ → List ℕ → List ℕ → ℕ → ℕ → Type 0
Done k pre mid post len i =
    revers_loop k ((pre ++ mid) ++ post) len i ≡ some ((pre ++ reversed mid) ++ post)

revers_loop-Done :
    (k : ℕ) (pre mid post : List ℕ) (len i : ℕ)
    → i ≡ length pre
    → length post ≡ i
    → len ≡ i + length mid + i
    → length mid < k
    → Done k pre mid post len i
unfolding Done revers_loop
revers_loop-Done zero pre mid post len i e p l h = absurd (omega (arith, h))
revers_loop-Done (suc k) pre [] post len i e p l h = rw (ge→ltb i (len - i) (omega (arith, l))) refl
revers_loop-Done (suc k) pre (a ∷ []) post len i e p l h =
    let whole : (pre ++ a ∷ []) ++ post ≡ pre ++ a ∷ post = append-snoc pre a post in
    let here : len - i - 1 ≡ i = omega (arith, l) in
    rw (lt→ltb i (len - i) (omega (arith, l)), here, whole, swap-same pre post a i e)
      (last_round k (pre ++ a ∷ post) len i (omega (arith, h)) (omega (arith, l)))
revers_loop-Done (suc k) pre (a ∷ y ∷ ys) post len i e p l h =
    let (n, b, split) = last_of y ys in
    let size : length (y ∷ ys) ≡ length n + 1 = ap length split ∙ length-snoc n b in
    let swapped =
      swap-length pre n post a b i (len - i - 1) e
        (omega (arith, l, size, e, length-append pre (a ∷ n))) in
    let ih =
      revers_loop-Done k (pre ++ b ∷ []) n (a ∷ post) len (i + 1)
        (omega (arith, e, length-snoc pre b)) (omega (arith, p)) (omega (arith, l, size))
        (omega (arith, h, size)) in
    subst (λ m. Done (suc k) pre (a ∷ m) post len i) (sym split)
      (rw
        (
          lt→ltb i (len - i) (omega (arith, l)),
          snoc-between pre (a ∷ n) post b,
          swapped,
          outward pre n post b a,
        )
        (ih ∙ ap some (sym (inward pre n post a b))))

length-fill_loop : (k i : ℕ) → length (fill_loop k i) ≡ k
unfolding fill_loop
length-fill_loop zero i = refl
length-fill_loop (suc k) i = ap suc (length-fill_loop k (i + 1))

-- The numbers from one down to 1.
abbrev pub downward : ℕ → List ℕ
downward zero = []
downward (suc k) = (k + 1) ∷ downward k

fill_loop-snoc : (k i : ℕ) → fill_loop (suc k) i ≡ fill_loop k i ++ (i + k + 1) ∷ []
unfolding fill_loop
fill_loop-snoc zero i = ap (λ n. n ∷ []) (omega arith)
fill_loop-snoc (suc k) i =
    ap (◌∷◌ (i + 1)) (fill_loop-snoc k (i + 1))
    ∙ ap (λ n. fill_loop (suc k) i ++ n ∷ []) (omega arith)

reversed-fill_loop : (k : ℕ) → reversed (fill_loop k 0) ≡ downward k
unfolding fill_loop
reversed-fill_loop zero = refl
reversed-fill_loop (suc k) =
    ap reversed (fill_loop-snoc k 0)
    ∙ reversed-snoc (fill_loop k 0) (0 + k + 1)
    ∙ rw (reversed-fill_loop k) (ap (λ n. n ∷ downward k) (omega arith))

-- The program ends with the array that it has filled in the opposite order, without an access outside of
-- the array: these are the numbers from the length down to 1.
pub revers-reversed :
    (len : ℕ)
    → (revers len ≡ some (reversed (fill_loop len 0))) × (reversed (fill_loop len 0) ≡ downward len)
unfolding revers Done
revers-reversed len =
    let size = length-fill_loop len 0 in
    let done =
      revers_loop-Done (len + 1) [] (fill_loop len 0) [] len 0 refl refl (omega (arith, size))
        (omega (arith, size)) in
    (
      ap (λ l. revers_loop (len + 1) l len 0) (sym (append-nil (fill_loop len 0)))
          ∙ done
          ∙ ap some (append-nil (reversed (fill_loop len 0))),
      reversed-fill_loop len,
    )
