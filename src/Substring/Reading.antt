-- ===== src/Substring/Reading.antt =====
-- How long a line may be.
use eltex_course.Base.{
  bind_twice, NoZero, ℕ, zero, suc, ◌+◌, ◌-◌, ◌≤◌, ◌<◌, ◌≡◌, refl, sym, ap, ◌∙◌, Bool-cases, inl,
  inr, List, [], ◌∷◌, ◌++◌, append_assoc, append-nil, append-snoc, none, some, ◌==◌, ltb, lt→ltb,
  ge→ltb, if◌then◌else◌, set, length, length-append, length-snoc, length-set, set-length,
  length-replicate, take, replicate, Bytes, arith, ◌>>=◌,
}
use eltex_course.Substring.{put, realloc, read_loop, read_line, main_search}
use eltex_course.Substring.Finding.{occurs, cut, find_subbstr-occurs}

put-inside : (p : List ℕ) (i v : ℕ) → i < length p → put p i v ≡ some (set p i v)
unfolding put
put-inside p i v h = rw (lt→ltb i (length p) h) refl

put-outside : (p : List ℕ) (i v : ℕ) → length p ≤ i → put p i v ≡ none
unfolding put
put-outside p i v h = rw (ge→ltb i (length p) h) refl

take_all : (n : ℕ) (xs : List ℕ) → length xs ≤ n → take n xs ≡ xs
take_all zero [] h = refl
take_all (suc n) [] h = refl
take_all zero (x ∷ xs) h = absurd (omega (arith, h))
take_all (suc n) (x ∷ xs) h = ap (◌∷◌ x) (take_all n xs (omega (arith, h)))

-- The size of the memory when so many bytes are in.
abbrev room : ℕ → ℕ
room i = if ltb i 10 then 10 else 20

-- The memory of the next byte.
abbrev extended : List ℕ → ℕ → List ℕ
extended str i = if i + 1 == 10 then realloc str 20 else str

extended-room :
    (done rest : List ℕ)
    → length (done ++ rest) ≡ room (length done)
    → length done ≤ 19
    → (rest' : List ℕ) × (extended (done ++ rest) (length done) ≡ done ++ rest')
      × (length (done ++ rest') ≡ room (length done + 1))
unfolding realloc
extended-room done rest l h = elim (Bool-cases (length done + 1 == 10)) [
  | inl now ↦
      let old : length (done ++ rest) ≡ 10 = ground (arith, l, now) in
      let all = take_all 20 (done ++ rest) (omega (arith, old)) in
      let zeros : List ℕ = replicate (20 - length (done ++ rest)) 0 in
      let new : length (done ++ (rest ++ zeros)) ≡ 20 =
        ap length (sym (append_assoc done rest zeros))
        ∙ length-append (done ++ rest) zeros
        ∙ ap (λ n. length (done ++ rest) + n)
            (length-replicate {A = ℕ} (20 - length (done ++ rest)) 0)
        ∙ omega (arith, old) in
      (rest ++ zeros, rw (now, all) (append_assoc done rest zeros), new ∙ ground (arith, now))
  | inr other ↦ (rest, rw other refl, l ∙ ground (arith, other))
]

two_places :
    (done rest : List ℕ) (n : ℕ)
    → length (done ++ rest) ≡ n
    → length done + 2 ≤ n
    → (a : ℕ) × (b : ℕ) × (r : List ℕ) × (rest ≡ a ∷ b ∷ r)
two_places done [] n l h = absurd (omega (arith, l, h, length-append done []))
two_places done (a ∷ []) n l h = absurd (omega (arith, l, h, length-append done (a ∷ [])))
two_places done (a ∷ b ∷ r) n l h = (a, b, r, refl)

-- Storing a byte and the end behind it.
stored_twice :
    (done r : List ℕ) (a b c : ℕ)
    → (put (done ++ a ∷ b ∷ r) (length done) c >>= λ str. put str (length done + 1) 0)
      ≡ some (done ++ c ∷ 0 ∷ r)
stored_twice done r a b c =
    let size = length-append done (a ∷ b ∷ r) in
    let size' = length-append done (c ∷ b ∷ r) in
    let second : set (done ++ c ∷ b ∷ r) (length done + 1) 0 ≡ done ++ c ∷ 0 ∷ r =
      ap (λ l. set l (length done + 1) 0) (sym (append-snoc done c (b ∷ r)))
      ∙ ap (λ n. set ((done ++ c ∷ []) ++ b ∷ r) n 0) (sym (length-snoc done c))
      ∙ set-length (done ++ c ∷ []) b 0 r
      ∙ append-snoc done c (0 ∷ r) in
    rw
      (
        put-inside (done ++ a ∷ b ∷ r) (length done) c (omega (arith, size)),
        set-length done a c (b ∷ r),
        put-inside (done ++ c ∷ b ∷ r) (length done + 1) 0 (omega (arith, size')),
      )
      (ap some second)

-- One byte more.
read_loop-byte :
    (done rest : List ℕ) (c : ℕ) (cs : Bytes)
    → length (done ++ rest) ≡ room (length done)
    → length done ≤ 18
    → (t : List ℕ) × (read_loop 10 (done ++ rest) (length done) (c ∷ cs)
        ≡ read_loop 10 ((done ++ c ∷ []) ++ 0 ∷ t) (length (done ++ c ∷ [])) cs)
      × (length ((done ++ c ∷ []) ++ 0 ∷ t) ≡ room (length (done ++ c ∷ [])))
unfolding read_loop
read_loop-byte done rest c cs l h =
    let (rest', e, l') = extended-room done rest l (omega (arith, h)) in
    let (a, b, t, split) = two_places done rest' (room (length done + 1)) l' (ground (arith, h)) in
    let next =
      ap (λ r. put (done ++ r) (length done) c >>= λ str. put str (length done + 1) 0) split
      ∙ stored_twice done t a b c in
    let same = sym (append-snoc done c (0 ∷ t)) in
    let size : length (done ++ c ∷ 0 ∷ t) ≡ length (done ++ rest') =
      omega (arith, length-append done (c ∷ 0 ∷ t), length-append done rest', ap length split) in
    (
      t,
      rw e (
          bind_twice (put (done ++ rest') (length done) c) (λ str. put str (length done + 1) 0)
            (λ str. read_loop 10 str (length done + 1) cs) (done ++ c ∷ 0 ∷ t) _ next
            (rw (same, length-snoc done c) refl)),
      ap length (append-snoc done c (0 ∷ t)) ∙ size ∙ l' ∙ ap room (sym (length-snoc done c)),
    )

read_loop-fits :
    (done t : List ℕ) (cs : Bytes)
    → length (done ++ 0 ∷ t) ≡ room (length done)
    → length done + length cs ≤ 19
    → (t' : List ℕ) × (read_loop 10 (done ++ 0 ∷ t) (length done) cs
        ≡ some ((done ++ cs) ++ 0 ∷ t', length (done ++ cs)))
unfolding read_loop
read_loop-fits done t [] l h = (t, ap (λ xs. some (xs ++ 0 ∷ t, length xs)) (sym (append-nil done)))
read_loop-fits done t (c ∷ cs) l h =
    let (t1, e, l1) = read_loop-byte done (0 ∷ t) c cs l (omega (arith, h)) in
    let (t2, f) = read_loop-fits (done ++ c ∷ []) t1 cs l1 (omega (arith, h, length-snoc done c)) in
    (t2, e ∙ f ∙ ap (λ xs. some (xs ++ 0 ∷ t2, length xs)) (append-snoc done c cs))

-- A line of up to 19 bytes is stored with its end behind it.
read_line-fits :
    (fresh : List ℕ) (c : ℕ) (cs : Bytes)
    → length fresh ≡ 10
    → length (c ∷ cs) ≤ 19
    → (t : List ℕ) × (read_line fresh (c ∷ cs) ≡ some ((c ∷ cs) ++ 0 ∷ t, length (c ∷ cs)))
unfolding read_line
read_line-fits fresh c cs l h =
    let (t, e, l1) = read_loop-byte [] fresh c cs l (omega arith) in
    let (t', f) = read_loop-fits (c ∷ []) t cs l1 (omega (arith, h)) in (t', e ∙ f)

read_loop-full :
    (done rest : List ℕ) (c : ℕ) (cs : Bytes)
    → length (done ++ rest) ≡ room (length done)
    → length done ≡ 19
    → read_loop 10 (done ++ rest) (length done) (c ∷ cs) ≡ none
unfolding read_loop
read_loop-full done rest c cs l h =
    let (rest', e, l') = extended-room done rest l (omega (arith, h)) in
    let size : length (done ++ rest') ≡ 20 = ground (arith, l', h) in
    rw
      (
        e,
        put-inside (done ++ rest') (length done) c (omega (arith, size, h)),
        put-outside (set (done ++ rest') (length done) c) (length done + 1) 0
            (omega (arith, size, h, length-set (done ++ rest') (length done) c)),
      )
      refl

read_loop-overflow :
    (done rest : List ℕ) (cs : Bytes)
    → length (done ++ rest) ≡ room (length done)
    → length done ≤ 19
    → 20 ≤ length done + length cs
    → read_loop 10 (done ++ rest) (length done) cs ≡ none
read_loop-overflow done rest [] l h o = absurd (omega (arith, h, o))
read_loop-overflow done rest (c ∷ cs) l h o = elim (Bool-cases (ltb (length done) 19)) [
  | inl more ↦
      let (t, e, l1) = read_loop-byte done rest c cs l (ground (arith, more)) in
      e
      ∙ read_loop-overflow (done ++ c ∷ []) (0 ∷ t) cs l1 (ground (arith, more, length-snoc done c))
          (omega (arith, o, length-snoc done c))
  | inr full ↦ read_loop-full done rest c cs l (ground (arith, full, h))
]

-- A line of 20 bytes or more is written behind the memory, which is extended once only.
pub read_line-overflow :
    (fresh line : List ℕ) → length fresh ≡ 10 → 20 ≤ length line → read_line fresh line ≡ none
unfolding read_line
read_line-overflow fresh line l o =
    read_loop-overflow [] fresh line l (omega arith) (omega (arith, o))

-- For two lines of 1 to 19 bytes the program finds the first place of the second one in the first, without an
-- access outside of its memory, and `NULL` where there is none.
pub main_search-occurs :
    (fresh fresh' : List ℕ) (c : ℕ) (cs : Bytes) (s : ℕ) (sub : Bytes)
    → length fresh ≡ 10
    → length fresh' ≡ 10
    → length (c ∷ cs) ≤ 19
    → length (s ∷ sub) ≤ 19
    → NoZero (c ∷ cs)
    → NoZero (s ∷ sub)
    → (str : List ℕ) × (main_search fresh fresh' (c ∷ cs) (s ∷ sub)
        ≡ some (occurs (length (c ∷ cs) + 1 - length (s ∷ sub)) (c ∷ cs) (s ∷ sub) 0, str))
unfolding main_search
main_search-occurs fresh fresh' c cs s sub l l' h h' z z' =
    let (t, e) = read_line-fits fresh c cs l h in
    let (t', e') = read_line-fits fresh' s sub l' h' in
    let place = occurs (length (c ∷ cs) + 1 - length (s ∷ sub)) (c ∷ cs) (s ∷ sub) 0 in
    (
      cut ((c ∷ cs) ++ 0 ∷ t) (length (s ∷ sub)) place,
      rw (e, e') (find_subbstr-occurs (c ∷ cs) t sub t' s z z'),
    )
