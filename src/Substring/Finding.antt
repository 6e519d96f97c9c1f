-- ===== src/Substring/Finding.antt =====
-- The search against the first place where the text stands.
use mathlib.Core.Path.{subst}
use mathlib.Core.Option.{some-injective}
use eltex_course.Base.{
  ℕ, zero, suc, ◌+◌, ◌-◌, ◌≤◌, ◌≡◌, refl, sym, ap, ◌∙◌, Bool, false, Bool-cases, inl, inr, List, [],
  ◌∷◌, ◌++◌, append-snoc, Option, none, some, ◌==◌, if◌then◌else◌, get_elem?, set, length,
  length-snoc, take, drop, Bytes, str_eq, c_str, NoZero, c_str-terminated, arith,
}
use eltex_course.Substring.{compare_at, try_at, find_loop, find_subbstr}

-- The text begins with the other one.
abbrev pub begins : Bytes → Bytes → Bool
begins text sub = str_eq (take (length sub) text) sub

-- The first place, from `i` on, in the rounds left.
abbrev pub occurs : ℕ → Bytes → Bytes → ℕ → Option ℕ
occurs zero text sub i = none
occurs (suc k) text sub i = if begins text sub then some i else occurs k (drop 1 text) sub (i + 1)

-- The memory behind a search: where the text was found, it ends behind it.
abbrev pub cut : List ℕ → ℕ → Option ℕ → List ℕ
cut str size none = str
cut str size (some i) = set str (i + size) 0

succ_plus : (m n : ℕ) → suc m + n ≡ suc (m + n)
succ_plus m n = omega arith

zero_plus : (n : ℕ) → 0 + n ≡ n
zero_plus n = omega arith

get_elem?-behind :
    (pre ys : List ℕ) (n : ℕ) → get_elem? (pre ++ ys) (length pre + n) ≡ get_elem? ys n
get_elem?-behind [] ys n = ap (get_elem? ys) (zero_plus n)
get_elem?-behind (x ∷ pre) ys n =
    ap (get_elem? (x ∷ (pre ++ ys))) (succ_plus (length pre) n) ∙ get_elem?-behind pre ys n

set-behind : (pre ys : List ℕ) (n v : ℕ) → set (pre ++ ys) (length pre + n) v ≡ pre ++ set ys n v
set-behind [] ys n v = ap (λ i. set ys i v) (zero_plus n)
set-behind (x ∷ pre) ys n v =
    ap (λ i. set (x ∷ (pre ++ ys)) i v) (succ_plus (length pre) n)
    ∙ ap (◌∷◌ x) (set-behind pre ys n v)

drop-behind : (pre ys : List ℕ) → drop (length pre) (pre ++ ys) ≡ ys
drop-behind [] ys = refl
drop-behind (x ∷ pre) ys = drop-behind pre ys

set-restored : (ys : List ℕ) (n v w : ℕ) → get_elem? ys n ≡ some v → set (set ys n w) n v ≡ ys
set-restored [] n v w e = refl
set-restored (y ∷ ys) zero v w e = ap (λ x. x ∷ ys) (sym (some-injective y v e))
set-restored (y ∷ ys) (suc n) v w e = ap (◌∷◌ y) (set-restored ys n v w e)

-- Up to its end the memory has a byte at each place.
byte_at :
    (text junk : List ℕ) (n : ℕ)
    → n ≤ length text
    → (v : ℕ) × (get_elem? (text ++ 0 ∷ junk) n ≡ some v)
byte_at [] junk zero h = (0, refl)
byte_at [] junk (suc n) h = absurd (omega (arith, h))
byte_at (x ∷ text) junk zero h = (x, refl)
byte_at (x ∷ text) junk (suc n) h = byte_at text junk n (omega (arith, h))

marked-take :
    (text junk : List ℕ) (n : ℕ)
    → NoZero text
    → n ≤ length text
    → c_str (set (text ++ 0 ∷ junk) n 0) ≡ take n text
unfolding c_str
marked-take [] junk zero z h = refl
marked-take [] junk (suc n) z h = absurd (omega (arith, h))
marked-take (x ∷ text) junk zero z h = refl
marked-take (x ∷ text) junk (suc n) z h = ground (arith, z.0, marked-take text junk n z.1)

-- What one place gives.
module _ (pre text junk sub rest : List ℕ) (s : ℕ) (z : NoZero text) (zs : NoZero (s ∷ sub)) where
  compare_at-begins :
      length (s ∷ sub) ≤ length text
      → compare_at
          (pre ++ (text ++ 0 ∷ junk))
          ((s ∷ sub) ++ 0 ∷ rest)
          (length (s ∷ sub))
          (length pre)
        ≡ some (
            if begins text (s ∷ sub)
            then (
              some (length pre),
              set (pre ++ (text ++ 0 ∷ junk)) (length pre + length (s ∷ sub)) 0,
            )
            else (none, pre ++ (text ++ 0 ∷ junk)))
  unfolding compare_at
  compare_at-begins h =
      let n = length (s ∷ sub) in
      let ys = text ++ 0 ∷ junk in
      let (v, e) = byte_at text junk n h in
      let found = get_elem?-behind pre ys n ∙ e in
      let marked = ap (drop (length pre)) (set-behind pre ys n 0) ∙ drop-behind pre (set ys n 0) in
      let read = ap c_str marked ∙ marked-take text junk n z h in
      let back = set-restored (pre ++ ys) (length pre + n) v 0 found in
      rw (found, read, c_str-terminated (s ∷ sub) rest zs, back) refl

plus_zero : (n : ℕ) → n + 0 ≡ n
plus_zero n = omega arith

differ : (x s : ℕ) (text sub : Bytes) → (x == s) ≡ false → begins (x ∷ text) (s ∷ sub) ≡ false
unfolding str_eq
differ x s text sub e = ground (arith, e)

try_at-begins :
    (pre text junk sub rest : List ℕ) (s : ℕ)
    → NoZero text
    → NoZero (s ∷ sub)
    → length (s ∷ sub) ≤ length text
    → try_at (pre ++ (text ++ 0 ∷ junk)) ((s ∷ sub) ++ 0 ∷ rest) (length (s ∷ sub)) (length pre)
      ≡ some (
          if begins text (s ∷ sub)
          then (
            some (length pre),
            set (pre ++ (text ++ 0 ∷ junk)) (length pre + length (s ∷ sub)) 0,
          )
          else (none, pre ++ (text ++ 0 ∷ junk)))
unfolding try_at
try_at-begins pre [] junk sub rest s z zs h = absurd (omega (arith, h))
try_at-begins pre (x ∷ text) junk sub rest s z zs h =
    let head : get_elem? (pre ++ (x ∷ text ++ 0 ∷ junk)) (length pre) ≡ some x =
      ap (get_elem? (pre ++ (x ∷ text ++ 0 ∷ junk))) (sym (plus_zero (length pre)))
      ∙ get_elem?-behind pre (x ∷ text ++ 0 ∷ junk) 0 in
    elim (Bool-cases (x == s)) [
      | inl same ↦ rw (head, same) (compare_at-begins pre (x ∷ text) junk sub rest s z zs h)
      | inr other ↦
          let no_match : begins (x ∷ text) (s ∷ sub) ≡ false = differ x s text sub other in
          rw (head, other, no_match) refl
    ]

find_loop-occurs :
    (k : ℕ) (pre text junk sub rest : List ℕ) (s : ℕ)
    → NoZero text
    → NoZero (s ∷ sub)
    → k ≡ length text + 1 - length (s ∷ sub)
    → find_loop k
        (pre ++ (text ++ 0 ∷ junk))
        ((s ∷ sub) ++ 0 ∷ rest)
        (length (s ∷ sub))
        (length pre)
      ≡ some (
        occurs k text (s ∷ sub) (length pre),
        cut (pre ++ (text ++ 0 ∷ junk)) (length (s ∷ sub)) (occurs k text (s ∷ sub) (length pre)),
      )
unfolding find_loop
find_loop-occurs zero pre text junk sub rest s z zs e = refl
find_loop-occurs (suc k) pre [] junk sub rest s z zs e = absurd (omega (arith, e))
find_loop-occurs (suc k) pre (x ∷ text) junk sub rest s z zs e =
    let here = try_at-begins pre (x ∷ text) junk sub rest s z zs (omega (arith, e)) in
    elim (Bool-cases (begins (x ∷ text) (s ∷ sub))) [
      | inl found ↦ rw (here, found) refl
      | inr later ↦
          rw (here, later)
            (subst
              (λ l.
                find_loop k l ((s ∷ sub) ++ 0 ∷ rest) (length (s ∷ sub)) (length pre + 1)
                ≡ some (
                  occurs k text (s ∷ sub) (length pre + 1),
                  cut l (length (s ∷ sub)) (occurs k text (s ∷ sub) (length pre + 1)),
                ))
              (append-snoc pre x (text ++ 0 ∷ junk))
              (subst
                (λ n.
                  find_loop k ((pre ++ x ∷ []) ++ (text ++ 0 ∷ junk)) ((s ∷ sub) ++ 0 ∷ rest)
                    (length (s ∷ sub)) n
                  ≡ some (
                    occurs k text (s ∷ sub) n,
                    cut ((pre ++ x ∷ []) ++ (text ++ 0 ∷ junk)) (length (s ∷ sub))
                        (occurs k text (s ∷ sub) n),
                  ))
                (length-snoc pre x)
                (find_loop-occurs k (pre ++ x ∷ []) text junk sub rest s z.1 zs
                  (omega (arith, e)))))
    ]

-- Where the memory of the text and that of the other, non-empty one hold them with their ends, the search
-- gives the first place where the other one stands, and `NULL` if there is none; then the memory is as
-- it was, and otherwise the text now ends behind that place.
pub find_subbstr-occurs :
    (text junk sub rest : List ℕ) (s : ℕ)
    → NoZero text
    → NoZero (s ∷ sub)
    → find_subbstr (text ++ 0 ∷ junk) ((s ∷ sub) ++ 0 ∷ rest) (length text) (length (s ∷ sub))
      ≡ some (
        occurs (length text + 1 - length (s ∷ sub)) text (s ∷ sub) 0,
        cut
            (text ++ 0 ∷ junk)
            (length (s ∷ sub))
            (occurs (length text + 1 - length (s ∷ sub)) text (s ∷ sub) 0),
      )
unfolding find_subbstr
find_subbstr-occurs text junk sub rest s z zs =
    find_loop-occurs (length text + 1 - length (s ∷ sub)) [] text junk sub rest s z zs refl
