-- ===== src/Strtok/Fields.antt =====
-- The tokens that calls of `strtok` give in turn are the fields of the text that are not empty.
use eltex_course.Base.{
  ℕ, ◌≤◌, ◌<◌, ◌≡◌, refl, sym, ap, ◌∙◌, ◌⊎◌, inl, inr, Bool, true, false, Bool-cases, List, [], ◌∷◌,
  Option, none, some, if◌then◌else◌, Bytes, keep, length, arith,
}
use eltex_course.Strtok.{skip, word, behind, token, strtok}

abbrev pub filled : Bytes → Bool
filled [] = false
filled (c ∷ cs) = true

abbrev push : ℕ → List Bytes → List Bytes
push c [] = (c ∷ []) ∷ []
push c (f ∷ fs) = (c ∷ f) ∷ fs

-- A word before others, if it is one.
abbrev pub cons_filled : Bytes → List Bytes → List Bytes
cons_filled [] fs = fs
cons_filled (c ∷ cs) fs = (c ∷ cs) ∷ fs

module _ (delim : ℕ → Bool) where
  -- All fields between delimiters, the empty ones too.
  unfoldable pub split : Bytes → List Bytes
  split [] = [] ∷ []
  split (c ∷ cs) = if delim c then [] ∷ split cs else push c (split cs)

  abbrev pub fields : Bytes → List Bytes
  fields s = keep filled (split s)

  unfoldable pub more : Bytes → List Bytes
  more [] = []
  more (c ∷ cs) = if delim c then split cs else more cs

  split-word : (s : Bytes) → split s ≡ word delim s ∷ more s
  unfolding split word more
  split-word [] = refl
  split-word (c ∷ cs) = ground (arith, split-word cs)

  unfoldable pub rest_fields : Bytes → List Bytes
  rest_fields s = keep filled (more s)

  pub fields-word : (s : Bytes) → fields s ≡ cons_filled (word delim s) (rest_fields s)
  unfolding rest_fields
  fields-word s = rw (split-word s) (shape (word delim s))
    where
      shape : (w : Bytes) → keep filled (w ∷ more s) ≡ cons_filled w (keep filled (more s))
      shape [] = refl
      shape (c ∷ cs) = refl

  rest_fields-behind : (s : Bytes) → rest_fields s ≡ fields (behind delim s)
  unfolding rest_fields more behind split
  rest_fields-behind [] = refl
  rest_fields-behind (c ∷ cs) = ground (arith, rest_fields-behind cs)

  skip-stop : (c : ℕ) (cs : Bytes) → delim c ≡ false → skip delim (c ∷ cs) ≡ c ∷ cs
  unfolding skip
  skip-stop c cs d = rw d refl

  pub fields-skip : (s : Bytes) → fields (skip delim s) ≡ fields s
  unfolding skip split
  fields-skip [] = refl
  fields-skip (c ∷ cs) = elim (Bool-cases (delim c)) [
    | inl d ↦ rw d (fields-skip cs)
    | inr d ↦ ap fields (skip-stop c cs d)
  ]

  length-behind : (s : Bytes) → length (behind delim s) ≤ length s
  unfolding behind
  length-behind [] = omega arith
  length-behind (c ∷ cs) = ground (arith, length-behind cs)

  length-skip : (s : Bytes) → length (skip delim s) ≤ length s
  unfolding skip
  length-skip [] = omega arith
  length-skip (c ∷ cs) = ground (arith, length-skip cs)

  -- A text of delimiters only is skipped whole; else the first byte left is none.
  abbrev pub Skipped : Bytes → Type 0
  Skipped [] = Unit {0}
  Skipped (c ∷ cs) = delim c ≡ false

  pub skip-Skipped : (s : Bytes) → Skipped (skip delim s)
  unfolding skip
  skip-Skipped [] = tt
  skip-Skipped (c ∷ cs) = elim (Bool-cases (delim c)) [
    | inl d ↦ rw d (skip-Skipped cs)
    | inr d ↦ rw d d
  ]

  -- `strtok` ends when no field is left, and otherwise gives the next one, and a shorter text.
  abbrev pub Takes : Bytes → Option (Bytes × Bytes) → Type 0
  Takes s r =
      ((r ≡ none) × (fields s ≡ []))
      ⊎ ((w : Bytes) × (t : Bytes) × (r ≡ some (w, t))
          × (fields s ≡ w ∷ fields t)
          × (length t < length s))

  fields-nil : fields [] ≡ []
  unfolding split
  fields-nil = refl

  pub word-go : (c : ℕ) (cs : Bytes) → delim c ≡ false → word delim (c ∷ cs) ≡ c ∷ word delim cs
  unfolding word
  word-go c cs d = rw d refl

  behind-go : (c : ℕ) (cs : Bytes) → delim c ≡ false → behind delim (c ∷ cs) ≡ behind delim cs
  unfolding behind
  behind-go c cs d = rw d refl

  token-Takes : (s : Bytes) → Skipped s → Takes s (token delim s)
  unfolding token
  token-Takes [] h = inl (refl, fields-nil)
  token-Takes (c ∷ cs) h = inr (
    word delim (c ∷ cs),
    behind delim (c ∷ cs),
    refl,
    fields-word (c ∷ cs)
        ∙ rw (word-go c cs h) (ap (λ r. (c ∷ word delim cs) ∷ r) (rest_fields-behind (c ∷ cs))),
    rw (behind-go c cs h) (omega (arith, length-behind cs)),
  )

  pub strtok-Takes : (s : Bytes) → Takes s (strtok delim s)
  unfolding strtok
  strtok-Takes s = elim (token-Takes (skip delim s) (skip-Skipped s)) [
    | inl (e, n) ↦ inl (e, sym (fields-skip s) ∙ n)
    | inr (w, t, e, f, l) ↦ inr (w, t, e, sym (fields-skip s) ∙ f, omega (arith, length-skip s))
  ]
