-- ===== src/Strtok/Words.antt =====
-- `strtok` on a text that begins with a word.
use eltex_course.Base.{
  ℕ, ◌≡◌, ◌<◌, refl, ◌∙◌, ap, Bool, true, false, [], ◌∷◌, ◌++◌, some, Bytes, length, arith,
}
use eltex_course.Strtok.{skip, word, behind, token, strtok}

module _ (delim : ℕ → Bool) where
  -- No byte is a delimiter.
  abbrev pub Solid : Bytes → Type 0
  Solid [] = Unit {0}
  Solid (c ∷ cs) = (delim c ≡ false) × Solid cs

  word-delim :
      (w : Bytes) (d : ℕ) (rest : Bytes) → Solid w → delim d ≡ true → word delim (w ++ d ∷ rest) ≡ w
  unfolding word
  word-delim [] d rest h e = rw e refl
  word-delim (c ∷ w) d rest h e = rw h.0 (ap (◌∷◌ c) (word-delim w d rest h.1 e))

  behind-delim :
      (w : Bytes) (d : ℕ) (rest : Bytes)
      → Solid w
      → delim d ≡ true
      → behind delim (w ++ d ∷ rest) ≡ rest
  unfolding behind
  behind-delim [] d rest h e = rw e refl
  behind-delim (c ∷ w) d rest h e = rw h.0 (behind-delim w d rest h.1 e)

  word-all : (w : Bytes) → Solid w → word delim w ≡ w
  unfolding word
  word-all [] h = refl
  word-all (c ∷ w) h = rw h.0 (ap (◌∷◌ c) (word-all w h.1))

  behind-all : (w : Bytes) → Solid w → behind delim w ≡ []
  unfolding behind
  behind-all [] h = refl
  behind-all (c ∷ w) h = rw h.0 (behind-all w h.1)

  strtok-token : (c : ℕ) (s : Bytes) → delim c ≡ false → strtok delim (c ∷ s) ≡ token delim (c ∷ s)
  unfolding strtok skip
  strtok-token c s h = rw h refl

  -- A word that a delimiter ends.
  pub strtok-word :
      (w : Bytes) (d : ℕ) (rest : Bytes)
      → Solid w
      → 0 < length w
      → delim d ≡ true
      → strtok delim (w ++ d ∷ rest) ≡ some (w, rest)
  unfolding token
  strtok-word [] d rest h n e = absurd (omega arith)
  strtok-word (c ∷ w) d rest h n e =
      strtok-token c (w ++ d ∷ rest) h.0
      ∙ rw (word-delim (c ∷ w) d rest h e, behind-delim (c ∷ w) d rest h e) refl

  -- A word that the text ends.
  pub strtok-last : (w : Bytes) → Solid w → 0 < length w → strtok delim w ≡ some (w, [])
  unfolding token
  strtok-last [] h n = absurd (omega arith)
  strtok-last (c ∷ w) h n =
      strtok-token c w h.0 ∙ rw (word-all (c ∷ w) h, behind-all (c ∷ w) h) refl
