-- ===== src/Pipeline/Parse/Fields.antt =====
-- Trimming spaces keeps the words; the loop over the arguments takes the first of them.
use eltex_course.Base.{
  ℕ, zero, suc, ◌≡◌, refl, sym, ap, ◌∙◌, inl, inr, true, false, Bool-cases, List, [], ◌∷◌, Bytes,
  take,
}
use eltex_course.Strtok.{skip, word}
use eltex_course.Strtok.Fields.{
  split, fields, cons_filled, rest_fields, more, fields-word, fields-skip, strtok-Takes, word-go,
  Skipped, skip-Skipped,
}
use eltex_course.Pipeline.Parse.{
  is_space, drop_end, cons_unless, drop_end_after_first, trim, arg_loop,
}

abbrev pub words : Bytes → List Bytes
words s = fields is_space s

-- The first word of a text, and the words behind it, are those of the text without the spaces at
-- its end.
record SameWords (s t : Bytes) : Type 0 where
  head : word is_space t ≡ word is_space s
  rest : rest_fields is_space t ≡ rest_fields is_space s

SameWords-fields : (s t : Bytes) → SameWords s t → words t ≡ words s
SameWords-fields s t h = rw (fields-word is_space t, h.head, h.rest) (sym (fields-word is_space s))

rest_fields-nil : rest_fields is_space [] ≡ []
unfolding rest_fields more
rest_fields-nil = refl

words-nil : words [] ≡ []
unfolding split
words-nil = refl

rest_fields-delim : (c : ℕ) (s : Bytes) → is_space c ≡ true → rest_fields is_space (c ∷ s) ≡ words s
unfolding rest_fields more
rest_fields-delim c s d = rw d refl

word-delim : (c : ℕ) (s : Bytes) → is_space c ≡ true → word is_space (c ∷ s) ≡ []
unfolding word
word-delim c s d = rw d refl

SameWords-space :
    (c : ℕ) (s t : Bytes)
    → is_space c ≡ true
    → SameWords s t
    → SameWords (c ∷ s) (cons_unless true c t)
unfolding word
SameWords-space c s [] d h = record {
  head = sym (word-delim c s d);
  rest =
      rest_fields-nil ∙ sym (rest_fields-delim c s d ∙ sym (SameWords-fields s [] h) ∙ words-nil);
}
SameWords-space c s (b ∷ t) d h = record {
  head = word-delim c (b ∷ t) d ∙ sym (word-delim c s d);
  rest =
      rest_fields-delim c (b ∷ t) d ∙ SameWords-fields s (b ∷ t) h ∙ sym (rest_fields-delim c s d);
}

SameWords-letter :
    (c : ℕ) (s t : Bytes) → is_space c ≡ false → SameWords s t → SameWords (c ∷ s) (c ∷ t)
unfolding word rest_fields more
SameWords-letter c s t d h = record { head = rw d (ap (◌∷◌ c) h.head); rest = rw d h.rest }

SameWords-cons :
    (c : ℕ) (s t : Bytes) → SameWords s t → SameWords (c ∷ s) (cons_unless (is_space c) c t)
SameWords-cons c s t h = elim (Bool-cases (is_space c)) [
  | inl d ↦ rw d (SameWords-space c s t d h)
  | inr d ↦ rw d (SameWords-letter c s t d h)
]

drop_end-SameWords : (s : Bytes) → SameWords s (drop_end s)
unfolding drop_end
drop_end-SameWords [] = record { head = refl; rest = refl }
drop_end-SameWords (c ∷ cs) = SameWords-cons c cs (drop_end cs) (drop_end-SameWords cs)

pub arg_loop-take : (k : ℕ) (s : Bytes) → arg_loop k s ≡ take k (words s)
unfolding arg_loop
arg_loop-take zero s = refl
arg_loop-take (suc k) s = elim (strtok-Takes is_space s) [
  | inl (e, n) ↦ rw (e, arg_loop, n) refl
  | inr (w, t, e, f, _) ↦ rw (e, arg_loop, f) (ap (◌∷◌ w) (arg_loop-take k t))
]

-- What is left of a segment is nothing, where it has no word, or a text with the same words.
pub data Trimmed (segment : Bytes) : Bytes → Type 0 where
  blank : words segment ≡ [] → Trimmed segment []
  text :
      {b : ℕ} {bs : Bytes} (a : Bytes) (more_words : List Bytes)
      → words segment ≡ a ∷ more_words
      → words (b ∷ bs) ≡ words segment
      → Trimmed segment (b ∷ bs)

drop_end_after_first-Trimmed :
    (segment s : Bytes)
    → Skipped is_space s
    → words s ≡ words segment
    → Trimmed segment (drop_end_after_first s)
unfolding drop_end_after_first
drop_end_after_first-Trimmed segment [] h e = blank (sym e ∙ words-nil)
drop_end_after_first-Trimmed segment (c ∷ cs) h e =
    text (c ∷ word is_space cs) (rest_fields is_space (c ∷ cs))
      (sym e
        ∙ fields-word is_space (c ∷ cs)
        ∙ ap (λ w. cons_filled w (rest_fields is_space (c ∷ cs))) (word-go is_space c cs h))
      (SameWords-fields (c ∷ cs) (c ∷ drop_end cs)
          (SameWords-letter c cs (drop_end cs) h (drop_end-SameWords cs))
        ∙ e)

pub trim-Trimmed : (segment : Bytes) → Trimmed segment (trim segment)
unfolding trim
trim-Trimmed segment =
    drop_end_after_first-Trimmed segment (skip is_space segment) (skip-Skipped is_space segment)
      (fields-skip is_space segment)
