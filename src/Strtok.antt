-- ===== src/Strtok.antt =====
-- `strtok` and `strtok_r` of the C library on a text, and the list of all tokens.
pub mod Fields
pub mod Words
use eltex_course.Base.{ℕ, Bool, List, [], ◌∷◌, Option, none, some, if◌then◌else◌, Bytes}

module _ (delim : ℕ → Bool) where
  unfoldable pub skip : Bytes → Bytes
  skip [] = []
  skip (c ∷ cs) = if delim c then skip cs else c ∷ cs

  unfoldable pub word : Bytes → Bytes
  word [] = []
  word (c ∷ cs) = if delim c then [] else c ∷ word cs

  -- What stands behind the delimiter that ends the word, which is overwritten.
  unfoldable pub behind : Bytes → Bytes
  behind [] = []
  behind (c ∷ cs) = if delim c then cs else behind cs

  unfoldable pub token : Bytes → Option (Bytes × Bytes)
  token [] = none
  token (c ∷ cs) = some (word (c ∷ cs), behind (c ∷ cs))

  -- The token, and what the next call goes on with.
  unfoldable pub strtok : Bytes → Option (Bytes × Bytes)
  unfolding token
  strtok s = token (skip s)
