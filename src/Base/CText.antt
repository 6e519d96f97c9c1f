-- ===== src/Base/CText.antt =====
-- Texts of C as lists of bytes without the terminator, and the `string.h` calls on them.
use Prim.Native.Nat.{ℕ, zero, suc, ◌+◌, ◌-◌, ◌<◌}
use Prim.Native.Char.{code}
use Prim.Native.String.{String}
use mathlib.Core.Path.{◌≡◌, refl}
use mathlib.Core.Logic.{◌≢◌}
use mathlib.Core.Bool.{Bool, true, false, ◌&&◌}
use mathlib.Core.List.{List, [], ◌∷◌, ◌++◌}
use native.Mathlib.Omega.{arith}
use eltex_course.Base.Lists.{length, drop, length-append}
use eltex_course.Base.Tests.{◌==◌, if◌then◌else◌}

abbrev pub Bytes : Type 0
Bytes = List ℕ

-- The bytes of an ASCII text.
abbrev pub codes : String → Bytes
codes String.[] = []
codes (String.◌∷◌ c s) = code c ∷ codes s

-- `strcmp(a, b) == 0`
unfoldable pub str_eq : Bytes → Bytes → Bool
str_eq [] [] = true
str_eq [] (y ∷ ys) = false
str_eq (x ∷ xs) [] = false
str_eq (x ∷ xs) (y ∷ ys) = x == y && str_eq xs ys

pub str_eq_refl : (xs : Bytes) → str_eq xs xs ≡ true
unfolding str_eq
str_eq_refl [] = refl
str_eq_refl (x ∷ xs) = ground (arith, str_eq_refl xs)

pub eq_of_str_eq : (xs ys : Bytes) → str_eq xs ys ≡ true → xs ≡ ys
unfolding str_eq
eq_of_str_eq [] [] h = refl
eq_of_str_eq [] (y ∷ ys) h = ground arith
eq_of_str_eq (x ∷ xs) [] h = ground arith
eq_of_str_eq (x ∷ xs) (y ∷ ys) h = ground (arith, eq_of_str_eq xs ys)

-- The C string in a buffer: the bytes before the first zero.
unfoldable pub c_str : List ℕ → Bytes
c_str [] = []
c_str (c ∷ cs) = if c == 0 then [] else c ∷ c_str cs

-- A text holds no zero byte.
abbrev pub NoZero : Bytes → Type 0
NoZero [] = Unit {0}
NoZero (c ∷ cs) = (c ≢ 0) × NoZero cs

pub c_str-NoZero : (xs : Bytes) → NoZero xs → c_str xs ≡ xs
unfolding c_str
c_str-NoZero [] h = refl
c_str-NoZero (c ∷ cs) h = ground (arith, c_str-NoZero cs h.1)

pub NoZero-c_str : (xs : Bytes) → NoZero (c_str xs)
unfolding c_str
NoZero-c_str [] = tt
NoZero-c_str (c ∷ cs) = ground (arith, NoZero-c_str cs)

pub c_str-terminated : (xs ys : Bytes) → NoZero xs → c_str (xs ++ 0 ∷ ys) ≡ xs
unfolding c_str
c_str-terminated [] ys h = refl
c_str-terminated (c ∷ cs) ys h = ground (arith, c_str-terminated cs ys h.1)

-- `strcpy(place, source)` into a buffer: the text, its terminator and what stood behind.
unfoldable pub strcpy : List ℕ → List ℕ → List ℕ
strcpy place source = c_str source ++ 0 ∷ drop (length (c_str source) + 1) place

pub c_str-strcpy : (place source : List ℕ) → c_str (strcpy place source) ≡ c_str source
unfolding strcpy
c_str-strcpy place source = c_str-terminated (c_str source) _ (NoZero-c_str source)

length-drop : (n : ℕ) (xs : List ℕ) → length (drop n xs) ≡ length xs - n
length-drop zero xs = omega arith
length-drop (suc n) [] = omega arith
length-drop (suc n) (x ∷ xs) = omega (arith, length-drop n xs)

-- A text that fits leaves the buffer its size.
pub length-strcpy :
    (place source : List ℕ)
    → length (c_str source) < length place
    → length (strcpy place source) ≡ length place
unfolding strcpy
length-strcpy place source h = omega (
  arith,
  length-append (c_str source) (0 ∷ drop (length (c_str source) + 1) place),
  length-drop (length (c_str source) + 1) place,
)
