-- ===== src/Phonebook/Fields.antt =====
-- The buffers: what a word leaves in `data`, and what `copy_data` leaves in a field.
use eltex_course.Base.{
  ℕ, zero, suc, ◌≤◌, ◌<◌, ◌≡◌, refl, ◌∙◌, List, [], ◌∷◌, ◌++◌, arith, length, set, length-set,
  replicate, Bytes, c_str, strcpy, NoZero, c_str-NoZero, c_str-strcpy, length-strcpy,
}
use eltex_course.Phonebook.{scan_data, copy_data, clear_data}

-- A `char[10]` that holds the text `t`.
pub record IsField (b : List ℕ) (t : Bytes) : Type 0 where
  pub size : length b ≡ 10
  pub text : c_str b ≡ t
  pub short : length t < 10

-- A word of `scanf("%9s")`.
pub record IsWord (w : Bytes) : Type 0 where
  pub no_zero : NoZero w
  pub short : length w < 10

c_str-set-zero :
    (w rest : List ℕ) (i : ℕ) → NoZero w → length w ≤ i → c_str (set (w ++ 0 ∷ rest) i 0) ≡ w
unfolding c_str
c_str-set-zero [] rest zero h le = refl
c_str-set-zero [] rest (suc i) h le = refl
c_str-set-zero (c ∷ cs) rest zero h le = absurd (omega arith)
c_str-set-zero (c ∷ cs) rest (suc i) h le = ground (arith, c_str-set-zero cs rest i h.1)

pub scan_data-IsField : (d w : List ℕ) → length d ≡ 10 → IsWord w → IsField (scan_data d w) w
unfolding scan_data strcpy
scan_data-IsField d w size h =
    let same : c_str w ≡ w = c_str-NoZero w h.no_zero in
    record {
      size = length-set (strcpy d w) 9 0 ∙ length-strcpy d w (rw (same, size) h.short) ∙ size;
      text = rw same (c_str-set-zero w _ 9 h.no_zero (omega (arith, h.short)));
      short = h.short;
    }

pub copy_data-IsField :
    (d place : List ℕ) (t u : Bytes) → IsField d t → IsField place u → IsField (copy_data d place) t
unfolding copy_data
copy_data-IsField d place t u h k = record {
  size = length-strcpy place d (rw (h.text, k.size) h.short) ∙ k.size;
  text = c_str-strcpy place d ∙ h.text;
  short = h.short;
}

pub clear_data-IsField : (d : List ℕ) → IsField (clear_data d) []
unfolding clear_data c_str
clear_data-IsField d = record { size = refl; text = refl; short = omega arith }

pub scan_cleared-IsField : (d w : List ℕ) → IsWord w → IsField (scan_data (clear_data d) w) w
unfolding clear_data
scan_cleared-IsField d w h = scan_data-IsField (replicate 10 0) w refl h
