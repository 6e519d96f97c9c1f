-- ===== src/Phonebook/Shows.antt =====
-- The array of records against the list of the entries that it shows.
use eltex_course.Base.{
  ℕ, zero, suc, ◌+◌, ◌≡◌, refl, sym, ap, List, [], ◌∷◌, ◌++◌, some, arith, length, get_elem?, set,
  get_elem?-length, set-length, append-snoc, length-snoc,
}
use mathlib.Core.Path.{subst}
use eltex_course.Phonebook.{
  Abonent, Entry, clear_abonent, copy_data, print_abonent, copy_abonent, shift, clear_at,
}
use eltex_course.Phonebook.Fields.{IsField, copy_data-IsField, clear_data-IsField}

pub record Holds (ab : Abonent) (e : Entry) : Type 0 where
  pub name : IsField ab.name e.name
  pub second_name : IsField ab.second_name e.second_name
  pub tel : IsField ab.tel e.tel

abbrev pub blank : Entry
blank = record { name = []; second_name = []; tel = [] }

abbrev pub Shows : List Abonent → List Entry → Type 0
Shows [] [] = Unit {0}
Shows [] (e ∷ es) = ⊥
Shows (ab ∷ abs) [] = ⊥
Shows (ab ∷ abs) (e ∷ es) = Holds ab e × Shows abs es

pub Holds-print : (ab : Abonent) (e : Entry) → Holds ab e → print_abonent ab ≡ e
unfolding print_abonent
Holds-print ab e h =
    λ i. record { name = h.name.text i; second_name = h.second_name.text i; tel = h.tel.text i }

pub Holds-clear : (ab : Abonent) → Holds (clear_abonent ab) blank
unfolding clear_abonent
Holds-clear ab = record {
  name = clear_data-IsField ab.name;
  second_name = clear_data-IsField ab.second_name;
  tel = clear_data-IsField ab.tel;
}

pub Shows-get :
    (abs : List Abonent) (es : List Entry) (i : ℕ) (e : Entry)
    → Shows abs es
    → get_elem? es i ≡ some e
    → (ab : Abonent) × (get_elem? abs i ≡ some ab) × Holds ab e
Shows-get [] [] i e h g = ground arith
Shows-get [] (x ∷ es) i e h g = absurd h
Shows-get (ab ∷ abs) [] i e h g = absurd h
Shows-get (ab ∷ abs) (x ∷ es) zero e h g = (ab, refl, subst (Holds ab) (ground arith) h.0)
Shows-get (ab ∷ abs) (x ∷ es) (suc i) e h g = Shows-get abs es i e h.1 g

pub Shows-set :
    (abs : List Abonent) (es : List Entry) (i : ℕ) (ab : Abonent) (e : Entry)
    → Shows abs es
    → Holds ab e
    → Shows (set abs i ab) (set es i e)
Shows-set [] [] i ab e h k = tt
Shows-set [] (x ∷ es) i ab e h k = absurd h
Shows-set (a ∷ abs) [] i ab e h k = absurd h
Shows-set (a ∷ abs) (x ∷ es) zero ab e h k = (k, h.1)
Shows-set (a ∷ abs) (x ∷ es) (suc i) ab e h k = (h.0, Shows-set abs es i ab e h.1 k)

pub Shows-length : (abs : List Abonent) (es : List Entry) → Shows abs es → length abs ≡ length es
Shows-length [] [] h = refl
Shows-length [] (x ∷ es) h = absurd h
Shows-length (a ∷ abs) [] h = absurd h
Shows-length (a ∷ abs) (x ∷ es) h = ap suc (Shows-length abs es h.1)

-- A write at the end of a prefix.
pub Shows-put :
    (dir : List Abonent) (pre : List Entry) (x y : Entry) (post : List Entry) (ab : Abonent)
    → Shows dir (pre ++ x ∷ post)
    → Holds ab y
    → Shows (set dir (length pre) ab) (pre ++ y ∷ post)
Shows-put dir pre x y post ab h k =
    subst (Shows (set dir (length pre) ab)) (set-length pre x y post)
      (Shows-set dir (pre ++ x ∷ post) (length pre) ab y h k)

pub clear_at-Shows :
    (dir : List Abonent) (pre : List Entry) (x : Entry) (post : List Entry)
    → Shows dir (pre ++ x ∷ post)
    → (g : List Abonent) × (clear_at dir (length pre) ≡ some g) × Shows g (pre ++ blank ∷ post)
unfolding clear_at
clear_at-Shows dir pre x post h =
    let (ab, e, k) = Shows-get dir _ (length pre) x h (get_elem?-length pre x post) in
    (
      set dir (length pre) (clear_abonent ab),
      rw e refl,
      Shows-put dir pre x blank post _ h (Holds-clear ab),
    )

next-get :
    (pre : List Entry) (x y : Entry) (post : List Entry)
    → get_elem? (pre ++ x ∷ y ∷ post) (length pre + 1) ≡ some y
next-get pre x y post =
    rw (← append-snoc pre x (y ∷ post), ← length-snoc pre x)
      (get_elem?-length (pre ++ x ∷ []) y post)

copy_abonent-Shows :
    (dir : List Abonent) (pre : List Entry) (x y : Entry) (post : List Entry)
    → Shows dir (pre ++ x ∷ y ∷ post)
    → (g : List Abonent) × (copy_abonent dir (length pre) ≡ some g) × Shows g (pre ++ y ∷ y ∷ post)
unfolding copy_abonent
copy_abonent-Shows dir pre x y post h =
    let (from, e, k) = Shows-get dir _ (length pre + 1) y h (next-get pre x y post) in
    let (to, e', k') = Shows-get dir _ (length pre) x h (get_elem?-length pre x (y ∷ post)) in
    let copied : Abonent = record {
      name = copy_data from.name to.name;
      second_name = copy_data from.second_name to.second_name;
      tel = copy_data from.tel to.tel;
    } in
    (
      set dir (length pre) copied,
      rw (e, e') refl,
      Shows-put dir pre x y (y ∷ post) copied h (record {
        name = copy_data-IsField _ _ _ _ k.name k'.name;
        second_name = copy_data-IsField _ _ _ _ k.second_name k'.second_name;
        tel = copy_data-IsField _ _ _ _ k.tel k'.tel;
      }),
    )

abbrev pub last : Entry → List Entry → Entry
last x [] = x
last x (y ∷ ys) = last y ys

pub shift-Shows :
    (ys : List Entry) (dir : List Abonent) (pre : List Entry) (x : Entry) (post : List Entry)
    → Shows dir (pre ++ (x ∷ (ys ++ post)))
    → (g : List Abonent) × (shift (length ys) dir (length pre) ≡ some g)
      × Shows g (pre ++ (ys ++ (last x ys ∷ post)))
unfolding shift
shift-Shows [] dir pre x post h = (dir, refl, h)
shift-Shows (y ∷ ys) dir pre x post h =
    let (g, e, k) = copy_abonent-Shows dir pre x y (ys ++ post) h in
    let (g', e', k') =
      shift-Shows ys g (pre ++ y ∷ []) y post
        (subst (Shows g) (sym (append-snoc pre y (y ∷ (ys ++ post)))) k) in
    (
      g',
      rw e (rw length-snoc at e'),
      subst (Shows g') (append-snoc pre y (ys ++ (last y ys ∷ post))) k',
    )
