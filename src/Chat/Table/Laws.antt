-- ===== src/Chat/Table/Laws.antt =====
-- The operations of data.c against the list of the entries in use.
use eltex_course.Base.{
  ℕ, suc, ◌+◌, ◌-◌, ◌*◌, ◌<◌, ◌≡◌, refl, sym, ap, ◌∙◌, inl, inr, true, false, Bool-cases, List, [],
  ◌∷◌, ◌++◌, Option, none, some, ◌==◌, lt→ltb, if◌then◌else◌, length, set, replicate, arith,
  append-snoc, length-append, length-snoc, length-replicate, length-set, get_elem?-length,
  set-length, append-nil,
}
use eltex_course.Chat.Table.{Entry, Table, data_init, put, grown, data_add, find_loop, data_find}

pub record IsTable (m : Table) (es : List Entry) : Type 0 where
  pub rest : List Entry
  pub split : m.entries ≡ es ++ rest
  pub size : m.size ≡ length es
  pub capacity : m.capacity ≡ length m.entries
  pub some_room : 0 < m.capacity

-- A fresh table has no entries.
pub data_init-IsTable : (junk : Entry) → IsTable (data_init junk) []
unfolding data_init
data_init-IsTable junk = record {
  rest = junk ∷ [];
  split = refl;
  size = refl;
  capacity = refl;
  some_room = omega arith;
}

-- Behind the entries in use there is a place.
record Roomy (m : Table) (es : List Entry) : Type 0 where
  place : Entry
  rest : List Entry
  split : m.entries ≡ es ++ place ∷ rest
  size : m.size ≡ length es
  capacity : m.capacity ≡ length m.entries

doubled-Roomy :
    (junk : Entry) (m : Table) (es rest : List Entry) (n : ℕ)
    → m.entries ≡ es ++ rest
    → m.size ≡ length es
    → m.capacity ≡ length m.entries
    → m.capacity ≡ suc n
    → (m.size == m.capacity) ≡ true
    → Roomy
        (record m { capacity = m.capacity * 2; entries = m.entries ++ replicate m.capacity junk })
        es
doubled-Roomy junk m es [] n split size cap pos e = record {
  place = junk;
  rest = replicate n junk;
  split = rw (split, pos, append-nil es) refl;
  size = size;
  capacity = omega (
    arith,
    cap,
    length-append m.entries (replicate m.capacity junk),
    length-replicate m.capacity junk,
  );
}
doubled-Roomy junk m es (x ∷ rest) n split size cap pos e =
    absurd (ground (arith, ap length split, length-append es (x ∷ rest)))

kept-Roomy :
    (m : Table) (es rest : List Entry)
    → m.entries ≡ es ++ rest
    → m.size ≡ length es
    → m.capacity ≡ length m.entries
    → (m.size == m.capacity) ≡ false
    → Roomy m es
kept-Roomy m es [] split size cap e = absurd (ground (arith, ap length split, length-append es []))
kept-Roomy m es (x ∷ rest) split size cap e = record {
  place = x;
  rest = rest;
  split = split;
  size = size;
  capacity = cap;
}

grown-Roomy : (junk : Entry) (m : Table) (es : List Entry) → IsTable m es → Roomy (grown junk m) es
unfolding grown
grown-Roomy junk m es t = elim (Bool-cases (m.size == m.capacity)) [
  | inl e ↦ rw e (
      doubled-Roomy junk m es t.rest (m.capacity - 1) t.split t.size t.capacity
        (omega (arith, t.some_room)) e)
  | inr e ↦ rw e (kept-Roomy m es t.rest t.split t.size t.capacity e)
]

put-eq :
    (m : Table) (i : ℕ) (e : Entry)
    → i < length m.entries
    → put m i e ≡ some (record m { entries = set m.entries i e })
unfolding put
put-eq m i e h = rw (lt→ltb i (length m.entries) h) refl

-- `data_add` puts the entry behind those in use, and doubles a full array first.
pub data_add-append :
    (junk : Entry) (m : Table) (es : List Entry) (e : Entry)
    → IsTable m es
    → (g : Table) × (data_add junk m e ≡ some g) × IsTable g (es ++ e ∷ [])
unfolding data_add
data_add-append junk m es e t =
    let r = grown-Roomy junk m es t in
    let g = grown junk m in
    let long : length g.entries ≡ length es + 1 + length r.rest =
      omega (arith, ap length r.split, length-append es (r.place ∷ r.rest)) in
    let written : set g.entries m.size e ≡ (es ++ e ∷ []) ++ r.rest =
      rw (r.split, t.size) (set-length es r.place e r.rest ∙ sym (append-snoc es e r.rest)) in
    (
      record g { entries = set g.entries m.size e; size = g.size + 1 },
      rw (put-eq g m.size e (omega (arith, t.size))) refl,
      record {
        rest = r.rest;
        split = written;
        size = omega (arith, r.size, length-snoc es e);
        capacity = omega (arith, r.capacity, length-set g.entries m.size e);
        some_room = omega (arith, r.capacity);
      },
    )

-- The position of the first entry with an id, counted from `i`.
unfoldable pub position : List Entry → ℕ → ℕ → Option ℕ
position [] id i = none
position (e ∷ es) id i = if e.id == id then some i else position es id (i + 1)

pub find_loop-position :
    (pre es rest : List Entry) (id : ℕ)
    → find_loop (length es) (pre ++ (es ++ rest)) id (length pre) ≡ position es id (length pre)
unfolding find_loop position
find_loop-position pre [] rest id = refl
find_loop-position pre (e ∷ es) rest id =
    let next = find_loop-position (pre ++ e ∷ []) es rest id in
    rw
      (
        get_elem?-length pre e (es ++ rest),
        find_loop,
        ← length-snoc pre e,
        ← append-snoc pre e (es ++ rest),
      )
      (ap (λ r. if e.id == id then some (length pre) else r) next)

-- `data_find` gives the first entry in use with the id, and -1 if there is none.
pub data_find-position :
    (m : Table) (es : List Entry) (id : ℕ) → IsTable m es → data_find m id ≡ position es id 0
unfolding data_find
data_find-position m es id t = rw (t.size, t.split) (find_loop-position [] es t.rest id)

-- No entry has the id.
abbrev pub Missing : ℕ → List Entry → Type 0
Missing id [] = Unit {0}
Missing id (e ∷ es) = ((e.id == id) ≡ false) × Missing id es

position-Missing :
    (pre post : List Entry) (e : Entry) (id n : ℕ)
    → Missing id pre
    → (e.id == id) ≡ true
    → position (pre ++ e ∷ post) id n ≡ some (n + length pre)
unfolding position
position-Missing [] post e id n h is = rw is (ap some (omega arith))
position-Missing (x ∷ pre) post e id n h is =
    rw h.0 (position-Missing pre post e id (n + 1) h.1 is ∙ ap some (omega arith))

-- Where no entry before it has the id, the entry with the id is found.
pub data_find-Missing :
    (m : Table) (pre post : List Entry) (e : Entry) (id : ℕ)
    → IsTable m (pre ++ e ∷ post)
    → Missing id pre
    → (e.id == id) ≡ true
    → data_find m id ≡ some (length pre)
data_find-Missing m pre post e id t h is =
    data_find-position m (pre ++ e ∷ post) id t
    ∙ position-Missing pre post e id 0 h is
    ∙ ap some (omega arith)
