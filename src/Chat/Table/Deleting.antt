-- ===== src/Chat/Table/Deleting.antt =====
-- `data_delete` against the list of the entries in use.
use eltex_course.Base.{
  ℕ, ◌+◌, ◌-◌, ◌≡◌, refl, sym, ap, ◌∙◌, true, List, [], ◌∷◌, ◌++◌, some, ◌==◌, length, get_elem?,
  arith, get_elem?-length, set-length, append-snoc, length-snoc, append_assoc, length-append,
}
use eltex_course.Chat.Table.{Entry, Table, shift_loop, data_delete}
use eltex_course.Chat.Table.Laws.{IsTable, Missing, data_find-Missing}

next-length :
    (pre : List Entry) (e p : Entry) (rest : List Entry)
    → get_elem? (pre ++ e ∷ p ∷ rest) (length pre + 1) ≡ some p
next-length pre e p rest =
    rw (← append-snoc pre e (p ∷ rest), ← length-snoc pre e)
      (get_elem?-length (pre ++ e ∷ []) p rest)

shift_loop-shift :
    (pre post rest : List Entry) (e : Entry)
    → (last : Entry) × (shift_loop (length post) (pre ++ e ∷ (post ++ rest)) (length pre)
        ≡ some (pre ++ (post ++ last ∷ rest)))
unfolding shift_loop
shift_loop-shift pre [] rest e = (e, refl)
shift_loop-shift pre (p ∷ post) rest e =
    let (last, q) = shift_loop-shift (pre ++ p ∷ []) post rest p in
    (
      last,
      rw
          (
            next-length pre e p (post ++ rest),
            get_elem?-length pre e (p ∷ (post ++ rest)),
            set-length pre e p (p ∷ (post ++ rest)),
          )
          (rw (← length-snoc pre p, ← append-snoc pre p (p ∷ (post ++ rest)))
            (q ∙ ap some (append-snoc pre p (post ++ last ∷ rest)))),
    )

-- `data_delete` takes out the first entry in use with the id and keeps the order of the others.
pub data_delete-Missing :
    (m : Table) (pre post : List Entry) (e : Entry) (id : ℕ)
    → IsTable m (pre ++ e ∷ post)
    → Missing id pre
    → (e.id == id) ≡ true
    → (g : Table) × (data_delete m id ≡ some g) × IsTable g (pre ++ post)
unfolding data_delete
data_delete-Missing m pre post e id t h is =
    let (last, q) = shift_loop-shift pre post t.rest e in
    let all : m.entries ≡ pre ++ e ∷ (post ++ t.rest) =
      t.split ∙ append_assoc pre (e ∷ post) t.rest in
    let size : m.size ≡ length pre + 1 + length post =
      omega (arith, t.size, length-append pre (e ∷ post)) in
    let rounds : m.size - 1 - length pre ≡ length post = omega (arith, size) in
    let long : m.capacity ≡ length pre + 1 + (length post + length t.rest) = omega (
      arith,
      t.capacity,
      ap length all,
      length-append pre (e ∷ (post ++ t.rest)),
      length-append post t.rest,
    ) in
    (
      record m { entries = pre ++ (post ++ last ∷ t.rest); size = m.size - 1 },
      rw (data_find-Missing m pre post e id t h is) (rw (rounds, all, q) refl),
      record {
        rest = last ∷ t.rest;
        split = sym (append_assoc pre post (last ∷ t.rest));
        size = omega (arith, size, length-append pre post);
        capacity = omega (
          arith,
          long,
          length-append pre (post ++ last ∷ t.rest),
          length-append post (last ∷ t.rest),
        );
        some_room = t.some_room;
      },
    )
