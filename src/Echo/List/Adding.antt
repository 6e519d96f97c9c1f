-- ===== src/Echo/List/Adding.antt =====
-- `list_add` against the list of the clients.
use eltex_course.Base.{
  ℕ, ◌+◌, ◌≡◌, refl, ◌≢◌, inl, inr, true, false, ◌||◌, [], ◌∷◌, ◌++◌, Option, some, arith, ◌==◌,
  Bool-cases, sym, ap, ◌∙◌, if◌then◌else◌, length-append,
}
use mathlib.Core.Path.{subst}
use mathlib.Core.Bool.{false≢true}
use eltex_course.Memory.{
  Ptr, write, load, store, fill, ne_zero, load-eq, store-eq, fill-eq, write_self, write-ne,
}
use eltex_course.Echo.List.{
  Node, Nodes, Clients, list_add, fresh_node, add_again, add_first, add_last,
}
use eltex_course.Echo.List.Chain.{
  Cell, node, Cells, has, last, Linked, IsList, find, known, count_of, set_count, Linked-write,
  list_find-find, find-of-unknown,
}
use eltex_course.Echo.List.Counting.{Found-known, IsList-set_count}

abbrev pub new_cell : Ptr → ℕ → ℕ → Cell
new_cell a ip port = record { at = a; ip = ip; port = port; count = 1 }

add_again-set_count :
    (m : Nodes) (l : Clients) (cs : Cells) (ip port : ℕ)
    → IsList m l cs
    → known cs ip port ≡ true
    → (g : Nodes) × (add_again m l (find cs ip port) ≡ some (count_of cs ip port + 1, g, l))
      × IsList g l (set_count cs ip port (count_of cs ip port + 1))
unfolding add_again load store
add_again-set_count m l cs ip port is k =
    let f = Found-known m cs ip port is.chain k in
    (
      write m (find cs ip port) (some (record (f.x) { count = count_of cs ip port + 1 })),
      rw (ne_zero _ f.ne_null, f.holds, f.count),
      IsList-set_count m l cs ip port _ _ is (f.written _),
    )

has-snoc : (a : Ptr) (cs : Cells) (n : Cell) → has a (cs ++ n ∷ []) ≡ (has a cs || (a == n.at))
has-snoc a [] n = ground arith
has-snoc a (c ∷ cs) n = ground (arith, has-snoc a cs n)

ne_of_has : (a b : Ptr) (cs : Cells) → has a cs ≡ false → has b cs ≡ true → a ≢ b
ne_of_has a b cs out mem e = false≢true (sym out ∙ ap (λ p. has p cs) e ∙ mem)

-- Linking a filled node behind the last one.
link_last :
    (m : Nodes) (c : Cell) (cs : Cells) (n : Cell)
    → Linked m (c ∷ cs)
    → n.at ≢ 0
    → has n.at (c ∷ cs) ≡ false
    → m n.at ≡ some (node n 0)
    → (x : Node) × (m (last (c ∷ cs)) ≡ some x)
      × (last (c ∷ cs) ≢ 0)
      × (has (last (c ∷ cs)) (c ∷ cs) ≡ true)
      × Linked (write m (last (c ∷ cs)) (some (record x { next = n.at }))) (c ∷ cs ++ n ∷ [])
unfolding write
link_last m c [] n h ne out e = (
  node c 0,
  h.1,
  h.0,
  ground arith,
  (h.0, ground arith, ground arith, (ne, ground arith, refl, tt)),
)
link_last m c (d ∷ cs) n h ne out e =
    let (x, holds, nz, mem, linked) = link_last m d cs n h.3 ne (ground arith) e in
    (
      x,
      holds,
      nz,
      ground arith,
      (
        h.0,
        write-ne m _ _ c.at (ne_of_has c.at (last (d ∷ cs)) (d ∷ cs) h.2 mem) ∙ h.1,
        has-snoc c.at (d ∷ cs) n ∙ ground arith,
        linked,
      ),
    )

last-snoc : (cs : Cells) (n : Cell) → last (cs ++ n ∷ []) ≡ n.at
last-snoc [] n = refl
last-snoc (c ∷ []) n = refl
last-snoc (c ∷ d ∷ cs) n = last-snoc (d ∷ cs) n

-- What a message makes of the clients: a known one is counted, a new one goes to the end.
unfoldable pub counted : Cells → Ptr → ℕ → ℕ → Cells
counted cs fresh ip port =
    if known cs ip port
    then set_count cs ip port (count_of cs ip port + 1)
    else cs ++ new_cell fresh ip port ∷ []

count_of-unknown : (cs : Cells) (ip port : ℕ) → known cs ip port ≡ false → count_of cs ip port ≡ 0
unfolding known count_of
count_of-unknown [] ip port h = refl
count_of-unknown (c ∷ cs) ip port h = ground (arith, count_of-unknown cs ip port)

abbrev pub Added : Clients → Cells → Ptr → ℕ → ℕ → Option (ℕ × Nodes × Clients) → Type 0
Added l cs fresh ip port r =
    (g : Nodes) × (l' : Clients) × (r ≡ some (count_of cs ip port + 1, g, l'))
    × IsList g l' (counted cs fresh ip port)

module _ (m : Nodes) (l : Clients) (fresh ip port : ℕ) (ne : fresh ≢ 0) where
  add_first-Added : IsList m l [] → Added l [] fresh ip port (add_first m l fresh ip port)
  unfolding add_first fill write counted known count_of
  add_first-Added is = (
    write m fresh (some (fresh_node ip port)),
    record { head = fresh; tail = fresh; size = l.size + 1 },
    rw (ne_zero fresh ne),
    record {
      head = refl;
      tail = refl;
      size = omega (arith, is.size);
      chain = (ne, ground arith, refl, tt);
    },
  )

  add_last-Added :
      (c : Cell) (cs : Cells)
      → IsList m l (c ∷ cs)
      → has fresh (c ∷ cs) ≡ false
      → known (c ∷ cs) ip port ≡ false
      → Added l (c ∷ cs) fresh ip port (add_last m l fresh ip port)
  unfolding add_last counted
  add_last-Added c cs is out new =
      let m' = write m fresh (some (fresh_node ip port)) in
      let filled = Linked-write m (c ∷ cs) fresh (some (fresh_node ip port)) out is.chain in
      let (x, holds, nz, mem, linked) =
        link_last m' c cs (new_cell fresh ip port) filled ne out (write_self m fresh _) in
      let nz' : l.tail ≢ 0 = λ z. nz (sym is.tail ∙ z) in
      let holds' : m' l.tail ≡ some x = ap m' is.tail ∙ holds in
      (
        write m' l.tail (some (record x { next = fresh })),
        record l { tail = fresh; size = l.size + 1 },
        rw
            (
              fill-eq m fresh ne _,
              load-eq m' l.tail nz' holds',
              store-eq m' l.tail nz' _ holds',
              count_of-unknown (c ∷ cs) ip port new,
            )
            refl,
        rw new (record {
          head = is.head;
          tail = sym (last-snoc (c ∷ cs) (new_cell fresh ip port));
          size = omega (arith, is.size, length-append cs (new_cell fresh ip port ∷ []));
          chain =
              subst
                (λ p.
                  Linked (write m' p (some (record x { next = fresh })))
                    (c ∷ cs ++ new_cell fresh ip port ∷ []))
                (sym is.tail) linked;
        }),
      )

  add_found-Added :
      (cs : Cells)
      → IsList m l cs
      → known cs ip port ≡ true
      → Added l cs fresh ip port (add_again m l (find cs ip port))
  unfolding counted
  add_found-Added cs is k =
      let (g, e, is') = add_again-set_count m l cs ip port is k in (g, l, e, rw k is')

  -- `list_add` of a well-formed list, with an unused node at hand, answers with the client's count
  -- raised by one, and leaves the list of the counted clients.
  pub list_add-counted :
      (cs : Cells)
      → IsList m l cs
      → has fresh cs ≡ false
      → Added l cs fresh ip port (list_add m l fresh ip port)
  unfolding list_add
  list_add-counted [] is out = rw (ap (λ p. p == 0) is.head) (add_first-Added is)
  list_add-counted (c ∷ cs) is out =
      rw
        (ap (λ p. p == 0) is.head ∙ ne_zero c.at is.chain.0, list_find-find m l (c ∷ cs) ip port is)
        (elim (Bool-cases (known (c ∷ cs) ip port)) [
          | inl k ↦
              rw (ne_zero _ (Found-known m (c ∷ cs) ip port is.chain k).ne_null)
                (add_found-Added (c ∷ cs) is k)
          | inr new ↦ rw (find-of-unknown (c ∷ cs) ip port new) (add_last-Added c cs is out new)
        ])
