-- ===== src/Echo/List/Killing.antt =====
-- `list_switch_off` and `list_kill` against the list of the clients.
use eltex_course.Base.{
  ℕ, zero, suc, ◌+◌, ◌<◌, ◌≡◌, refl, inl, inr, false, [], ◌∷◌, none, some, arith, Bool-cases, ◌∙◌,
  if◌then◌else◌, length,
}
use eltex_course.Memory.{Ptr, write, ne_zero, load-eq, store-eq, release-eq}
use eltex_course.Echo.List.{Nodes, Clients, list_switch_off, list_kill, kill_loop, switch_off_node}
use eltex_course.Echo.List.Chain.{
  Cell, Cells, has, first, Linked, IsList, find, known, set_count, Linked-write, list_find-find,
  find-of-unknown,
}
use eltex_course.Echo.List.Counting.{Found-known, IsList-set_count}

set_count-unknown :
    (cs : Cells) (ip port v : ℕ) → known cs ip port ≡ false → set_count cs ip port v ≡ cs
unfolding known set_count
set_count-unknown [] ip port v h = refl
set_count-unknown (c ∷ cs) ip port v h = ground (arith, set_count-unknown cs ip port v)

-- `list_switch_off` resets the counter of a known client, and leaves the nodes alone otherwise.
pub list_switch_off-set_count :
    (m : Nodes) (l : Clients) (cs : Cells) (ip port : ℕ)
    → IsList m l cs
    → (g : Nodes) × (list_switch_off m l ip port ≡ some g) × IsList g l (set_count cs ip port 0)
unfolding list_switch_off switch_off_node
list_switch_off-set_count m l cs ip port is = elim (Bool-cases (known cs ip port)) [
  | inl k ↦
      let f = Found-known m cs ip port is.chain k in
      (
        write m (find cs ip port) (some (record (f.x) { count = 0 })),
        rw
            (
              list_find-find m l cs ip port is,
              ne_zero _ f.ne_null,
              load-eq m _ f.ne_null f.holds,
              store-eq m _ f.ne_null (record (f.x) { count = 0 }) f.holds,
            )
            refl,
        IsList-set_count m l cs ip port 0 _ is (f.written 0),
      )
  | inr new ↦ (
    m,
    rw (list_find-find m l cs ip port is, find-of-unknown cs ip port new) refl,
    rw (set_count-unknown cs ip port 0 new) is,
  )
]

-- After `list_kill` the nodes of the list are free, and no other address has changed.
pub Freed : Nodes → Cells → Nodes → Type 0
Freed m cs g = (a : Ptr) → g a ≡ (if has a cs then none else m a)

freed_step :
    (m : Nodes) (a : Ptr) (c : Cell) (cs : Cells)
    → (if has a cs then none else write m c.at none a) ≡ (if has a (c ∷ cs) then none else m a)
unfolding write
freed_step m a c cs = ground arith

kill_loop-Freed :
    (k : ℕ) (m : Nodes) (cs : Cells)
    → Linked m cs
    → length cs < k
    → (g : Nodes) × (kill_loop k m (first cs) ≡ some g) × Freed m cs g
unfolding kill_loop Freed
kill_loop-Freed zero m cs h fuel = absurd (omega arith)
kill_loop-Freed (suc k) m [] h fuel = (m, refl, λ a. refl)
kill_loop-Freed (suc k) m (c ∷ cs) h fuel =
    let (g, e, freed) =
      kill_loop-Freed k (write m c.at none) cs (Linked-write m cs c.at none h.2 h.3)
        (omega arith) in
    (
      g,
      rw (ne_zero c.at h.0, load-eq m c.at h.0 h.1, release-eq m c.at h.0 h.1) e,
      λ a. freed a ∙ freed_step m a c cs,
    )

-- `list_kill` of a well-formed list frees each of its nodes, once, and touches nothing else.
pub list_kill-Freed :
    (m : Nodes) (l : Clients) (cs : Cells)
    → IsList m l cs
    → (g : Nodes) × (list_kill m l ≡ some g) × Freed m cs g
unfolding list_kill
list_kill-Freed m l cs is =
    rw is.head (kill_loop-Freed (l.size + 1) m cs is.chain (omega (arith, is.size)))
