-- ===== src/Echo/List/Counting.antt =====
-- The write of one client's counter, as `list_add` and `list_switch_off` make it.
use eltex_course.Base.{
  ℕ, ◌≡◌, refl, ◌≢◌, inl, inr, true, false, [], ◌∷◌, some, arith, Bool-cases, sym, ◌∙◌, length,
}
use mathlib.Core.Bool.{false≢true}
use eltex_course.Memory.{Ptr, write}
use eltex_course.Echo.List.{Node, Nodes, Clients}
use eltex_course.Echo.List.Chain.{
  Cell, node, Cells, has, first, last, Linked, IsList, is_client, find, known, count_of, set_count,
  Linked-write,
}

first-set_count : (cs : Cells) (ip port v : ℕ) → first (set_count cs ip port v) ≡ first cs
unfolding set_count
first-set_count [] ip port v = refl
first-set_count (c ∷ cs) ip port v = ground arith

has-set_count : (a : Ptr) (cs : Cells) (ip port v : ℕ) → has a (set_count cs ip port v) ≡ has a cs
unfolding set_count
has-set_count a [] ip port v = refl
has-set_count a (c ∷ cs) ip port v = ground (arith, has-set_count a cs ip port v)

length-set_count : (cs : Cells) (ip port v : ℕ) → length (set_count cs ip port v) ≡ length cs
unfolding set_count
length-set_count [] ip port v = refl
length-set_count (c ∷ cs) ip port v = ground (arith, length-set_count cs ip port v)

last-set_count : (cs : Cells) (ip port v : ℕ) → last (set_count cs ip port v) ≡ last cs
unfolding set_count
last-set_count [] ip port v = refl
last-set_count (c ∷ []) ip port v = ground arith
last-set_count (c ∷ d ∷ cs) ip port v = ground (arith, last-set_count (d ∷ cs) ip port v)

-- The node of a known client, and what a write of its counter makes of the list.
pub record Found (m : Nodes) (cs : Cells) (ip port : ℕ) (a : Ptr) : Type 0 where
  pub x : Node
  pub ne_null : a ≢ 0
  pub holds : m a ≡ some x
  pub count : x.count ≡ count_of cs ip port
  pub mem : has a cs ≡ true
  pub written :
      (v : ℕ) → Linked (write m a (some (record x { count = v }))) (set_count cs ip port v)

Found-head :
    (m : Nodes) (c : Cell) (cs : Cells) (ip port : ℕ)
    → Linked m (c ∷ cs)
    → is_client c ip port ≡ true
    → Found m (c ∷ cs) ip port c.at
unfolding write count_of set_count
Found-head m c cs ip port h hit = record {
  x = node c (first cs);
  ne_null = h.0;
  holds = h.1;
  count = rw hit refl;
  mem = ground arith;
  written = λ v. rw hit (h.0, ground arith, h.2, Linked-write m cs c.at _ h.2 h.3);
}

Found-tail :
    (m : Nodes) (c : Cell) (cs : Cells) (ip port : ℕ) (a : Ptr)
    → Linked m (c ∷ cs)
    → is_client c ip port ≡ false
    → Found m cs ip port a
    → Found m (c ∷ cs) ip port a
unfolding write count_of set_count
Found-tail m c cs ip port a h miss f = record {
  x = f.x;
  ne_null = f.ne_null;
  holds = f.holds;
  count = rw miss f.count;
  mem = ground (arith, f.mem);
  written = λ v. rw miss (
    h.0,
    ground (arith, f.mem, first-set_count cs ip port v),
    has-set_count c.at cs ip port v ∙ h.2,
    f.written v,
  );
}

pub Found-known :
    (m : Nodes) (cs : Cells) (ip port : ℕ)
    → Linked m cs
    → known cs ip port ≡ true
    → Found m cs ip port (find cs ip port)
unfolding known find
Found-known m [] ip port h k = absurd (false≢true k)
Found-known m (c ∷ cs) ip port h k = elim (Bool-cases (is_client c ip port)) [
  | inl hit ↦ rw hit (Found-head m c cs ip port h hit)
  | inr miss ↦
      rw miss (Found-tail m c cs ip port _ h miss (Found-known m cs ip port h.3 (rw miss at k)))
]

-- A client that is on the list is only counted: its node alone is written.
pub IsList-set_count :
    (m : Nodes) (l : Clients) (cs : Cells) (ip port v : ℕ) (g : Nodes)
    → IsList m l cs
    → Linked g (set_count cs ip port v)
    → IsList g l (set_count cs ip port v)
IsList-set_count m l cs ip port v g is h = record {
  head = is.head ∙ sym (first-set_count cs ip port v);
  tail = is.tail ∙ sym (last-set_count cs ip port v);
  size = is.size ∙ sym (length-set_count cs ip port v);
  chain = h;
}
