-- ===== src/Echo/List/Chain.antt =====
-- What a list stands for: its clients with the addresses of their nodes, oldest first.
use eltex_course.Base.{
  ℕ, zero, suc, ◌+◌, ◌<◌, ◌≡◌, refl, ◌≢◌, Bool, false, ◌&&◌, ◌||◌, List, [], ◌∷◌, Option, some,
  arith, ◌==◌, if◌then◌else◌, length,
}
use eltex_course.Memory.{Ptr, write, load, ne_zero}
use eltex_course.Echo.List.{Node, Nodes, Clients, find_loop, list_find}

pub record Cell : Type 0 where
  pub at : Ptr
  pub ip : ℕ
  pub port : ℕ
  pub count : ℕ

abbrev pub node : Cell → Ptr → Node
node c next = record { ip = c.ip; port = c.port; count = c.count; next = next }

abbrev pub Cells : Type 0
Cells = List Cell

abbrev pub has : Ptr → Cells → Bool
has a [] = false
has a (c ∷ cs) = (a == c.at) || has a cs

abbrev pub first : Cells → Ptr
first [] = 0
first (c ∷ cs) = c.at

abbrev pub last : Cells → Ptr
last [] = 0
last (c ∷ []) = c.at
last (c ∷ d ∷ cs) = last (d ∷ cs)

-- The nodes of `cs` stand at distinct addresses, and each points at the next one.
abbrev pub Linked : Nodes → Cells → Type 0
Linked m [] = Unit {0}
Linked m (c ∷ cs) =
    (c.at ≢ 0) × (m c.at ≡ some (node c (first cs))) × (has c.at cs ≡ false) × Linked m cs

pub record IsList (m : Nodes) (l : Clients) (cs : Cells) : Type 0 where
  pub head : l.head ≡ first cs
  pub tail : l.tail ≡ last cs
  pub size : l.size ≡ length cs
  pub chain : Linked m cs

abbrev pub is_client : Cell → ℕ → ℕ → Bool
is_client c ip port = c.ip == ip && c.port == port

-- The address of a client's node, 0 if there is none.
unfoldable pub find : Cells → ℕ → ℕ → Ptr
find [] ip port = 0
find (c ∷ cs) ip port = if is_client c ip port then c.at else find cs ip port

unfoldable pub known : Cells → ℕ → ℕ → Bool
known [] ip port = false
known (c ∷ cs) ip port = is_client c ip port || known cs ip port

unfoldable pub count_of : Cells → ℕ → ℕ → ℕ
count_of [] ip port = 0
count_of (c ∷ cs) ip port = if is_client c ip port then c.count else count_of cs ip port

unfoldable pub set_count : Cells → ℕ → ℕ → ℕ → Cells
set_count [] ip port v = []
set_count (c ∷ cs) ip port v =
    if is_client c ip port then record c { count = v } ∷ cs else c ∷ set_count cs ip port v

pub Linked-write :
    (m : Nodes) (cs : Cells) (a : Ptr) (x : Option Node)
    → has a cs ≡ false
    → Linked m cs
    → Linked (write m a x) cs
unfolding write
Linked-write m [] a x out h = tt
Linked-write m (c ∷ cs) a x out h = ground (arith, Linked-write m cs a x)

find_loop-find :
    (k : ℕ) (m : Nodes) (cs : Cells) (ip port : ℕ)
    → Linked m cs
    → length cs < k
    → find_loop k m (first cs) ip port ≡ some (find cs ip port)
unfolding find_loop load find
find_loop-find zero m cs ip port h fuel = absurd (omega arith)
find_loop-find (suc k) m [] ip port h fuel = refl
find_loop-find (suc k) m (c ∷ cs) ip port h fuel =
    rw (ne_zero c.at h.0, h.1) (ground (arith, find_loop-find k m cs ip port h.3))

pub list_find-find :
    (m : Nodes) (l : Clients) (cs : Cells) (ip port : ℕ)
    → IsList m l cs
    → list_find m l ip port ≡ some (find cs ip port)
unfolding list_find
list_find-find m l cs ip port is =
    rw is.head (find_loop-find (l.size + 1) m cs ip port is.chain (omega (arith, is.size)))

pub find-of-unknown : (cs : Cells) (ip port : ℕ) → known cs ip port ≡ false → find cs ip port ≡ 0
unfolding known find
find-of-unknown [] ip port h = refl
find-of-unknown (c ∷ cs) ip port h = ground (arith, find-of-unknown cs ip port)
