-- ===== src/Echo/Server/Counts.antt =====
-- The specification of the server, which has no list: a count for each client; and what the
-- operations on the list do to the counts and to the addresses in use.
use eltex_course.Base.{
  ℕ, ◌+◌, ◌≡◌, refl, ◌∙◌, ◌≢◌, inl, inr, Bool, true, false, ◌&&◌, List, [], ◌∷◌, ◌++◌, Option, none,
  some, arith, ◌==◌, Bool-cases, if◌then◌else◌, str_eq,
}
use eltex_course.Memory.{Ptr}
use eltex_course.Echo.List.Chain.{Cell, Cells, has, known, count_of, set_count}
use eltex_course.Echo.List.Adding.{counted, new_cell}
use eltex_course.Echo.Server.{Packet, Reply, server_port, exit_text, reply}

-- How many messages a client has sent since it last said "!exit".
abbrev pub Counts : Type 0
Counts = ℕ → ℕ → ℕ

abbrev pub is_from : Packet → ℕ → ℕ → Bool
is_from p ip port = p.saddr == ip && p.source == port

unfoldable pub spec_counts : Counts → Packet → Counts
spec_counts f p ip port =
    if p.dest == server_port && is_from p ip port
    then (if str_eq p.payload exit_text then 0 else f ip port + 1)
    else f ip port

unfoldable pub spec_reply : Counts → Packet → Option Reply
spec_reply f p =
    if p.dest == server_port
    then (if str_eq p.payload exit_text then none else some (reply p (f p.saddr p.source + 1)))
    else none

unfoldable pub spec_replies : Counts → List (Ptr × Packet) → List (Option Reply)
spec_replies f [] = []
spec_replies f ((a, p) ∷ ps) = spec_reply f p ∷ spec_replies (spec_counts f p) ps

unfoldable pub spec_run : Counts → List (Ptr × Packet) → Counts
spec_run f [] = f
spec_run f ((a, p) ∷ ps) = spec_run (spec_counts f p) ps

-- Addresses that `malloc` can hand out in turn while no node is freed: not null, not on the list,
-- and all different.
unfoldable pub differs : Ptr → List (Ptr × Packet) → Bool
differs a [] = true
differs a ((b, p) ∷ ps) = if a == b then false else differs a ps

abbrev pub Fresh : Cells → List (Ptr × Packet) → Type 0
Fresh cs [] = Unit {0}
Fresh cs ((a, p) ∷ ps) = (a ≢ 0) × (has a cs ≡ false) × (differs a ps ≡ true) × Fresh cs ps

unfoldable pub Agrees : Cells → Counts → Type 0
Agrees cs f = (ip port : ℕ) → count_of cs ip port ≡ f ip port

count_of-set_count :
    (cs : Cells) (ip port v i p : ℕ)
    → known cs ip port ≡ true
    → count_of (set_count cs ip port v) i p ≡ (if ip == i && port == p then v else count_of cs i p)
unfolding count_of set_count known
count_of-set_count [] ip port v i p k = ground arith
count_of-set_count (c ∷ cs) ip port v i p k = ground (arith, count_of-set_count cs ip port v i p)

count_of-snoc :
    (cs : Cells) (a : Ptr) (ip port i p : ℕ)
    → known cs ip port ≡ false
    → count_of (cs ++ new_cell a ip port ∷ []) i p
      ≡ (if ip == i && port == p then 1 else count_of cs i p)
unfolding count_of known
count_of-snoc [] a ip port i p k = ground arith
count_of-snoc (c ∷ cs) a ip port i p k = ground (arith, count_of-snoc cs a ip port i p)

count_of-unknown : (cs : Cells) (ip port : ℕ) → known cs ip port ≡ false → count_of cs ip port ≡ 0
unfolding count_of known
count_of-unknown [] ip port k = refl
count_of-unknown (c ∷ cs) ip port k = ground (arith, count_of-unknown cs ip port)

pub count_of-counted :
    (cs : Cells) (a : Ptr) (ip port i p : ℕ)
    → count_of (counted cs a ip port) i p
      ≡ (if ip == i && port == p then count_of cs ip port + 1 else count_of cs i p)
unfolding counted
count_of-counted cs a ip port i p = elim (Bool-cases (known cs ip port)) [
  | inl k ↦ rw k (count_of-set_count cs ip port (count_of cs ip port + 1) i p k)
  | inr k ↦ rw (k, count_of-snoc cs a ip port i p k, count_of-unknown cs ip port k) refl
]

pub count_of-off :
    (cs : Cells) (ip port i p : ℕ)
    → count_of (set_count cs ip port 0) i p ≡ (if ip == i && port == p then 0 else count_of cs i p)
unfolding count_of set_count
count_of-off [] ip port i p = ground arith
count_of-off (c ∷ cs) ip port i p = ground (arith, count_of-off cs ip port i p)

has-set_count : (b : Ptr) (cs : Cells) (ip port v : ℕ) → has b (set_count cs ip port v) ≡ has b cs
unfolding set_count
has-set_count b [] ip port v = refl
has-set_count b (c ∷ cs) ip port v = ground (arith, has-set_count b cs ip port v)

has-snoc :
    (b : Ptr) (cs : Cells) (c : Cell)
    → has b cs ≡ false
    → (b == c.at) ≡ false
    → has b (cs ++ c ∷ []) ≡ false
has-snoc b [] c h e = ground arith
has-snoc b (d ∷ cs) c h e = ground (arith, has-snoc b cs c)

has-counted :
    (b : Ptr) (cs : Cells) (a : Ptr) (ip port : ℕ)
    → has b cs ≡ false
    → (b == a) ≡ false
    → has b (counted cs a ip port) ≡ false
unfolding counted
has-counted b cs a ip port h e = elim (Bool-cases (known cs ip port)) [
  | inl k ↦ rw k (has-set_count b cs ip port _ ∙ h)
  | inr k ↦ rw k (has-snoc b cs _ h e)
]

pub Fresh-counted :
    (cs : Cells) (a : Ptr) (ip port : ℕ) (ps : List (Ptr × Packet))
    → differs a ps ≡ true
    → Fresh cs ps
    → Fresh (counted cs a ip port) ps
unfolding differs
Fresh-counted cs a ip port [] d f = tt
Fresh-counted cs a ip port ((b, p) ∷ ps) d f = (
  f.0,
  has-counted b cs a ip port f.1 (ground arith),
  f.2,
  Fresh-counted cs a ip port ps (ground arith) f.3,
)

pub Fresh-off :
    (cs : Cells) (ip port : ℕ) (ps : List (Ptr × Packet))
    → Fresh cs ps
    → Fresh (set_count cs ip port 0) ps
Fresh-off cs ip port [] f = tt
Fresh-off cs ip port ((b, p) ∷ ps) f =
    (f.0, has-set_count b cs ip port 0 ∙ f.1, f.2, Fresh-off cs ip port ps f.3)
