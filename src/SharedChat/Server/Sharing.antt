-- ===== src/SharedChat/Server/Sharing.antt =====
-- The waiting loop of `shair_database` over shared memory, for a client with a place of its own in `am_i_read`.
use eltex_course.Base.{
  ℕ, zero, suc, ◌+◌, ◌-◌, ◌*◌, ◌≡◌, ◌<◌, ◌⊎◌, refl, sym, ap, ◌∙◌, Bool, true, false, Bool-cases,
  inl, inr, List, [], ◌∷◌, ◌++◌, none, some, ◌==◌, get_elem?, get_or, set, length, set-length,
  replicate, Bytes, arith,
}
use mathlib.Core.Path.{subst}
use eltex_course.SharedChat.Board.{
  Reader, Board, slot, sem_post, heard, read_turn, take_turn, turns,
}
use eltex_course.SharedChat.Board.Crowd.{Free, mark, now, get_or-set_self, get_or-set_other}
use eltex_course.SharedChat.Board.Fairness.{Starts}
use eltex_course.SharedChat.Server.{post_times, share_loop}

-- `am_i_read` while all but one place are 1.
abbrev pub one_open : ℕ → Bool → List ℕ
one_open c f = set (replicate 50 1) c (mark f)

set-set : (xs : List ℕ) (i v w : ℕ) → set (set xs i v) i w ≡ set xs i w
set-set [] i v w = refl
set-set (x ∷ xs) zero v w = refl
set-set (x ∷ xs) (suc i) v w = ap (◌∷◌ x) (set-set xs i v w)

set_same : (xs : List ℕ) (i : ℕ) → get_or xs i 0 ≡ 1 → set xs i 1 ≡ xs
set_same [] i h = refl
set_same (x ∷ xs) zero h = ap (λ y. y ∷ xs) (sym h)
set_same (x ∷ xs) (suc i) h = ap (◌∷◌ x) (set_same xs i h)

get_or-ones : (n i : ℕ) → i < n → get_or {A = ℕ} (replicate n 1) i 0 ≡ 1
get_or-ones zero i h = absurd (omega arith)
get_or-ones (suc n) zero h = refl
get_or-ones (suc n) (suc i) h = get_or-ones n i (omega arith)

slot-lt : (pid : ℕ) → slot pid < 50
slot-lt pid = omega arith

one_open-here : (pid : ℕ) (f : Bool) → get_or (one_open (slot pid) f) (slot pid) 0 ≡ mark f
one_open-here pid f = get_or-set_self (replicate 50 1) (slot pid) (mark f) 0 (slot-lt pid)

one_open-other :
    (c pid : ℕ) (f : Bool) → (slot pid == c) ≡ false → get_or (one_open c f) (slot pid) 0 ≡ 1
one_open-other c pid f other =
    get_or-set_other (replicate 50 1) c (slot pid) (mark f) 0 (ground (arith, other))
    ∙ get_or-ones 50 (slot pid) (slot-lt pid)

-- What a place of the list holds: nothing, the client that is meant, or one with another place.
Found : List Reader → Reader → List Reader → ℕ → ℕ → Type 0
Found pre q post c i =
    (get_elem? (pre ++ q ∷ post) i ≡ none)
    ⊎ ((i ≡ length pre)
        ⊎ ((p : Reader) × (get_elem? (pre ++ q ∷ post) i ≡ some p) × ((slot p.pid == c) ≡ false)))

get_elem?-Free :
    (c : ℕ) (post : List Reader) (i : ℕ)
    → Free c post
    → (get_elem? post i ≡ none)
      ⊎ ((p : Reader) × (get_elem? post i ≡ some p) × ((slot p.pid == c) ≡ false))
get_elem?-Free c [] i h = inl refl
get_elem?-Free c (p ∷ post) zero h = inr (p, refl, h.0)
get_elem?-Free c (p ∷ post) (suc i) h = get_elem?-Free c post i h.1

get_elem?-Found :
    (c : ℕ) (pre post : List Reader) (q : Reader) (i : ℕ)
    → Free c pre
    → Free c post
    → Found pre q post c i
unfolding Found
get_elem?-Found c [] post q zero h k = inr (inl refl)
get_elem?-Found c [] post q (suc i) h k = elim (get_elem?-Free c post i k) [
  | inl e ↦ inl e
  | inr p ↦ inr (inr p)
]
get_elem?-Found c (r ∷ pre) post q zero h k = inr (inr (r, refl, h.0))
get_elem?-Found c (r ∷ pre) post q (suc i) h k = elim (get_elem?-Found c pre post q i h.1 k) [
  | inl e ↦ inl e
  | inr (inl e) ↦ inr (inl (ap suc e))
  | inr (inr p) ↦ inr (inr p)
]

get_elem?-length :
    (pre post : List Reader) (q : Reader) → get_elem? (pre ++ q ∷ post) (length pre) ≡ some q
get_elem?-length [] post q = refl
get_elem?-length (r ∷ pre) post q = get_elem?-length pre post q

module _ (pre post : List Reader) (r : Reader) where
  -- The board in the middle of a text for `r`, and whether `r` has read it.
  pub record IsOpen (text : Bytes) (f : Bool) (b : Board) : Type 0 where
    pub mtext : b.mtext ≡ text
    pub am_i_read : b.am_i_read ≡ one_open (slot r.pid) f
    pub readers : b.readers ≡ pre ++ now text (r, f) ∷ post

  read_turn-here :
      (text : Bytes) (f : Bool) (b : Board)
      → IsOpen text f b
      → IsOpen text true (read_turn b (length pre) (now text (r, f)))
  unfolding read_turn
  read_turn-here text true b h =
      simp (h.am_i_read, one_open-here r.pid true)
        (record {
          mtext = h.mtext;
          am_i_read = set-set (replicate 50 1) (slot r.pid) 1 1;
          readers = h.readers;
        })
  read_turn-here text false b h =
      simp (h.am_i_read, one_open-here r.pid false)
        (record {
          mtext = h.mtext;
          am_i_read = set-set (replicate 50 1) (slot r.pid) 0 1;
          readers = rw (h.readers, h.mtext) (set-length pre r (heard r text) post);
        })

  read_turn-there :
      (text : Bytes) (f : Bool) (b : Board) (i : ℕ) (p : Reader)
      → IsOpen text f b
      → (slot p.pid == slot r.pid) ≡ false
      → IsOpen text f (read_turn b i p)
  unfolding read_turn
  read_turn-there text f b i p h other =
      let one = one_open-other (slot r.pid) p.pid f other in
      simp (h.am_i_read, one)
        (record {
          mtext = h.mtext;
          am_i_read = set_same (one_open (slot r.pid) f) (slot p.pid) one;
          readers = h.readers;
        })

  module _ (before : Free (slot r.pid) pre) (behind : Free (slot r.pid) post) where
    -- The turn of the client itself.
    take_turn-here :
        (text : Bytes) (f : Bool) (b : Board)
        → IsOpen text f b
        → (b.posts == 0) ≡ false
        → IsOpen text true (take_turn b (length pre))
    unfolding take_turn
    take_turn-here text f b h free =
        let h' : IsOpen text f (record b { posts = b.posts - 1 }) = record {
          mtext = h.mtext;
          am_i_read = h.am_i_read;
          readers = h.readers;
        } in
        let found =
          ap (λ rs. get_elem? rs (length pre)) h.readers
          ∙ get_elem?-length pre post (now text (r, f)) in
        simp (free, found) (read_turn-here text f (record b { posts = b.posts - 1 }) h')

    -- A turn of somebody keeps what the client has read.
    take_turn-IsOpen :
        (text : Bytes) (f : Bool) (b : Board) (i : ℕ)
        → IsOpen text f b
        → IsOpen text f (take_turn b i) ⊎ IsOpen text true (take_turn b i)
    unfolding take_turn Found
    take_turn-IsOpen text f b i h =
        let b' = record b { posts = b.posts - 1 } in
        let h' : IsOpen text f b' = record {
          mtext = h.mtext;
          am_i_read = h.am_i_read;
          readers = h.readers;
        } in
        elim (Bool-cases (b.posts == 0)) [
          | inl none_left ↦ inl (simp (none_left) h)
          | inr free ↦
              elim (get_elem?-Found (slot r.pid) pre post (now text (r, f)) i before behind) [
                | inl e ↦ inl (simp (free, ap (λ rs. get_elem? rs i) h.readers ∙ e) h)
                | inr (inl e) ↦ inr (
                    subst (λ i. IsOpen text true (take_turn b i)) (sym e)
                      (take_turn-here text f b h free))
                | inr (inr (p, e, other)) ↦
                    let found = ap (λ rs. get_elem? rs i) h.readers ∙ e in
                    inl (simp (free, found) (read_turn-there text f b' i p h' other))
              ]
        ]

    turns-IsOpen :
        (text : Bytes) (b : Board) (is : List ℕ)
        → IsOpen text true b
        → IsOpen text true (turns b is)
    unfolding turns
    turns-IsOpen text b [] h = h
    turns-IsOpen text b (i ∷ is) h = elim (take_turn-IsOpen text true b i h) [
      | inl k ↦ turns-IsOpen text (take_turn b i) is k
      | inr k ↦ turns-IsOpen text (take_turn b i) is k
    ]

    turns-first :
        (text : Bytes) (b : Board) (is : List ℕ)
        → IsOpen text false b
        → (b.posts == 0) ≡ false
        → Starts is (length pre)
        → IsOpen text true (turns b is)
    unfolding turns
    turns-first text b [] h free s = absurd s
    turns-first text b (i ∷ is) h free s =
        turns-IsOpen text (take_turn b i) is (
          subst (λ i. IsOpen text true (take_turn b i)) (sym s)
            (take_turn-here text false b h free))

    post_times-IsOpen :
        (text : Bytes) (f : Bool) (n : ℕ) (b : Board)
        → IsOpen text f b
        → IsOpen text f (post_times n b) × ((post_times n b).posts ≡ b.posts + n)
    unfolding post_times sem_post
    post_times-IsOpen text f zero b h = (h, omega arith)
    post_times-IsOpen text f (suc n) b h =
        let (k, e) =
          post_times-IsOpen text f n (sem_post b)
            (record { mtext = h.mtext; am_i_read = h.am_i_read; readers = h.readers }) in
        (k, e ∙ omega arith)

    -- The waiting loop behind a text ends in its second test.
    pub share_loop-IsOpen :
        (schedule : ℕ → List ℕ) (fuel online : ℕ) (text : Bytes) (b : Board)
        → IsOpen text false b
        → 0 < online
        → Starts (schedule 0) (length pre)
        → (g : Board) × (share_loop schedule (suc (suc fuel)) online (slot r.pid) 0 b ≡ some g)
          × IsOpen text true g
    unfolding share_loop
    share_loop-IsOpen schedule fuel online text b h some_online s =
        let (k, e) = post_times-IsOpen text false (online * 2) b h in
        let posted = post_times (online * 2) b in
        let free : (posted.posts == 0) ≡ false = ground (arith, e, some_online) in
        let g = turns posted (schedule 0) in
        let i = turns-first text posted (schedule 0) k free s in
        let unread = ap (λ xs. get_or xs (slot r.pid) 0) h.am_i_read ∙ one_open-here r.pid false in
        let has_read = ap (λ xs. get_or xs (slot r.pid) 0) i.am_i_read ∙ one_open-here r.pid true in
        (g, rw (unread, has_read) refl, i)
