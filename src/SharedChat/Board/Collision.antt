-- ===== src/SharedChat/Board/Collision.antt =====
-- Two clients with one place in `am_i_read`.
use mathlib.Core.Path.{subst}
use mathlib.Core.Option.{some-injective, none-ne-some}
use eltex_course.Base.{
  ℕ, zero, suc, ◌+◌, ◌≡◌, ◌≤◌, ◌<◌, ◌⊎◌, refl, sym, ap, ◌∙◌, false, Bool-cases, inl, inr, List, [],
  ◌∷◌, ◌++◌, none, some, Option-cases, ◌==◌, get_elem?, get_or, set, length, length-append,
  length-set, replicate, Bytes, arith,
}
use eltex_course.SharedChat.Board.{
  Reader, Board, slot, fill, checksum, sem_post, heard, read_turn, take_turn, turns, post_loop,
  broadcast_loop, broadcast,
}

-- Two of the clients have one place.
pub record Clash (rs : List Reader) : Type 0 where
  pub pre : List Reader
  pub one : Reader
  pub mid : List Reader
  pub other : Reader
  pub post : List Reader
  pub split : rs ≡ pre ++ one ∷ (mid ++ other ∷ post)
  pub same : slot one.pid ≡ slot other.pid

-- The array with all places of a list marked.
ceiling : List ℕ → List ℕ
ceiling [] = replicate 50 0
ceiling (c ∷ cs) = set (ceiling cs) c 1

-- The place is one of the list.
abbrev Within : ℕ → List ℕ → Type 0
Within c [] = ⊥
Within c (d ∷ ds) = (d ≡ c) ⊎ Within c ds

abbrev AllWithin : List Reader → List ℕ → Type 0
AllWithin [] cs = Unit {0}
AllWithin (r ∷ rs) cs = Within (slot r.pid) cs × AllWithin rs cs

checksum-set_le : (xs : List ℕ) (i : ℕ) → checksum (set xs i 1) ≤ checksum xs + 1
unfolding checksum
checksum-set_le [] i = omega arith
checksum-set_le (x ∷ xs) zero = omega arith
checksum-set_le (x ∷ xs) (suc i) = omega (arith, checksum-set_le xs i)

-- No mark is missing from the second array.
abbrev Below : List ℕ → List ℕ → Type 0
Below [] ys = Unit {0}
Below (x ∷ xs) [] = ⊥
Below (x ∷ xs) (y ∷ ys) = (x ≤ y) × Below xs ys

checksum-Below : (xs ys : List ℕ) → Below xs ys → checksum xs ≤ checksum ys
unfolding checksum
checksum-Below [] ys h = omega arith
checksum-Below (x ∷ xs) [] h = absurd h
checksum-Below (x ∷ xs) (y ∷ ys) h = omega (arith, checksum-Below xs ys h.1)

set-Below : (xs ys : List ℕ) (c : ℕ) → Below xs ys → get_or ys c 0 ≡ 1 → Below (set xs c 1) ys
set-Below [] ys c h e = tt
set-Below (x ∷ xs) [] c h e = absurd h
set-Below (x ∷ xs) (y ∷ ys) zero h e = (omega arith, h.1)
set-Below (x ∷ xs) (y ∷ ys) (suc c) h e = (h.0, set-Below xs ys c h.1 e)

fill-Below : (xs ys : List ℕ) → length xs ≤ length ys → Below (fill xs 0) ys
unfolding fill
fill-Below [] ys h = tt
fill-Below (x ∷ xs) [] h = absurd (omega arith)
fill-Below (x ∷ xs) (y ∷ ys) h = (omega arith, fill-Below xs ys (omega arith))

length-ceiling : (cs : List ℕ) → length (ceiling cs) ≡ 50
unfolding ceiling
length-ceiling [] = refl
length-ceiling (c ∷ cs) = length-set (ceiling cs) c 1 ∙ length-ceiling cs

checksum-replicate : (n : ℕ) → checksum (replicate n 0) ≡ 0
unfolding checksum
checksum-replicate zero = refl
checksum-replicate (suc n) = omega (arith, checksum-replicate n)

checksum-ceiling : (cs : List ℕ) → checksum (ceiling cs) ≤ length cs
unfolding ceiling
checksum-ceiling [] = omega (arith, checksum-replicate 50)
checksum-ceiling (c ∷ cs) = omega (arith, checksum-ceiling cs, checksum-set_le (ceiling cs) c)

get_or-set :
    (xs : List ℕ) (i c : ℕ)
    → c < length xs
    → (i ≡ c) ⊎ (get_or xs c 0 ≡ 1)
    → get_or (set xs i 1) c 0 ≡ 1
get_or-set [] i c l h = absurd (omega arith)
get_or-set (x ∷ xs) zero zero l h = refl
get_or-set (x ∷ xs) zero (suc c) l (inl e) = absurd (omega arith)
get_or-set (x ∷ xs) zero (suc c) l (inr e) = e
get_or-set (x ∷ xs) (suc i) zero l (inl e) = absurd (omega arith)
get_or-set (x ∷ xs) (suc i) zero l (inr e) = e
get_or-set (x ∷ xs) (suc i) (suc c) l (inl e) = get_or-set xs i c (omega arith) (inl (omega arith))
get_or-set (x ∷ xs) (suc i) (suc c) l (inr e) = get_or-set xs i c (omega arith) (inr e)

get_or-ceiling : (cs : List ℕ) (c : ℕ) → c < 50 → Within c cs → get_or (ceiling cs) c 0 ≡ 1
unfolding ceiling
get_or-ceiling [] c l h = absurd h
get_or-ceiling (d ∷ cs) c l (inl e) =
    get_or-set (ceiling cs) d c (omega (arith, length-ceiling cs)) (inl e)
get_or-ceiling (d ∷ cs) c l (inr h) =
    get_or-set (ceiling cs) d c (omega (arith, length-ceiling cs)) (inr (get_or-ceiling cs c l h))

AllWithin-at :
    (rs : List Reader) (cs : List ℕ) (i : ℕ) (r : Reader)
    → AllWithin rs cs
    → get_elem? rs i ≡ some r
    → Within (slot r.pid) cs
AllWithin-at [] cs i r h e = absurd (none-ne-some r e)
AllWithin-at (q ∷ rs) cs zero r h e = subst (λ x. Within (slot x.pid) cs) (some-injective q r e) h.0
AllWithin-at (q ∷ rs) cs (suc i) r h e = AllWithin-at rs cs i r h.1 e

AllWithin-set :
    (rs : List Reader) (cs : List ℕ) (i : ℕ) (r : Reader)
    → AllWithin rs cs
    → Within (slot r.pid) cs
    → AllWithin (set rs i r) cs
AllWithin-set [] cs i r h w = tt
AllWithin-set (q ∷ rs) cs zero r h w = (w, h.1)
AllWithin-set (q ∷ rs) cs (suc i) r h w = (h.0, AllWithin-set rs cs i r h.1 w)

module _ (cs : List ℕ) where
  -- The board holds marks for the places of the list only.
  record IsBounded (b : Board) : Type 0 where
    marks : Below b.am_i_read (ceiling cs)
    readers : AllWithin b.readers cs

  take_turn-IsBounded : (b : Board) (i : ℕ) → IsBounded b → IsBounded (take_turn b i)
  unfolding take_turn read_turn
  take_turn-IsBounded b i h = elim (Bool-cases (b.posts == 0)) [
    | inl none_left ↦ simp (none_left) h
    | inr free ↦ elim (Option-cases (get_elem? b.readers i)) [
      | inl lost ↦ simp (free, lost) h
      | inr (r, found) ↦
          let w = AllWithin-at b.readers cs i r h.readers found in
          let m =
            set-Below b.am_i_read (ceiling cs) (slot r.pid) h.marks
              (get_or-ceiling cs (slot r.pid) (omega arith) w) in
          elim (Bool-cases (get_or b.am_i_read (slot r.pid) 0 == 1)) [
            | inl old ↦ simp (free, found, old) (record { marks = m; readers = h.readers })
            | inr new ↦
                simp (free, found, new)
                  (record {
                    marks = m;
                    readers = AllWithin-set b.readers cs i (heard r b.mtext) h.readers w;
                  })
          ]
    ]
  ]

  turns-IsBounded : (b : Board) (is : List ℕ) → IsBounded b → IsBounded (turns b is)
  unfolding turns
  turns-IsBounded b [] h = h
  turns-IsBounded b (i ∷ is) h = turns-IsBounded (take_turn b i) is (take_turn-IsBounded b i h)

  post_loop-IsBounded :
      (schedule : ℕ → List ℕ) (n k : ℕ) (b : Board)
      → IsBounded b
      → IsBounded (post_loop schedule n k b)
  unfolding post_loop sem_post
  post_loop-IsBounded schedule zero k b h = h
  post_loop-IsBounded schedule (suc n) k b h =
      post_loop-IsBounded schedule n (k + 1) (turns (sem_post b) (schedule k)) (
        turns-IsBounded (sem_post b) (schedule k) (record { marks = h.marks; readers = h.readers }))

  broadcast_loop-none :
      (schedule : ℕ → List ℕ) (fuel n k : ℕ) (b : Board)
      → length cs < n
      → IsBounded b
      → broadcast_loop schedule fuel n k b ≡ none
  unfolding broadcast_loop
  broadcast_loop-none schedule zero n k b l h = refl
  broadcast_loop-none schedule (suc fuel) n k b l h =
      let few : checksum b.am_i_read ≤ length cs =
        omega (arith, checksum-Below b.am_i_read (ceiling cs) h.marks, checksum-ceiling cs) in
      let more : (checksum b.am_i_read == n) ≡ false = ground (arith, few) in
      rw more (
        broadcast_loop-none schedule fuel n (k + n) (post_loop schedule n k b) l
          (post_loop-IsBounded schedule n k b h))

slots : List Reader → List ℕ
slots [] = []
slots (r ∷ rs) = slot r.pid ∷ slots rs

length-slots : (rs : List Reader) → length (slots rs) ≡ length rs
unfolding slots
length-slots [] = refl
length-slots (r ∷ rs) = ap suc (length-slots rs)

Within-left : (c : ℕ) (xs ys : List ℕ) → Within c xs → Within c (xs ++ ys)
Within-left c [] ys h = absurd h
Within-left c (x ∷ xs) ys (inl e) = inl e
Within-left c (x ∷ xs) ys (inr h) = inr (Within-left c xs ys h)

Within-right : (c : ℕ) (xs ys : List ℕ) → Within c ys → Within c (xs ++ ys)
Within-right c [] ys h = h
Within-right c (x ∷ xs) ys h = inr (Within-right c xs ys h)

AllWithin-append :
    (xs ys : List Reader) (cs : List ℕ)
    → AllWithin xs cs
    → AllWithin ys cs
    → AllWithin (xs ++ ys) cs
AllWithin-append [] ys cs h k = k
AllWithin-append (x ∷ xs) ys cs h k = (h.0, AllWithin-append xs ys cs h.1 k)

AllWithin-slots :
    (rs : List Reader) (cs : List ℕ)
    → ((c : ℕ) → Within c (slots rs) → Within c cs)
    → AllWithin rs cs
unfolding slots
AllWithin-slots [] cs h = tt
AllWithin-slots (r ∷ rs) cs h =
    (h (slot r.pid) (inl refl), AllWithin-slots rs cs (λ c w. h c (inr w)))

-- The places of the clients, without that of the second of the two.
places : (rs : List Reader) → Clash rs → List ℕ
places rs k = slots k.pre ++ slot k.one.pid ∷ (slots k.mid ++ slots k.post)

length-places : (rs : List Reader) (k : Clash rs) → length (places rs k) < length rs
unfolding places
length-places rs k = omega (
  arith,
  ap length k.split,
  length-append k.pre (k.one ∷ (k.mid ++ k.other ∷ k.post)),
  length-append k.mid (k.other ∷ k.post),
  length-append (slots k.pre) (slot k.one.pid ∷ (slots k.mid ++ slots k.post)),
  length-append (slots k.mid) (slots k.post),
  length-slots k.pre,
  length-slots k.mid,
  length-slots k.post,
)

AllWithin-places : (rs : List Reader) (k : Clash rs) → AllWithin rs (places rs k)
unfolding places
AllWithin-places rs k =
    let tail = slots k.mid ++ slots k.post in
    let cs = slots k.pre ++ slot k.one.pid ∷ tail in
    let behind =
      λ (c : ℕ) (w : Within c tail). Within-right c (slots k.pre) (slot k.one.pid ∷ tail) (inr w) in
    subst (λ l. AllWithin l cs) (sym k.split)
      (AllWithin-append k.pre (k.one ∷ (k.mid ++ k.other ∷ k.post)) cs
        (AllWithin-slots k.pre cs (λ c w. Within-left c (slots k.pre) (slot k.one.pid ∷ tail) w))
        (
          Within-right (slot k.one.pid) (slots k.pre) (slot k.one.pid ∷ tail) (inl refl),
          AllWithin-append k.mid (k.other ∷ k.post) cs
              (AllWithin-slots k.mid cs
                (λ c w. behind c (Within-left c (slots k.mid) (slots k.post) w)))
              (
                Within-right (slot k.other.pid) (slots k.pre) (slot k.one.pid ∷ tail) (inl k.same),
                AllWithin-slots k.post cs
                    (λ c w. behind c (Within-right c (slots k.mid) (slots k.post) w)),
              ),
        ))

-- Where two of the clients online have one place in `am_i_read`, the server never gets out of
-- `broadcast`, in whatever order the clients come.
pub broadcast-Clash :
    (schedule : ℕ → List ℕ) (fuel : ℕ) (text : Bytes) (b : Board)
    → length b.am_i_read ≡ 50
    → Clash b.readers
    → broadcast schedule fuel (length b.readers) text b ≡ none
unfolding broadcast
broadcast-Clash schedule fuel text b l k =
    let cs = places b.readers k in
    broadcast_loop-none cs schedule fuel (length b.readers) 0
      (record b { mtext = text; am_i_read = fill b.am_i_read 0 }) (length-places b.readers k)
      (record {
        marks = fill-Below b.am_i_read (ceiling cs) (omega (arith, l, length-ceiling cs));
        readers = AllWithin-places b.readers k;
      })
