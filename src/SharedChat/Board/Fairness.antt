-- ===== src/SharedChat/Board/Fairness.antt =====
-- A broadcast to clients with places of their own, in any order of their turns.
use mathlib.Core.Path.{subst}
use mathlib.Core.Option.{some-injective, none-ne-some}
use eltex_course.Base.{
  ℕ, zero, suc, ◌+◌, ◌-◌, ◌≡◌, ◌≤◌, ◌<◌, refl, sym, ap, ◌∙◌, Bool, true, false, Bool-cases, inl,
  inr, List, [], ◌∷◌, none, some, Option-cases, ◌==◌, ==_iff, get_elem?, set, length, Bytes, arith,
}
use eltex_course.SharedChat.Board.{
  Reader, Board, sem_post, heard, read_turn, take_turn, turns, post_loop,
}
use eltex_course.SharedChat.Board.Crowd.{
  Crowd, now, readers_of, marks_of, told, firsts, Distinct, get_or-marks_of, set-marks_of,
}

module _ (text : Bytes) where
  -- The board in the middle of a broadcast.
  pub record IsAt (ps : Crowd) (b : Board) : Type 0 where
    pub mtext : b.mtext ≡ text
    pub am_i_read : b.am_i_read ≡ marks_of ps
    pub readers : b.readers ≡ readers_of text ps

  get_elem?-readers_of-none :
      (ps : Crowd) (i : ℕ) → get_elem? ps i ≡ none → get_elem? (readers_of text ps) i ≡ none
  get_elem?-readers_of-none [] i e = refl
  get_elem?-readers_of-none (p ∷ ps) zero e = absurd (none-ne-some p (sym e))
  get_elem?-readers_of-none (p ∷ ps) (suc i) e = get_elem?-readers_of-none ps i e

  get_elem?-readers_of :
      (ps : Crowd) (i : ℕ) (p : Reader × Bool)
      → get_elem? ps i ≡ some p
      → get_elem? (readers_of text ps) i ≡ some (now text p)
  get_elem?-readers_of [] i p e = absurd (none-ne-some p e)
  get_elem?-readers_of (q ∷ ps) zero p e = ap (λ x. some (now text x)) (some-injective q p e)
  get_elem?-readers_of (q ∷ ps) (suc i) p e = get_elem?-readers_of ps i p e

  now-pid : (p : Reader × Bool) → (now text p).pid ≡ p.0.pid
  now-pid (r, true) = refl
  now-pid (r, false) = refl

  set-readers_of :
      (ps : Crowd) (i : ℕ) (r : Reader)
      → get_elem? ps i ≡ some (r, false)
      → set (readers_of text ps) i (heard r text) ≡ readers_of text (told ps i)
  set-readers_of [] i r e = refl
  set-readers_of ((q, g) ∷ ps) zero r e =
      ap (λ p. heard p.0 text ∷ readers_of text ps) (sym (some-injective (q, g) (r, false) e))
  set-readers_of ((q, g) ∷ ps) (suc i) r e = ap (◌∷◌ (now text (q, g))) (set-readers_of ps i r e)

told-none : (ps : Crowd) (i : ℕ) → get_elem? ps i ≡ none → told ps i ≡ ps
told-none [] i e = refl
told-none (p ∷ ps) zero e = absurd (none-ne-some p (sym e))
told-none ((r, f) ∷ ps) (suc i) e = ap (◌∷◌ (r, f)) (told-none ps i e)

told_again : (ps : Crowd) (i : ℕ) (r : Reader) → get_elem? ps i ≡ some (r, true) → told ps i ≡ ps
told_again [] i r e = refl
told_again ((q, g) ∷ ps) zero r e =
    ap (λ p. (q, p.1) ∷ ps) (sym (some-injective (q, g) (r, true) e))
told_again ((q, g) ∷ ps) (suc i) r e = ap (◌∷◌ (q, g)) (told_again ps i r e)

firsts-told : (ps : Crowd) (i : ℕ) → firsts (told ps i) ≡ firsts ps
firsts-told [] i = refl
firsts-told ((r, f) ∷ ps) zero = refl
firsts-told ((r, f) ∷ ps) (suc i) = ap (◌∷◌ r) (firsts-told ps i)

-- The client in a place has read the text.
abbrev pub Told : ℕ → Crowd → Type 0
Told j ps = (r : Reader) × (get_elem? ps j ≡ some (r, true))

pub record Grows (ps qs : Crowd) : Type 0 where
  pub same : firsts qs ≡ firsts ps
  pub keeps : (j : ℕ) → Told j ps → Told j qs

Grows-refl : (ps : Crowd) → Grows ps ps
Grows-refl ps = record { same = refl; keeps = λ j t. t }

Grows-trans : (ps qs rs : Crowd) → Grows ps qs → Grows qs rs → Grows ps rs
Grows-trans ps qs rs g h = record { same = h.same ∙ g.same; keeps = λ j t. h.keeps j (g.keeps j t) }

Told-told : (ps : Crowd) (i j : ℕ) → Told j ps → Told j (told ps i)
Told-told [] i j (r, e) = (r, e)
Told-told ((q, g) ∷ ps) zero zero (r, e) = (q, refl)
Told-told ((q, g) ∷ ps) zero (suc j) t = t
Told-told ((q, g) ∷ ps) (suc i) zero t = t
Told-told ((q, g) ∷ ps) (suc i) (suc j) t = Told-told ps i j t

Told-self : (ps : Crowd) (i : ℕ) → i < length ps → Told i (told ps i)
Told-self [] i h = absurd (omega arith)
Told-self ((q, g) ∷ ps) zero h = (q, refl)
Told-self ((q, g) ∷ ps) (suc i) h = Told-self ps i (omega arith)

told-Grows : (ps : Crowd) (i : ℕ) → Grows ps (told ps i)
told-Grows ps i = record { same = firsts-told ps i; keeps = λ j t. Told-told ps i j t }

length-firsts : (ps : Crowd) → length (firsts ps) ≡ length ps
length-firsts [] = refl
length-firsts ((r, f) ∷ ps) = ap suc (length-firsts ps)

module _ (text : Bytes) where
  read_turn-IsAt :
      (ps : Crowd) (b : Board) (i : ℕ) (r : Reader) (f : Bool)
      → IsAt text ps b
      → Distinct (firsts ps)
      → get_elem? ps i ≡ some (r, f)
      → IsAt text (told ps i) (read_turn b i (now text (r, f)))
  unfolding read_turn
  read_turn-IsAt ps b i r true h d e =
      simp (h.am_i_read, get_or-marks_of ps i r true d e)
        (record {
          mtext = h.mtext;
          am_i_read = set-marks_of ps i r true d e;
          readers = h.readers ∙ ap (readers_of text) (sym (told_again ps i r e));
        })
  read_turn-IsAt ps b i r false h d e =
      simp (h.am_i_read, get_or-marks_of ps i r false d e)
        (record {
          mtext = h.mtext;
          am_i_read = set-marks_of ps i r false d e;
          readers = rw (h.readers, h.mtext) (set-readers_of text ps i r e);
        })

  -- A client that comes: the semaphore is free, and it is told.
  free_turn-IsAt :
      (ps : Crowd) (b : Board) (i : ℕ)
      → IsAt text ps b
      → Distinct (firsts ps)
      → (b.posts == 0) ≡ false
      → IsAt text (told ps i) (take_turn b i)
  unfolding take_turn
  free_turn-IsAt ps b i h d free =
      let b' = record b { posts = b.posts - 1 } in
      let h' : IsAt text ps b' = record {
        mtext = h.mtext;
        am_i_read = h.am_i_read;
        readers = h.readers;
      } in
      elim (Option-cases (get_elem? ps i)) [
        | inl e ↦
            let lost =
              ap (λ rs. get_elem? rs i) h.readers ∙ get_elem?-readers_of-none text ps i e in
            simp (free, lost, told-none ps i e) h
        | inr (p, e) ↦
            let found = ap (λ rs. get_elem? rs i) h.readers ∙ get_elem?-readers_of text ps i p e in
            simp (free, found) (read_turn-IsAt ps b' i p.0 p.1 h' d e)
      ]

  take_turn-IsAt :
      (ps : Crowd) (b : Board) (i : ℕ)
      → IsAt text ps b
      → Distinct (firsts ps)
      → (qs : Crowd) × IsAt text qs (take_turn b i) × Grows ps qs
  unfolding take_turn
  take_turn-IsAt ps b i h d = elim (Bool-cases (b.posts == 0)) [
    | inl none_left ↦ (ps, simp (none_left) h, Grows-refl ps)
    | inr free ↦ (told ps i, free_turn-IsAt ps b i h d free, told-Grows ps i)
  ]

  turns-IsAt :
      (ps : Crowd) (b : Board) (is : List ℕ)
      → IsAt text ps b
      → Distinct (firsts ps)
      → (qs : Crowd) × IsAt text qs (turns b is) × Grows ps qs
  unfolding turns
  turns-IsAt ps b [] h d = (ps, h, Grows-refl ps)
  turns-IsAt ps b (i ∷ is) h d =
      let (qs, k, g) = take_turn-IsAt ps b i h d in
      let (rs, l, f) = turns-IsAt qs (take_turn b i) is k (rw g.same d) in
      (rs, l, Grows-trans ps qs rs g f)

posted : (b : Board) → ((sem_post b).posts == 0) ≡ false
unfolding sem_post
posted b = ground arith

-- The client comes first.
abbrev pub Starts : List ℕ → ℕ → Type 0
Starts [] i = ⊥
Starts (j ∷ js) i = j ≡ i

-- The client comes first at some time.
abbrev pub Comes : (ℕ → List ℕ) → ℕ → ℕ → ℕ → Type 0
Comes schedule from till i = (k : ℕ) × (from ≤ k) × (k < till) × Starts (schedule k) i

pub length-Grows : (ps qs : Crowd) → Grows ps qs → length qs ≡ length ps
length-Grows ps qs g = sym (length-firsts qs) ∙ ap length g.same ∙ length-firsts ps

module _ (text : Bytes) where
  sem_post-IsAt : (ps : Crowd) (b : Board) → IsAt text ps b → IsAt text ps (sem_post b)
  unfolding sem_post
  sem_post-IsAt ps b h = record { mtext = h.mtext; am_i_read = h.am_i_read; readers = h.readers }

  -- The clients that come after one post; the first of them is told.
  post_turns-IsAt :
      (ps : Crowd) (b : Board) (is : List ℕ)
      → IsAt text ps b
      → Distinct (firsts ps)
      → (qs : Crowd) × IsAt text qs (turns (sem_post b) is)
        × Grows ps qs
        × ((i : ℕ) → Starts is i → i < length ps → Told i qs)
  unfolding turns
  post_turns-IsAt ps b [] h d = (ps, sem_post-IsAt ps b h, Grows-refl ps, λ i s l. absurd s)
  post_turns-IsAt ps b (j ∷ is) h d =
      let k = free_turn-IsAt text ps (sem_post b) j (sem_post-IsAt ps b h) d (posted b) in
      let (qs, l, g) =
        turns-IsAt text (told ps j) (take_turn (sem_post b) j) is k (rw (firsts-told ps j) d) in
      (
        qs,
        l,
        Grows-trans ps (told ps j) qs (told-Grows ps j) g,
        λ i s m. g.keeps i (
            subst (λ i. Told i (told ps j)) s
              (Told-self ps j (subst (λ i. i < length ps) (sym s) m))),
      )

  module _ (schedule : ℕ → List ℕ) where
    pub post_loop-IsAt :
        (n k : ℕ) (ps : Crowd) (b : Board)
        → IsAt text ps b
        → Distinct (firsts ps)
        → (qs : Crowd) × IsAt text qs (post_loop schedule n k b)
          × Grows ps qs
          × ((i : ℕ) → Comes schedule k (k + n) i → i < length ps → Told i qs)
    unfolding post_loop
    post_loop-IsAt zero k ps b h d =
        (ps, h, Grows-refl ps, λ i c l. absurd (omega (arith, c.1, c.2)))
    post_loop-IsAt (suc n) k ps b h d =
        let (qs, l, g, t) = post_turns-IsAt ps b (schedule k) h d in
        let (rs, m, f, u) =
          post_loop-IsAt n (k + 1) qs (turns (sem_post b) (schedule k)) l (rw g.same d) in
        (
          rs,
          m,
          Grows-trans ps qs rs g f,
          λ i c s. elim (Bool-cases (c.0 == k)) [
            | inl here ↦
                f.keeps i (t i (subst (λ k. Starts (schedule k) i) ((==_iff c.0 k).0 here) c.3) s)
            | inr later ↦
                u i (c.0, ground (arith, c.1), omega (arith, c.2), c.3)
                  (omega (arith, s, length-Grows ps qs g))
          ],
        )
