-- ===== src/SharedChat/Board/Delivery.antt =====
-- A broadcast ends, and every client has read its text once.
use mathlib.Core.Option.{some-injective}
use eltex_course.Base.{
  ℕ, zero, suc, ◌+◌, ◌≡◌, ◌≤◌, ◌<◌, ◌⊎◌, refl, sym, ap, ◌∙◌, true, false, Bool-cases, inl, inr,
  List, [], ◌∷◌, some, ◌==◌, ltb, ltb→lt, ltb→ge, length, replicate, Bytes, arith,
}
use eltex_course.SharedChat.Board.{
  Reader, Board, fill, checksum, heard, post_loop, broadcast_loop, broadcast,
}
use eltex_course.SharedChat.Board.Crowd.{
  Crowd, readers_of, marks_of, count_told, firsts, Distinct, checksum-marks_of,
}
use eltex_course.SharedChat.Board.Fairness.{IsAt, Told, Comes, post_loop-IsAt, length-Grows}

-- The time that some rounds of the outer loop take.
abbrev pub span : ℕ → ℕ → ℕ
span zero n = 0
span (suc rounds) n = n + span rounds n

abbrev pub heard_all : Bytes → List Reader → List Reader
heard_all text [] = []
heard_all text (r ∷ rs) = heard r text ∷ heard_all text rs

count_full : (ps : Crowd) → ((i : ℕ) → i < length ps → Told i ps) → count_told ps ≡ length ps
count_full [] h = refl
count_full ((r, f) ∷ ps) h =
    let (q, e) = h 0 (omega arith) in
    let on : f ≡ true = ap (λ p. p.1) (some-injective (r, f) (q, true) e) in
    rw on (omega (arith, count_full ps (λ i l. h (suc i) (omega arith))))

count_told-le : (ps : Crowd) → count_told ps ≤ length ps
count_told-le [] = omega arith
count_told-le ((r, true) ∷ ps) = omega (arith, count_told-le ps)
count_told-le ((r, false) ∷ ps) = omega (arith, count_told-le ps)

readers_of-heard_all :
    (text : Bytes) (ps : Crowd)
    → count_told ps ≡ length ps
    → readers_of text ps ≡ heard_all text (firsts ps)
readers_of-heard_all text [] e = refl
readers_of-heard_all text ((r, true) ∷ ps) e =
    ap (◌∷◌ (heard r text)) (readers_of-heard_all text ps (omega arith))
readers_of-heard_all text ((r, false) ∷ ps) e = absurd (omega (arith, count_told-le ps))

module _ (text : Bytes) (schedule : ℕ → List ℕ) where
  -- The client has read, or comes in time.
  WillRead : ℕ → ℕ → Crowd → Type 0
  WillRead from till ps = (i : ℕ) → i < length ps → Told i ps ⊎ Comes schedule from till i

  Delivered : ℕ → ℕ → ℕ → Crowd → Board → Type 0
  Delivered fuel n k ps b =
      (g : Board) × (broadcast_loop schedule fuel n k b ≡ some g)
      × (g.readers ≡ heard_all text (firsts ps))

  counted :
      (ps : Crowd) (b : Board)
      → IsAt text ps b
      → Distinct (firsts ps)
      → checksum b.am_i_read ≡ count_told ps
  counted ps b h d = ap checksum h.am_i_read ∙ checksum-marks_of ps d

  again :
      (fuel n k : ℕ) (b g : Board)
      → (checksum b.am_i_read == n) ≡ false
      → broadcast_loop schedule fuel n (k + n) (post_loop schedule n k b) ≡ some g
      → broadcast_loop schedule (suc fuel) n k b ≡ some g
  unfolding broadcast_loop
  again fuel n k b g more e = rw more e

  ended :
      (fuel n k : ℕ) (ps : Crowd) (b : Board)
      → IsAt text ps b
      → Distinct (firsts ps)
      → length ps ≡ n
      → (checksum b.am_i_read == n) ≡ true
      → Delivered (suc fuel) n k ps b
  unfolding broadcast_loop Delivered
  ended fuel n k ps b h d l full =
      let all : count_told ps ≡ length ps = ground (arith, l, counted ps b h d) in
      (b, rw full refl, h.readers ∙ readers_of-heard_all text ps all)

  broadcast_loop-Delivered :
      (rounds n k : ℕ) (ps : Crowd) (b : Board)
      → IsAt text ps b
      → Distinct (firsts ps)
      → length ps ≡ n
      → WillRead k (k + span rounds n) ps
      → Delivered (suc rounds) n k ps b
  unfolding WillRead Delivered
  broadcast_loop-Delivered zero n k ps b h d l w =
      let all =
        count_full ps
          (λ i m. elim (w i m) [ inl t ↦ t | inr c ↦ absurd (omega (arith, c.1, c.2)) ]) in
      ended zero n k ps b h d l (ground (arith, l, all, counted ps b h d))
  broadcast_loop-Delivered (suc rounds) n k ps b h d l w =
      elim (Bool-cases (checksum b.am_i_read == n)) [
        | inl full ↦ ended (suc rounds) n k ps b h d l full
        | inr more ↦
            let (qs, m, g, t) = post_loop-IsAt text schedule n k ps b h d in
            let same = length-Grows ps qs g in
            let (e, f, r) =
              broadcast_loop-Delivered rounds n (k + n) qs (post_loop schedule n k b) m
                (rw g.same d) (same ∙ l)
                (λ i j. elim (w i (omega (arith, same, j))) [
                  | inl done ↦ inl (g.keeps i done)
                  | inr c ↦ elim (Bool-cases (ltb c.0 (k + n))) [
                    | inl soon ↦
                        inl (t i (c.0, c.1, ltb→lt c.0 (k + n) soon, c.3) (omega (arith, same, j)))
                    | inr late ↦ inr (c.0, ltb→ge c.0 (k + n) late, omega (arith, c.2), c.3)
                  ]
                ]) in
            (e, again (suc rounds) n k b e more f, r ∙ ap (heard_all text) g.same)
      ]

start_crowd : List Reader → Crowd
start_crowd [] = []
start_crowd (r ∷ rs) = (r, false) ∷ start_crowd rs

firsts-start_crowd : (rs : List Reader) → firsts (start_crowd rs) ≡ rs
unfolding start_crowd
firsts-start_crowd [] = refl
firsts-start_crowd (r ∷ rs) = ap (◌∷◌ r) (firsts-start_crowd rs)

length-start_crowd : (rs : List Reader) → length (start_crowd rs) ≡ length rs
unfolding start_crowd
length-start_crowd [] = refl
length-start_crowd (r ∷ rs) = ap suc (length-start_crowd rs)

marks_of-start_crowd : (rs : List Reader) → marks_of (start_crowd rs) ≡ replicate 50 0
unfolding start_crowd
marks_of-start_crowd [] = refl
marks_of-start_crowd (r ∷ rs) = marks_of-start_crowd rs

readers_of-start_crowd : (text : Bytes) (rs : List Reader) → readers_of text (start_crowd rs) ≡ rs
unfolding start_crowd
readers_of-start_crowd text [] = refl
readers_of-start_crowd text (r ∷ rs) = ap (◌∷◌ r) (readers_of-start_crowd text rs)

pub fill-replicate : (arr : List ℕ) (num : ℕ) → fill arr num ≡ replicate (length arr) num
unfolding fill
fill-replicate [] num = refl
fill-replicate (x ∷ arr) num = ap (◌∷◌ num) (fill-replicate arr num)

-- The board on which a broadcast starts.
pub opened : Bytes → Board → Board
opened text b = record b { mtext = text; am_i_read = fill b.am_i_read 0 }

opened-IsAt :
    (text : Bytes) (b : Board)
    → length b.am_i_read ≡ 50
    → IsAt text (start_crowd b.readers) (opened text b)
unfolding opened
opened-IsAt text b l = record {
  mtext = refl;
  am_i_read =
      fill-replicate b.am_i_read 0
      ∙ ap (λ n. replicate n 0) l
      ∙ sym (marks_of-start_crowd b.readers);
  readers = sym (readers_of-start_crowd text b.readers);
}

-- A broadcast to clients with places of their own ends, as soon as each of them has come first to the
-- semaphore once in the time of the rounds, whatever else comes; and then every client has read the
-- text, and has read it once.
pub broadcast-heard_all :
    (schedule : ℕ → List ℕ) (rounds : ℕ) (text : Bytes) (b : Board)
    → length b.am_i_read ≡ 50
    → Distinct b.readers
    → ((i : ℕ) → i < length b.readers → Comes schedule 0 (span rounds (length b.readers)) i)
    → (g : Board) × (broadcast schedule (suc rounds) (length b.readers) text b ≡ some g)
      × (g.readers ≡ heard_all text b.readers)
unfolding broadcast opened WillRead Delivered
broadcast-heard_all schedule rounds text b l d come =
    let ps = start_crowd b.readers in
    let same = length-start_crowd b.readers in
    let (g, e, r) =
      broadcast_loop-Delivered text schedule rounds (length b.readers) 0 ps (opened text b)
        (opened-IsAt text b l) (rw (firsts-start_crowd b.readers) d) same
        (λ i m.
          let c = come i (omega (arith, same, m)) in inr (c.0, c.1, omega (arith, c.2), c.3)) in
    (g, e, r ∙ ap (heard_all text) (firsts-start_crowd b.readers))
