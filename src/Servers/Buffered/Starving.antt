-- ===== src/Servers/Buffered/Starving.antt =====
-- The place that the search does not come back to.
use eltex_course.Base.{
  ℕ, ◌≡◌, refl, ap, ◌∙◌, List, [], ◌∷◌, ◌++◌, Option, some, map, get_elem?, set, ◌⊎◌, inl, inr,
}
use eltex_course.Servers.Buffered.{
  busy, Slot, Main, searching, System, Event, main_turn, datagram, handler_turn, search_turn,
  handle, main_step, datagram_step, handler_step, step, run,
}

-- What can happen while the threads 1 and 2 work: `main` searches, thread 0 runs, clients ask.
pub data Meanwhile : Type 0 where
  main_looks : Meanwhile
  first_works : Meanwhile
  comes : ℕ → List ℕ → Meanwhile

abbrev pub event : Meanwhile → Event
event main_looks = main_turn
event first_works = handler_turn 0
event (comes client text) = datagram client text

-- Threads 1 and 2 are at work, and `main` looks at one of them.
pub record Starves (s : System) : Type 0 where
  pub first : Slot
  pub second : Slot
  pub third : Slot
  pub slots : s.slots ≡ first ∷ second ∷ third ∷ []
  pub second_busy : second.is_ready ≡ busy
  pub third_busy : third.is_ready ≡ busy
  pub main : (s.main ≡ searching 1) ⊎ (s.main ≡ searching 2)

at_one :
    (s : System)
    → Starves s
    → s.main ≡ searching 1
    → step s main_turn ≡ some (record s { main = searching 2 })
unfolding step main_step search_turn
at_one s h one =
    let found : get_elem? s.slots 1 ≡ some h.second = ap (λ l. get_elem? l 1) h.slots in
    rw one (rw (found, h.second_busy) refl)

at_two :
    (s : System)
    → Starves s
    → s.main ≡ searching 2
    → step s main_turn ≡ some (record s { main = searching 1 })
unfolding step main_step search_turn
at_two s h two =
    let found : get_elem? s.slots 2 ≡ some h.third = ap (λ l. get_elem? l 2) h.slots in
    rw two (rw (found, h.third_busy) refl)

first_turn :
    (s : System)
    → (h : Starves s)
    → step s (handler_turn 0)
      ≡ some (record s {
        slots = set s.slots 0 (handle h.first).0;
        answered = s.answered ++ (handle h.first).1;
      })
unfolding step handler_step
first_turn s h =
    let found : get_elem? s.slots 0 ≡ some h.first = ap (λ l. get_elem? l 0) h.slots in
    ap (λ o. handler_step o s 0) found

no_datagram :
    (s : System) (client : ℕ) (text : List ℕ) → Starves s → step s (datagram client text) ≡ some s
unfolding step datagram_step
no_datagram s client text h = elim (h.main) [ inl one ↦ rw one refl | inr two ↦ rw two refl ]

abbrev Kept : System → Option System → Type 0
Kept s r = (g : System) × (r ≡ some g) × Starves g × (g.asked ≡ s.asked)

moved :
    (s : System) (i : Main)
    → Starves s
    → (i ≡ searching 1) ⊎ (i ≡ searching 2)
    → Starves (record s { main = i })
moved s i h m = record {
  first = h.first;
  second = h.second;
  third = h.third;
  slots = h.slots;
  second_busy = h.second_busy;
  third_busy = h.third_busy;
  main = m;
}

step-Starves : (s : System) (m : Meanwhile) → Starves s → Kept s (step s (event m))
step-Starves s main_looks h = elim (h.main) [
  | inl one ↦ (_, at_one s h one, moved s (searching 2) h (inr refl), refl)
  | inr two ↦ (_, at_two s h two, moved s (searching 1) h (inl refl), refl)
]
step-Starves s first_works h =
    let d = (handle h.first).0 in
    (
      _,
      first_turn s h,
      record {
        first = d;
        second = h.second;
        third = h.third;
        slots = ap (λ l. set l 0 d) h.slots;
        second_busy = h.second_busy;
        third_busy = h.third_busy;
        main = h.main;
      },
      refl,
    )
step-Starves s (comes client text) h = (s, no_datagram s client text h, h, refl)

-- Once `main` has passed thread 0 while it was at work, and as long as the other two threads are, every
-- run of `main` and of thread 0 leaves the server looking at these two: a thread 0 that is free again is
-- not found, and no datagram is taken.
pub run-Starves :
    (s : System) (ms : List Meanwhile)
    → Starves s
    → (g : System) × (run s (map event ms) ≡ some g) × Starves g × (g.asked ≡ s.asked)
unfolding run
run-Starves s [] h = (s, refl, h, refl)
run-Starves s (m ∷ ms) h =
    let (g, e, k, a) = step-Starves s m h in
    let (f, r, l, b) = run-Starves g ms k in (f, rw e r, l, b ∙ a)
