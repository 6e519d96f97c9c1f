-- ===== src/Producer/Laws.antt =====
-- Where each request is: in the queue, with a thread, or answered; and who is to be ended.
use mathlib.Core.Bool.{false≢true}
use eltex_course.Base.{
  ℕ, suc, ◌+◌, ◌≡◌, ◌≤◌, refl, ◌∙◌, Bool, true, false, Bool-cases, total, total-set, Every,
  Every-self, Every-bind, inl, inr, List, [], ◌∷◌, ◌++◌, some, ◌==◌, if◌then◌else◌, get_elem?, set,
  arith,
}
use eltex_course.Producer.{
  Message, request, kill, Handler, waiting, replying, stopped, System, thread_killer, Event,
  from_client, kill_text, thread, act, step,
}

abbrev pub one_if : Bool → ℕ
one_if b = if b then 1 else 0

-- How often a client stands in a list, in the queue, and with a thread.
abbrev pub count : ℕ → List ℕ → ℕ
count c [] = 0
count c (d ∷ ds) = one_if (d == c) + count c ds

abbrev pub queued : ℕ → List Message → ℕ
queued c [] = 0
queued c (request d ∷ q) = one_if (d == c) + queued c q
queued c (kill ∷ q) = queued c q

abbrev pub held : ℕ → Handler → ℕ
held c waiting = 0
held c (replying d) = one_if (d == c)
held c stopped = 0

abbrev pub kills : List Message → ℕ
kills [] = 0
kills (request d ∷ q) = kills q
kills (kill ∷ q) = suc (kills q)

abbrev pub running : Handler → ℕ
running waiting = 1
running (replying d) = 1
running stopped = 0

pub count-append : (c : ℕ) (xs ys : List ℕ) → count c (xs ++ ys) ≡ count c xs + count c ys
count-append c [] ys = omega arith
count-append c (x ∷ xs) ys = omega (arith, count-append c xs ys)

pub queued-append : (c : ℕ) (q r : List Message) → queued c (q ++ r) ≡ queued c q + queued c r
queued-append c [] r = omega arith
queued-append c (request d ∷ q) r = omega (arith, queued-append c q r)
queued-append c (kill ∷ q) r = queued-append c q r

pub kills-append : (q r : List Message) → kills (q ++ r) ≡ kills q + kills r
kills-append [] r = omega arith
kills-append (request d ∷ q) r = kills-append q r
kills-append (kill ∷ q) r = omega (arith, kills-append q r)

abbrev pub Acted : Type 0
Acted = Handler × List Message × List ℕ

-- A thread moves requests, and ends by a message that is for it.
act-Every :
    (c : ℕ) (h : Handler) (q : List Message) (a : List ℕ)
    → Every
        (λ r.
          (count c r.2 + held c r.0 + queued c r.1 ≡ count c a + held c h + queued c q)
          × (running r.0 + kills q ≡ running h + kills r.1)
          × (kills r.1 ≤ kills q))
        (act h q a)
unfolding act
act-Every c waiting [] a = tt
act-Every c waiting (request d ∷ q) a = (omega arith, omega arith, omega arith)
act-Every c waiting (kill ∷ q) a = (omega arith, omega arith, omega arith)
act-Every c (replying d) q a = (omega (arith, count-append c a (d ∷ [])), omega arith, omega arith)
act-Every c stopped q a = tt

-- How many requests of `c` there are, and that no thread is ended too much or too little.
pub record Balanced (c n : ℕ) (s : System) : Type 0 where
  pub requests : count c s.answered + total (held c) s.handlers + queued c s.queue ≡ n
  pub ends : total running s.handlers ≡ (if s.listening then 3 else kills s.queue)
  pub no_kills : s.listening ≡ true → kills s.queue ≡ 0

-- The clients whose requests an event brings.
abbrev pub brought : ℕ → Event → ℕ
brought c (from_client d) = one_if (d == c)
brought c kill_text = 0
brought c (thread i) = 0

all_run :
    (c n : ℕ) (s : System) → Balanced c n s → s.listening ≡ true → total running s.handlers ≡ 3
all_run c n s b on = b.ends ∙ rw on refl

none_listens :
    (c n : ℕ) (s : System)
    → Balanced c n s
    → s.listening ≡ false
    → total running s.handlers ≡ kills s.queue
none_listens c n s b off = b.ends ∙ rw off refl

pub step-client :
    (c n d : ℕ) (s : System)
    → Balanced c n s
    → Every (Balanced c (n + one_if (d == c))) (step s (from_client d))
unfolding step
step-client c n d s b = elim (Bool-cases s.listening) [
  | inr off ↦ rw off tt
  | inl on ↦ simp (on) (record {
    requests = omega (arith, b.requests, queued-append c s.queue (request d ∷ []));
    ends = all_run c n s b on;
    no_kills = λ _. kills-append s.queue (request d ∷ []) ∙ omega (arith, b.no_kills on);
  })
]

pub step-kill :
    (c n : ℕ) (s : System) → Balanced c n s → Every (Balanced c (n + 0)) (step s kill_text)
unfolding step thread_killer
step-kill c n s b = elim (Bool-cases s.listening) [
  | inr off ↦ rw off tt
  | inl on ↦ simp (on) (record {
    requests = omega (arith, b.requests, queued-append c s.queue (kill ∷ kill ∷ kill ∷ []));
    ends =
        omega (
          arith,
          all_run c n s b on,
          b.no_kills on,
          kills-append s.queue (kill ∷ kill ∷ kill ∷ []),
        );
    no_kills = λ no. absurd (false≢true no);
  })
]

Moved : ℕ → System → Handler → Acted → Type 0
Moved c s h r =
    (count c r.2 + held c r.0 + queued c r.1 ≡ count c s.answered + held c h + queued c s.queue)
    × (running r.0 + kills s.queue ≡ running h + kills r.1)
    × (kills r.1 ≤ kills s.queue)

acted-Balanced :
    (c n i : ℕ) (s : System)
    → Balanced c n s
    → (h : Handler) (r : Acted) → get_elem? s.handlers i ≡ some h
    → Moved c s h r
    → Balanced c (n + 0) (record s { queue = r.1; handlers = set s.handlers i r.0; answered = r.2 })
unfolding Moved
acted-Balanced c n i s b h r e (k, l, m) = record {
  requests = omega (arith, b.requests, k, total-set (held c) s.handlers i h r.0 e);
  ends = elim (Bool-cases s.listening) [
    | inl on ↦ rw on (
        omega
          (arith, all_run c n s b on, b.no_kills on, l, m, total-set running s.handlers i h r.0 e))
    | inr off ↦
        rw off
          (omega (arith, none_listens c n s b off, l, m, total-set running s.handlers i h r.0 e))
  ];
  no_kills = λ on. omega (arith, b.no_kills on, m);
}

pub step-thread :
    (c n i : ℕ) (s : System) → Balanced c n s → Every (Balanced c (n + 0)) (step s (thread i))
unfolding step Moved
step-thread c n i s b =
    Every-bind (λ h. get_elem? s.handlers i ≡ some h) (Balanced c (n + 0)) (get_elem? s.handlers i)
      _ (Every-self (get_elem? s.handlers i))
      (λ h e.
        Every-bind _ (Balanced c (n + 0)) (act h s.queue s.answered) _
          (act-Every c h s.queue s.answered) (λ r k. acted-Balanced c n i s b h r e k))
