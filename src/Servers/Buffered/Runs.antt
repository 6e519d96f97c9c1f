-- ===== src/Servers/Buffered/Runs.antt =====
-- All runs of the server, whatever the order of its threads.
use mathlib.Core.Path.{subst}
use mathlib.Core.Option.{some-injective}
use eltex_course.Base.{
  ℕ, suc, ◌+◌, ◌≡◌, refl, sym, ap, ◌∙◌, Bool-cases, Option-cases, inl, inr, List, [], ◌∷◌, ◌++◌,
  some, ◌==◌, ==_iff, get_elem?, set, length, length-set, map, total, total-set, Bytes, str_eq,
  arith,
}
use eltex_course.Servers.Buffered.{
  idle, busy, killed, Place, testing, replied, ended, Slot, Main, searching, receiving, stopped,
  System, Event, main_turn, datagram, handler_turn, start, kill_text, kill_slot, receive_turn,
  handle_at, handle, main_step, datagram_step, handler_step, step, run,
}
use eltex_course.Servers.Buffered.Answers.{
  one_if, count-append, held_at, held, bad, IsFree, IsMain, Sound, Keeps, held-handle, bad-handle,
  get_elem?-set_self, get_elem?-set_other, bad_none, search_turn-Keeps,
}

held_at_killed : (c : ℕ) (p : Place) (client : ℕ) → held_at c p killed client ≡ 0
held_at_killed c testing client = refl
held_at_killed c replied client = refl
held_at_killed c ended client = refl

total-kill_slot : (c : ℕ) (slots : List Slot) → total (held c) (map kill_slot slots) ≡ 0
total-kill_slot c [] = refl
total-kill_slot c (d ∷ slots) =
    omega (arith, held_at_killed c d.place d.client, total-kill_slot c slots)

length-kill_slot : (slots : List Slot) → length (map kill_slot slots) ≡ length slots
length-kill_slot [] = refl
length-kill_slot (d ∷ slots) = ap suc (length-kill_slot slots)

receive_turn-Keeps :
    (c : ℕ) (s : System) (f client : ℕ) (text : Bytes)
    → Sound c s
    → s.main ≡ receiving f
    → Keeps c (receive_turn s f client text)
unfolding receive_turn
receive_turn-Keeps c s f client text h e = elim (Bool-cases (str_eq text kill_text)) [
  | inl kill ↦ (
    record s { slots = map kill_slot s.slots; main = stopped },
    rw kill refl,
    record {
      lost = h.lost + total (held c) s.slots;
      balance = omega (arith, h.balance, total-kill_slot c s.slots);
      main = tt;
      size = length-kill_slot s.slots ∙ h.size;
    },
  )
  | inr other ↦
      let ((d, found, r, p), n, b) = subst (λ m. IsMain m s.slots h.lost) e h.main in
      let d' : Slot = record d { client = client; is_ready = busy } in
      let no_client : held c d ≡ 0 = rw (r, p) refl in
      let new_client : held c d' ≡ one_if (client == c) = rw p refl in
      let not_bad : bad d' ≡ 0 = rw p refl in
      (
        record s { slots = set s.slots f d'; main = searching 0; asked = s.asked ++ client ∷ [] },
        rw (other, found) refl,
        record {
          lost = h.lost;
          balance = omega (
            arith,
            h.balance,
            count-append c s.asked (client ∷ []),
            total-set (held c) s.slots f d d' found,
            no_client,
            new_client,
          );
          main = (
            omega arith,
            n,
            omega (
              arith,
              b,
              not_bad,
              bad_none s.slots f d b found,
              total-set bad s.slots f d d' found,
            ),
          );
          size = length-set s.slots f d' ∙ h.size;
        },
      )
]

handle_free : (d : Slot) → d.is_ready ≡ idle → d.place ≡ testing → (handle d).0 ≡ d
unfolding handle_at
handle_free d r p = ap (λ q. (handle_at q d.is_ready d).0) p ∙ ap (λ q. (handle_at testing q d).0) r

still_none :
    (slots : List Slot) (i : ℕ) (d : Slot)
    → total bad slots ≡ 0
    → get_elem? slots i ≡ some d
    → total bad (set slots i (handle d).0) ≡ 0
still_none slots i d b e =
    let old = bad_none slots i d b e in
    omega (arith, b, old, bad-handle d old, total-set bad slots i d (handle d).0 e)

-- A step of another thread, or of the free thread itself, leaves the thread free.
IsFree-handle :
    (slots : List Slot) (f i : ℕ) (d : Slot)
    → IsFree slots f
    → get_elem? slots i ≡ some d
    → IsFree (set slots i (handle d).0) f
IsFree-handle slots f i d (x, found, r, p) e = elim (Bool-cases (i == f)) [
  | inl same ↦
      let same_slot : x ≡ d =
        some-injective x d (sym found ∙ sym (ap (get_elem? slots) ((==_iff i f).0 same)) ∙ e) in
      let still : (handle d).0 ≡ d =
        handle_free d (sym (ap (λ y. y.is_ready) same_slot) ∙ r)
          (sym (ap (λ y. y.place) same_slot) ∙ p) in
      let there = get_elem?-set_self slots i d (handle d).0 e in
      (
        x,
        subst (λ j. get_elem? (set slots i (handle d).0) j ≡ some x) ((==_iff i f).0 same)
            (there ∙ ap some (still ∙ sym same_slot)),
        r,
        p,
      )
  | inr other ↦ (x, get_elem?-set_other slots i f (handle d).0 other ∙ found, r, p)
]

IsMain-handle :
    (m : Main) (slots : List Slot) (lost i : ℕ) (d : Slot)
    → IsMain m slots lost
    → get_elem? slots i ≡ some d
    → IsMain m (set slots i (handle d).0) lost
IsMain-handle (searching j) slots lost i d (l, n, b) e = (l, n, still_none slots i d b e)
IsMain-handle (receiving f) slots lost i d (free, n, b) e =
    (IsFree-handle slots f i d free e, n, still_none slots i d b e)
IsMain-handle stopped slots lost i d h e = tt

handler_turn-Keeps : (c : ℕ) (s : System) (i : ℕ) → Sound c s → Keeps c (step s (handler_turn i))
unfolding step handler_step
handler_turn-Keeps c s i h = elim (Option-cases (get_elem? s.slots i)) [
  | inl outside ↦ (s, ap (λ o. handler_step o s i) outside, h)
  | inr (d, found) ↦
      let d' = (handle d).0 in
      (
        record s { slots = set s.slots i d'; answered = s.answered ++ (handle d).1 },
        ap (λ o. handler_step o s i) found,
        record {
          lost = h.lost;
          balance = omega (
            arith,
            h.balance,
            count-append c s.answered (handle d).1,
            total-set (held c) s.slots i d d' found,
            held-handle c d,
          );
          main = IsMain-handle s.main s.slots h.lost i d h.main found;
          size = length-set s.slots i d' ∙ h.size;
        },
      )
]

main_turn-Keeps : (c : ℕ) (s : System) (m : Main) → Sound c s → s.main ≡ m → Keeps c (main_step m s)
unfolding main_step
main_turn-Keeps c s (searching i) h e = search_turn-Keeps c s i h e
main_turn-Keeps c s (receiving f) h e = (s, refl, h)
main_turn-Keeps c s stopped h e = (s, refl, h)

datagram-Keeps :
    (c : ℕ) (s : System) (m : Main) (client : ℕ) (text : Bytes)
    → Sound c s
    → s.main ≡ m
    → Keeps c (datagram_step m s client text)
unfolding datagram_step
datagram-Keeps c s (searching i) client text h e = (s, refl, h)
datagram-Keeps c s (receiving f) client text h e = receive_turn-Keeps c s f client text h e
datagram-Keeps c s stopped client text h e = (s, refl, h)

step-Keeps : (c : ℕ) (s : System) (e : Event) → Sound c s → Keeps c (step s e)
unfolding step
step-Keeps c s main_turn h = main_turn-Keeps c s s.main h refl
step-Keeps c s (datagram client text) h = datagram-Keeps c s s.main client text h refl
step-Keeps c s (handler_turn i) h = handler_turn-Keeps c s i h

run-Keeps : (c : ℕ) (s : System) (es : List Event) → Sound c s → Keeps c (run s es)
unfolding run
run-Keeps c s [] h = (s, refl, h)
run-Keeps c s (e ∷ es) h =
    let (g, f, k) = step-Keeps c s e h in let (t, r, l) = run-Keeps c g es k in (t, rw f r, l)

start-Sound : (c : ℕ) → Sound c start
unfolding start
start-Sound c = record { lost = 0; balance = refl; main = (omega arith, refl, refl); size = refl }

-- Whatever the order of the steps and of the datagrams, no step leaves the array; the requests of a
-- client that `main` has taken are with a thread, answered once each, or lost, and none is lost before
-- the server is told to end. `main` takes a request only for a thread that is free.
pub run-Sound : (c : ℕ) (es : List Event) → (g : System) × (run start es ≡ some g) × Sound c g
run-Sound c es = run-Keeps c start es (start-Sound c)
