-- ===== src/Servers/Buffered.antt =====
-- task16_cs_models/parallel_buff/server.c: `main` looks for a free one of three threads and hands it the
-- client of the next datagram; each thread answers. An event is one step of a thread; a datagram that
-- comes while `main` does not receive stays with the socket. The calls of the system succeed. `none` is
-- an access outside of `data`.
pub mod Answers
pub mod Runs
pub mod Starving
use eltex_course.Base.{
  ℕ, zero, suc, ◌+◌, Bool, true, false, List, [], ◌∷◌, ◌++◌, Option, none, some, ◌==◌,
  if◌then◌else◌, get_elem?, set, map, Bytes, str_eq, ◌>>=◌,
}

-- `is_ready`: 0, 1 and -1.
pub data Ready : Type 0 where
  idle : Ready
  busy : Ready
  killed : Ready

-- A thread of `handler`: at the test of `is_ready`, behind `sendto`, and behind the loop.
pub data Place : Type 0 where
  testing : Place
  replied : Place
  ended : Place

-- `struct data_for_handler` with the place of its thread.
pub record Slot : Type 0 where
  pub client : ℕ
  pub is_ready : Ready
  pub place : Place

-- `main`: in the loop over `i`, at `recvfrom` with `free_thread`, and behind its loop.
pub data Main : Type 0 where
  searching : ℕ → Main
  receiving : ℕ → Main
  stopped : Main

pub record System : Type 0 where
  pub slots : List Slot
  pub main : Main
  -- The clients of the datagrams that `main` has taken, and those that have an answer.
  pub asked : List ℕ
  pub answered : List ℕ

pub data Event : Type 0 where
  main_turn : Event
  datagram : ℕ → Bytes → Event
  handler_turn : ℕ → Event

abbrev pub fresh_slot : Slot
fresh_slot = record { client = 0; is_ready = idle; place = testing }

unfoldable pub start : System
start = record {
  slots = fresh_slot ∷ fresh_slot ∷ fresh_slot ∷ [];
  main = searching 0;
  asked = [];
  answered = [];
}

-- "kill"
abbrev pub kill_text : Bytes
kill_text = 107 ∷ 105 ∷ 108 ∷ 108 ∷ []

abbrev pub is_idle : Ready → Bool
is_idle idle = true
is_idle busy = false
is_idle killed = false

-- A round of the loop: after `i = 0` comes `i++`.
unfoldable pub search_turn : System → ℕ → Option System
search_turn s i = get_elem? s.slots i >>= λ d. some (record s {
  main =
      if is_idle d.is_ready then receiving i else if i == 2 then searching 1 else searching (i + 1);
})

abbrev pub kill_slot : Slot → Slot
kill_slot d = record d { is_ready = killed }

unfoldable pub receive_turn : System → ℕ → ℕ → Bytes → Option System
receive_turn s free client text =
    if str_eq text kill_text
    then some (record s { slots = map kill_slot s.slots; main = stopped })
    else (get_elem? s.slots free >>= λ d. some (record s {
      slots = set s.slots free (record d { client = client; is_ready = busy });
      main = searching 0;
      asked = s.asked ++ client ∷ [];
    }))

-- A step of `handler`, with what it sends.
unfoldable pub handle_at : Place → Ready → Slot → Slot × List ℕ
handle_at testing idle d = (d, [])
handle_at testing busy d = (record d { place = replied }, d.client ∷ [])
handle_at testing killed d = (record d { place = ended }, [])
handle_at replied r d = (record d { is_ready = idle; place = testing }, [])
handle_at ended r d = (d, [])

abbrev pub handle : Slot → Slot × List ℕ
handle d = handle_at d.place d.is_ready d

unfoldable pub main_step : Main → System → Option System
main_step (searching i) s = search_turn s i
main_step (receiving free) s = some s
main_step stopped s = some s

unfoldable pub datagram_step : Main → System → ℕ → Bytes → Option System
datagram_step (searching i) s client text = some s
datagram_step (receiving free) s client text = receive_turn s free client text
datagram_step stopped s client text = some s

unfoldable pub handler_step : Option Slot → System → ℕ → Option System
handler_step none s i = some s
handler_step (some d) s i =
    some (record s { slots = set s.slots i (handle d).0; answered = s.answered ++ (handle d).1 })

unfoldable pub step : System → Event → Option System
step s main_turn = main_step s.main s
step s (datagram client text) = datagram_step s.main s client text
step s (handler_turn i) = handler_step (get_elem? s.slots i) s i

unfoldable pub run : System → List Event → Option System
run s [] = some s
run s (e ∷ es) = step s e >>= λ g. run g es
