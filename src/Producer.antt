-- ===== src/Producer.antt =====
-- task16_cs_models/producer_consumer/server.c: `main` puts the clients that ask into a message
-- queue, three threads of `handler` take them out and answer with the time. `none` is a thread that
-- waits. The calls of the system succeed; the queue has room; `msgctl` removes the queue behind the
-- steps that are modelled.
pub mod Laws
pub mod Runs
mod Tests
use eltex_course.Base.{
  ℕ, zero, suc, Bool, true, false, List, [], ◌∷◌, ◌++◌, Option, none, some, if◌then◌else◌,
  get_elem?, set,
}
use eltex_course.Base.{◌>>=◌}

-- `struct message`: with `is_ready` 1 a client, with -1 the end of a thread.
pub data Message : Type 0 where
  request : ℕ → Message
  kill : Message

-- A thread of `handler`: before `msgrcv`, between it and `sendto`, and behind the loop.
pub data Handler : Type 0 where
  waiting : Handler
  replying : ℕ → Handler
  stopped : Handler

pub record System : Type 0 where
  pub listening : Bool
  pub queue : List Message
  pub handlers : List Handler
  -- The clients that `sendto` has answered.
  pub answered : List ℕ

unfoldable pub start : System
start = record {
  listening = true;
  queue = [];
  handlers = waiting ∷ waiting ∷ waiting ∷ [];
  answered = [];
}

unfoldable pub thread_killer : List Message → List Message
thread_killer q = q ++ kill ∷ kill ∷ kill ∷ []

-- What `recvfrom` gives to `main`, and the half of a round of a thread.
pub data Event : Type 0 where
  from_client : ℕ → Event
  kill_text : Event
  thread : ℕ → Event

unfoldable pub act : Handler → List Message → List ℕ → Option (Handler × List Message × List ℕ)
act waiting [] a = none
act waiting (request c ∷ q) a = some (replying c, q, a)
act waiting (kill ∷ q) a = some (stopped, q, a)
act (replying c) q a = some (waiting, q, a ++ c ∷ [])
act stopped q a = none

unfoldable pub step : System → Event → Option System
step s (from_client c) =
    if s.listening then some (record s { queue = s.queue ++ request c ∷ [] }) else none
step s kill_text =
    if s.listening
    then some (record s { listening = false; queue = thread_killer s.queue })
    else none
step s (thread i) = do
  h ← get_elem? s.handlers i
  (h', queue, answered) ← act h s.queue s.answered
  some (record s { queue = queue; handlers = set s.handlers i h'; answered = answered })

unfoldable pub run : System → List Event → Option System
run s [] = some s
run s (e ∷ es) = step s e >>= λ s'. run s' es
