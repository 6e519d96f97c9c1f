-- ===== src/SharedChat/Board.antt =====
-- task14/chat/src/server.c, `broadcast`, and client.c, the part of `message_handler` that reads: the
-- second message of the shared memory, which the server writes for all clients.
--
-- The threads of the server write it one after another under semaphore 4. A client takes its turn
-- when it gets semaphore 3; a turn is one step here. `schedule` says which clients come after each
-- `sem_post(3)`, and `usleep` gives them the time. Process ids are positive.
pub mod Crowd
pub mod Fairness
pub mod Delivery
pub mod Collision
use eltex_course.Base.{
  ℕ, zero, suc, ◌+◌, ◌-◌, ◌*◌, ◌%◌, Bool, true, false, List, [], ◌∷◌, ◌++◌, Option, none, some,
  ◌==◌, if◌then◌else◌, get_elem?, get_or, set, Bytes,
}

-- A client, with the texts that it has read.
pub record Reader : Type 0 where
  pub pid : ℕ
  pub inbox : List Bytes

-- `shm[1]`, semaphore 3, and the clients that run.
pub record Board : Type 0 where
  pub mtext : Bytes
  pub am_i_read : List ℕ
  pub posts : ℕ
  pub readers : List Reader

abbrev pub slot : ℕ → ℕ
slot pid = pid * 2654435761 % 30

unfoldable pub fill : List ℕ → ℕ → List ℕ
fill [] num = []
fill (x ∷ arr) num = num ∷ fill arr num

unfoldable pub checksum : List ℕ → ℕ
checksum [] = 0
checksum (x ∷ arr) = x + checksum arr

unfoldable pub sem_post : Board → Board
sem_post b = record b { posts = b.posts + 1 }

abbrev pub heard : Reader → Bytes → Reader
heard r text = record r { inbox = r.inbox ++ text ∷ [] }

-- The turn of a client behind `sem_sub(3)`.
unfoldable pub read_turn : Board → ℕ → Reader → Board
read_turn b i r =
    if get_or b.am_i_read (slot r.pid) 0 == 1
    then record b { am_i_read = set b.am_i_read (slot r.pid) 1 }
    else record b {
      am_i_read = set b.am_i_read (slot r.pid) 1;
      readers = set b.readers i (heard r b.mtext);
    }

-- A client that comes to the semaphore: it waits, or it has its turn.
unfoldable pub take_turn : Board → ℕ → Board
take_turn b i = if b.posts == 0 then b else elim (get_elem? b.readers i) [
  | none ↦ b
  | some r ↦ read_turn (record b { posts = b.posts - 1 }) i r
]

unfoldable pub turns : Board → List ℕ → Board
turns b [] = b
turns b (i ∷ is) = turns (take_turn b i) is

module _ (schedule : ℕ → List ℕ) where
  -- The inner loop, from the time `k` on.
  unfoldable pub post_loop : ℕ → ℕ → Board → Board
  post_loop zero k b = b
  post_loop (suc n) k b = post_loop n (k + 1) (turns (sem_post b) (schedule k))

  -- The outer loop, on fuel.
  unfoldable pub broadcast_loop : ℕ → ℕ → ℕ → Board → Option Board
  broadcast_loop zero online k b = none
  broadcast_loop (suc fuel) online k b =
      let rest = broadcast_loop fuel online (k + online) (post_loop online k b) in
      if checksum b.am_i_read == online then some b else rest

  -- `broadcast(msg, shm, 0)`
  unfoldable pub broadcast : ℕ → ℕ → Bytes → Board → Option Board
  broadcast fuel online text b =
      broadcast_loop fuel online 0 (record b { mtext = text; am_i_read = fill b.am_i_read 0 })
