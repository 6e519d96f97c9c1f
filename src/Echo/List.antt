-- ===== src/Echo/List.antt =====
-- task_echo/include/list.h and src/list.c: the clients as a singly linked list with a tail
-- pointer. `struct list` stands outside the memory of the nodes; an operation that updates it
-- returns the new value, and `none` is a fault. Addresses and ports are the `int`s that the
-- packet holds, which are only compared. `count` is taken to stay within an `int`. A loop over the nodes gets `size + 1` rounds.
pub mod Chain
pub mod Counting
pub mod Adding
pub mod Killing
use eltex_course.Base.{ℕ, zero, suc, ◌+◌, Bool, ◌&&◌, Option, none, some, ◌==◌, if◌then◌else◌}
use eltex_course.Memory.{Ptr, Memory, load, store, fill, release}
use eltex_course.Base.{◌>>=◌}

pub record Node : Type 0 where
  pub ip : ℕ
  pub port : ℕ
  pub count : ℕ
  pub next : Ptr

pub record Clients : Type 0 where
  pub head : Ptr
  pub tail : Ptr
  pub size : ℕ

abbrev pub Nodes : Type 0
Nodes = Memory Node

unfoldable pub list_init : Clients
list_init = record { size = 0; head = 0; tail = 0 }

abbrev pub same_client : Node → ℕ → ℕ → Bool
same_client n ip port = n.ip == ip && n.port == port

find_loop : ℕ → Nodes → Ptr → ℕ → ℕ → Option Ptr
find_loop zero m n ip port = none
find_loop (suc k) m n ip port =
    let rest =
      load m n >>= λ x. if same_client x ip port then some n else find_loop k m x.next ip port in
    if n == 0 then some 0 else rest

pub list_find : Nodes → Clients → ℕ → ℕ → Option Ptr
unfolding find_loop
list_find m l ip port = find_loop (l.size + 1) m l.head ip port

abbrev pub fresh_node : ℕ → ℕ → Node
fresh_node ip port = record { ip = ip; port = port; count = 1; next = 0 }

-- `fresh` is what `malloc` returns. The result is the count, the nodes and the list.
add_first : Nodes → Clients → Ptr → ℕ → ℕ → Option (ℕ × Nodes × Clients)
add_first m l fresh ip port = do
  m ← fill m fresh (fresh_node ip port)
  some (1, m, record { head = fresh; tail = fresh; size = l.size + 1 })

add_last : Nodes → Clients → Ptr → ℕ → ℕ → Option (ℕ × Nodes × Clients)
add_last m l fresh ip port = do
  m ← fill m fresh (fresh_node ip port)
  last ← load m l.tail
  m ← store m l.tail (record last { next = fresh })
  some (1, m, record l { tail = fresh; size = l.size + 1 })

add_again : Nodes → Clients → Ptr → Option (ℕ × Nodes × Clients)
add_again m l n = do
  x ← load m n
  m ← store m n (record x { count = x.count + 1 })
  some (x.count + 1, m, l)

pub list_add : Nodes → Clients → Ptr → ℕ → ℕ → Option (ℕ × Nodes × Clients)
unfolding add_first add_last add_again
list_add m l fresh ip port =
    if l.head == 0
    then add_first m l fresh ip port
    else (list_find m l ip port >>= λ n.
        if n == 0 then add_last m l fresh ip port else add_again m l n)

switch_off_node : Nodes → Ptr → Option Nodes
switch_off_node m n = do x ← load m n; store m n (record x { count = 0 })

pub list_switch_off : Nodes → Clients → ℕ → ℕ → Option Nodes
unfolding switch_off_node
list_switch_off m l ip port =
    list_find m l ip port >>= λ n. if n == 0 then some m else switch_off_node m n

kill_loop : ℕ → Nodes → Ptr → Option Nodes
kill_loop zero m n = none
kill_loop (suc k) m n =
    let rest = load m n >>= λ x. release m n >>= λ m'. kill_loop k m' x.next in
    if n == 0 then some m else rest

pub list_kill : Nodes → Clients → Option Nodes
unfolding kill_loop
list_kill m l = kill_loop (l.size + 1) m l.head
