-- ===== src/Echo/Tests.antt =====
-- The echo server on two clients, and its theorems at these inputs.
use eltex_course.Base.{◌≡◌, refl, List, [], ◌∷◌, none, some, arith}
use eltex_course.Memory.{Ptr, write}
use eltex_course.Echo.List.{Nodes, Clients, list_init, list_add, list_switch_off, list_kill}
use eltex_course.Echo.List.Chain.{Cell, node, IsList, count_of, set_count}
use eltex_course.Echo.List.Adding.{Added, list_add-counted}
use eltex_course.Echo.List.Killing.{Freed, list_switch_off-set_count, list_kill-Freed}
use eltex_course.Echo.Server.{Packet, reply, drop_last}
use eltex_course.Echo.Server.Counts.{Agrees, differs}
use eltex_course.Echo.Server.Refinement.{Served, serve-Served}
use eltex_course.Echo.Server.Replies.{reply-text}

abbrev ann : Cell
ann = record { at = 4; ip = 7; port = 50; count = 2 }

abbrev bob : Cell
bob = record { at = 9; ip = 7; port = 51; count = 1 }

abbrev nodes : Nodes
nodes = write (write (λ _. none) 4 (some (node ann 9))) 9 (some (node bob 0))

abbrev clients : Clients
clients = record { head = 4; tail = 9; size = 2 }

clients-IsList : IsList nodes clients (ann ∷ bob ∷ [])
unfolding write
clients-IsList = record {
  head = refl;
  tail = refl;
  size = refl;
  chain = (omega arith, refl, refl, (omega arith, refl, refl, tt));
}

list_add-counted_example : Added clients (ann ∷ bob ∷ []) 12 7 51 (list_add nodes clients 12 7 51)
list_add-counted_example =
    list_add-counted nodes clients 12 7 51 (omega arith) (ann ∷ bob ∷ []) clients-IsList refl

list_switch_off-set_count_example :
    (g : Nodes) × (list_switch_off nodes clients 7 51 ≡ some g)
    × IsList g clients (set_count (ann ∷ bob ∷ []) 7 51 0)
list_switch_off-set_count_example =
    list_switch_off-set_count nodes clients (ann ∷ bob ∷ []) 7 51 clients-IsList

list_kill-Freed_example :
    (g : Nodes) × (list_kill nodes clients ≡ some g) × Freed nodes (ann ∷ bob ∷ []) g
list_kill-Freed_example = list_kill-Freed nodes clients (ann ∷ bob ∷ []) clients-IsList

abbrev hello : Packet
hello = record { ihl = 5; saddr = 7; source = 50; dest = 8080; payload = 104 ∷ 105 ∷ 10 ∷ [] }

abbrev bye : Packet
bye = record hello { payload = 33 ∷ 101 ∷ 120 ∷ 105 ∷ 116 ∷ 10 ∷ [] }

abbrev elsewhere : Packet
elsewhere = record hello { dest = 53 }

abbrev run : List (Ptr × Packet)
run = (4, hello) ∷ (9, hello) ∷ (10, elsewhere) ∷ (11, bye) ∷ (12, hello) ∷ []

serve-Served_example : Served (λ _. none) list_init (λ _ _. 0) run
unfolding list_init Agrees count_of differs
serve-Served_example =
    serve-Served (λ _. none) list_init [] (λ _ _. 0) run
      (record { head = refl; tail = refl; size = refl; chain = tt }) (λ ip port. refl)
      (
        omega arith,
        refl,
        refl,
        (
          omega arith,
          refl,
          refl,
          (omega arith, refl, refl, (omega arith, refl, refl, (omega arith, refl, refl, tt))),
        ),
      )

reply-text_example : ((reply hello 3).text ≡ 104 ∷ 105 ∷ 32 ∷ 51 ∷ []) × ((reply hello 3).len ≡ 13)
unfolding drop_last
reply-text_example =
    reply-text hello 3 104 (105 ∷ 10 ∷ []) refl (omega arith) (omega arith) (omega arith)
      (omega arith)
