-- ===== src/Echo/Server.antt =====
-- task_echo/src/server.c, the loop of `main`: one call of `handle` for each datagram that
-- `recvfrom` delivers. The packet's header fields are given as decoded; the payload is the C
-- string behind the UDP header. `fresh` is the address that `malloc` returns, if it is called.
-- The command thread, the signal handler and the socket calls are not modelled.
pub mod Counts
pub mod Refinement
pub mod Replies
use eltex_course.Base.{
  ℕ, ◌+◌, ◌-◌, ◌*◌, ◌%◌, Bool, List, [], ◌∷◌, ◌++◌, Option, none, some, ◌==◌, if◌then◌else◌, take,
  length, Bytes, codes, str_eq, c_str,
}
use eltex_course.Memory.{Ptr}
use eltex_course.Base.{◌>>=◌}
use eltex_course.Echo.List.{Nodes, Clients, list_add, list_switch_off}

pub record Packet : Type 0 where
  pub ihl : ℕ
  pub saddr : ℕ
  pub source : ℕ
  pub dest : ℕ
  pub payload : Bytes

pub record Reply : Type 0 where
  pub source : ℕ
  pub dest : ℕ
  pub len : ℕ
  pub text : Bytes

abbrev pub buff_size : ℕ
buff_size = 1028

abbrev pub server_port : ℕ
server_port = 8080

abbrev pub udp_header : ℕ
udp_header = 8

abbrev pub exit_text : Bytes
exit_text = 33 ∷ 101 ∷ 120 ∷ 105 ∷ 116 ∷ 10 ∷ []

-- `payload[strlen(payload) - 1] = '\0'`. On an empty payload the write hits the UDP header, which
-- the reply overwrites.
unfoldable pub drop_last : Bytes → Bytes
drop_last [] = []
drop_last (c ∷ []) = []
drop_last (c ∷ d ∷ cs) = c ∷ drop_last (d ∷ cs)

-- `*count = list_add(...) + '0'`, a `char`
pub count_char : ℕ → ℕ
count_char n = (n + 48) % 256

-- `snprintf(response, sizeof(response), "%s %c", payload, *count)`, read back as a C string
pub response : ℕ → Bytes → ℕ → Bytes
unfolding drop_last count_char
response iph_size payload count =
    c_str (
      take (buff_size - iph_size - udp_header - 1)
        (drop_last payload ++ 32 ∷ count_char count ∷ []))

pub reply : Packet → ℕ → Reply
unfolding response
reply p count =
    let text = response (p.ihl * 4) p.payload count in
    record {
      source = server_port;
      dest = p.source;
      len = (udp_header + length text + 1) % 65536;
      text = text;
    }

handle_message : Nodes → Clients → Ptr → Packet → Option (Nodes × Clients × Option Reply)
handle_message m l fresh p = do
  (count, m, l) ← list_add m l fresh p.saddr p.source
  some (m, l, some (reply p count))

handle_exit : Nodes → Clients → Packet → Option (Nodes × Clients × Option Reply)
handle_exit m l p = do m ← list_switch_off m l p.saddr p.source; some (m, l, none)

pub handle : Nodes → Clients → Ptr → Packet → Option (Nodes × Clients × Option Reply)
unfolding handle_message handle_exit
handle m l fresh p =
    if p.dest == server_port
    then (if str_eq p.payload exit_text then handle_exit m l p else handle_message m l fresh p)
    else some (m, l, none)

-- The loop over the datagrams of a run, with the address for each.
pub serve : Nodes → Clients → List (Ptr × Packet) → Option (Nodes × Clients × List (Option Reply))
serve m l [] = some (m, l, [])
serve m l ((fresh, p) ∷ ps) = do
  (m, l, r) ← handle m l fresh p
  (m, l, rs) ← serve m l ps
  some (m, l, r ∷ rs)
