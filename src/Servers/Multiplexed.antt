-- ===== src/Servers/Multiplexed.antt =====
-- task16_cs_models/multyplexed_fd/server.c: the loop over `select` of a UDP and a TCP socket. A round has
-- what `select` finds: a datagram of a client, and a connection with its bytes. The calls of the system
-- succeed. `buff` keeps what it held behind the bytes that come.
pub mod Rounds
use eltex_course.Base.{
  ℕ, ◌+◌, ◌/◌, ◌%◌, Bool, true, false, List, [], ◌∷◌, ◌++◌, Option, none, some, if◌then◌else◌,
  length, drop, Bytes, str_eq, c_str, strcpy,
}

-- What `localtime` gives.
pub record Time : Type 0 where
  pub tm_hour : ℕ
  pub tm_min : ℕ
  pub tm_sec : ℕ

-- `%02d`, of a number below 100
abbrev pub two_digits : ℕ → Bytes → Bytes
two_digits n rest = (48 + n / 10 % 10) ∷ (48 + n % 10) ∷ rest

-- "%02d:%02d:%02d\n"
abbrev pub time_text : Time → Bytes
time_text t = two_digits t.tm_hour (58 ∷ two_digits t.tm_min (58 ∷ two_digits t.tm_sec (10 ∷ [])))

pub data Peer : Type 0 where
  udp_client : ℕ → Peer
  tcp_client : Peer

pub record Round : Type 0 where
  pub now : Time
  pub from_udp : Option (ℕ × List ℕ)
  pub from_tcp : Option (List ℕ)

pub record System : Type 0 where
  pub buff : List ℕ
  -- How many descriptors are open.
  pub descriptors : ℕ
  -- The buffers that have been sent.
  pub replies : List (Peer × List ℕ)

-- "kill"
abbrev pub kill_text : Bytes
kill_text = 107 ∷ 105 ∷ 108 ∷ 108 ∷ []

-- `recvfrom` and `recv` write over the front of `buff`.
unfoldable pub receive : System → List ℕ → System
receive s bytes = record s { buff = bytes ++ drop (length bytes) s.buff }

unfoldable pub reply : System → Time → Peer → System
reply s now peer =
    let buff = strcpy s.buff (time_text now) in
    record s { buff = buff; replies = s.replies ++ (peer, buff) ∷ [] }

-- The text in `buff` ends the loop, or is answered.
unfoldable pub handle : System → Time → Peer → System × Bool
handle s now peer = if str_eq (c_str s.buff) kill_text then (s, false) else (reply s now peer, true)

unfoldable pub udp_handler : System → Time → Option (ℕ × List ℕ) → System × Bool
udp_handler s now none = (s, true)
udp_handler s now (some m) = handle (receive s m.1) now (udp_client m.0)

-- `accept` opens a descriptor.
unfoldable pub tcp_handler : System → Time → Option (List ℕ) → System × Bool
tcp_handler s now none = (s, true)
tcp_handler s now (some bytes) =
    handle (receive (record s { descriptors = s.descriptors + 1 }) bytes) now tcp_client

unfoldable pub round : System → Round → System × Bool
round s r =
    let u = udp_handler s r.now r.from_udp in if u.1 then tcp_handler u.0 r.now r.from_tcp else u

unfoldable pub run : System → List Round → System × Bool
run s [] = (s, true)
run s (r ∷ rs) = let rest = run (round s r).0 rs in if (round s r).1 then rest else round s r
