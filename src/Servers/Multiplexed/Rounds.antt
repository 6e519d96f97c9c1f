-- ===== src/Servers/Multiplexed/Rounds.antt =====
-- The rounds of the server against the list of the requests.
use eltex_course.Base.{
  ℕ, zero, suc, ◌+◌, ◌/◌, ◌%◌, ◌≡◌, ◌≤◌, refl, sym, ap, ◌∙◌, Bool, true, false, Bool-cases, inl,
  inr, List, [], ◌∷◌, ◌++◌, append-nil, append_assoc, Option, none, some, if◌then◌else◌, length,
  drop, map, Bytes, str_eq, c_str, strcpy, c_str-strcpy, length-strcpy, arith,
}
use eltex_course.Servers.Multiplexed.{
  Time, time_text, Peer, udp_client, tcp_client, Round, System, kill_text, receive, reply, handle,
  udp_handler, tcp_handler, round, run,
}

-- A client sends its whole buffer of 16 bytes.
abbrev pub WholeUdp : Option (ℕ × List ℕ) → Type 0
WholeUdp none = Unit {0}
WholeUdp (some m) = length m.1 ≡ 16

abbrev pub WholeTcp : Option (List ℕ) → Type 0
WholeTcp none = Unit {0}
WholeTcp (some bytes) = length bytes ≡ 16

abbrev pub AllWhole : List Round → Type 0
AllWhole [] = Unit {0}
AllWhole (r ∷ rs) = (WholeUdp r.from_udp × WholeTcp r.from_tcp) × AllWhole rs

-- "hours:minutes:seconds", two digits each, and the end of the line.
abbrev pub clock : Time → Bytes
clock t =
    (48 + t.tm_hour / 10 % 10)
    ∷ (48 + t.tm_hour % 10)
    ∷ 58
    ∷ (48 + t.tm_min / 10 % 10)
    ∷ (48 + t.tm_min % 10)
    ∷ 58
    ∷ (48 + t.tm_sec / 10 % 10)
    ∷ (48 + t.tm_sec % 10)
    ∷ 10
    ∷ []

-- What is answered to one request, and whether the loop goes on.
abbrev pub answer : Time → Peer → List ℕ → List (Peer × Bytes) × Bool
answer now peer bytes =
    if str_eq (c_str bytes) kill_text then ([], false) else ((peer, clock now) ∷ [], true)

abbrev pub udp_answer : Time → Option (ℕ × List ℕ) → List (Peer × Bytes) × Bool
udp_answer now none = ([], true)
udp_answer now (some m) = answer now (udp_client m.0) m.1

abbrev pub tcp_answer : Time → Option (List ℕ) → List (Peer × Bytes) × Bool
tcp_answer now none = ([], true)
tcp_answer now (some bytes) = answer now tcp_client bytes

abbrev pub connections : Option (List ℕ) → ℕ
connections none = 0
connections (some bytes) = 1

-- The answers, the connections that are accepted, and whether the loop goes on.
abbrev pub answers : List Round → List (Peer × Bytes) × ℕ × Bool
answers [] = ([], 0, true)
answers (r ∷ rs) =
    let u = udp_answer r.now r.from_udp in
    let t = tcp_answer r.now r.from_tcp in
    let rest = answers rs in
    if u.1
    then if t.1
      then (u.0 ++ t.0 ++ rest.0, connections r.from_tcp + rest.1, rest.2)
      else (u.0 ++ t.0, connections r.from_tcp, false)
    else (u.0, 0, false)

-- The texts that the peers read.
abbrev pub texts : List (Peer × List ℕ) → List (Peer × Bytes)
texts rs = map (λ r. (r.0, c_str r.1)) rs

-- The state `g` after the state `s`, with what has been answered between.
pub record After (s : System) (out : List (Peer × Bytes)) (opened : ℕ) (g : System) : Type 0 where
  pub replies : texts g.replies ≡ texts s.replies ++ out
  pub descriptors : g.descriptors ≡ s.descriptors + opened
  pub size : length g.buff ≡ 16

drop_all : (n : ℕ) (xs : List ℕ) → length xs ≤ n → drop n xs ≡ []
drop_all zero [] h = refl
drop_all (suc n) [] h = refl
drop_all zero (x ∷ xs) h = absurd (omega (arith, h))
drop_all (suc n) (x ∷ xs) h = drop_all n xs (omega (arith, h))

receive-whole :
    (s : System) (bytes : List ℕ)
    → length s.buff ≡ 16
    → length bytes ≡ 16
    → receive s bytes ≡ record s { buff = bytes }
unfolding receive
receive-whole s bytes b l =
    ap (λ buff. record s { buff = buff })
      (ap (◌++◌ bytes) (drop_all (length bytes) s.buff (omega (arith, b, l))) ∙ append-nil bytes)

c_str-time_text : (t : Time) → c_str (time_text t) ≡ time_text t
unfolding c_str
c_str-time_text t = ground arith

texts-snoc :
    (rs : List (Peer × List ℕ)) (r : Peer × List ℕ)
    → texts (rs ++ r ∷ []) ≡ texts rs ++ (r.0, c_str r.1) ∷ []
texts-snoc [] r = refl
texts-snoc (x ∷ rs) r = ap (◌∷◌ (x.0, c_str x.1)) (texts-snoc rs r)

handle-After :
    (s : System) (now : Time) (peer : Peer)
    → length s.buff ≡ 16
    → After s (answer now peer s.buff).0 0 (handle s now peer).0
      × ((handle s now peer).1 ≡ (answer now peer s.buff).1)
unfolding handle reply
handle-After s now peer l = elim (Bool-cases (str_eq (c_str s.buff) kill_text)) [
  | inl kill ↦ rw kill (
    record { replies = sym (append-nil (texts s.replies)); descriptors = omega arith; size = l },
    refl,
  )
  | inr other ↦
      let read : c_str (strcpy s.buff (time_text now)) ≡ time_text now =
        c_str-strcpy s.buff (time_text now) ∙ c_str-time_text now in
      rw other (
        record {
          replies =
              texts-snoc s.replies (peer, strcpy s.buff (time_text now))
              ∙ ap (λ t. texts s.replies ++ (peer, t) ∷ []) read;
          descriptors = omega arith;
          size =
              length-strcpy s.buff (time_text now) (rw (c_str-time_text now, l) (omega arith)) ∙ l;
        },
        refl,
      )
]

-- A handler that finds nothing.
After-self : (s : System) → length s.buff ≡ 16 → After s [] 0 s
After-self s l = record {
  replies = sym (append-nil (texts s.replies));
  descriptors = omega arith;
  size = l;
}

udp_handler-After :
    (s : System) (now : Time) (m : Option (ℕ × List ℕ))
    → length s.buff ≡ 16
    → WholeUdp m
    → After s (udp_answer now m).0 0 (udp_handler s now m).0
      × ((udp_handler s now m).1 ≡ (udp_answer now m).1)
unfolding udp_handler
udp_handler-After s now none l w = (After-self s l, refl)
udp_handler-After s now (some m) l w =
    let (a, b) = handle-After (record s { buff = m.1 }) now (udp_client m.0) w in
    rw (receive-whole s m.1 l w)
      (record { replies = a.replies; descriptors = a.descriptors; size = a.size }, b)

tcp_handler-After :
    (s : System) (now : Time) (m : Option (List ℕ))
    → length s.buff ≡ 16
    → WholeTcp m
    → After s (tcp_answer now m).0 (connections m) (tcp_handler s now m).0
      × ((tcp_handler s now m).1 ≡ (tcp_answer now m).1)
unfolding tcp_handler
tcp_handler-After s now none l w = (After-self s l, refl)
tcp_handler-After s now (some bytes) l w =
    let s' : System = record s { descriptors = s.descriptors + 1 } in
    let (a, b) = handle-After (record s' { buff = bytes }) now tcp_client w in
    rw (receive-whole s' bytes l w)
      (record { replies = a.replies; descriptors = omega (arith, a.descriptors); size = a.size }, b)

After-trans :
    (s g f : System) (xs ys : List (Peer × Bytes)) (m n k : ℕ)
    → After s xs m g
    → After g ys n f
    → m + n ≡ k
    → After s (xs ++ ys) k f
After-trans s g f xs ys m n k a b o = record {
  replies = b.replies ∙ ap (λ l. l ++ ys) a.replies ∙ append_assoc (texts s.replies) xs ys;
  descriptors = omega (arith, a.descriptors, b.descriptors, o);
  size = b.size;
}

-- Clients send their whole buffers. Then the server answers each request once, in order, the datagram
-- of a round before its connection, with the time of the round, up to the first "kill", which ends it;
-- what was in `buff` before has no part in it. Of the descriptors that it opens for connections it closes
-- none.
pub run-answers :
    (s : System) (rs : List Round)
    → length s.buff ≡ 16
    → AllWhole rs
    → After s (answers rs).0 (answers rs).1 (run s rs).0 × ((run s rs).1 ≡ (answers rs).2)
unfolding run round
run-answers s [] l w = (After-self s l, refl)
run-answers s (r ∷ rs) l w =
    let (a, b) = udp_handler-After s r.now r.from_udp l w.0.0 in
    let u = (udp_handler s r.now r.from_udp).0 in
    let (c, d) = tcp_handler-After u r.now r.from_tcp a.size w.0.1 in
    let t = (tcp_handler u r.now r.from_tcp).0 in
    let (e, f) = run-answers t rs c.size w.1 in
    let n = connections r.from_tcp in
    let both =
      After-trans s u t (udp_answer r.now r.from_udp).0 (tcp_answer r.now r.from_tcp).0 0 n n a c
        (omega arith) in
    elim (Bool-cases (udp_answer r.now r.from_udp).1) [
      | inl on ↦ elim (Bool-cases (tcp_answer r.now r.from_tcp).1) [
        | inl on_too ↦
            rw (b, d, on, on_too)
              (
                After-trans s t (run t rs).0 _ (answers rs).0 n (answers rs).1 (n + (answers rs).1)
                    both e refl,
                f,
              )
        | inr off ↦ rw (b, d, on, off) (both, refl)
      ]
      | inr off ↦ rw (b, off) (a, refl)
    ]
