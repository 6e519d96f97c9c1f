-- ===== src/Echo/Server/Replies.antt =====
-- The text and the length of a reply.
use eltex_course.Base.{
  ℕ, zero, suc, ◌+◌, ◌-◌, ◌*◌, ◌≤◌, ◌<◌, ◌≡◌, refl, ap, [], ◌∷◌, ◌++◌, arith, length, length-append,
  take, Bytes, NoZero, c_str-NoZero, ◌%◌,
}
use eltex_course.Echo.Server.{Packet, drop_last, count_char, response, reply, buff_size, udp_header}

take-all : (n : ℕ) (xs : Bytes) → length xs ≤ n → take n xs ≡ xs
take-all zero [] h = refl
take-all zero (x ∷ xs) h = absurd (omega arith)
take-all (suc n) [] h = refl
take-all (suc n) (x ∷ xs) h = ap (◌∷◌ x) (take-all n xs (omega arith))

digit : (n : ℕ) → n < 10 → (n + 48) % 256 ≡ n + 48
digit n h = omega arith

length-drop_last : (c : ℕ) (cs : Bytes) → length (drop_last (c ∷ cs)) ≡ length cs
unfolding drop_last
length-drop_last c [] = refl
length-drop_last c (d ∷ cs) = ap suc (length-drop_last d cs)

NoZero-drop_last : (xs ys : Bytes) → NoZero xs → NoZero ys → NoZero (drop_last xs ++ ys)
unfolding drop_last
NoZero-drop_last [] ys h k = k
NoZero-drop_last (c ∷ []) ys h k = k
NoZero-drop_last (c ∷ d ∷ cs) ys h k = (h.0, NoZero-drop_last (d ∷ cs) ys h.1 k)

-- The reply to a line that leaves room for two more bytes, while the count has one digit: the line
-- without its last byte, a space and the digit of the count; the UDP length is that of the header,
-- the text and its terminator.
pub reply-text :
    (p : Packet) (count c : ℕ) (cs : Bytes)
    → p.payload ≡ c ∷ cs
    → NoZero (c ∷ cs)
    → count < 10
    → p.ihl < 16
    → length cs + 2 < buff_size - p.ihl * 4 - udp_header
    → ((reply p count).text ≡ drop_last p.payload ++ 32 ∷ (count + 48) ∷ [])
      × ((reply p count).len ≡ udp_header + length p.payload + 2)
unfolding reply response count_char
reply-text p count c cs e nz small ihl fits =
    let tail : Bytes = 32 ∷ (count + 48) ∷ [] in
    let size : length (drop_last (c ∷ cs) ++ tail) ≡ length cs + 2 =
      omega (arith, length-append (drop_last (c ∷ cs)) tail, length-drop_last c cs) in
    let text : response (p.ihl * 4) (c ∷ cs) count ≡ drop_last (c ∷ cs) ++ tail =
      rw
        (
          digit count small,
          take-all (buff_size - p.ihl * 4 - udp_header - 1) (drop_last (c ∷ cs) ++ tail)
              (omega (arith, size)),
        )
        (c_str-NoZero _ (NoZero-drop_last (c ∷ cs) tail nz (omega arith))) in
    (rw (e, text) refl, rw (e, text, size) (omega arith))
