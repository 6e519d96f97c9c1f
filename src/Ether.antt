-- ===== src/Ether.antt =====
-- task16_ether_header/client.c: the check sum of an IP header that the program builds by hand.
-- Memory is little-endian, as on the machine of the source; `count` is the length of the bytes.
pub mod Sealing
mod Tests
use eltex_course.Base.{ℕ, ◌+◌, ◌*◌, ◌-◌, ◌/◌, ◌%◌, List, [], ◌∷◌, ◌++◌, Bytes}

-- The loop over two bytes at a time, and the byte that is left.
unfoldable pub sum_loop : Bytes → ℕ
sum_loop [] = 0
sum_loop (b ∷ []) = b
sum_loop (b ∷ c ∷ rest) = b + 256 * c + sum_loop rest

-- Twice the carries come back in, and the result is cut to 16 bits.
unfoldable pub fold : ℕ → ℕ
fold sum = let sum = sum / 65536 + sum % 65536 in (sum + sum / 65536) % 65536

-- `(uint16_t)~sum`
unfoldable pub check_sum : Bytes → ℕ
check_sum bytes = 65535 - fold (sum_loop bytes)

-- The bytes of a `uint16_t` in memory.
abbrev pub stored : ℕ → Bytes
stored n = n % 256 ∷ n / 256 % 256 ∷ []

-- `htons`
abbrev pub htons : ℕ → Bytes
htons n = n / 256 % 256 ∷ n % 256 ∷ []

abbrev pub buff_size : ℕ
buff_size = 7

-- `packet.ip` before the field `check`, with the sizes of the two headers, and behind it; the
-- addresses are what `inet_addr` gives.
unfoldable pub header_start : Bytes
header_start =
    (69 ∷ 0 ∷ []) ++ (htons (20 + 8 + buff_size) ++ (htons 12345 ++ (0 ∷ 0 ∷ 64 ∷ 17 ∷ [])))

unfoldable pub header : Bytes → Bytes → Bytes → Bytes
header check saddr daddr = header_start ++ (check ++ (saddr ++ daddr))

-- With `packet.ip.check` set from the header that has 0 there.
unfoldable pub ip_header : Bytes → Bytes → Bytes
ip_header saddr daddr = header (stored (check_sum (header (0 ∷ 0 ∷ []) saddr daddr))) saddr daddr
