-- ===== src/Wire/Checksum.antt =====
-- src/common.c: the one's-complement checksums of IPv4 and UDP. Sums are `uint32_t`.
use chrontabulator.Base.{ℕ, zero, suc, ◌+◌, ◌-◌, ◌*◌, ◌/◌, ◌%◌, ◌^◌, ◌==◌, if◌then◌else◌}
use chrontabulator.Base.Mem.{Mem}
use chrontabulator.Wire.Bytes.{get_be16}

-- `sum += get_be16(p + i)` for the first `n` words.
unfoldable pub sum_words : ℕ → Mem → ℕ → ℕ → ℕ
sum_words zero m p sum = sum
sum_words (suc n) m p sum = sum_words n m (p + 2) ((sum + get_be16 m p) % 2 ^ 32)

-- `if (len & 1) sum += (uint32_t)p[len - 1] << 8;`
abbrev pub add_odd_byte : Mem → ℕ → ℕ → ℕ → ℕ
add_odd_byte m p len sum = if len % 2 == 1 then (sum + m (p + (len - 1)) * 2 ^ 8) % 2 ^ 32 else sum

-- `while (sum >> 16) sum = (sum & 0xFFFF) + (sum >> 16);` on fuel.
unfoldable pub fold_carries : ℕ → ℕ → ℕ
fold_carries zero sum = sum
fold_carries (suc fuel) sum =
    let rest = fold_carries fuel (sum % 2 ^ 16 + sum / 2 ^ 16) in
    if sum / 2 ^ 16 == 0 then sum else rest

-- Two rounds fold any 32-bit sum; the third sees the test fail.
abbrev pub fold_fuel : ℕ
fold_fuel = 3

-- `(uint16_t)~sum`
abbrev pub complement16 : ℕ → ℕ
complement16 sum = 2 ^ 16 - 1 - sum % 2 ^ 16

unfoldable pub ip_checksum : Mem → ℕ → ℕ → ℕ
ip_checksum m p len =
    complement16 (fold_carries fold_fuel (add_odd_byte m p len (sum_words (len / 2) m p 0)))

-- The sum over the pseudo-header: addresses, protocol and length.
abbrev pub pseudo_sum : Mem → Mem → ℕ → ℕ
pseudo_sum src_ip dst_ip udp_len =
    (get_be16 src_ip 0 + get_be16 src_ip 2 + get_be16 dst_ip 0 + get_be16 dst_ip 2 + 17 + udp_len)
    % 2 ^ 32

-- The folded sum of the pseudo-header and the segment.
unfoldable pub udp_sum : Mem → Mem → Mem → ℕ → ℕ → ℕ
udp_sum src_ip dst_ip m p len =
    fold_carries fold_fuel
      (add_odd_byte m p len (sum_words (len / 2) m p (pseudo_sum src_ip dst_ip len)))

unfoldable pub udp_checksum : Mem → Mem → Mem → ℕ → ℕ → ℕ
udp_checksum src_ip dst_ip m p len =
    let result = complement16 (udp_sum src_ip dst_ip m p len) in
    if result == 0 then 0xFFFF else result
