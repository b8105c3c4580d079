-- ===== src/Wire/Sums/UdpVerified.antt =====
-- The checksum of a UDP segment (src/common.c), put where its zero field stood: the receiver's sum
-- with the pseudo-header is what it must be.
use chrontabulator.Base.{
  ℕ, suc, ◌+◌, ◌-◌, ◌*◌, ◌/◌, ◌%◌, ◌^◌, ◌≤◌, ◌<◌, ◌≡◌, refl, Bool, true, false, ◌==◌, ==_iff,
  if◌then◌else◌, arith, ◌∙◌, ap,
}
use chrontabulator.Base.Mem.{Mem}
use chrontabulator.Wire.Bytes.{get_be16, put_be16}
use chrontabulator.Wire.Checksum.{
  sum_words, fold_carries, add_odd_byte, complement16, pseudo_sum, udp_sum, udp_checksum,
}
use chrontabulator.Wire.Sums.{
  AreBytes, total_words, total_words-le, total_words-Agree, sum_words-total, IsFolded,
  fold_carries-IsFolded,
}
use chrontabulator.Wire.Sums.Verified.{fold_verifies, put_checksum_bytes, complement16-lt}

-- The UDP segment, whose checksum field is at 40. `k` words and a last byte stand after the
-- header.
udp_total : Mem → Mem → Mem → ℕ → ℕ
udp_total src dst m len =
    get_be16 src 0
    + get_be16 src 2
    + get_be16 dst 0
    + get_be16 dst 2
    + 17
    + len
    + total_words (len / 2) m 34
    + (if len % 2 == 1 then m (34 + (len - 1)) * 2 ^ 8 else 0)

addresses-le :
    (src dst : Mem)
    → AreBytes src 0 4
    → AreBytes dst 0 4
    → get_be16 src 0 + get_be16 src 2 + get_be16 dst 0 + get_be16 dst 2 ≤ 4 * 65535
addresses-le src dst hs hd = omega (
  arith,
  hs 0 (omega arith) (omega arith),
  hs 1 (omega arith) (omega arith),
  hs 2 (omega arith) (omega arith),
  hs 3 (omega arith) (omega arith),
  hd 0 (omega arith) (omega arith),
  hd 1 (omega arith) (omega arith),
  hd 2 (omega arith) (omega arith),
  hd 3 (omega arith) (omega arith),
)

udp_sum_lem :
    (src dst m : Mem) (len : ℕ)
    → AreBytes src 0 4
    → AreBytes dst 0 4
    → AreBytes m 34 len
    → len < 2 ^ 16
    → udp_sum src dst m 34 len ≡ fold_carries 3 (udp_total src dst m len)
unfolding udp_sum udp_total
udp_sum_lem src dst m len hs hd h b =
    let addresses = addresses-le src dst hs hd in
    let part : AreBytes m 34 (2 * (len / 2)) = λ i a c. h i a (omega arith) in
    let e : sum_words (len / 2) m 34 (pseudo_sum src dst len)
        ≡ pseudo_sum src dst len + total_words (len / 2) m 34 =
      sum_words-total (len / 2) m 34 (pseudo_sum src dst len) part (omega arith) in
    let le : total_words (len / 2) m 34 ≤ 65535 * (len / 2) = total_words-le (len / 2) m 34 part in
    rw e (
      ap (fold_carries 3) (
        odd_part m len (pseudo_sum src dst len + total_words (len / 2) m 34)
          (get_be16 src 0
            + get_be16 src 2
            + get_be16 dst 0
            + get_be16 dst 2
            + 17
            + len
            + total_words (len / 2) m 34)
          (omega arith) (omega arith) (λ odd. h (34 + (len - 1)) (omega arith) (omega arith))))
  where
    odd_part :
        (m : Mem) (len sum sum' : ℕ)
        → sum ≡ sum'
        → sum' < 2 ^ 32 - 65536
        → (len % 2 ≡ 1 → m (34 + (len - 1)) < 256)
        → add_odd_byte m 34 len sum
          ≡ sum' + (if len % 2 == 1 then m (34 + (len - 1)) * 2 ^ 8 else 0)
    odd_part m len sum sum' e b h = ground (arith, h)

words_put :
    (m : Mem) (k c : ℕ)
    → m 40 ≡ 0
    → m 41 ≡ 0
    → c < 2 ^ 16
    → total_words (suc (suc (suc (suc k)))) (put_be16 m 40 c) 34
      ≡ total_words (suc (suc (suc (suc k)))) m 34 + c
unfolding total_words
words_put m k c a b h =
    omega (arith, total_words-Agree k (put_be16 m 40 c) m 42 (λ i x y. ground arith))

udp_total_put :
    (src dst m : Mem) (len c : ℕ)
    → 8 ≤ len
    → m 40 ≡ 0
    → m 41 ≡ 0
    → c < 2 ^ 16
    → udp_total src dst (put_be16 m 40 c) len ≡ udp_total src dst m len + c
unfolding udp_total
udp_total_put src dst m len c long a b h =
    let four : len / 2 ≡ suc (suc (suc (suc (len / 2 - 4)))) = omega arith in
    let words : total_words (len / 2) (put_be16 m 40 c) 34 ≡ total_words (len / 2) m 34 + c =
      rw four (words_put m (len / 2 - 4) c a b h) in
    ground (arith, words)

udp_total_bounds :
    (src dst m : Mem) (len : ℕ)
    → AreBytes src 0 4
    → AreBytes dst 0 4
    → AreBytes m 34 len
    → len < 2 ^ 16
    → (0 < udp_total src dst m len) × (udp_total src dst m len < 2 ^ 32 - 2 ^ 16)
unfolding udp_total
udp_total_bounds src dst m len hs hd h b =
    let addresses = addresses-le src dst hs hd in
    let le = total_words-le (len / 2) m 34 (λ i a c. h i a (omega arith)) in
    (
      omega arith,
      ground (arith, λ (odd : len % 2 ≡ 1). h (34 + (len - 1)) (omega arith) (omega arith)),
    )

-- A checksum of all ones in place of zero cancels too.
ones_cancel : (sum r r' : ℕ) → IsFolded sum r → IsFolded (sum + 65535) r' → r ≡ 65535 → r' ≡ 65535
ones_cancel sum r r' h h' e = omega (arith, h'.positive (omega arith))

pub udp_verifies :
    (src dst m : Mem) (len : ℕ)
    → AreBytes src 0 4
    → AreBytes dst 0 4
    → AreBytes m 34 len
    → 8 ≤ len
    → len < 2 ^ 16
    → m 40 ≡ 0
    → m 41 ≡ 0
    → udp_sum src dst (put_be16 m 40 (udp_checksum src dst m 34 len)) 34 len ≡ 65535
unfolding udp_checksum
udp_verifies src dst m len hs hd h long b a c =
    rw (udp_sum_lem src dst m len hs hd h b) (go (complement16 (fold_carries 3 total) == 0) refl)
  where
    total : ℕ
    total = udp_total src dst m len

    after :
        (x : ℕ) → x < 2 ^ 16 → udp_sum src dst (put_be16 m 40 x) 34 len ≡ fold_carries 3 (total + x)
    after x k =
        udp_sum_lem src dst (put_be16 m 40 x) len hs hd (put_checksum_bytes m 34 len 40 x h k) b
        ∙ ap (fold_carries 3) (udp_total_put src dst m len x long a c k)

    go :
        (t : Bool)
        → (complement16 (fold_carries 3 total) == 0) ≡ t
        → udp_sum src dst
            (put_be16 m 40 (if t then 0xFFFF else complement16 (fold_carries 3 total)))
            34
            len
          ≡ 65535
    go true e =
        after 0xFFFF (omega arith)
        ∙ ones_cancel total (fold_carries 3 total) (fold_carries 3 (total + 65535))
            (fold_carries-IsFolded total (omega (arith, udp_total_bounds src dst m len hs hd h b)))
            (fold_carries-IsFolded (total + 65535)
              (omega (arith, udp_total_bounds src dst m len hs hd h b)))
            (omega (
              arith,
              (==_iff (complement16 (fold_carries 3 total)) 0).0 e,
              (fold_carries-IsFolded total
                  (omega (arith, udp_total_bounds src dst m len hs hd h b))).small,
            ))
    go false e =
        after (complement16 (fold_carries 3 total)) (complement16-lt (fold_carries 3 total))
        ∙ fold_verifies total (total + complement16 (fold_carries 3 total))
            (udp_total_bounds src dst m len hs hd h b).0
            (udp_total_bounds src dst m len hs hd h b).1 refl
