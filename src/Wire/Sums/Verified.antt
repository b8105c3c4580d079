-- ===== src/Wire/Sums/Verified.antt =====
-- A checksum of src/common.c, put where its zero field stood: the receiver's sum over the whole is
-- what it must be, for the IPv4 header.
use chrontabulator.Base.{ℕ, ◌+◌, ◌-◌, ◌^◌, ◌<◌, ◌≡◌, arith}
use chrontabulator.Base.Mem.{Mem}
use chrontabulator.Wire.Bytes.{put_be16}
use chrontabulator.Wire.Checksum.{sum_words, fold_carries, complement16, ip_checksum}
use chrontabulator.Wire.Sums.{
  AreBytes, total_words, total_words-le, sum_words-total, IsFolded, fold_carries-IsFolded,
}

-- A folded sum and its complement.
complement_cancels :
    (sum r r' : ℕ) → IsFolded sum r → IsFolded (sum + complement16 r) r' → 0 < sum → r' ≡ 65535
complement_cancels sum r r' h h' p = omega (arith, h.positive p)

pub fold_verifies :
    (sum sum' : ℕ)
    → 0 < sum
    → sum < 2 ^ 32 - 2 ^ 16
    → sum' ≡ sum + complement16 (fold_carries 3 sum)
    → fold_carries 3 sum' ≡ 65535
fold_verifies sum sum' p b e = rw e (
    complement_cancels sum (fold_carries 3 sum)
      (fold_carries 3 (sum + complement16 (fold_carries 3 sum)))
      (fold_carries-IsFolded sum (omega arith))
      (fold_carries-IsFolded (sum + complement16 (fold_carries 3 sum)) (omega arith)) p)

pub put_checksum_bytes :
    (m : Mem) (p n q c : ℕ) → AreBytes m p n → c < 2 ^ 16 → AreBytes (put_be16 m q c) p n
put_checksum_bytes m p n q c h k i a b = ground (arith, h i a b)

pub complement16-lt : (r : ℕ) → complement16 r < 2 ^ 16
complement16-lt r = omega arith

-- The IPv4 header, whose checksum field is at 24.
ip_checksum_lem :
    (m : Mem)
    → AreBytes m 14 20
    → ip_checksum m 14 20 ≡ complement16 (fold_carries 3 (total_words 10 m 14))
unfolding ip_checksum
ip_checksum_lem m bytes =
    let e : sum_words 10 m 14 0 ≡ total_words 10 m 14 =
      omega (arith, sum_words-total 10 m 14 0 bytes (omega arith)) in
    rw e

ip_total_put :
    (m : Mem) (c : ℕ)
    → m 24 ≡ 0
    → m 25 ≡ 0
    → c < 2 ^ 16
    → total_words 10 (put_be16 m 24 c) 14 ≡ total_words 10 m 14 + c
unfolding total_words
ip_total_put m c a b h = omega arith

ip_total_pos : (m : Mem) → 0 < m 14 → 0 < total_words 10 m 14
unfolding total_words
ip_total_pos m h = omega arith

pub ip_verifies :
    (m : Mem)
    → AreBytes m 14 20
    → m 24 ≡ 0
    → m 25 ≡ 0
    → 0 < m 14
    → ip_checksum (put_be16 m 24 (ip_checksum m 14 20)) 14 20 ≡ 0
ip_verifies m bytes a b v =
    let c = complement16 (fold_carries 3 (total_words 10 m 14)) in
    let small : c < 2 ^ 16 = complement16-lt (fold_carries 3 (total_words 10 m 14)) in
    rw (ip_checksum_lem m bytes) (
      rw (ip_checksum_lem (put_be16 m 24 c) (put_checksum_bytes m 14 20 24 c bytes small)) (
        omega (
          arith,
          fold_verifies (total_words 10 m 14) (total_words 10 (put_be16 m 24 c) 14)
              (ip_total_pos m v) (omega (arith, total_words-le 10 m 14 bytes))
              (ip_total_put m c a b small),
        )))
