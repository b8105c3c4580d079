-- ===== src/Wire/Sums/Message.antt =====
-- The Internet checksum of src/common.c over a message at byte 34 whose checksum field is its
-- second word, as in ICMP: with the checksum put there, the receiver's verifies.
use chrontabulator.Base.{
  ℕ, zero, suc, ◌+◌, ◌-◌, ◌*◌, ◌/◌, ◌%◌, ◌^◌, ◌≤◌, ◌<◌, ◌≡◌, refl, ap, ◌∙◌, ◌==◌, if◌then◌else◌,
  arith,
}
use chrontabulator.Base.Mem.{Mem}
use chrontabulator.Wire.Bytes.{put_be16}
use chrontabulator.Wire.Checksum.{sum_words, fold_carries, add_odd_byte, complement16, ip_checksum}
use chrontabulator.Wire.Sums.{
  AreBytes, total_words, total_words-le, total_words-Agree, sum_words-total,
}
use chrontabulator.Wire.Sums.Verified.{fold_verifies, put_checksum_bytes, complement16-lt}

message_total : Mem → ℕ → ℕ
message_total m n = total_words (n / 2) m 34 + (if n % 2 == 1 then m (34 + (n - 1)) * 2 ^ 8 else 0)

ip_checksum-message_total :
    (m : Mem) (n : ℕ)
    → AreBytes m 34 n
    → n < 2 ^ 16
    → ip_checksum m 34 n ≡ complement16 (fold_carries 3 (message_total m n))
unfolding ip_checksum message_total
ip_checksum-message_total m n h small =
    let part : AreBytes m 34 (2 * (n / 2)) = λ i a c. h i a (omega arith) in
    let e : sum_words (n / 2) m 34 0 ≡ total_words (n / 2) m 34 =
      omega (arith, sum_words-total (n / 2) m 34 0 part (omega arith)) in
    let le = total_words-le (n / 2) m 34 part in
    ap (λ (x : ℕ). complement16 (fold_carries 3 (add_odd_byte m 34 n x))) e
    ∙ ap (λ (x : ℕ). complement16 (fold_carries 3 x))
        (odd_part (total_words (n / 2) m 34) (omega arith)
          (λ odd. h (34 + (n - 1)) (omega arith) (omega arith)))
  where
    odd_part :
        (sum : ℕ)
        → sum < 2 ^ 32 - 65536
        → (n % 2 ≡ 1 → m (34 + (n - 1)) < 256)
        → add_odd_byte m 34 n sum ≡ sum + (if n % 2 == 1 then m (34 + (n - 1)) * 2 ^ 8 else 0)
    odd_part sum b h = ground (arith, h)

words_put :
    (m : Mem) (k c : ℕ)
    → m 36 ≡ 0
    → m 37 ≡ 0
    → c < 2 ^ 16
    → total_words (suc (suc k)) (put_be16 m 36 c) 34 ≡ total_words (suc (suc k)) m 34 + c
unfolding total_words
words_put m k c a b h =
    omega (arith, total_words-Agree k (put_be16 m 36 c) m 38 (λ i x y. ground arith))

message_total_put :
    (m : Mem) (n c : ℕ)
    → 8 ≤ n
    → m 36 ≡ 0
    → m 37 ≡ 0
    → c < 2 ^ 16
    → message_total (put_be16 m 36 c) n ≡ message_total m n + c
unfolding message_total
message_total_put m n c long a b h =
    let two : n / 2 ≡ suc (suc (n / 2 - 2)) = omega arith in
    let words : total_words (n / 2) (put_be16 m 36 c) 34 ≡ total_words (n / 2) m 34 + c =
      rw two (words_put m (n / 2 - 2) c a b h) in
    ground (arith, words)

message_total_bound :
    (m : Mem) (n : ℕ) → AreBytes m 34 n → n < 2 ^ 16 → message_total m n < 2 ^ 32 - 2 ^ 16
unfolding message_total
message_total_bound m n h b =
    let le = total_words-le (n / 2) m 34 (λ i a c. h i a (omega arith)) in
    ground (arith, λ (odd : n % 2 ≡ 1). h (34 + (n - 1)) (omega arith) (omega arith))

-- A sum of zero is cancelled too: its complement is all ones.
cancels :
    (sum : ℕ)
    → sum < 2 ^ 32 - 2 ^ 16
    → fold_carries 3 (sum + complement16 (fold_carries 3 sum)) ≡ 65535
unfolding fold_carries
cancels zero b = refl
cancels (suc sum) b =
    fold_verifies (suc sum) (suc sum + complement16 (fold_carries 3 (suc sum))) (omega arith) b refl

pub message_verifies :
    (m : Mem) (n : ℕ)
    → AreBytes m 34 n
    → 8 ≤ n
    → n < 2 ^ 16
    → m 36 ≡ 0
    → m 37 ≡ 0
    → ip_checksum (put_be16 m 36 (ip_checksum m 34 n)) 34 n ≡ 0
message_verifies m n h long b a c =
    let x = complement16 (fold_carries 3 (message_total m n)) in
    let small : x < 2 ^ 16 = complement16-lt (fold_carries 3 (message_total m n)) in
    ap (λ (v : ℕ). ip_checksum (put_be16 m 36 v) 34 n) (ip_checksum-message_total m n h b)
    ∙ ip_checksum-message_total (put_be16 m 36 x) n (put_checksum_bytes m 34 n 36 x h small) b
    ∙ ap (λ (v : ℕ). complement16 (fold_carries 3 v)) (message_total_put m n x long a c small)
    ∙ ap complement16 (cancels (message_total m n) (message_total_bound m n h b))
