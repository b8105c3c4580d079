-- ===== src/Wire/Sums.antt =====
-- What the checksum loops of src/common.c compute, as plain sums.
pub mod Verified
pub mod UdpVerified
pub mod Message
use chrontabulator.Base.{ℕ, zero, suc, ◌+◌, ◌-◌, ◌*◌, ◌/◌, ◌%◌, ◌^◌, ◌≤◌, ◌<◌, ◌≡◌, refl, arith}
use chrontabulator.Base.Mem.{Mem, Agree}
use chrontabulator.Wire.Bytes.{get_be16}
use chrontabulator.Wire.Checksum.{sum_words, fold_carries}

-- Every byte of the range is one.
abbrev pub AreBytes : Mem → ℕ → ℕ → Type 0
AreBytes m p n = (i : ℕ) → p ≤ i → i < p + n → m i < 256

-- The words without wrapping.
unfoldable pub total_words : ℕ → Mem → ℕ → ℕ
total_words zero m p = 0
total_words (suc n) m p = get_be16 m p + total_words n m (p + 2)

pub total_words-le :
    (n : ℕ) (m : Mem) (p : ℕ) → AreBytes m p (2 * n) → total_words n m p ≤ 65535 * n
unfolding total_words
total_words-le zero m p h = omega arith
total_words-le (suc n) m p h = omega (
  arith,
  h p (omega arith) (omega arith),
  h (p + 1) (omega arith) (omega arith),
  total_words-le n m (p + 2) (λ i a b. h i (omega arith) (omega arith)),
)

pub total_words-Agree :
    (n : ℕ) (m m' : Mem) (p : ℕ) → Agree m m' p (2 * n) → total_words n m p ≡ total_words n m' p
unfolding total_words
total_words-Agree zero m m' p h = refl
total_words-Agree (suc n) m m' p h = omega (
  arith,
  h p (omega arith) (omega arith),
  h (p + 1) (omega arith) (omega arith),
  total_words-Agree n m m' (p + 2) (λ i a b. h i (omega arith) (omega arith)),
)

pub sum_words-total :
    (n : ℕ) (m : Mem) (p sum : ℕ)
    → AreBytes m p (2 * n)
    → sum + 65535 * n < 2 ^ 32
    → sum_words n m p sum ≡ sum + total_words n m p
unfolding sum_words total_words
sum_words-total zero m p sum h k = omega arith
sum_words-total (suc n) m p sum h k =
    let small : sum + get_be16 m p ≤ sum + 65535 =
      omega (arith, h p (omega arith) (omega arith), h (p + 1) (omega arith) (omega arith)) in
    omega (
      arith,
      sum_words-total n m (p + 2) ((sum + get_be16 m p) % 2 ^ 32)
          (λ i a b. h i (omega arith) (omega arith)) (omega arith),
    )

-- Three rounds leave a 16-bit number, equal to the sum modulo 65535, and zero for zero only.
pub record IsFolded (sum r : ℕ) : Type 0 where
  pub small : r < 2 ^ 16
  pub quotient : ℕ
  pub same : sum ≡ r + 65535 * quotient
  pub positive : 0 < sum → 0 < r

pub fold_carries-IsFolded : (sum : ℕ) → sum < 2 ^ 32 → IsFolded sum (fold_carries 3 sum)
unfolding fold_carries
fold_carries-IsFolded sum h = record {
  small = ground arith;
  quotient = (sum - fold_carries 3 sum) / 65535;
  same = ground arith;
  positive = ground arith;
}

pub sum_words-Agree :
    (n : ℕ) (m m' : Mem) (p sum : ℕ)
    → Agree m m' p (2 * n)
    → sum_words n m p sum ≡ sum_words n m' p sum
unfolding sum_words
sum_words-Agree zero m m' p sum h = refl
sum_words-Agree (suc n) m m' p sum h =
    rw (h p (omega arith) (omega arith), h (p + 1) (omega arith) (omega arith))
      (sum_words-Agree n m m' (p + 2) ((sum + get_be16 m' p) % 2 ^ 32)
        (λ i a b. h i (omega arith) (omega arith)))
