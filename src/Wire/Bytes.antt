-- ===== src/Wire/Bytes.antt =====
-- src/common.c: big-endian fields.
use chrontabulator.Base.{◌≡◌, ◌<◌, arith, ℕ, ◌+◌, ◌*◌, ◌/◌, ◌%◌, ◌^◌}
use chrontabulator.Base.Mem.{Agree, Mem, put_byte}

-- `p[0] = (uint8_t)(v >> 8); p[1] = (uint8_t)v;`
abbrev pub put_be16 : Mem → ℕ → ℕ → Mem
put_be16 m p v = put_byte (put_byte m p (v / 2 ^ 8 % 2 ^ 8)) (p + 1) (v % 2 ^ 8)

abbrev pub put_be32 : Mem → ℕ → ℕ → Mem
put_be32 m p v =
    put_byte
      (put_byte (put_byte (put_byte m p (v / 2 ^ 24 % 2 ^ 8)) (p + 1) (v / 2 ^ 16 % 2 ^ 8)) (p + 2)
        (v / 2 ^ 8 % 2 ^ 8))
      (p + 3) (v % 2 ^ 8)

-- The casts to `uint32_t` keep the low half.
abbrev pub put_be64 : Mem → ℕ → ℕ → Mem
put_be64 m p v = put_be32 (put_be32 m p (v / 2 ^ 32 % 2 ^ 32)) (p + 4) (v % 2 ^ 32)

-- Bytes do not overlap, so the `|` of the shifted bytes is their sum.
abbrev pub get_be16 : Mem → ℕ → ℕ
get_be16 m p = m p * 2 ^ 8 + m (p + 1)

abbrev pub get_be64 : Mem → ℕ → ℕ
get_be64 m p =
    let hi = m p * 2 ^ 24 + m (p + 1) * 2 ^ 16 + m (p + 2) * 2 ^ 8 + m (p + 3) in
    let lo = m (p + 4) * 2 ^ 24 + m (p + 5) * 2 ^ 16 + m (p + 6) * 2 ^ 8 + m (p + 7) in
    hi * 2 ^ 32 + lo

bytes_of_word :
    (a : ℕ)
    → a < 2 ^ 32
    → a / 2 ^ 24 % 2 ^ 8 * 2 ^ 24
        + a / 2 ^ 16 % 2 ^ 8 * 2 ^ 16
        + a / 2 ^ 8 % 2 ^ 8 * 2 ^ 8
        + a % 2 ^ 8
      ≡ a
bytes_of_word a h = omega arith

-- At the offset where a frame keeps its sequence number.
pub get_be64-put_be64 : (m : Mem) (v : ℕ) → v < 2 ^ 64 → get_be64 (put_be64 m 42 v) 42 ≡ v
get_be64-put_be64 m v h = omega (
  arith,
  bytes_of_word (v / 2 ^ 32 % 2 ^ 32) (omega arith),
  bytes_of_word (v % 2 ^ 32) (omega arith),
)

pub get_be64-Agree : (m m' : Mem) (p : ℕ) → Agree m m' p 8 → get_be64 m p ≡ get_be64 m' p
get_be64-Agree m m' p h = omega (
  arith,
  h p (omega arith) (omega arith),
  h (p + 1) (omega arith) (omega arith),
  h (p + 2) (omega arith) (omega arith),
  h (p + 3) (omega arith) (omega arith),
  h (p + 4) (omega arith) (omega arith),
  h (p + 5) (omega arith) (omega arith),
  h (p + 6) (omega arith) (omega arith),
  h (p + 7) (omega arith) (omega arith),
)
