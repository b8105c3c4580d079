-- ===== src/Volume/Settings/Rounding.antt =====
-- The write chunk size (src/main.c, `chrono_round_write_chunk`).
use native.Mathlib.Nat.{div-add-mod', mod-lt, mul-le-mul_right, add-mul}
use chrontabulator.Base.{
  ℕ, ◌+◌, ◌-◌, ◌∙◌, ◌*◌, ◌/◌, ◌%◌, ◌^◌, ◌≤◌, ◌<◌, ◌≡◌, ap, inl, inr, zero, suc, ◌⊎◌, lt_cases, ◌∙◌,
  arith,
}
use chrontabulator.Ctx.{Ctx}
use chrontabulator.Volume.Settings.{chrono_round_write_chunk, clamp_chunk}

clamp_chunk-small : (requested : ℕ) → clamp_chunk requested ≤ 2 ^ 21
clamp_chunk-small requested = ground arith

-- Rounding up to a multiple.
round_up : (n w : ℕ) → 0 < w → (n ≤ (n + w - 1) / w * w) × ((n + w - 1) / w * w < n + w)
round_up n w pos =
    let split = div-add-mod' (n + w - 1) w in
    let rest = mod-lt (n + w - 1) pos in (omega arith, omega arith)

chrono_round_write_chunk-round :
    (c : Ctx) (requested : ℕ)
    → 0 < c.write_unit_bytes
    → c.write_unit_bytes < 2 ^ 30
    → chrono_round_write_chunk c requested
      ≡ (clamp_chunk requested + c.write_unit_bytes - 1) / c.write_unit_bytes * c.write_unit_bytes
unfolding chrono_round_write_chunk
chrono_round_write_chunk-round c requested pos small =
    let n = clamp_chunk requested in
    let w = c.write_unit_bytes in
    let little : n ≤ 2 ^ 21 = clamp_chunk-small requested in
    let above = (round_up n w pos).1 in
    let sum : (n + w + (2 ^ 32 - 1)) % 2 ^ 32 ≡ n + w - 1 = omega arith in
    ap (λ (x : ℕ). x / w * w % 2 ^ 32) sum ∙ (omega arith)

-- The chunk size is a whole number of write units, at least the size asked for once that is
-- clamped to the limits, and less than a unit above it. The unit is from 1 to 2^30 bytes.
pub chrono_round_write_chunk_lem :
    (c : Ctx) (requested : ℕ)
    → 0 < c.write_unit_bytes
    → c.write_unit_bytes < 2 ^ 30
    → let size = chrono_round_write_chunk c requested in
      ((k : ℕ) × (size ≡ k * c.write_unit_bytes))
      × (clamp_chunk requested ≤ size)
      × (size < clamp_chunk requested + c.write_unit_bytes)
chrono_round_write_chunk_lem c requested pos small =
    let e = chrono_round_write_chunk-round c requested pos small in
    let up = round_up (clamp_chunk requested) c.write_unit_bytes pos in
    (
      ((clamp_chunk requested + c.write_unit_bytes - 1) / c.write_unit_bytes, e),
      omega arith,
      omega arith,
    )

abbrev pub Rounded : Ctx → ℕ → Type 0
Rounded c requested =
    ((k : ℕ) × (chrono_round_write_chunk c requested ≡ k * c.write_unit_bytes))
    × (clamp_chunk requested ≤ chrono_round_write_chunk c requested)
    × (chrono_round_write_chunk c requested < clamp_chunk requested + c.write_unit_bytes)

pub factor_le : (k u n : ℕ) → 0 < n → k * u ≡ n → u ≤ n
factor_le zero u n pos h = absurd (omega arith)
factor_le (suc k) u n pos h = omega (arith, add-mul 1 k u)

-- A write unit that divides the largest chunk never rounds above it.
pub chrono_round_write_chunk-le :
    (c : Ctx) (requested k : ℕ)
    → 0 < c.write_unit_bytes
    → k * c.write_unit_bytes ≡ 2 ^ 21
    → chrono_round_write_chunk c requested ≤ 2 ^ 21
chrono_round_write_chunk-le c requested k pos whole = below (lt_cases k m)
  where
    round : Rounded c requested
    round =
        chrono_round_write_chunk_lem c requested pos
          (omega (arith, factor_le k c.write_unit_bytes (2 ^ 21) (omega arith) whole))

    m : ℕ
    m = round.0.0

    little : clamp_chunk requested ≤ 2 ^ 21
    little = clamp_chunk-small requested

    below : (k < m) ⊎ (m ≤ k) → chrono_round_write_chunk c requested ≤ 2 ^ 21
    below (inl h) =
        let more = mul-le-mul_right c.write_unit_bytes h in
        absurd (omega (arith, add-mul k 1 c.write_unit_bytes, round.0.1, round.2, little))
    below (inr h) = let fits = mul-le-mul_right c.write_unit_bytes h in omega (arith, round.0.1)
