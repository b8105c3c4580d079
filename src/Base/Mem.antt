-- ===== src/Base/Mem.antt =====
-- Byte-addressed memory: what a pointer reaches, at each offset. DMA buffers, frames and the
-- device itself are such memories; their sizes are carried beside them.
use Prim.Native.Nat.{ℕ, zero, suc, ◌+◌, ◌-◌, ◌*◌, ◌/◌, ◌%◌, ◌^◌, ◌≤◌, ◌<◌}
use mathlib.Core.Path.{◌≡◌, refl, sym, ap, ◌∙◌}
use mathlib.Core.Logic.{◌⊎◌}
use mathlib.Core.Bool.{◌&&◌}
use native.Mathlib.Omega.{arith}
use native.Mathlib.Nat.{pow-suc, add-zero}
use chrontabulator.Base.Tests.{ltb, leb, ◌==◌, if◌then◌else◌}

abbrev pub Mem : Type 0
Mem = ℕ → ℕ

-- `*p = b`
abbrev pub put_byte : Mem → ℕ → ℕ → Mem
put_byte m p b i = if i == p then b else m i

-- `memcpy(m + p, src + q, n)`
abbrev pub copy : Mem → ℕ → Mem → ℕ → ℕ → Mem
copy m p src q n i = if leb p i && ltb i (p + n) then src (q + (i - p)) else m i

-- `memset(m + p, b, n)`
abbrev pub fill : Mem → ℕ → ℕ → ℕ → Mem
fill m p b n i = if leb p i && ltb i (p + n) then b else m i

-- The bytes of a word of `n` bytes at `p`, least significant first: how the target machine
-- (x86-64) keeps the integer fields of a C struct.
unfoldable pub get_le : ℕ → Mem → ℕ → ℕ
get_le zero m p = 0
get_le (suc n) m p = m p + 256 * get_le n m (p + 1)

unfoldable pub put_le : ℕ → Mem → ℕ → ℕ → Mem
put_le zero m p v = m
put_le (suc n) m p v = put_le n (put_byte m p (v % 256)) (p + 1) (v / 256)

-- Two memories hold the same `n` bytes from `p` on.
abbrev pub Agree : Mem → Mem → ℕ → ℕ → Type 0
Agree m m' p n = (i : ℕ) → p ≤ i → i < p + n → m i ≡ m' i

pub get_le-Agree : (n : ℕ) (m m' : Mem) (p : ℕ) → Agree m m' p n → get_le n m p ≡ get_le n m' p
unfolding get_le
get_le-Agree zero m m' p h = refl
get_le-Agree (suc n) m m' p h = omega (
  arith,
  h p (omega arith) (omega arith),
  get_le-Agree n m m' (p + 1) (λ i a b. h i (omega arith) (omega arith)),
)

pub put_le_below : (n : ℕ) (m : Mem) (p v i : ℕ) → i < p → put_le n m p v i ≡ m i
unfolding put_le
put_le_below zero m p v i h = refl
put_le_below (suc n) m p v i h =
    put_le_below n (put_byte m p (v % 256)) (p + 1) (v / 256) i (omega arith) ∙ ground arith

pub put_le_above : (n : ℕ) (m : Mem) (p v i : ℕ) → p + n ≤ i → put_le n m p v i ≡ m i
unfolding put_le
put_le_above zero m p v i h = refl
put_le_above (suc n) m p v i h =
    put_le_above n (put_byte m p (v % 256)) (p + 1) (v / 256) i (omega arith) ∙ ground arith

-- A word that fits its bytes is read back.
pub get_le-put_le : (n : ℕ) (m : Mem) (p v : ℕ) → v < 256 ^ n → get_le n (put_le n m p v) p ≡ v
unfolding get_le put_le
get_le-put_le zero m p v h = omega arith
get_le-put_le (suc n) m p v h = omega (
  arith,
  put_le_below n (put_byte m p (v % 256)) (p + 1) (v / 256) p (omega arith),
  put_byte_self m p (v % 256),
  get_le-put_le n (put_byte m p (v % 256)) (p + 1) (v / 256) (digit_bound n v h),
)
  where
    put_byte_self : (m : Mem) (p b : ℕ) → put_byte m p b p ≡ b
    put_byte_self m p b = ground arith

    digit_bound : (n v : ℕ) → v < 256 ^ suc n → v / 256 < 256 ^ n
    digit_bound n v h = omega (arith, pow-suc 256 n)

pub copy_in :
    (m : Mem) (p : ℕ) (src : Mem) (q n i : ℕ) → i < n → copy m p src q n (p + i) ≡ src (q + i)
copy_in m p src q n i h =
    let e : p + i - p ≡ i = omega arith in
    (let r : copy m p src q n (p + i) ≡ src (q + (p + i - p)) = ground arith in r)
    ∙ ap (λ (k : ℕ). src (q + k)) e

pub copy_out :
    (m : Mem) (p : ℕ) (src : Mem) (q n i : ℕ) → (i < p) ⊎ (p + n ≤ i) → copy m p src q n i ≡ m i
copy_out m p src q n i h = ground arith

pub fill_in : (m : Mem) (p b n i : ℕ) → p ≤ i → i < p + n → fill m p b n i ≡ b
fill_in m p b n i h k = ground arith

pub fill_out : (m : Mem) (p b n i : ℕ) → (i < p) ⊎ (p + n ≤ i) → fill m p b n i ≡ m i
fill_out m p b n i h = ground arith

-- The same bytes at another place are the same word.
pub get_le_shift :
    (n : ℕ) (m m' : Mem) (p q : ℕ)
    → ((i : ℕ) → i < n → m (p + i) ≡ m' (q + i))
    → get_le n m p ≡ get_le n m' q
unfolding get_le
get_le_shift zero m m' p q h = refl
get_le_shift (suc n) m m' p q h =
    let first : m p ≡ m' q = simp add-zero at (h 0 (omega arith)) in
    let rest : get_le n m (p + 1) ≡ get_le n m' (q + 1) =
      get_le_shift n m m' (p + 1) (q + 1) (λ i k. shifted i k (h (suc i) (omega arith))) in
    omega (arith, first, rest)
  where
    shifted : (i : ℕ) → i < n → m (p + suc i) ≡ m' (q + suc i) → m (p + 1 + i) ≡ m' (q + 1 + i)
    shifted i k e =
        let a : p + 1 + i ≡ p + suc i = omega arith in
        let b : q + 1 + i ≡ q + suc i = omega arith in ap m a ∙ e ∙ ap m' (sym b)
