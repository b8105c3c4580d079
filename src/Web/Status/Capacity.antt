-- ===== src/Web/Status/Capacity.antt =====
-- The capacity that the status page shows (src/web_status.c).
use native.Mathlib.Nat.{add-mul}
use chrontabulator.Base.{
  ℕ, ◌+◌, ◌-◌, ◌*◌, ◌^◌, ◌≤◌, ◌<◌, ◌≡◌, ap, ap₂, zero, suc, ◌∙◌, arith, mul64, ltb, if_true,
  if_false, if◌then◌else◌, lt→ltb, le→ltb,
}
use chrontabulator.Ctx.{Ctx}
use chrontabulator.Web.Status.{render_status_json, data_blocks, data_used_blocks, data_free_bytes}

-- The three parts of a device of `s + u + f` blocks.
parts :
    (s u f b : ℕ)
    → (s + u + f) * b < 2 ^ 64
    → (mul64 u b ≡ u * b) × (mul64 f b ≡ f * b) × (s * b + u * b + f * b ≡ (s + u + f) * b)
parts s u f b h =
    let whole = add-mul (s + u) f b in
    let part = add-mul s u b in (omega arith, omega arith, omega arith)

free_cases :
    (u f b : ℕ) → mul64 f b ≡ f * b → (if ltb u (u + f) then mul64 (u + f - u) b else 0) ≡ f * b
free_cases u zero b e =
    if_false (ltb u (u + 0)) _ _ (le→ltb u (u + 0) (omega arith)) ∙ (omega arith)
free_cases u (suc f) b e =
    let rest : u + suc f - u ≡ suc f = omega arith in
    if_true (ltb u (u + suc f)) _ _ (lt→ltb u (u + suc f) (omega arith))
    ∙ ap (λ (x : ℕ). mul64 x b) rest
    ∙ e

-- While the data ends within the device, whose size in bytes fits 64 bits, the used and the free
-- bytes of the status are those of the whole blocks before and after the data's end: together with
-- the blocks before the data they are all of the device.
pub render_status_json-capacity :
    (c : Ctx)
    → c.vol.data_start_block ≤ c.mirror_next_data_block
    → c.mirror_next_data_block ≤ c.cached_num_blocks
    → c.cached_num_blocks * c.block_size < 2 ^ 64
    → let st = render_status_json c in
      (st.data_used_bytes ≡ (c.mirror_next_data_block - c.vol.data_start_block) * c.block_size)
      × (st.data_free_bytes ≡ (c.cached_num_blocks - c.mirror_next_data_block) * c.block_size)
      × (c.vol.data_start_block * c.block_size + st.data_used_bytes + st.data_free_bytes
          ≡ st.total_bytes)
unfolding render_status_json
render_status_json-capacity c lo hi fits =
    (used ∙ p.0, free, omega (arith, used, free, p.0, p.2, total))
  where
    s : ℕ
    s = c.vol.data_start_block

    u : ℕ
    u = c.mirror_next_data_block - c.vol.data_start_block

    f : ℕ
    f = c.cached_num_blocks - c.mirror_next_data_block

    b : ℕ
    b = c.block_size

    sum : c.cached_num_blocks ≡ s + u + f
    sum = omega arith

    total : c.cached_num_blocks * b ≡ (s + u + f) * b
    total = ap (λ (x : ℕ). x * b) sum

    p : (mul64 u b ≡ u * b) × (mul64 f b ≡ f * b) × (s * b + u * b + f * b ≡ (s + u + f) * b)
    p = parts s u f b (omega (arith, total))

    used_blocks : data_used_blocks c ≡ u
    used_blocks = unfold data_used_blocks in ground arith

    all_blocks : data_blocks c ≡ u + f
    all_blocks = unfold data_blocks in ground arith

    used : mul64 (data_used_blocks c) b ≡ mul64 u b
    used = ap (λ (x : ℕ). mul64 x b) used_blocks

    unfolded : data_free_bytes c ≡ (if ltb u (u + f) then mul64 (u + f - u) b else 0)
    unfolded =
        unfold data_free_bytes in
        ap₂ (λ (x y : ℕ). if ltb x y then mul64 (y - x) b else 0) used_blocks all_blocks

    free : data_free_bytes c ≡ f * b
    free = unfolded ∙ free_cases u f b p.1
