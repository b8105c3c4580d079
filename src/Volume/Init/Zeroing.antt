-- ===== src/Volume/Init/Zeroing.antt =====
-- Formatting (src/main.c): the table of contents is zeroed to its end before the header is written.
use native.Mathlib.Nat.{mul-le-mul, mul-le-mul_right}
use mathlib.Core.List.{append_assoc}
use chrontabulator.Base.{
  ℕ, zero, suc, ◌+◌, ◌*◌, ◌%◌, ◌^◌, ◌≤◌, ◌<◌, ◌≡◌, refl, ap, ◌∙◌, true, List, [], ◌∷◌, ◌++◌,
  lt_cases, length, inl, inr, leb, if_true, if_false, add64, mul64, arith,
}
use chrontabulator.Base.Mem.{Mem, fill}
use chrontabulator.Format.{store_volume}
use chrontabulator.Ctx.{Ctx, Io, write_io, read_io, init_zero_toc_chunk_write, init_header_write}
use chrontabulator.Ctx.Device.{accepting, submit, block_offset}
use chrontabulator.Volume.Init.{
  init_zero_toc_chunk, init_zero_toc_chunk_write_complete, init_write_header, chunk_blocks,
  chunk_bytes,
}

-- Writes of `bytes` that cover the blocks from `cur` to `end` one after the other, none of them
-- empty.
unfoldable pub Tiles : ℕ → ℕ → Mem → ℕ → List Io → Type 0
Tiles block_size end bytes cur [] = cur ≡ end
Tiles block_size end bytes cur (write_io off len m cb ∷ ios) =
    (n : ℕ) × (0 < n)
    × (off ≡ cur * block_size)
    × (len ≡ n * block_size)
    × (m ≡ bytes)
    × Tiles block_size end bytes (cur + n) ios
Tiles block_size end bytes cur (read_io off len t cb ∷ ios) = off < off

-- So many writes complete, one after the other.
unfoldable pub completions : ℕ → Ctx → Ctx
completions zero c = c
completions (suc k) c = completions k (init_zero_toc_chunk_write_complete true c)

abbrev pub header_io : Ctx → Io
header_io c =
    write_io 0 c.block_size (store_volume (fill c.vol_buf 0 0 c.block_size) c.vol) init_header_write

-- The sizes stay below the machine's words.
pub record Sized (c : Ctx) : Type 0 where
  pub chunk : 0 < c.buf_size_blocks
  pub small : c.vol.data_start_block < 2 ^ 20
  pub block : c.block_size < 2 ^ 20
  pub chunk_small : c.buf_size_blocks * c.block_size < 2 ^ 32

zero_write : Ctx → Io
zero_write c =
    write_io (block_offset c c.init_cur_block) (chunk_bytes c.vol c) c.io_buf
      init_zero_toc_chunk_write

-- A step of the chain.
after : Ctx → Ctx
after c = record (accepting c) {
  init_cur_block = c.init_cur_block + chunk_blocks c.vol c;
  sys = record (accepting c).sys { inflight = c.sys.inflight ++ zero_write c ∷ [] };
}

chunk_blocks-bounds :
    (c : Ctx)
    → Sized c
    → c.init_cur_block < c.vol.data_start_block
    → (0 < chunk_blocks c.vol c)
      × (c.init_cur_block + chunk_blocks c.vol c ≤ c.vol.data_start_block)
      × (chunk_blocks c.vol c ≤ c.buf_size_blocks)
chunk_blocks-bounds c s before = (ground arith, ground arith, ground arith)

written : Ctx → Ctx
written c = (submit (zero_write c) (accepting c)).1

init_zero_toc_chunk-written :
    (c : Ctx)
    → c.init_cur_block < c.vol.data_start_block
    → init_zero_toc_chunk (accepting c) ≡ written c
unfolding init_zero_toc_chunk submit written zero_write
init_zero_toc_chunk-written c before =
    if_false (leb c.vol.data_start_block c.init_cur_block) _ _ (ground arith)

written-after :
    (c : Ctx)
    → Sized c
    → c.init_cur_block < c.vol.data_start_block
    → init_zero_toc_chunk_write_complete true (written c) ≡ init_zero_toc_chunk (after c)
unfolding init_zero_toc_chunk_write_complete submit written after
written-after c s before =
    let b = chunk_blocks-bounds c s before in
    let sum : add64 c.init_cur_block (chunk_blocks c.vol c)
        ≡ c.init_cur_block + chunk_blocks c.vol c =
      omega arith in
    ap (λ (n : ℕ). init_zero_toc_chunk (record (written c) { init_cur_block = n })) sum

step :
    (c : Ctx)
    → Sized c
    → c.init_cur_block < c.vol.data_start_block
    → init_zero_toc_chunk_write_complete true (init_zero_toc_chunk (accepting c))
      ≡ init_zero_toc_chunk (after c)
step c s before =
    ap (init_zero_toc_chunk_write_complete true) (init_zero_toc_chunk-written c before)
    ∙ written-after c s before

last :
    (c : Ctx)
    → c.init_cur_block ≡ c.vol.data_start_block
    → (init_zero_toc_chunk (accepting c)).sys.inflight ≡ c.sys.inflight ++ header_io c ∷ []
unfolding init_zero_toc_chunk init_write_header submit
last c h =
    ap (λ (x : Ctx). x.sys.inflight)
      (if_true (leb c.vol.data_start_block c.init_cur_block) _ _ (ground arith))

area_bound : (a b : ℕ) → a ≤ 2 ^ 20 → b ≤ 2 ^ 20 → a * b ≤ 2 ^ 20 * 2 ^ 20
area_bound a b h k = mul-le-mul h k

offset_lem :
    (c : Ctx)
    → Sized c
    → c.init_cur_block < c.vol.data_start_block
    → block_offset c c.init_cur_block ≡ c.init_cur_block * c.block_size
offset_lem c s before =
    let b = area_bound c.init_cur_block c.block_size (omega arith) (omega arith) in omega arith

len_lem :
    (c : Ctx)
    → Sized c
    → c.init_cur_block < c.vol.data_start_block
    → chunk_bytes c.vol c ≡ chunk_blocks c.vol c * c.block_size
len_lem c s before =
    let n = chunk_blocks c.vol c in
    let le : n ≤ c.buf_size_blocks = (chunk_blocks-bounds c s before).2 in
    let b : n * c.block_size ≤ c.buf_size_blocks * c.block_size =
      mul-le-mul_right c.block_size le in
    small_mod n c.block_size (omega arith)
  where
    small_mod : (n w : ℕ) → n * w < 2 ^ 32 → mul64 n w % 2 ^ 32 ≡ n * w
    small_mod n w h = omega arith

abbrev Zeroed : Ctx → List Io → Type 0
Zeroed c ios =
    Tiles c.block_size c.vol.data_start_block c.io_buf c.init_cur_block ios
    × ((completions (length ios) (init_zero_toc_chunk (accepting c))).sys.inflight
        ≡ c.sys.inflight ++ (ios ++ header_io c ∷ []))

-- The zeroing of the table of contents ends, on a device that accepts and completes the writes:
-- from the block that it is at, after finitely many writes that cover the blocks up to the data
-- one after the other and are all of the zeroed buffer, the header is written, and not before.
pub init_zero_toc_chunk-tiles :
    (fuel : ℕ) (c : Ctx)
    → Sized c
    → c.init_cur_block ≤ c.vol.data_start_block
    → c.vol.data_start_block ≤ c.init_cur_block + fuel
    → (ios : List Io) × Zeroed c ios
unfolding completions Tiles zero_write after
init_zero_toc_chunk-tiles zero c s le f = ([], (omega arith, last c (omega arith)))
init_zero_toc_chunk-tiles (suc fuel) c s le f =
    elim (lt_cases c.init_cur_block c.vol.data_start_block) [
      | inr done ↦ ([], (omega arith, last c (omega arith)))
      | inl before ↦
          let b = chunk_blocks-bounds c s before in
          let rest =
            init_zero_toc_chunk-tiles fuel (after c)
              (unfold after in
                record {
                  chunk = s.chunk;
                  small = s.small;
                  block = s.block;
                  chunk_small = s.chunk_small;
                })
              (unfold after in omega arith) (unfold after in omega arith) in
          (
            zero_write c ∷ rest.0,
            (
              (
                chunk_blocks c.vol c,
                b.0,
                offset_lem c s before,
                len_lem c s before,
                refl,
                rest.1.0,
              ),
              ap (λ (x : Ctx). (completions (length rest.0) x).sys.inflight) (step c s before)
                  ∙ rest.1.1
                  ∙ append_assoc c.sys.inflight (zero_write c ∷ []) (rest.0 ++ header_io c ∷ []),
            ),
          )
    ]
