-- ===== src/Startup/Start/Geometry.antt =====
-- The buffers' number and size that a start leaves (src/main.c, `app_started`), from the options
-- that `app_parse_arg` can set and the device's geometry.
use native.Mathlib.Nat.{mul-div_left, mul_assoc, mul_comm, mul-pos}
use chrontabulator.Base.{
  ℕ, ◌*◌, ◌/◌, ◌%◌, ◌^◌, ◌≤◌, ◌<◌, ◌≡◌, sym, ap, ap₂, ◌∙◌, ◌⊎◌, inl, inr, List, arith,
}
use chrontabulator.Wire.Address.{Text}
use chrontabulator.Ctx.{Ctx, max_write_buffers, max_write_chunk_bytes, min_write_chunk_bytes}
use chrontabulator.Volume.Settings.{chrono_round_write_chunk, clamp_chunk}
use chrontabulator.Volume.Settings.Rounding.{
  chrono_round_write_chunk_lem, chrono_round_write_chunk-le, factor_le, Rounded,
}
use chrontabulator.Startup.Options.{Configured}
use chrontabulator.Startup.Options.Bounds.{Configured-InLimits, InLimits}
use chrontabulator.Startup.Start.{app_started, set_geometry}
use chrontabulator.Startup.Start.Submits.{
  Failed, app_started-Reads, IsConsistent, Reads, header_callback, SameGeometry,
}

-- From 1 to 32 buffers; a chunk of 4 KiB to 2 MiB, a whole number of blocks.
pub record WellSized (block chunk chunk_blocks buffers : ℕ) : Type 0 where
  pub some_buffers : 1 ≤ buffers
  pub few_buffers : buffers ≤ max_write_buffers
  pub chunk_low : min_write_chunk_bytes ≤ chunk
  pub chunk_high : chunk ≤ max_write_chunk_bytes
  pub whole_blocks : chunk ≡ chunk_blocks * block

abbrev pub IsWellSized : Ctx → Type 0
IsWellSized c = WellSized c.block_size c.buf_size c.buf_size_blocks c.write_buf_count

-- The write unit is a whole number of blocks, and divides the largest chunk `k` times.
pub record Device (block unit k : ℕ) : Type 0 where
  pub some_block : 0 < block
  pub some_unit : 0 < unit
  pub divides : k * (block * unit) ≡ max_write_chunk_bytes

-- The context in which the chunk size is computed.
abbrev sized : Ctx → Ctx
sized c = record c {
  block_size = c.sys.hw.bdev_block_size;
  write_unit_bytes = c.sys.hw.bdev_block_size * c.sys.hw.bdev_write_unit_size % 2 ^ 32;
  write_buf_count = c.opts.write_buf_count;
}

set_geometry-IsWellSized :
    (c : Ctx) (k : ℕ)
    → InLimits c.opts
    → Device c.sys.hw.bdev_block_size c.sys.hw.bdev_write_unit_size k
    → IsWellSized (set_geometry c)
unfolding set_geometry
set_geometry-IsWellSized c k ((b, b', lo, hi, r), w) d = record {
  some_buffers = b;
  few_buffers = b';
  chunk_low = chunk_low;
  chunk_high = chrono_round_write_chunk-le (sized c) c.opts.write_chunk_bytes k pos whole;
  whole_blocks = whole_blocks;
}
  where
    block : ℕ
    block = c.sys.hw.bdev_block_size

    unit : ℕ
    unit = c.sys.hw.bdev_write_unit_size

    bytes_pos : 0 < block * unit
    bytes_pos = mul-pos d.some_block d.some_unit

    no_wrap : block * unit % 2 ^ 32 ≡ block * unit
    no_wrap = omega (arith, factor_le k (block * unit) (2 ^ 21) (omega arith) d.divides)

    pos : 0 < block * unit % 2 ^ 32
    pos = omega (arith, no_wrap, bytes_pos)

    whole : k * (block * unit % 2 ^ 32) ≡ 2 ^ 21
    whole = ap (λ (x : ℕ). k * x) no_wrap ∙ d.divides

    round : Rounded (sized c) c.opts.write_chunk_bytes
    round =
        chrono_round_write_chunk_lem (sized c) c.opts.write_chunk_bytes pos
          (omega (arith, no_wrap, factor_le k (block * unit) (2 ^ 21) (omega arith) d.divides))

    requested : min_write_chunk_bytes ≤ clamp_chunk c.opts.write_chunk_bytes
    requested = ground arith

    size : ℕ
    size = chrono_round_write_chunk (sized c) c.opts.write_chunk_bytes

    chunk_low : min_write_chunk_bytes ≤ size
    chunk_low = omega (arith, requested, round.1)

    in_blocks : size ≡ round.0.0 * unit * block
    in_blocks =
        round.0.1
        ∙ ap (λ (x : ℕ). round.0.0 * x) (no_wrap ∙ mul_comm block unit)
        ∙ sym (mul_assoc round.0.0 unit block)

    whole_blocks : size ≡ size / block * block
    whole_blocks =
        in_blocks
        ∙ ap (λ (x : ℕ). x * block)
            (sym
              (ap (λ (x : ℕ). x / block) in_blocks ∙ mul-div_left (round.0.0 * unit) d.some_block))

-- With options that the program was given, on a device whose write unit divides the largest chunk,
-- a start either fails and submits nothing or leaves 1 to 32 buffers and a chunk of 4 KiB to 2 MiB
-- that is a whole number of the device's blocks.
pub app_started-IsWellSized :
    (strtoul : Text → ℕ) (strtoull : Text → ℕ) (sscanf : Text → List ℕ) (c : Ctx) (k : ℕ)
    → Configured strtoul strtoull sscanf c.opts
    → Device c.sys.hw.bdev_block_size c.sys.hw.bdev_write_unit_size k
    → Failed c (app_started c) ⊎ IsWellSized (app_started c)
app_started-IsWellSized strtoul strtoull sscanf c k options d = from (app_started-Reads c)
  where
    good : IsWellSized (set_geometry c)
    good =
        set_geometry-IsWellSized c k (Configured-InLimits strtoul strtoull sscanf c.opts options) d

    moved : (x : Ctx) → SameGeometry (set_geometry c) x → IsWellSized x
    moved x (e1, e2, e3, e4) = record {
      some_buffers = omega (arith, good.some_buffers);
      few_buffers = omega (arith, good.few_buffers);
      chunk_low = omega (arith, good.chunk_low);
      chunk_high = omega (arith, good.chunk_high);
      whole_blocks = e2 ∙ good.whole_blocks ∙ ap₂ (λ (a b : ℕ). a * b) (sym e3) (sym e1);
    }

    from :
        Failed c (app_started c)
          ⊎ (IsConsistent c.opts × Reads (header_callback c.opts) (set_geometry c) (app_started c))
        → Failed c (app_started c) ⊎ IsWellSized (app_started c)
    from (inl failed) = inl failed
    from (inr (ok_options, (i, e, same))) = inr (moved (app_started c) same)
