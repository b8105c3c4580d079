-- ===== src/Volume/Settings.antt =====
-- src/main.c: the write chunk size and the daemon's live settings.
pub mod Rounding
use chrontabulator.Base.{
  ℕ, ◌+◌, ◌-◌, ◌*◌, ◌/◌, ◌%◌, ◌^◌, Bool, true, false, ◌||◌, ltb, if◌then◌else◌,
}
use chrontabulator.Base.Mem.{Mem, copy}
use chrontabulator.Ctx.{
  Rc, ok, err, einval, Ctx, max_write_buffers, max_write_chunk_bytes, min_write_chunk_bytes,
}
use chrontabulator.Ctx.Device.{chrono_admin_fulfill}

abbrev pub clamp_chunk : ℕ → ℕ
clamp_chunk requested =
    if ltb requested min_write_chunk_bytes
    then min_write_chunk_bytes
    else if ltb max_write_chunk_bytes requested
    then max_write_chunk_bytes
    else requested

-- `((requested + unit - 1) / unit) * unit` on `uint32_t`.
unfoldable pub chrono_round_write_chunk : Ctx → ℕ → ℕ
chrono_round_write_chunk c requested =
    (clamp_chunk requested + c.write_unit_bytes + (2 ^ 32 - 1))
    % 2 ^ 32
    / c.write_unit_bytes
    * c.write_unit_bytes
    % 2 ^ 32

unfoldable pub daemon_set_write_buf_count : ℕ → Ctx → Ctx
daemon_set_write_buf_count count c =
    if ltb count 1 || ltb max_write_buffers count
    then chrono_admin_fulfill (err einval) c
    else chrono_admin_fulfill ok (record c { write_buf_count = count })

unfoldable pub daemon_set_write_chunk_bytes : ℕ → Ctx → Ctx
daemon_set_write_chunk_bytes bytes c =
    if ltb bytes min_write_chunk_bytes || ltb max_write_chunk_bytes bytes
    then chrono_admin_fulfill (err einval) c
    else (let size = chrono_round_write_chunk c bytes in
        chrono_admin_fulfill ok
          (record c { buf_size = size; buf_size_blocks = size / c.block_size }))

unfoldable pub daemon_set_wire_has_seq : Bool → Ctx → Ctx
daemon_set_wire_has_seq value c = chrono_admin_fulfill ok (record c { wire_has_seq = value })

unfoldable pub daemon_set_local_ip : Mem → Bool → Ctx → Ctx
daemon_set_local_ip ip have_ip c =
    if have_ip
    then chrono_admin_fulfill ok (record c {
      opts = record c.opts { local_ip = copy c.opts.local_ip 0 ip 0 4; have_local_ip = true };
    })
    else chrono_admin_fulfill ok (record c { opts = record c.opts { have_local_ip = false } })
