-- ===== src/Startup/Options/Bounds.antt =====
-- The options that can be left by `app_parse_arg` (src/main.c), whatever the texts are.
use chrontabulator.Base.{ℕ, ◌^◌, ◌≤◌, ◌<◌, List, ◌||◌, ltb, ◌==◌, if_cases, arith, mul64}
use chrontabulator.Wire.Address.{Text, app_parse_ipv4}
use chrontabulator.Ctx.{
  Opts, Rc, ok, max_write_buffers, max_write_chunk_bytes, min_write_chunk_bytes,
}
use chrontabulator.Startup.Options.{
  Opt, opt_b, opt_p, opt_m, opt_i, opt_f, opt_c, opt_d, opt_s, opt_init, opt_force, opt_serve,
  opt_web_port, opt_write_buffers, opt_write_chunk_kb, opt_repair_chunk_bytes, opt_no_wire_seq,
  opt_other, app_parse_arg, set_local_ip, set_write_buffers, set_write_chunk_kb,
  set_repair_chunk_bytes, Configured, defaults, given,
}

-- The limits that the usage text states, and the widths of the fields.
abbrev pub Limits : ℕ → ℕ → ℕ → Type 0
Limits buffers chunk repair =
    (1 ≤ buffers)
    × (buffers ≤ max_write_buffers)
    × (min_write_chunk_bytes ≤ chunk)
    × (chunk ≤ max_write_chunk_bytes)
    × (repair ≤ max_write_chunk_bytes)

abbrev pub Widths : ℕ → ℕ → ℕ → ℕ → Type 0
Widths udp_port mtu web_port segment =
    (udp_port < 2 ^ 16) × (mtu < 2 ^ 16) × (web_port < 2 ^ 16) × (segment < 2 ^ 32)

abbrev pub InLimits : Opts → Type 0
InLimits o =
    Limits o.write_buf_count o.write_chunk_bytes o.repair_chunk_bytes
    × Widths o.udp_port o.mtu o.web_port o.dump_segment_id

abbrev Kept : Rc × Opts → Type 0
Kept r = InLimits r.1

set_write_buffers-InLimits : (n : ℕ) (o : Opts) → InLimits o → Kept (set_write_buffers n o)
unfolding set_write_buffers
set_write_buffers-InLimits n o ((lo, hi, k, k', r), w) =
    if_cases Kept (ltb n 1 || ltb max_write_buffers n) {y = (ok, record o { write_buf_count = n })}
      (λ e. ((lo, hi, k, k', r), w)) (λ e. ((ground arith, ground arith, k, k', r), w))

set_write_chunk_kb-InLimits : (kb : ℕ) (o : Opts) → InLimits o → Kept (set_write_chunk_kb kb o)
unfolding set_write_chunk_kb
set_write_chunk_kb-InLimits kb o ((b, b', lo, hi, l), w) =
    if_cases Kept
      (ltb (mul64 kb 1024) min_write_chunk_bytes || ltb max_write_chunk_bytes (mul64 kb 1024))
      {y = (ok, record o { write_chunk_bytes = mul64 kb 1024 })} (λ e. ((b, b', lo, hi, l), w))
      (λ e. ((b, b', ground arith, ground arith, l), w))

set_repair_chunk_bytes-InLimits :
    (n : ℕ) (o : Opts) → InLimits o → Kept (set_repair_chunk_bytes n o)
unfolding set_repair_chunk_bytes
set_repair_chunk_bytes-InLimits n o ((b, b', k, k', r), w) =
    if_cases Kept (n == 0 || ltb max_write_chunk_bytes n)
      {y = (ok, record o { repair_chunk_bytes = n })} (λ e. ((b, b', k, k', r), w))
      (λ e. ((b, b', k, k', ground arith), w))

module _ (strtoul : Text → ℕ) (strtoull : Text → ℕ) (sscanf : Text → List ℕ) where
  app_parse_arg-InLimits :
      (ch : Opt) (arg : Text) (o : Opts)
      → InLimits o
      → Kept (app_parse_arg strtoul strtoull sscanf ch arg o)
  unfolding app_parse_arg set_local_ip
  app_parse_arg-InLimits opt_b arg o h = h
  app_parse_arg-InLimits opt_p arg o (l, (u, m, p, s)) = (l, (omega arith, m, p, s))
  app_parse_arg-InLimits opt_m arg o (l, (u, m, p, s)) = (l, (u, omega arith, p, s))
  app_parse_arg-InLimits opt_i arg o h =
      if_cases Kept (app_parse_ipv4 sscanf arg o.local_ip).0 (λ e. h) (λ e. h)
  app_parse_arg-InLimits opt_f arg o h = h
  app_parse_arg-InLimits opt_c arg o h = h
  app_parse_arg-InLimits opt_d arg o h = h
  app_parse_arg-InLimits opt_s arg o (l, (u, m, p, s)) = (l, (u, m, p, omega arith))
  app_parse_arg-InLimits opt_init arg o h = h
  app_parse_arg-InLimits opt_force arg o h = h
  app_parse_arg-InLimits opt_serve arg o h = h
  app_parse_arg-InLimits opt_web_port arg o (l, (u, m, p, s)) = (l, (u, m, omega arith, s))
  app_parse_arg-InLimits opt_write_buffers arg o h = set_write_buffers-InLimits (strtoul arg) o h
  app_parse_arg-InLimits opt_write_chunk_kb arg o h = set_write_chunk_kb-InLimits (strtoul arg) o h
  app_parse_arg-InLimits opt_repair_chunk_bytes arg o h =
      set_repair_chunk_bytes-InLimits (strtoul arg) o h
  app_parse_arg-InLimits opt_no_wire_seq arg o h = h
  app_parse_arg-InLimits opt_other arg o h = h

  -- Whatever options are given in whatever order, and whatever their texts convert to, refused ones
  -- included, what is kept are 1 to 32 buffers, a chunk of 4 KiB to 2 MiB, a repaired chunk size of
  -- at most 2 MiB, and ports, an MTU and a segment id within their fields.
  pub Configured-InLimits : (o : Opts) → Configured strtoul strtoull sscanf o → InLimits o
  Configured-InLimits o defaults = (
    (omega arith, omega arith, omega arith, omega arith, omega arith),
    (omega arith, omega arith, omega arith, omega arith),
  )
  Configured-InLimits _ (given ch arg o prev) =
      app_parse_arg-InLimits ch arg o (Configured-InLimits o prev)
