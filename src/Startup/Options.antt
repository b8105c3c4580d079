-- ===== src/Startup/Options.antt =====
-- src/main.c: `app_parse_arg` and the defaults that `main` sets. The conversions of the C library
-- are parameters, functions of the text; SPDK's option parser calls
-- `app_parse_arg` for each option it finds.
pub mod Bounds
use chrontabulator.Base.{
  ℕ, ◌*◌, ◌%◌, ◌^◌, Bool, true, false, ◌||◌, List, [], ◌∷◌, ltb, ◌==◌, if◌then◌else◌, mul64,
}
use chrontabulator.Wire.Address.{Text, app_parse_ipv4}
use chrontabulator.Ctx.{
  Opts, Rc, ok, err, einval, max_write_buffers, max_write_chunk_bytes, min_write_chunk_bytes,
}

-- The options: the letters and `CHRONO_OPT_*`; `opt_other` is any other.
pub data Opt : Type 0 where
  opt_b opt_p opt_m opt_i opt_f opt_c opt_d opt_s opt_init opt_force opt_serve opt_web_port : Opt
  opt_write_buffers opt_write_chunk_kb opt_repair_chunk_bytes opt_no_wire_seq opt_other : Opt

-- What `main` sets before the options are parsed; all else is zero.
abbrev pub default_opts : Opts
default_opts = record {
  bdev_given = false;
  udp_port = 0;
  mtu = 0;
  force_10g = false;
  wire_has_seq = true;
  count_limit = 0;
  dump_mode = false;
  init_mode = false;
  force = false;
  dump_segment_given = false;
  dump_segment_id = 0;
  repair_chunk_bytes = 0;
  serve_mode = false;
  web_port = 8080;
  local_ip = λ i. 0;
  have_local_ip = false;
  write_buf_count = 8;
  write_chunk_bytes = 64 * 1024;
}

unfoldable pub set_local_ip : (Text → List ℕ) → Text → Opts → Rc × Opts
set_local_ip sscanf arg o =
    let (parsed, ip) = app_parse_ipv4 sscanf arg o.local_ip in
    if parsed
    then (ok, record o { local_ip = ip; have_local_ip = true })
    else (err einval, record o { local_ip = ip })

unfoldable pub set_write_buffers : ℕ → Opts → Rc × Opts
set_write_buffers n o =
    if ltb n 1 || ltb max_write_buffers n
    then (err einval, o)
    else (ok, record o { write_buf_count = n })

-- `kb * 1024` wraps as an `unsigned long`.
unfoldable pub set_write_chunk_kb : ℕ → Opts → Rc × Opts
set_write_chunk_kb kb o =
    if ltb (mul64 kb 1024) min_write_chunk_bytes || ltb max_write_chunk_bytes (mul64 kb 1024)
    then (err einval, o)
    else (ok, record o { write_chunk_bytes = mul64 kb 1024 })

unfoldable pub set_repair_chunk_bytes : ℕ → Opts → Rc × Opts
set_repair_chunk_bytes bytes o =
    if bytes == 0 || ltb max_write_chunk_bytes bytes
    then (err einval, o)
    else (ok, record o { repair_chunk_bytes = bytes })

module _ (strtoul : Text → ℕ) (strtoull : Text → ℕ) (sscanf : Text → List ℕ) where
  unfoldable pub app_parse_arg : Opt → Text → Opts → Rc × Opts
  app_parse_arg opt_b arg o = (ok, record o { bdev_given = true })
  app_parse_arg opt_p arg o = (ok, record o { udp_port = strtoul arg % 2 ^ 16 })
  app_parse_arg opt_m arg o = (ok, record o { mtu = strtoul arg % 2 ^ 16 })
  app_parse_arg opt_i arg o = set_local_ip sscanf arg o
  app_parse_arg opt_f arg o = (ok, record o { force_10g = true })
  app_parse_arg opt_c arg o = (ok, record o { count_limit = strtoull arg })
  app_parse_arg opt_d arg o = (ok, record o { dump_mode = true })
  app_parse_arg opt_s arg o =
      (ok, record o { dump_segment_given = true; dump_segment_id = strtoul arg % 2 ^ 32 })
  app_parse_arg opt_init arg o = (ok, record o { init_mode = true })
  app_parse_arg opt_force arg o = (ok, record o { force = true })
  app_parse_arg opt_serve arg o = (ok, record o { serve_mode = true })
  app_parse_arg opt_web_port arg o = (ok, record o { web_port = strtoul arg % 2 ^ 16 })
  app_parse_arg opt_write_buffers arg o = set_write_buffers (strtoul arg) o
  app_parse_arg opt_write_chunk_kb arg o = set_write_chunk_kb (strtoul arg) o
  app_parse_arg opt_repair_chunk_bytes arg o = set_repair_chunk_bytes (strtoul arg) o
  app_parse_arg opt_no_wire_seq arg o = (ok, record o { wire_has_seq = false })
  app_parse_arg opt_other arg o = (err einval, o)

  -- What SPDK's option parser can leave: each option it finds is given to `app_parse_arg`.
  pub data Configured : Opts → Type 0 where
    defaults : Configured default_opts
    given :
        (ch : Opt) (arg : Text) (o : Opts) → Configured o → Configured (app_parse_arg ch arg o).1
