-- ===== src/Startup/Start.antt =====
-- src/main.c: what runs when SPDK has started, up to the first I/O of each mode, and how the
-- process is told to stop.
pub mod Submits
pub mod Geometry
pub mod Header
use chrontabulator.Base.{
  ℕ, ◌*◌, ◌/◌, ◌%◌, ◌^◌, Bool, true, false, not, ◌&&◌, ◌||◌, [], ◌==◌, if◌then◌else◌,
}
use chrontabulator.Base.Mem.{Mem}
use chrontabulator.Format.{volume_header_is_valid, load_volume}
use chrontabulator.Ctx.{
  ok, err, AdminRequest, recording_start, stopped_failed, read_io, vol_target, Callback,
  volume_header_read, daemon_volume_header_read, Ctx, Opts, no_segment,
}
use chrontabulator.Ctx.Device.{submit, set_exit, fail_started}
use chrontabulator.Capture.Finalize.{daemon_teardown_and_exit}
use chrontabulator.Capture.Buffers.{daemon_stop_recording, begin_shutdown}
use chrontabulator.Capture.Claim.{claim_segment_start, fresh_buffer}
use chrontabulator.Volume.Init.{init_start}
use chrontabulator.Volume.Settings.{chrono_round_write_chunk}
use chrontabulator.Reader.Dump.{dump_start}

-- The header in `vol_buf` is taken over, unless it was not read, is not one, or was formatted for
-- another block size; then `next` goes on.
unfoldable pub take_header : (Ctx → Ctx) → Bool → Ctx → Ctx
take_header next success c =
    if not success
    then fail_started c
    else if not (volume_header_is_valid (load_volume c.vol_buf))
    then fail_started c
    else (let c1 = record c { vol = load_volume c.vol_buf } in
        if not (c1.vol.block_size == c1.block_size) then fail_started c1 else next c1)

unfoldable pub volume_header_read_complete : Bool → Ctx → Ctx
volume_header_read_complete =
    take_header (λ c. if c.opts.dump_mode then dump_start c else claim_segment_start c)

-- `memset(req, 0, sizeof(*req))` in `chrono_admin_init`.
abbrev pub zero_request : AdminRequest
zero_request = record {
  busy = false;
  done = false;
  abandoned = false;
  op = recording_start;
  req_port = 0;
  req_count_limit = 0;
  req_count_limit_given = false;
  req_segment_id = 0;
  req_offset = 0;
  req_limit = 0;
  req_include_deleted = false;
  req_write_buf_count = 0;
  req_write_chunk_bytes = 0;
  req_wire_has_seq = false;
  req_local_ip = λ i. 0;
  req_have_local_ip = false;
  rc = ok;
  resp = [];
  scan_collected = 0;
}

-- `true` stands for 0, `false` for -1: the lock, the condition variable or the text buffer.
unfoldable pub chrono_admin_init : Ctx → Bool × Ctx
chrono_admin_init c = (c.sys.hw.admin_starts, record c { admin_req = zero_request })

-- Taken over for the web server's thread, which reads these only.
abbrev pub publish_volume : Ctx → Ctx
publish_volume c = record c {
  current_segment_id = no_segment;
  mirror_next_segment_id = c.vol.next_segment_id;
  mirror_next_data_block = c.vol.next_data_block;
  cached_num_blocks = c.sys.hw.bdev_num_blocks;
}

unfoldable pub daemon_finish_startup : Ctx → Ctx
daemon_finish_startup c =
    if not c.sys.hw.write_buffers_allocate
    then fail_started c
    else (let c1 = record c { buffers = λ i. record (c.buffers i) { bytes = λ j. 0 } } in
        let (started, c2) = chrono_admin_init c1 in
        if not started
        then fail_started c2
        else (let c3 = publish_volume c2 in
            if not (c3.opts.web_port == 0) && not c3.sys.hw.web_starts
            then fail_started c3
            else c3))

unfoldable pub daemon_volume_header_read_complete : Bool → Ctx → Ctx
daemon_volume_header_read_complete = take_header daemon_finish_startup

-- `true` stands for 0, `false` for -1.
unfoldable pub daemon_bring_up_nic : Ctx → Bool × Ctx
daemon_bring_up_nic c =
    if not (c.sys.hw.ports_available == 1)
    then (false, fail_started c)
    else if not c.sys.hw.pool_allocates
    then (false, fail_started c)
    else if not c.sys.hw.port_starts
    then (false, fail_started c)
    else (true, record c { nic_up = true; rx_poller = true })

-- The read of block 0 that both modes begin with.
unfoldable pub read_header : Callback → Ctx → Ctx
read_header cb c =
    let (rc, c1) = submit (read_io 0 c.block_size vol_target cb) c in
    elim rc [ ok ↦ c1 | err e ↦ fail_started c1 ]

unfoldable pub daemon_start : Ctx → Ctx
daemon_start c =
    let (up, c1) = daemon_bring_up_nic c in
    if up then read_header daemon_volume_header_read c1 else c1

-- The four checks of the options at the head of `app_started`.
unfoldable pub refuse_options : Opts → Bool
refuse_options o =
    if not o.bdev_given
    then true
    else if not o.dump_mode && not o.init_mode && not o.serve_mode && o.udp_port == 0
    then true
    else if o.init_mode && o.dump_mode || o.init_mode && o.serve_mode || o.dump_mode && o.serve_mode
    then true
    else if o.dump_segment_given && not o.dump_mode
    then true
    else false

-- The device's geometry and the settings from the options. Products of `uint32_t` wrap.
unfoldable pub set_geometry : Ctx → Ctx
set_geometry c =
    let c1 = record c {
      block_size = c.sys.hw.bdev_block_size;
      write_unit_bytes = c.sys.hw.bdev_block_size * c.sys.hw.bdev_write_unit_size % 2 ^ 32;
      write_buf_count = c.opts.write_buf_count;
    } in
    let size = chrono_round_write_chunk c1 c1.opts.write_chunk_bytes in
    record c1 {
      buf_size = size;
      buf_size_blocks = size / c1.block_size;
      wire_has_seq = c1.opts.wire_has_seq;
    }

-- The first step of each mode.
unfoldable pub start_mode : Ctx → Ctx
start_mode c =
    if c.opts.init_mode
    then init_start c
    else if c.opts.serve_mode
    then daemon_start c
    else read_header volume_header_read c

unfoldable pub app_started : Ctx → Ctx
app_started c =
    if refuse_options c.opts
    then set_exit stopped_failed c
    else if not c.sys.hw.bdev_opens
    then set_exit stopped_failed c
    else if not c.sys.hw.channel_opens
    then set_exit stopped_failed c
    else (let c1 = set_geometry c in
        if not c1.sys.hw.buffers_allocate
        then fail_started c1
        else start_mode (record c1 { vol_buf = λ i. 0; io_buf = λ i. 0 }))

unfoldable pub app_shutdown_cb : Ctx → Ctx
app_shutdown_cb c = begin_shutdown c

unfoldable pub daemon_shutdown_cb : Ctx → Ctx
daemon_shutdown_cb c =
    let c1 = record c { shutting_down = true } in
    if c1.recording then daemon_stop_recording c1 else daemon_teardown_and_exit c1

-- The handler that `main` installs for the mode.
unfoldable pub shutdown_cb : Ctx → Ctx
shutdown_cb c = if c.opts.serve_mode then daemon_shutdown_cb c else app_shutdown_cb c
