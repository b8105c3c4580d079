-- ===== src/Tests/Data.antt =====
-- A daemon that is recording its first segment, with two empty buffers of eight blocks.
use chrontabulator.Base.{true, false, none, []}
use chrontabulator.Format.{zero_volume}
use chrontabulator.Ctx.{
  Opts, Hardware, Sys, AdminRequest, Ctx, recording_start, ok, stop_none, running,
}
use chrontabulator.Capture.Claim.{fresh_buffer}
use chrontabulator.Volume.Init.{fresh_volume}

abbrev pub test_opts : Opts
test_opts = record {
  bdev_given = true;
  udp_port = 5005;
  mtu = 1500;
  force_10g = false;
  wire_has_seq = false;
  count_limit = 0;
  dump_mode = false;
  init_mode = false;
  force = false;
  dump_segment_given = false;
  dump_segment_id = 0;
  repair_chunk_bytes = 0;
  serve_mode = true;
  web_port = 8080;
  local_ip = λ i. 0;
  have_local_ip = false;
  write_buf_count = 2;
  write_chunk_bytes = 4096;
}

abbrev pub test_hardware : Hardware
test_hardware = record {
  bdev_opens = true;
  channel_opens = true;
  bdev_block_size = 512;
  bdev_write_unit_size = 1;
  bdev_num_blocks = 8192;
  buffers_allocate = true;
  write_buffers_allocate = true;
  ports_available = 1;
  pool_allocates = true;
  port_starts = true;
  admin_starts = true;
  web_starts = true;
}

abbrev pub test_sys : Sys
test_sys = record {
  hw = test_hardware;
  disk = λ i. 0;
  submit_rcs = [];
  inflight = [];
  clock_sec = 1700000000;
  clock_nsec = 5;
  tsc_hz = 1000000000;
  exit = running;
  printed = [];
}

abbrev pub test_request : AdminRequest
test_request = record {
  busy = false;
  done = false;
  abandoned = false;
  op = recording_start;
  req_port = 0;
  req_count_limit = 0;
  req_count_limit_given = false;
  req_segment_id = 0;
  req_offset = 0;
  req_limit = 0;
  req_include_deleted = false;
  req_write_buf_count = 0;
  req_write_chunk_bytes = 0;
  req_wire_has_seq = false;
  req_local_ip = λ i. 0;
  req_have_local_ip = false;
  rc = ok;
  resp = [];
  scan_collected = 0;
}

abbrev pub recording_ctx : Ctx
recording_ctx = record {
  opts = test_opts;
  block_size = 512;
  write_unit_bytes = 512;
  buf_size = 4096;
  buf_size_blocks = 8;
  write_buf_count = 2;
  wire_has_seq = false;
  buffers = λ i. fresh_buffer;
  cur_buf = 0;
  next_write_block = 4097;
  bdev_io_wait = none;
  nic_up = true;
  rx_poller = true;
  record_count = 0;
  dropped_count = 0;
  first_capture_tsc = 0;
  last_capture_tsc = 0;
  last_stop_reason = stop_none;
  pending_writes = 0;
  stopping = false;
  consecutive_write_failures = 0;
  vol = record (fresh_volume 512 1700000000) { next_segment_id = 1 };
  qf_staged_vol = zero_volume;
  vol_buf = λ i. 0;
  io_buf = λ i. 0;
  segment_id = 0;
  segment_start_block = 4097;
  segment_wall_start_sec = 0;
  segment_wall_start_nsec = 0;
  init_cur_block = 0;
  dump_target_count = 0;
  dump_records_seen = 0;
  dump_cur_block = 0;
  dump_first_capture_tsc = 0;
  dump_tsc_hz = 0;
  dump_write_chunk_bytes = 0;
  dump_write_chunk_blocks = 0;
  recording = true;
  claim_in_progress = false;
  shutting_down = false;
  current_segment_id = 0;
  mirror_next_segment_id = 1;
  mirror_next_data_block = 4097;
  cached_num_blocks = 8192;
  bytes_written_total = 0;
  writes_completed_total = 0;
  write_errors_total = 0;
  admin_req = test_request;
  sys = test_sys;
}
