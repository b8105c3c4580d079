-- ===== src/Web/Status.antt =====
-- src/web_status.c: `render_status_json`, the values that it takes from the context. Those that
-- DPDK and the clock give, and the text around them, are left out.
pub mod Capacity
pub mod Eal
use Prim.Native.String.{String}
use chrontabulator.Base.{ℕ, ◌-◌, Bool, Option, none, some, ltb, leb, ◌==◌, if◌then◌else◌, mul64}
use chrontabulator.Base.Mem.{Mem}
use chrontabulator.Ctx.{
  Ctx, StopReason, stop_none, stop_user, stop_count_limit, stop_disk_full, stop_write_failures,
  no_segment,
}

unfoldable pub stop_reason_str : StopReason → String
stop_reason_str stop_none = "none"
stop_reason_str stop_user = "user"
stop_reason_str stop_count_limit = "count_limit"
stop_reason_str stop_disk_full = "disk_full"
stop_reason_str stop_write_failures = "write_failures"

pub record Status : Type 0 where
  pub recording : Bool
  pub current_segment_id : Option ℕ
  pub current_segment_record_count : ℕ
  pub current_segment_dropped_count : ℕ
  pub last_stop_reason : String
  pub udp_port : ℕ
  pub have_local_ip : Bool
  pub local_ip : Mem
  pub block_size : ℕ
  pub total_bytes : ℕ
  pub toc_slot_count : ℕ
  pub segments_used : ℕ
  pub data_used_bytes : ℕ
  pub data_free_bytes : ℕ
  pub bytes_written_total : ℕ
  pub writes_completed_total : ℕ
  pub write_errors_total : ℕ
  pub write_buf_count : ℕ
  pub write_chunk_bytes : ℕ
  pub wire_has_seq : Bool
  pub startup_mtu : ℕ
  pub startup_force_10g : Bool
  pub startup_udp_port : ℕ
  pub startup_count_limit : ℕ
  pub startup_write_buf_count : ℕ
  pub startup_write_chunk_bytes : ℕ
  pub startup_wire_has_seq : Bool

-- `null` for no segment.
unfoldable pub segment_json : ℕ → Option ℕ
segment_json id = if id == no_segment then none else some id

unfoldable pub data_blocks : Ctx → ℕ
data_blocks c =
    if leb c.vol.data_start_block c.cached_num_blocks
    then c.cached_num_blocks - c.vol.data_start_block
    else 0

unfoldable pub data_used_blocks : Ctx → ℕ
data_used_blocks c =
    if ltb c.vol.data_start_block c.mirror_next_data_block
    then c.mirror_next_data_block - c.vol.data_start_block
    else 0

unfoldable pub data_free_bytes : Ctx → ℕ
data_free_bytes c =
    if ltb (data_used_blocks c) (data_blocks c)
    then mul64 (data_blocks c - data_used_blocks c) c.block_size
    else 0

unfoldable pub render_status_json : Ctx → Status
render_status_json c = record {
  recording = c.recording;
  current_segment_id = segment_json c.current_segment_id;
  current_segment_record_count = c.record_count;
  current_segment_dropped_count = c.dropped_count;
  last_stop_reason = stop_reason_str c.last_stop_reason;
  udp_port = c.opts.udp_port;
  have_local_ip = c.opts.have_local_ip;
  local_ip = c.opts.local_ip;
  block_size = c.block_size;
  total_bytes = mul64 c.cached_num_blocks c.block_size;
  toc_slot_count = c.vol.toc_slot_count;
  segments_used = c.mirror_next_segment_id;
  data_used_bytes = mul64 (data_used_blocks c) c.block_size;
  data_free_bytes = data_free_bytes c;
  bytes_written_total = c.bytes_written_total;
  writes_completed_total = c.writes_completed_total;
  write_errors_total = c.write_errors_total;
  write_buf_count = c.write_buf_count;
  write_chunk_bytes = c.buf_size;
  wire_has_seq = c.wire_has_seq;
  startup_mtu = c.opts.mtu;
  startup_force_10g = c.opts.force_10g;
  startup_udp_port = c.opts.udp_port;
  startup_count_limit = c.opts.count_limit;
  startup_write_buf_count = c.opts.write_buf_count;
  startup_write_chunk_bytes = c.opts.write_chunk_bytes;
  startup_wire_has_seq = c.opts.wire_has_seq;
}
