-- ===== src/Ctx.antt =====
-- src/chrono_ctx.h and src/chrono_admin.h: the state that the reactor thread works on.
-- `Sys` is what stands outside the program: the device, the I/O submitted to it, the clock.
pub mod Device
use chrontabulator.Base.{ℕ, ◌*◌, Bool, List, Option}
use chrontabulator.Base.Mem.{Mem}
use chrontabulator.Format.{RecordHdr, Volume, Segment}
use chrontabulator.Format.Segments.{View}

-- The `errno` values that the code names; `other` is any other that a library call returns.
pub data Errno : Type 0 where
  eio enoent eagain ebusy eshutdown ealready einval enospc etimedout enomem : Errno
  other : ℕ → Errno

-- A return code: 0, or the negated `errno`.
pub data Rc : Type 0 where
  ok : Rc
  err : Errno → Rc

-- `enum chrono_stop_reason`
pub data StopReason : Type 0 where
  stop_none stop_user stop_count_limit stop_disk_full stop_write_failures : StopReason

-- `struct app_opts_t`; `bdev_given` tells whether `bdev_name` is set.
pub record Opts : Type 0 where
  pub bdev_given : Bool
  pub udp_port : ℕ
  pub mtu : ℕ
  pub force_10g : Bool
  pub wire_has_seq : Bool
  pub count_limit : ℕ
  pub dump_mode : Bool
  pub init_mode : Bool
  pub force : Bool
  pub dump_segment_given : Bool
  pub dump_segment_id : ℕ
  pub repair_chunk_bytes : ℕ
  pub serve_mode : Bool
  pub web_port : ℕ
  pub local_ip : Mem
  pub have_local_ip : Bool
  pub write_buf_count : ℕ
  pub write_chunk_bytes : ℕ

-- `struct write_buf`; `bytes` is what `data` points at.
pub record WriteBuf : Type 0 where
  pub bytes : Mem
  pub used : ℕ
  pub in_flight : Bool
  pub target_block : ℕ

-- `enum chrono_admin_op`; `op_unknown` stands for any other value, which the dispatch refuses.
pub data Op : Type 0 where
  recording_start recording_stop segments_list segment_records segment_delete quick_format : Op
  set_write_buffers set_write_chunk set_wire_has_seq set_local_ip op_unknown : Op

-- What the admin handlers print into `resp_buf`, piece by piece; `list_item` is a finalized or
-- deleted segment, `open_item` an open one with its live block count, and a record has its payload
-- when it was asked for alone.
pub data Item : Type 0 where
  list_start : Item
  list_item : View → Segment → Item
  open_item : ℕ → ℕ → ℕ → Item
  list_end : ℕ → Item
  records_start : ℕ → Item
  record_item : RecordHdr → Option Mem → Item
  records_end : ℕ → ℕ → ℕ → ℕ → Bool → Item

-- `struct chrono_admin_request`, less its lock and condition variable.
pub record AdminRequest : Type 0 where
  pub busy : Bool
  pub done : Bool
  pub abandoned : Bool
  pub op : Op
  pub req_port : ℕ
  pub req_count_limit : ℕ
  pub req_count_limit_given : Bool
  pub req_segment_id : ℕ
  pub req_offset : ℕ
  pub req_limit : ℕ
  pub req_include_deleted : Bool
  pub req_write_buf_count : ℕ
  pub req_write_chunk_bytes : ℕ
  pub req_wire_has_seq : Bool
  pub req_local_ip : Mem
  pub req_have_local_ip : Bool
  pub rc : Rc
  pub resp : List Item
  pub scan_collected : ℕ

-- The completion functions, as SPDK is handed them; the buffer index is the `cb_arg`.
pub data Callback : Type 0 where
  write_complete : ℕ → Callback
  finalize_header_write finalize_toc_write : Callback
  claim_toc_write claim_header_write : Callback
  dump_chunk_read repair_chunk_bytes_write dump_segment_entry_read list_chunk_read : Callback
  volume_header_read : Callback
  init_check_read init_zero_toc_chunk_write init_header_write : Callback
  daemon_finalize_header_write daemon_finalize_toc_write : Callback
  daemon_claim_toc_write daemon_claim_header_write : Callback
  daemon_quick_format_zero_write daemon_quick_format_header_write : Callback
  daemon_volume_header_read : Callback
  admin_list_chunk_read admin_records_entry_read admin_records_chunk_read : Callback
  admin_delete_read admin_delete_write : Callback

-- The two buffers that reads go to.
pub data Target : Type 0 where
  vol_target io_target : Target

-- A submitted I/O: byte offset on the device, length, and for a write the bytes handed over.
pub data Io : Type 0 where
  write_io : ℕ → ℕ → Mem → Callback → Io
  read_io : ℕ → ℕ → Target → Callback → Io

-- How the application was stopped.
pub data Exit : Type 0 where
  running stopped_clean stopped_failed : Exit

-- What `-D` prints about segments and records.
pub data Line : Type 0 where
  segment_line : View → Segment → Line
  open_line : Segment → Line
  record_line : RecordHdr → Line

-- What the set-up calls of SPDK, DPDK and the C library find: the bdev's answers, and whether each
-- call succeeds.
pub record Hardware : Type 0 where
  pub bdev_opens : Bool
  pub channel_opens : Bool
  pub bdev_block_size : ℕ
  pub bdev_write_unit_size : ℕ
  pub bdev_num_blocks : ℕ
  pub buffers_allocate : Bool
  pub write_buffers_allocate : Bool
  pub ports_available : ℕ
  pub pool_allocates : Bool
  pub port_starts : Bool
  pub admin_starts : Bool
  pub web_starts : Bool

pub record Sys : Type 0 where
  pub hw : Hardware
  pub disk : Mem
  pub submit_rcs : List Rc  -- what the submissions to come return; `ok` when it is used up
  pub inflight : List Io
  pub clock_sec : ℕ
  pub clock_nsec : ℕ
  pub tsc_hz : ℕ
  pub exit : Exit
  pub printed : List Line

-- `struct app_context_t`; pointers to SPDK and DPDK objects are left out but for what the code
-- tests. `bdev_io_wait` is the `cb_arg` of the one wait entry, while it is queued.
pub record Ctx : Type 0 where
  pub opts : Opts
  pub block_size : ℕ
  pub write_unit_bytes : ℕ
  pub buf_size : ℕ
  pub buf_size_blocks : ℕ
  pub write_buf_count : ℕ
  pub wire_has_seq : Bool
  pub buffers : ℕ → WriteBuf
  pub cur_buf : ℕ
  pub next_write_block : ℕ
  pub bdev_io_wait : Option ℕ
  pub nic_up : Bool
  pub rx_poller : Bool
  pub record_count : ℕ
  pub dropped_count : ℕ
  pub first_capture_tsc : ℕ
  pub last_capture_tsc : ℕ
  pub last_stop_reason : StopReason
  pub pending_writes : ℕ
  pub stopping : Bool
  pub consecutive_write_failures : ℕ
  pub vol : Volume
  pub qf_staged_vol : Volume
  pub vol_buf : Mem
  pub io_buf : Mem
  pub segment_id : ℕ
  pub segment_start_block : ℕ
  pub segment_wall_start_sec : ℕ
  pub segment_wall_start_nsec : ℕ
  pub init_cur_block : ℕ
  pub dump_target_count : ℕ
  pub dump_records_seen : ℕ
  pub dump_cur_block : ℕ
  pub dump_first_capture_tsc : ℕ
  pub dump_tsc_hz : ℕ
  pub dump_write_chunk_bytes : ℕ
  pub dump_write_chunk_blocks : ℕ
  pub recording : Bool
  pub claim_in_progress : Bool
  pub shutting_down : Bool
  pub current_segment_id : ℕ
  pub mirror_next_segment_id : ℕ
  pub mirror_next_data_block : ℕ
  pub cached_num_blocks : ℕ
  pub bytes_written_total : ℕ
  pub writes_completed_total : ℕ
  pub write_errors_total : ℕ
  pub admin_req : AdminRequest
  pub sys : Sys

abbrev pub max_write_buffers : ℕ
max_write_buffers = 32

abbrev pub max_write_chunk_bytes : ℕ
max_write_chunk_bytes = 2 * 1024 * 1024

abbrev pub min_write_chunk_bytes : ℕ
min_write_chunk_bytes = 4 * 1024

-- `CHRONO_NO_SEGMENT`, `UINT32_MAX`
abbrev pub no_segment : ℕ
no_segment = 4294967295
