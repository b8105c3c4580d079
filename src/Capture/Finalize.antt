-- ===== src/Capture/Finalize.antt =====
-- src/main.c: closing a segment. The volume header is written first, then the segment's slot in
-- the table of contents. A write that is refused at once goes on as one that failed.
pub mod Chain
use chrontabulator.Base.{ℕ, ◌%◌, ◌^◌, Bool, true, false, ◌==◌, if◌then◌else◌, sub64}
use chrontabulator.Base.Mem.{Mem, fill}
use chrontabulator.Format.{Volume, Segment, segment_magic, segment_finalized, store_segment}
use chrontabulator.Ctx.{
  Rc, ok, err, eio, Callback, finalize_header_write, finalize_toc_write,
  daemon_finalize_header_write, daemon_finalize_toc_write, Ctx, no_segment,
}
use chrontabulator.Ctx.Device.{
  cleanup_and_stop, chrono_admin_fulfill, fill_vol_buf, write_header, write_toc_slot,
}

-- The entry that both modes build from scratch.
unfoldable pub finalized_entry : Ctx → Segment
finalized_entry c = record {
  magic = segment_magic;
  segment_id = c.segment_id;
  state = segment_finalized;
  start_block = c.segment_start_block;
  block_count = sub64 c.next_write_block c.segment_start_block;
  write_chunk_bytes = c.buf_size;
  record_count = c.record_count;
  dropped_count = c.dropped_count;
  first_capture_tsc = c.first_capture_tsc;
  last_capture_tsc = c.last_capture_tsc;
  tsc_hz = c.sys.tsc_hz;
  wall_clock_start_sec = c.segment_wall_start_sec;
  wall_clock_start_nsec = c.segment_wall_start_nsec;
  wall_clock_end_sec = c.sys.clock_sec;
  wall_clock_end_nsec = c.sys.clock_nsec % 2 ^ 32;
}

-- `memset(ctx->io_buf, 0, ctx->block_size)` and the assignments.
abbrev pub fill_io_buf : Segment → Ctx → Ctx
fill_io_buf s c = record c { io_buf = store_segment (fill c.io_buf 0 0 c.block_size) s }

-- The new high-water mark, in the context and in the header's buffer.
abbrev pub advance_header : Ctx → Ctx
advance_header c =
    let c1 = record c { vol = record c.vol { next_data_block = c.next_write_block } } in
    fill_vol_buf c1.vol c1

-- Both outcomes are only logged.
unfoldable pub finalize_toc_write_complete : Bool → Ctx → Ctx
finalize_toc_write_complete success c = cleanup_and_stop true c

unfoldable pub finalize_header_write_complete : Bool → Ctx → Ctx
finalize_header_write_complete success c =
    let c1 = fill_io_buf (finalized_entry c) c in
    let (rc, c2) = write_toc_slot c1.segment_id finalize_toc_write c1 in
    elim rc [ ok ↦ c2 | err e ↦ finalize_toc_write_complete false c2 ]

unfoldable pub finalize_segment_and_stop : Ctx → Ctx
finalize_segment_and_stop c =
    let (rc, c2) = write_header finalize_header_write (advance_header c) in
    elim rc [ ok ↦ c2 | err e ↦ finalize_header_write_complete false c2 ]

unfoldable pub daemon_teardown_and_exit : Ctx → Ctx
daemon_teardown_and_exit c = cleanup_and_stop true (record c { rx_poller = false })

unfoldable pub daemon_finalize_toc_write_complete : Bool → Ctx → Ctx
daemon_finalize_toc_write_complete success c =
    let c1 = record c { recording = false; current_segment_id = no_segment } in
    if c1.shutting_down
    then daemon_teardown_and_exit c1
    else chrono_admin_fulfill (if success then ok else err eio) c1

unfoldable pub daemon_finalize_header_write_complete : Bool → Ctx → Ctx
daemon_finalize_header_write_complete success c =
    let c0 = if success then record c { mirror_next_data_block = c.vol.next_data_block } else c in
    let c1 = fill_io_buf (finalized_entry c0) c0 in
    let (rc, c2) = write_toc_slot c1.segment_id daemon_finalize_toc_write c1 in
    elim rc [ ok ↦ c2 | err e ↦ daemon_finalize_toc_write_complete false c2 ]

unfoldable pub daemon_finalize_segment : Ctx → Ctx
daemon_finalize_segment c =
    let (rc, c2) = write_header daemon_finalize_header_write (advance_header c) in
    elim rc [ ok ↦ c2 | err e ↦ daemon_finalize_header_write_complete false c2 ]

unfoldable pub finalize_current_stop : Ctx → Ctx
finalize_current_stop c =
    if c.opts.serve_mode then daemon_finalize_segment c else finalize_segment_and_stop c
