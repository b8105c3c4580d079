-- ===== src/Capture/Buffers.antt =====
-- src/main.c: the write buffers. `flush_buffer`, `retry_flush`, `chrono_note_write_failure` and
-- the two ways to stop call one another; a stop that finds `stopping` set returns at once, so one
-- round is enough. `stop` below is the stopping function of the level above.
pub mod Stop
pub mod Flush
use chrontabulator.Base.{
  ℕ, zero, suc, ◌+◌, ◌-◌, ◌%◌, ◌^◌, Bool, true, false, ◌&&◌, Option, none, some, ltb, ◌==◌,
  if◌then◌else◌, add64, add32,
}
use chrontabulator.Format.Chunk.{pad_chunk}
use chrontabulator.Ctx.{
  Rc, ok, err, Errno, enomem, stop_write_failures, Callback, write_complete, write_io, WriteBuf,
  Ctx,
}
use chrontabulator.Ctx.Device.{submit, set_buffer, block_offset}
use chrontabulator.Capture.Finalize.{
  finalize_current_stop, finalize_segment_and_stop, daemon_finalize_segment,
}

-- `CHRONO_WRITE_FAILURE_THRESHOLD`
abbrev pub write_failure_threshold : ℕ
write_failure_threshold = 5

-- `next + ctx->buf_size_blocks > ctx->cached_num_blocks`
abbrev pub past_end : Ctx → ℕ → Bool
past_end c block = ltb c.cached_num_blocks (add64 block c.buf_size_blocks)

-- `wb->in_flight = false; wb->used = 0;`
abbrev pub release : WriteBuf → WriteBuf
release b = record b { in_flight = false; used = 0 }

abbrev pub count_error : Ctx → Ctx
count_error c = record c { write_errors_total = add64 c.write_errors_total 1 }

-- `ctx->pending_writes--`, at a buffer that was counted when it was handed over: where the writes
-- outstanding and waiting are counted, as they are in each state that the daemon reaches, the count
-- is positive and the `int` does not fall below 0.
abbrev pub drop_pending : Ctx → Ctx
drop_pending c = record c { pending_writes = c.pending_writes - 1 }

-- `if (ctx->stopping && ctx->pending_writes == 0) finalize_current_stop(ctx);`
unfoldable pub finish_if_drained : Ctx → Ctx
finish_if_drained c = if c.stopping && c.pending_writes == 0 then finalize_current_stop c else c

-- The buffer as it is handed over: padded, in flight, at the next block.
unfoldable pub hand_over : ℕ → Ctx → Ctx
hand_over i c =
    let wb = c.buffers i in
    let wb' = record wb {
      bytes = pad_chunk wb.bytes wb.used c.buf_size;
      in_flight = true;
      target_block = c.next_write_block;
    } in
    record (set_buffer i wb' c) { pending_writes = c.pending_writes + 1 }

module _ (stop : Ctx → Ctx) where
  unfoldable pub note_write_failure : Ctx → Ctx
  note_write_failure c =
      let c1 = record c { consecutive_write_failures = add32 c.consecutive_write_failures 1 } in
      if ltb c1.consecutive_write_failures write_failure_threshold
      then c1
      else stop (record c1 { last_stop_reason = stop_write_failures })

  -- The buffer is given up: past the device end, or refused other than for lack of memory.
  unfoldable pub abandon : ℕ → Ctx → Ctx
  abandon i c =
      finish_if_drained
        (note_write_failure (drop_pending (set_buffer i (release (c.buffers i)) (count_error c))))

  -- Out of memory queues the one wait entry for this buffer. What SPDK does with an entry that is
  -- queued already is not documented; here it stays queued, once, for the buffer named last.
  unfoldable pub retry_answered : ℕ → Rc → Ctx → Ctx
  retry_answered i ok c = c
  retry_answered i (err enomem) c = record c { bdev_io_wait = some i }
  retry_answered i (err e) c = abandon i c

  unfoldable pub retry_flush : ℕ → Ctx → Ctx
  retry_flush i c =
      if past_end c (c.buffers i).target_block
      then abandon i c
      else (let (rc, c1) =
            submit
              (write_io (block_offset c (c.buffers i).target_block) c.buf_size (c.buffers i).bytes
                (write_complete i))
              c in
          retry_answered i rc c1)

  unfoldable pub flush_buffer : ℕ → Ctx → Ctx
  flush_buffer i c =
      if (c.buffers i).used == 0
      then c
      else if past_end c c.next_write_block
      then set_buffer i (record (c.buffers i) { used = 0 }) c
      else (let c1 = retry_flush i (hand_over i c) in
          let next = add64 c1.next_write_block c1.buf_size_blocks in
          record c1 { next_write_block = next; mirror_next_data_block = next })

  unfoldable pub daemon_stop_recording_with : Ctx → Ctx
  daemon_stop_recording_with c =
      if c.stopping
      then c
      else (let c1 = flush_buffer c.cur_buf (record c { stopping = true }) in
          if c1.pending_writes == 0 then daemon_finalize_segment c1 else c1)

  unfoldable pub begin_shutdown_with : Ctx → Ctx
  begin_shutdown_with c =
      if c.stopping
      then c
      else (let c1 = flush_buffer c.cur_buf (record c { stopping = true; rx_poller = false }) in
          if c1.pending_writes == 0 then finalize_segment_and_stop c1 else c1)

-- The stop of the mode that runs, on fuel for the calls back to it.
unfoldable pub stop_on : ℕ → Ctx → Ctx
stop_on zero c = c
stop_on (suc fuel) c =
    if c.opts.serve_mode
    then daemon_stop_recording_with (stop_on fuel) c
    else begin_shutdown_with (stop_on fuel) c

abbrev pub stop_fuel : ℕ
stop_fuel = 1

unfoldable pub daemon_stop_recording : Ctx → Ctx
daemon_stop_recording = daemon_stop_recording_with (stop_on stop_fuel)

unfoldable pub begin_shutdown : Ctx → Ctx
begin_shutdown = begin_shutdown_with (stop_on stop_fuel)

abbrev pub stop_capture : Ctx → Ctx
stop_capture c = if c.opts.serve_mode then daemon_stop_recording c else begin_shutdown c

unfoldable pub chrono_note_write_failure : Ctx → Ctx
chrono_note_write_failure = note_write_failure stop_capture

abbrev pub count_success : Ctx → Ctx
count_success c = record c {
  bytes_written_total = add64 c.bytes_written_total c.buf_size;
  writes_completed_total = add64 c.writes_completed_total 1;
  consecutive_write_failures = 0;
}

unfoldable pub on_write_complete : ℕ → Bool → Ctx → Ctx
on_write_complete i success c =
    let c1 = set_buffer i (release (c.buffers i)) c in
    let c2 = if success then count_success c1 else chrono_note_write_failure (count_error c1) in
    finish_if_drained (drop_pending c2)
