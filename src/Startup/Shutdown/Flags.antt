-- ===== src/Startup/Shutdown/Flags.antt =====
-- What the write path of a stop keeps while the daemon is told to exit (src/main.c).
use mathlib.Core.Path.{subst⁻¹}
use chrontabulator.Base.{
  ℕ, ◌≡◌, refl, Bool, true, false, ◌&&◌, ltb, ◌==◌, add32, if_cases, if_true, if◌then◌else◌,
}
use chrontabulator.Ctx.{
  Ctx, Rc, ok, err, enomem, write_io, write_complete, stop_write_failures, eio, no_segment,
}
use chrontabulator.Ctx.Device.{
  submit, next_rc, cleanup_and_stop, chrono_admin_fulfill, set_buffer, block_offset,
}
use chrontabulator.Capture.Finalize.{
  daemon_finalize_segment, daemon_finalize_header_write_complete,
  daemon_finalize_toc_write_complete, daemon_teardown_and_exit, finalize_current_stop,
  finalize_segment_and_stop,
}
use chrontabulator.Capture.Buffers.{
  flush_buffer, retry_flush, retry_answered, abandon, note_write_failure, past_end, hand_over,
  write_failure_threshold, drop_pending, release, count_error, finish_if_drained,
}
use chrontabulator.Capture.Keeps.{on_rc}

-- The daemon has been told to exit, and its recording to stop.
abbrev pub Closing : Ctx → Type 0
Closing c = (c.stopping ≡ true) × (c.shutting_down ≡ true) × (c.opts.serve_mode ≡ true)

cleanup-Closing : (clean : Bool) (c : Ctx) → Closing c → Closing (cleanup_and_stop clean c)
unfolding cleanup_and_stop
cleanup-Closing clean c h =
    if_cases Closing c.nic_up {x = record c { nic_up = false }} (λ e. h) (λ e. h)

toc-Closing :
    (success : Bool) (c : Ctx) → Closing c → Closing (daemon_finalize_toc_write_complete success c)
unfolding daemon_finalize_toc_write_complete daemon_teardown_and_exit chrono_admin_fulfill
toc-Closing success c h =
    let c1 = record c { recording = false; current_segment_id = no_segment } in
    if_cases Closing c.shutting_down {y = chrono_admin_fulfill (if success then ok else err eio) c1}
      (λ e. cleanup-Closing true (record c1 { rx_poller = false }) h) (λ e. h)

header-Closing :
    (success : Bool) (c : Ctx)
    → Closing c
    → Closing (daemon_finalize_header_write_complete success c)
unfolding daemon_finalize_header_write_complete submit
header-Closing true c h = on_rc Closing (next_rc c.sys.submit_rcs) h (λ e. toc-Closing false _ h)
header-Closing false c h = on_rc Closing (next_rc c.sys.submit_rcs) h (λ e. toc-Closing false _ h)

finalize-Closing : (c : Ctx) → Closing c → Closing (daemon_finalize_segment c)
unfolding daemon_finalize_segment submit
finalize-Closing c h = on_rc Closing (next_rc c.sys.submit_rcs) h (λ e. header-Closing false _ h)

-- Over a stop that finds `stopping` set and returns.
module _ (stop : Ctx → Ctx) (stop-idle : (c : Ctx) → c.stopping ≡ true → stop c ≡ c) where
  -- Counting a failure neither finalizes nor changes what is pending.
  pub note_failure-Closing :
      (c : Ctx)
      → Closing c
      → Closing (note_write_failure stop c)
        × ((note_write_failure stop c).pending_writes ≡ c.pending_writes)
  unfolding note_write_failure
  note_failure-Closing c h =
      let c1 = record c { consecutive_write_failures = add32 c.consecutive_write_failures 1 } in
      let c2 = record c1 { last_stop_reason = stop_write_failures } in
      if_cases (λ (x : Ctx). Closing x × (x.pending_writes ≡ c.pending_writes))
        (ltb c1.consecutive_write_failures write_failure_threshold) {x = c1} {y = stop c2}
        (λ e. (h, refl))
        (λ e.
          subst⁻¹ (λ (x : Ctx). Closing x × (x.pending_writes ≡ c.pending_writes))
            (stop-idle c2 h.0) (h, refl))

  finish-Closing : (c : Ctx) → Closing c → Closing (finish_if_drained c)
  unfolding finish_if_drained finalize_current_stop
  finish-Closing c h =
      if_cases Closing (c.stopping && c.pending_writes == 0) {x = finalize_current_stop c}
        (λ e.
          subst⁻¹ Closing
            (if_true c.opts.serve_mode (daemon_finalize_segment c) (finalize_segment_and_stop c)
              h.2)
            (finalize-Closing c h))
        (λ e. h)

  abandon-Closing : (i : ℕ) (c : Ctx) → Closing c → Closing (abandon stop i c)
  unfolding abandon
  abandon-Closing i c h =
      let c1 = drop_pending (set_buffer i (release (c.buffers i)) (count_error c)) in
      finish-Closing (note_write_failure stop c1) (note_failure-Closing c1 h).0

  answered-Closing : (i : ℕ) (rc : Rc) (c : Ctx) → Closing c → Closing (retry_answered stop i rc c)
  unfolding retry_answered
  answered-Closing i ok c h = h
  answered-Closing i (err enomem) c h = h
  answered-Closing i (err e) c h = abandon-Closing i c h

  retry-Closing : (i : ℕ) (c : Ctx) → Closing c → Closing (retry_flush stop i c)
  unfolding retry_flush submit
  retry-Closing i c h =
      if_cases Closing (past_end c (c.buffers i).target_block) (λ k. abandon-Closing i c h)
        (λ k.
          answered-Closing i (next_rc c.sys.submit_rcs)
            (submit
              (write_io (block_offset c (c.buffers i).target_block) c.buf_size (c.buffers i).bytes
                (write_complete i))
              c).1
            h)

  pub flush-Closing : (i : ℕ) (c : Ctx) → Closing c → Closing (flush_buffer stop i c)
  unfolding flush_buffer hand_over
  flush-Closing i c h =
      if_cases Closing ((c.buffers i).used == 0) (λ k. h)
        (λ k.
          if_cases Closing (past_end c c.next_write_block)
            {x = set_buffer i (record (c.buffers i) { used = 0 }) c} (λ l. h)
            (λ l. retry-Closing i (hand_over i c) h))
