-- ===== src/Capture/Keeps.antt =====
-- What the write path and a stop leave alone (src/main.c): the counters, the settings, and every
-- buffer but the one they are at.
use mathlib.Core.Path.{subst}
use chrontabulator.Capture.Buffers.Stop.{stop_capture-stop_on}
use chrontabulator.Base.{
  ℕ, zero, suc, ◌≡◌, ◌≢◌, refl, ◌∙◌, Bool, true, false, add32, ◌&&◌, ◌==◌, ltb, if_cases,
  if◌then◌else◌, arith,
}
use chrontabulator.Ctx.{
  Ctx, Rc, ok, err, Errno, enomem, Opts, stopped_clean, stopped_failed, write_io, write_complete,
  stop_write_failures, WriteBuf,
}
use chrontabulator.Ctx.Device.{
  block_offset, submit, set_buffer, next_rc, cleanup_and_stop, chrono_admin_fulfill, set_exit,
}
use chrontabulator.Capture.Finalize.{
  finalize_toc_write_complete, finalize_header_write_complete, finalize_segment_and_stop,
  daemon_teardown_and_exit, daemon_finalize_toc_write_complete,
  daemon_finalize_header_write_complete, daemon_finalize_segment, finalize_current_stop,
}
use chrontabulator.Capture.Buffers.{
  stop_on, daemon_stop_recording, stop_capture, daemon_stop_recording_with, begin_shutdown_with,
  flush_buffer, retry_flush, retry_answered, abandon, note_write_failure, past_end,
  write_failure_threshold, hand_over, drop_pending, release, count_error, finish_if_drained,
}

-- What is compared: the counters and the settings.
pub record Kept : Type 0 where
  pub opts : Opts
  pub block_size : ℕ
  pub buf_size : ℕ
  pub buf_size_blocks : ℕ
  pub write_buf_count : ℕ
  pub wire_has_seq : Bool
  pub cached_num_blocks : ℕ
  pub cur_buf : ℕ
  pub record_count : ℕ
  pub dropped_count : ℕ

abbrev pub kept : Ctx → Kept
kept c = record {
  opts = c.opts;
  block_size = c.block_size;
  buf_size = c.buf_size;
  buf_size_blocks = c.buf_size_blocks;
  write_buf_count = c.write_buf_count;
  wire_has_seq = c.wire_has_seq;
  cached_num_blocks = c.cached_num_blocks;
  cur_buf = c.cur_buf;
  record_count = c.record_count;
  dropped_count = c.dropped_count;
}

abbrev pub Same : ℕ → Ctx → Ctx → Type 0
Same j c c' = (c'.buffers j ≡ c.buffers j) × (kept c' ≡ kept c)

Same-trans : (j : ℕ) (a b c : Ctx) → Same j a b → Same j b c → Same j a c
Same-trans j a b c h k = (k.0 ∙ h.0, k.1 ∙ h.1)

pub on_rc :
    (P : Ctx → Type 0) (rc : Rc) {c : Ctx} {f : Errno → Ctx}
    → P c
    → ((e : Errno) → P (f e))
    → P (elim rc [ ok ↦ c | err e ↦ f e ])
on_rc P ok x f = x
on_rc P (err e) x f = f e

module _ (j : ℕ) where
  cleanup-Same : (b : Bool) (c : Ctx) → Same j c (cleanup_and_stop b c)
  unfolding cleanup_and_stop
  cleanup-Same b c =
      if_cases (λ x. Same j c (set_exit (if b then stopped_clean else stopped_failed) x)) c.nic_up
        (λ h. (refl, refl)) (λ h. (refl, refl))

  fulfill-Same : (rc : Rc) (c : Ctx) → Same j c (chrono_admin_fulfill rc c)
  unfolding chrono_admin_fulfill
  fulfill-Same rc c = (refl, refl)

  finalize_header-Same : (b : Bool) (c : Ctx) → Same j c (finalize_header_write_complete b c)
  unfolding finalize_header_write_complete submit finalize_toc_write_complete
  finalize_header-Same b c =
      on_rc (Same j c) (next_rc c.sys.submit_rcs) (refl, refl) (λ e. cleanup-Same true _)

  finalize_segment-Same : (c : Ctx) → Same j c (finalize_segment_and_stop c)
  unfolding finalize_segment_and_stop submit
  finalize_segment-Same c =
      on_rc (Same j c) (next_rc c.sys.submit_rcs) (refl, refl) (λ e. finalize_header-Same false _)

  daemon_toc-Same : (b : Bool) (c : Ctx) → Same j c (daemon_finalize_toc_write_complete b c)
  unfolding daemon_finalize_toc_write_complete daemon_teardown_and_exit
  daemon_toc-Same b c =
      if_cases (Same j c) c.shutting_down (λ h. cleanup-Same true _) (λ h. fulfill-Same _ _)

  daemon_header-Same : (b : Bool) (c : Ctx) → Same j c (daemon_finalize_header_write_complete b c)
  unfolding daemon_finalize_header_write_complete submit
  daemon_header-Same true c =
      on_rc (Same j c) (next_rc c.sys.submit_rcs) (refl, refl) (λ e. daemon_toc-Same false _)
  daemon_header-Same false c =
      on_rc (Same j c) (next_rc c.sys.submit_rcs) (refl, refl) (λ e. daemon_toc-Same false _)

  daemon_finalize-Same : (c : Ctx) → Same j c (daemon_finalize_segment c)
  unfolding daemon_finalize_segment submit
  daemon_finalize-Same c =
      on_rc (Same j c) (next_rc c.sys.submit_rcs) (refl, refl) (λ e. daemon_header-Same false _)

  current_stop-Same : (c : Ctx) → Same j c (finalize_current_stop c)
  unfolding finalize_current_stop
  current_stop-Same c =
      if_cases (Same j c) c.opts.serve_mode (λ h. daemon_finalize-Same c)
        (λ h. finalize_segment-Same c)

  finish-Same : (c : Ctx) → Same j c (finish_if_drained c)
  unfolding finish_if_drained
  finish-Same c =
      if_cases (Same j c) (c.stopping && c.pending_writes == 0) (λ h. current_stop-Same c)
        (λ h. (refl, refl))

  set_buffer-Same : (i : ℕ) (b : WriteBuf) (c : Ctx) → j ≢ i → Same j c (set_buffer i b c)
  set_buffer-Same i b c h = (ground arith, refl)

  hand_over-Same : (i : ℕ) (c : Ctx) → j ≢ i → Same j c (hand_over i c)
  unfolding hand_over
  hand_over-Same i c h = (ground arith, refl)

  -- Over a stop that leaves the buffer alone.
  module _ (stop : Ctx → Ctx) (stop-Same : (c : Ctx) → j ≢ c.cur_buf → Same j c (stop c)) where
    note_failure-Same : (c : Ctx) → j ≢ c.cur_buf → Same j c (note_write_failure stop c)
    unfolding note_write_failure
    note_failure-Same c h =
        let c1 = record c { consecutive_write_failures = add32 c.consecutive_write_failures 1 } in
        if_cases (Same j c) (ltb c1.consecutive_write_failures write_failure_threshold)
          (λ k. (refl, refl))
          (λ k. stop-Same (record c1 { last_stop_reason = stop_write_failures }) h)

    abandon-Same : (i : ℕ) (c : Ctx) → j ≢ i → j ≢ c.cur_buf → Same j c (abandon stop i c)
    unfolding abandon
    abandon-Same i c n h =
        let c1 = drop_pending (set_buffer i (release (c.buffers i)) (count_error c)) in
        let c2 = note_write_failure stop c1 in
        Same-trans j c c1 (finish_if_drained c2) (set_buffer-Same i (release (c.buffers i)) c n)
          (Same-trans j c1 c2 (finish_if_drained c2) (note_failure-Same c1 h) (finish-Same c2))

    answered-Same :
        (i : ℕ) (rc : Rc) (c : Ctx) → j ≢ i → j ≢ c.cur_buf → Same j c (retry_answered stop i rc c)
    unfolding retry_answered
    answered-Same i ok c n h = (refl, refl)
    answered-Same i (err enomem) c n h = (refl, refl)
    answered-Same i (err e) c n h = abandon-Same i c n h

    retry-Same : (i : ℕ) (c : Ctx) → j ≢ i → j ≢ c.cur_buf → Same j c (retry_flush stop i c)
    unfolding retry_flush submit
    retry-Same i c n h =
        if_cases (Same j c) (past_end c (c.buffers i).target_block) (λ k. abandon-Same i c n h)
          (λ k.
            answered-Same i (next_rc c.sys.submit_rcs)
              (submit
                (write_io (block_offset c (c.buffers i).target_block) c.buf_size (c.buffers i).bytes
                  (write_complete i))
                c).1
              n h)

    flush_with-Same : (i : ℕ) (c : Ctx) → j ≢ i → j ≢ c.cur_buf → Same j c (flush_buffer stop i c)
    unfolding flush_buffer hand_over
    flush_with-Same i c n h =
        if_cases (Same j c) ((c.buffers i).used == 0) (λ k. (refl, refl))
          (λ k.
            if_cases (Same j c) (past_end c c.next_write_block)
              (λ l. set_buffer-Same i (record (c.buffers i) { used = 0 }) c n)
              (λ l.
                Same-trans j c (hand_over i c) (retry_flush stop i (hand_over i c))
                  (hand_over-Same i c n) (retry-Same i (hand_over i c) n h)))

    daemon_stop-Same : (c : Ctx) → j ≢ c.cur_buf → Same j c (daemon_stop_recording_with stop c)
    unfolding daemon_stop_recording_with
    daemon_stop-Same c h =
        let c1 = record c { stopping = true } in
        let c2 = flush_buffer stop c.cur_buf c1 in
        let flushed : Same j c c2 = flush_with-Same c.cur_buf c1 h h in
        if_cases (Same j c) c.stopping (λ k. (refl, refl))
          (λ k.
            if_cases (Same j c) (c2.pending_writes == 0)
              (λ l.
                Same-trans j c c2 (daemon_finalize_segment c2) flushed (daemon_finalize-Same c2))
              (λ l. flushed))

    begin_shutdown-Same : (c : Ctx) → j ≢ c.cur_buf → Same j c (begin_shutdown_with stop c)
    unfolding begin_shutdown_with
    begin_shutdown-Same c h =
        let c1 = record c { stopping = true; rx_poller = false } in
        let c2 = flush_buffer stop c.cur_buf c1 in
        let flushed : Same j c c2 = flush_with-Same c.cur_buf c1 h h in
        if_cases (Same j c) c.stopping (λ k. (refl, refl))
          (λ k.
            if_cases (Same j c) (c2.pending_writes == 0)
              (λ l.
                Same-trans j c c2 (finalize_segment_and_stop c2) flushed (finalize_segment-Same c2))
              (λ l. flushed))

stop_on-Same : (n j : ℕ) (c : Ctx) → j ≢ c.cur_buf → Same j c (stop_on n c)
unfolding stop_on
stop_on-Same zero j c h = (refl, refl)
stop_on-Same (suc n) j c h =
    if_cases (Same j c) c.opts.serve_mode
      (λ k. daemon_stop-Same j (stop_on n) (stop_on-Same n j) c h)
      (λ k. begin_shutdown-Same j (stop_on n) (stop_on-Same n j) c h)

pub stop_capture-Same : (j : ℕ) (c : Ctx) → j ≢ c.cur_buf → Same j c (stop_capture c)
stop_capture-Same j c h = subst (Same j c) (stop_capture-stop_on 0 c) (stop_on-Same 1 j c h)

-- A flush of the current buffer leaves the other buffers, the counters and the settings.
pub flush_buffer-Same :
    (j : ℕ) (c : Ctx) → j ≢ c.cur_buf → Same j c (flush_buffer stop_capture c.cur_buf c)
flush_buffer-Same j c h = flush_with-Same j stop_capture (stop_capture-Same j) c.cur_buf c h h

pub daemon_stop_recording-kept : (c : Ctx) → kept (daemon_stop_recording c) ≡ kept c
unfolding daemon_stop_recording
daemon_stop_recording-kept c =
    (daemon_stop-Same (suc c.cur_buf) (stop_on 1) (stop_on-Same 1 (suc c.cur_buf)) c
      (omega arith)).1
