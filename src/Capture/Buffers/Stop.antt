-- ===== src/Capture/Buffers/Stop.antt =====
-- The calls back to the stop (src/main.c): one round of them is all there is.
use chrontabulator.Base.{
  ℕ, zero, suc, ◌≡◌, refl, sym, ap, ◌∙◌, true, false, ◌==◌, ltb, add32, add64, if_cong, Bool-cases,
  inl, inr, if◌then◌else◌,
}
use chrontabulator.Ctx.{Ctx, Rc, ok, err, enomem, write_io, write_complete, stop_write_failures}
use chrontabulator.Ctx.Device.{submit, block_offset, next_rc, set_buffer}
use chrontabulator.Capture.Finalize.{daemon_finalize_segment, finalize_segment_and_stop}
use chrontabulator.Capture.Buffers.{
  stop_on, stop_fuel, daemon_stop_recording_with, begin_shutdown_with, flush_buffer, retry_flush,
  retry_answered, daemon_stop_recording, begin_shutdown, stop_capture, abandon, note_write_failure,
  past_end, hand_over, write_failure_threshold, drop_pending, release, count_error,
  finish_if_drained,
}

-- A stop that finds `stopping` set does nothing.
pub stop_on-stopping : (n : ℕ) (c : Ctx) → c.stopping ≡ true → stop_on n c ≡ c
unfolding stop_on daemon_stop_recording_with begin_shutdown_with
stop_on-stopping zero c h = refl
stop_on-stopping (suc n) c h = elim (Bool-cases c.opts.serve_mode) [
  | inl s ↦ rw (s, h)
  | inr s ↦ rw (s, h)
]

module _ (n m : ℕ) where
  note_write_failure-stopping :
      (c : Ctx)
      → c.stopping ≡ true
      → note_write_failure (stop_on n) c ≡ note_write_failure (stop_on m) c
  unfolding note_write_failure
  note_write_failure-stopping c h =
      let c1 = record c { consecutive_write_failures = add32 c.consecutive_write_failures 1 } in
      let c2 = record c1 { last_stop_reason = stop_write_failures } in
      elim (Bool-cases (ltb c1.consecutive_write_failures write_failure_threshold)) [
        | inl few ↦ rw few
        | inr many ↦ rw many (stop_on-stopping n c2 h ∙ sym (stop_on-stopping m c2 h))
      ]

  abandon-stopping :
      (i : ℕ) (c : Ctx) → c.stopping ≡ true → abandon (stop_on n) i c ≡ abandon (stop_on m) i c
  unfolding abandon
  abandon-stopping i c h = ap finish_if_drained (
      note_write_failure-stopping
        (drop_pending (set_buffer i (release (c.buffers i)) (count_error c))) h)

  retry_answered-stopping :
      (i : ℕ) (rc : Rc) (c : Ctx)
      → c.stopping ≡ true
      → retry_answered (stop_on n) i rc c ≡ retry_answered (stop_on m) i rc c
  unfolding retry_answered
  retry_answered-stopping i ok c h = refl
  retry_answered-stopping i (err enomem) c h = refl
  retry_answered-stopping i (err e) c h = abandon-stopping i c h

  retry_flush-stopping :
      (i : ℕ) (c : Ctx)
      → c.stopping ≡ true
      → retry_flush (stop_on n) i c ≡ retry_flush (stop_on m) i c
  unfolding retry_flush submit
  retry_flush-stopping i c h = elim (Bool-cases (past_end c (c.buffers i).target_block)) [
    | inl past ↦ rw past (abandon-stopping i c h)
    | inr fits ↦ rw fits (
        retry_answered-stopping i (next_rc c.sys.submit_rcs)
          (submit
            (write_io (block_offset c (c.buffers i).target_block) c.buf_size (c.buffers i).bytes
              (write_complete i))
            c).1
          h)
  ]

  flush_buffer-stopping :
      (i : ℕ) (c : Ctx)
      → c.stopping ≡ true
      → flush_buffer (stop_on n) i c ≡ flush_buffer (stop_on m) i c
  unfolding flush_buffer hand_over
  flush_buffer-stopping i c h = elim (Bool-cases ((c.buffers i).used == 0)) [
    | inl none_used ↦ rw none_used
    | inr some_used ↦ elim (Bool-cases (past_end c c.next_write_block)) [
      | inl past ↦ rw (some_used, past)
      | inr fits ↦
          rw (some_used, fits)
            (ap
              (λ (c1 : Ctx). record c1 {
                next_write_block = add64 c1.next_write_block c1.buf_size_blocks;
                mirror_next_data_block = add64 c1.next_write_block c1.buf_size_blocks;
              })
              (retry_flush-stopping i (hand_over i c) h))
    ]
  ]

daemon_stop-stop_on :
    (n m : ℕ) (c : Ctx)
    → daemon_stop_recording_with (stop_on n) c ≡ daemon_stop_recording_with (stop_on m) c
unfolding daemon_stop_recording_with
daemon_stop-stop_on n m c =
    if_cong c.stopping (λ h. refl)
      (λ h.
        ap (λ (c1 : Ctx). if c1.pending_writes == 0 then daemon_finalize_segment c1 else c1)
          (flush_buffer-stopping n m c.cur_buf (record c { stopping = true }) refl))

begin_shutdown-stop_on :
    (n m : ℕ) (c : Ctx) → begin_shutdown_with (stop_on n) c ≡ begin_shutdown_with (stop_on m) c
unfolding begin_shutdown_with
begin_shutdown-stop_on n m c =
    if_cong c.stopping (λ h. refl)
      (λ h.
        ap (λ (c1 : Ctx). if c1.pending_writes == 0 then finalize_segment_and_stop c1 else c1)
          (flush_buffer-stopping n m c.cur_buf (record c { stopping = true; rx_poller = false })
            refl))

-- However often the stop, the flush and the failure count may call one another, the stop is what
-- any number of levels of calls back gives: the one level that the model has is enough.
pub stop_capture-stop_on : (n : ℕ) (c : Ctx) → stop_on (suc n) c ≡ stop_capture c
unfolding stop_on daemon_stop_recording begin_shutdown
stop_capture-stop_on n c =
    if_cong c.opts.serve_mode (λ s. daemon_stop-stop_on n stop_fuel c)
      (λ s. begin_shutdown-stop_on n stop_fuel c)
