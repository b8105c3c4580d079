-- ===== src/Reactor/Writes.antt =====
-- The write path of the daemon (src/main.c): a buffer's write is counted in `pending_writes` from
-- before it is submitted until its completion, on every path.
use mathlib.Core.Path.{subst, subst⁻¹}
use chrontabulator.Base.{
  ℕ, zero, suc, ◌≤◌, ◌≡◌, refl, ◌⊎◌, inl, inr, Bool, true, false, ltb, ◌==◌, if_cases, if_true,
  if◌then◌else◌, add32, arith,
}
use chrontabulator.Ctx.{
  Ctx, Rc, ok, err, Errno, enomem, Io, write_io, write_complete, stop_write_failures,
}
use chrontabulator.Ctx.Device.{submit, next_rc, rest_rcs, enqueue, set_buffer, block_offset}
use chrontabulator.Capture.Buffers.{
  past_end, release, count_error, drop_pending, hand_over, note_write_failure, abandon,
  retry_answered, retry_flush, flush_buffer, daemon_stop_recording_with, begin_shutdown_with,
  stop_on, stop_fuel, daemon_stop_recording, stop_capture, chrono_note_write_failure, count_success,
  on_write_complete, write_failure_threshold,
}
use chrontabulator.Capture.Buffers.Stop.{stop_capture-stop_on}
use chrontabulator.Reactor.Books.{is_write, is_closing, count-snoc, closings}
use chrontabulator.Reactor.Counted.{
  finalize-Sound, IsDrained, Counts, Sound, Live, Live→Sound, finish-Sound,
}

-- Over a stop that is sound.
module _ (stop : Ctx → Ctx)
    (stop-Sound : (s : Bool) (k n : ℕ) (c : Ctx) → Sound s k n c → Sound s k n (stop c)) where
  pub note_failure-Sound :
      (s : Bool) (k n : ℕ) (c : Ctx) → Sound s k n c → Sound s k n (note_write_failure stop c)
  unfolding note_write_failure
  note_failure-Sound s k n c h =
      let c1 = record c { consecutive_write_failures = add32 c.consecutive_write_failures 1 } in
      let c2 = record c1 { last_stop_reason = stop_write_failures } in
      if_cases (Sound s k n) (ltb c1.consecutive_write_failures write_failure_threshold) {x = c1}
        {y = stop c2} (λ e. h) (λ e. stop-Sound s k n c2 h)

  -- A buffer that is given up is counted no more.
  abandon-Sound :
      (s : Bool) (k n i : ℕ) (c : Ctx) → Live s (suc k) n c → Sound s k n (abandon stop i c)
  unfolding abandon
  abandon-Sound s k n i c h =
      let c1 = drop_pending (set_buffer i (release (c.buffers i)) (count_error c)) in
      finish-Sound s k n (note_write_failure stop c1)
        (note_failure-Sound s k n c1 (h.0, omega (arith, h.1), h.2, inl h.3))

  -- A buffer that is counted is submitted, waits for memory, or is given up.
  pub retry-Sound :
      (s : Bool) (k n i : ℕ) (c : Ctx) → Live s (suc k) n c → Sound s k n (retry_flush stop i c)
  unfolding retry_flush submit retry_answered
  retry-Sound s k n i c h =
      if_cases (Sound s k n) (past_end c (c.buffers i).target_block)
        (λ e. abandon-Sound s k n i c h)
        (λ e.
          answered (next_rc c.sys.submit_rcs) (after (next_rc c.sys.submit_rcs))
            (λ r. subst⁻¹ (λ (rc : Rc). Sound s k n (after rc)) r submitted)
            (λ x r. subst⁻¹ (λ (rc : Rc). Live s (suc k) n (after rc)) r h))
    where
      io : Io
      io =
          write_io (block_offset c (c.buffers i).target_block) c.buf_size (c.buffers i).bytes
            (write_complete i)

      after : Rc → Ctx
      after rc = record c {
        sys = record c.sys {
          submit_rcs = rest_rcs c.sys.submit_rcs;
          inflight = enqueue rc io c.sys.inflight;
        };
      }

      submitted : Sound s k n (after ok)
      submitted = (
        h.0,
        omega (arith, h.1, count-snoc is_write c.sys.inflight io),
        h.2,
        inl (omega (arith, h.3, count-snoc is_closing c.sys.inflight io)),
      )

      answered :
          (rc : Rc) (x : Ctx)
          → (rc ≡ ok → Sound s k n x)
          → ((e : Errno) → rc ≡ err e → Live s (suc k) n x)
          → Sound s k n (retry_answered stop i rc x)
      answered ok x f g = f refl
      answered (err enomem) x f g = let l = g enomem refl in (l.0, omega (arith, l.1), l.2, inl l.3)
      answered (err e) x f g = abandon-Sound s k n i x (g e refl)

  -- A flush counts its write first.
  pub flush-Sound :
      (s : Bool) (k n i : ℕ) (c : Ctx) → Live s k n c → Sound s k n (flush_buffer stop i c)
  unfolding flush_buffer hand_over
  flush-Sound s k n i c h =
      if_cases (Sound s k n) ((c.buffers i).used == 0) (λ e. Live→Sound s k n c h)
        (λ e.
          if_cases (Sound s k n) (past_end c c.next_write_block)
            {x = set_buffer i (record (c.buffers i) { used = 0 }) c} (λ l. Live→Sound s k n c h)
            (λ l. retry-Sound s k n i (hand_over i c) (h.0, omega (arith, h.1), h.2, h.3)))

  daemon_stop-Sound :
      (s : Bool) (k n : ℕ) (c : Ctx)
      → Sound s k n c
      → Sound s k n (daemon_stop_recording_with stop c)
  unfolding daemon_stop_recording_with
  daemon_stop-Sound s k n c h =
      let c1 = record c { stopping = true } in
      let c2 = flush_buffer stop c.cur_buf c1 in
      if_cases (Sound s k n) c.stopping {x = c} (λ e. h)
        (λ e.
          let flushed : Sound true k n c2 =
            flush-Sound true k n c.cur_buf c1 (h.0, h.1, (λ x. refl), recording h.3 e) in
          let stops = flushed.2 refl in
          if_cases (Sound s k n) (c2.pending_writes == 0)
            (λ z. finalize-Sound s k n c2 flushed.0 flushed.1 stops (ground arith))
            (λ z. (flushed.0, flushed.1, (λ x. stops), flushed.3)))
    where
      recording : (closings c ≤ n) ⊎ IsDrained c → c.stopping ≡ false → closings c ≤ n
      recording (inl l) e = l
      recording (inr d) e = absurd (ground arith)

stop_on-Sound : (m : ℕ) (s : Bool) (k n : ℕ) (c : Ctx) → Sound s k n c → Sound s k n (stop_on m c)
unfolding stop_on
stop_on-Sound zero s k n c h = h
stop_on-Sound (suc m) s k n c h =
    subst⁻¹ (Sound s k n)
      (if_true c.opts.serve_mode (daemon_stop_recording_with (stop_on m) c)
        (begin_shutdown_with (stop_on m) c) h.0)
      (daemon_stop-Sound (stop_on m) (stop_on-Sound m) s k n c h)

pub stop_capture-Sound :
    (s : Bool) (k n : ℕ) (c : Ctx) → Sound s k n c → Sound s k n (stop_capture c)
stop_capture-Sound s k n c h =
    subst (Sound s k n) (stop_capture-stop_on 0 c) (stop_on-Sound 1 s k n c h)

pub stop_recording-Sound :
    (s : Bool) (k n : ℕ) (c : Ctx) → Sound s k n c → Sound s k n (daemon_stop_recording c)
unfolding daemon_stop_recording
stop_recording-Sound = daemon_stop-Sound (stop_on stop_fuel) (stop_on-Sound stop_fuel)

-- The completion of a buffer's write: it is no longer outstanding, and still counted.
pub completed-Sound :
    (s : Bool) (k n i : ℕ) (success : Bool) (c : Ctx)
    → Live s (suc k) n c
    → Sound s k n (on_write_complete i success c)
unfolding on_write_complete chrono_note_write_failure
completed-Sound s k n i success c h =
    let c1 = set_buffer i (release (c.buffers i)) c in
    let c2 = if success then count_success c1 else chrono_note_write_failure (count_error c1) in
    let counted : Sound s (suc k) n c2 = answered success in
    finish-Sound s k n (drop_pending c2)
      (counted.0, omega (arith, counted.1), counted.2, dropped c2 counted.1 counted.3)
  where
    dropped :
        (x : Ctx)
        → Counts (suc k) x
        → (closings x ≤ n) ⊎ IsDrained x
        → (closings x ≤ n) ⊎ IsDrained (drop_pending x)
    dropped x e (inl l) = inl l
    dropped x e (inr z) = absurd (omega (arith, z.3))

    answered :
        (b : Bool)
        → Sound s (suc k) n (
            let c1 = set_buffer i (release (c.buffers i)) c in
            if b then count_success c1 else chrono_note_write_failure (count_error c1))
    answered true = Live→Sound s (suc k) n c h
    answered false =
        let c1 = count_error (set_buffer i (release (c.buffers i)) c) in
        note_failure-Sound stop_capture stop_capture-Sound s (suc k) n c1
          (Live→Sound s (suc k) n c h)
