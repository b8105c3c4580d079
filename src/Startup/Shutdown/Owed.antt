-- ===== src/Startup/Shutdown/Owed.antt =====
-- What is owed while the daemon closes (src/main.c): the writes of buffers that are counted as
-- pending are outstanding, or wait for memory.
use mathlib.Core.Path.{subst⁻¹}
use chrontabulator.Base.{
  ℕ, suc, ◌+◌, ◌*◌, ◌≤◌, ◌<◌, ◌≡◌, refl, ap, true, ◌&&◌, some, List, [], ◌∷◌, ◌++◌, length, ltb,
  ◌==◌, add32, if_cases, if_true, arith,
}
use chrontabulator.Ctx.{
  Ctx, Rc, ok, err, Errno, enomem, Io, write_io, write_complete, stop_write_failures,
}
use chrontabulator.Ctx.Device.{submit, next_rc, rest_rcs, enqueue, set_buffer, block_offset}
use chrontabulator.Capture.Finalize.{
  daemon_finalize_segment, finalize_segment_and_stop, finalize_current_stop,
}
use chrontabulator.Capture.Buffers.{
  past_end, release, count_error, drop_pending, finish_if_drained, hand_over, note_write_failure,
  abandon, retry_answered, retry_flush, flush_buffer, write_failure_threshold,
}
use chrontabulator.Reactor.Books.{Books, is_write, count-snoc, writes, waiting}
use chrontabulator.Reactor.Chains.{daemon_finalize-Keeps}
use chrontabulator.Startup.Shutdown.Flags.{Closing}

-- All but `k` of the writes that are counted can still be answered.
abbrev pub Owes : ℕ → Ctx → Type 0
Owes k c = c.pending_writes ≤ writes c + waiting c.bdev_io_wait + k

-- How many answers are left at most: a completion for each write, a retry before it for the one
-- that waits, and the refusals to come.
abbrev pub answers_left : Ctx → ℕ
answers_left c = 2 * writes c + 3 * waiting c.bdev_io_wait + length c.sys.submit_rcs

abbrev pub State : ℕ → ℕ → Ctx → Type 0
State k n c = Closing c × Owes k c × (answers_left c ≤ n)

-- A count of a failure, by a stop that finds `stopping` set.
pub note_failure-State :
    (stop : Ctx → Ctx)
    → ((c : Ctx) → c.stopping ≡ true → stop c ≡ c)
    → (k n : ℕ) (c : Ctx) → State k n c
    → State k n (note_write_failure stop c)
unfolding note_write_failure
note_failure-State stop idle k n c h =
    let c1 = record c { consecutive_write_failures = add32 c.consecutive_write_failures 1 } in
    let c2 = record c1 { last_stop_reason = stop_write_failures } in
    if_cases (State k n) (ltb c1.consecutive_write_failures write_failure_threshold) {x = c1}
      {y = stop c2} (λ e. h) (λ e. subst⁻¹ (State k n) (idle c2 h.0.0) h)

-- A buffer that is submitted, waits for memory or is given up is no longer in hand; `next` takes
-- the states in which more is to be answered, `end` the one in which the segment is closed.
module _ (P : Ctx → Type 0) (stop : Ctx → Ctx) (idle : (c : Ctx) → c.stopping ≡ true → stop c ≡ c)
    (n : ℕ) (end : (c : Ctx) → State 0 n c → P (daemon_finalize_segment c))
    (next : (c : Ctx) → State 0 n c → 0 < c.pending_writes → P c) where
  pub finish-to : (c : Ctx) → State 0 n c → P (finish_if_drained c)
  unfolding finish_if_drained finalize_current_stop
  finish-to c h =
      if_cases P (c.stopping && c.pending_writes == 0) {x = finalize_current_stop c}
        (λ e.
          subst⁻¹ P
            (if_true c.opts.serve_mode (daemon_finalize_segment c) (finalize_segment_and_stop c)
              h.0.2)
            (end c h))
        (λ e. let stops = h.0.0 in next c h (ground arith))

  abandon-to : (i : ℕ) (c : Ctx) → State 1 n c → P (abandon stop i c)
  unfolding abandon
  abandon-to i c h =
      let c1 = drop_pending (set_buffer i (release (c.buffers i)) (count_error c)) in
      finish-to (note_write_failure stop c1)
        (note_failure-State stop idle 0 n c1 (h.0, omega (arith, h.1), h.2))

  pub retry-to :
      (i : ℕ) (c : Ctx)
      → Closing c
      → Owes 1 c
      → waiting c.bdev_io_wait ≡ 0
      → answers_left c + 2 ≤ n
      → ((x : Ctx) → State 0 n x → 0 < writes x + waiting x.bdev_io_wait → P x)
      → P (retry_flush stop i c)
  unfolding retry_flush submit retry_answered
  retry-to i c h o w l more =
      if_cases P (past_end c (c.buffers i).target_block)
        (λ e. abandon-to i c (h, o, omega (arith, l))) (λ e. answered c.sys.submit_rcs refl)
    where
      io : Io
      io =
          write_io (block_offset c (c.buffers i).target_block) c.buf_size (c.buffers i).bytes
            (write_complete i)

      after : List Rc → Ctx
      after rcs = record c {
        sys = record c.sys {
          submit_rcs = rest_rcs rcs;
          inflight = enqueue (next_rc rcs) io c.sys.inflight;
        };
      }

      accepted :
          (rcs : List Rc)
          → length rcs ≤ length c.sys.submit_rcs
          → P (record c {
            sys = record c.sys { submit_rcs = rcs; inflight = c.sys.inflight ++ io ∷ [] };
          })
      accepted rcs s =
          let one = count-snoc is_write c.sys.inflight io in
          more _ (h, omega (arith, one, o), omega (arith, one, l, s)) (omega (arith, one))

      refused :
          (e : Errno) (rcs : List Rc)
          → suc (length rcs) ≡ length c.sys.submit_rcs
          → P (retry_answered stop i (err e) (record c { sys = record c.sys { submit_rcs = rcs } }))
      refused enomem rcs s =
          more (record c { bdev_io_wait = some i; sys = record c.sys { submit_rcs = rcs } })
            (h, omega (arith, o, w), omega (arith, l, s, w)) (omega arith)
      refused e rcs s =
          abandon-to i (record c { sys = record c.sys { submit_rcs = rcs } })
            (h, o, omega (arith, l, s))

      answered :
          (rcs : List Rc)
          → rcs ≡ c.sys.submit_rcs
          → P (retry_answered stop i (next_rc rcs) (after rcs))
      answered [] e = accepted [] (omega arith)
      answered (ok ∷ rcs) e =
          let same = ap (λ (xs : List Rc). length xs) e in accepted rcs (omega (arith, same))
      answered (err x ∷ rcs) e = refused x rcs (ap (λ (xs : List Rc). length xs) e)

finalize-Owes : (c : Ctx) → Owes 0 c → Owes 0 (daemon_finalize_segment c)
finalize-Owes c o =
    let e = (daemon_finalize-Keeps c).0 in
    omega (
      arith,
      o,
      ap (λ (b : Books). b.writing) e,
      ap (λ (b : Books). b.pending) e,
      ap (λ (b : Books). waiting b.waits) e,
    )

-- The flush of a stop, when no buffer waits for memory.
pub flush-Owes :
    (stop : Ctx → Ctx)
    → ((c : Ctx) → c.stopping ≡ true → stop c ≡ c)
    → (i : ℕ) (c : Ctx) → Closing c
    → Owes 0 c
    → waiting c.bdev_io_wait ≡ 0
    → Owes 0 (flush_buffer stop i c)
unfolding flush_buffer hand_over
flush-Owes stop idle i c h o w =
    if_cases (Owes 0) ((c.buffers i).used == 0) (λ e. o)
      (λ e.
        if_cases (Owes 0) (past_end c c.next_write_block)
          {x = set_buffer i (record (c.buffers i) { used = 0 }) c} (λ l. o)
          (λ l.
            retry-to (Owes 0) stop idle (answers_left c + 2) (λ x s. finalize-Owes x s.1)
              (λ x s p. s.1) i (hand_over i c) h (omega (arith, o)) w (omega arith) (λ x s p. s.1)))
