-- ===== src/Startup/Shutdown/Ending.antt =====
-- A daemon that is told to exit (src/main.c) closes: what that means, and the closing of the segment.
use mathlib.Core.Path.{subst⁻¹}
use chrontabulator.Base.{
  ℕ, ◌+◌, ◌<◌, ◌≡◌, refl, ap, Bool, true, false, some, none, List, [], ◌∷◌, ◌++◌, if_true,
  if◌then◌else◌,
}
use chrontabulator.Base.Mem.{Mem}
use chrontabulator.Ctx.{
  Ctx, Rc, ok, err, stopped_clean, write_io, write_complete, Io, daemon_finalize_header_write,
  daemon_finalize_toc_write, Callback, eio, no_segment,
}
use chrontabulator.Ctx.Device.{
  submit, next_rc, rest_rcs, enqueue, toc_offset, write_toc_slot, cleanup_and_stop,
  chrono_admin_fulfill,
}
use chrontabulator.Capture.Finalize.{
  fill_io_buf, finalized_entry, advance_header, daemon_finalize_segment,
  daemon_finalize_header_write_complete, daemon_finalize_toc_write_complete,
  daemon_teardown_and_exit,
}
use chrontabulator.Capture.Buffers.{retry_flush, stop_capture}
use chrontabulator.Reactor.{complete, completion, transfer}
use chrontabulator.Reactor.Books.{writes, waiting}

-- The last write submitted is the one that ends in `cb`.
abbrev Submitted : Callback → Ctx → Type 0
Submitted cb c =
    (ios : List Io) × (offset : ℕ) × (len : ℕ) × (bytes : Mem) × (c.sys.inflight
      ≡ ios ++ write_io offset len bytes cb ∷ [])

-- Answering what is outstanding ends the program. It has stopped; or a buffer's write is
-- outstanding or waits for memory, and each way in which one of those is completed or retried leads
-- there; or the last write submitted is outstanding, and each way in which it is completed does.
pub data Closes : Ctx → Type 0 where
  done : (c : Ctx) → c.sys.exit ≡ stopped_clean → Closes c
  at_buffer_writes :
      (c : Ctx)
      → 0 < writes c + waiting c.bdev_io_wait
      → ((before after : List Io) (offset len : ℕ) (bytes : Mem) (i : ℕ) (success : Bool) (m : Mem)
          → c.sys.inflight ≡ before ++ write_io offset len bytes (write_complete i) ∷ after
          → Closes (
              complete
                (before ++ after)
                (write_io offset len bytes (write_complete i))
                success
                m
                c))
      → ((i : ℕ)
          → c.bdev_io_wait ≡ some i
          → Closes (retry_flush stop_capture i (record c { bdev_io_wait = none })))
      → Closes c
  at_last_write :
      (c : Ctx) (before : List Io) (io : Io)
      → c.sys.inflight ≡ before ++ io ∷ []
      → ((success : Bool) (m : Mem) → Closes (complete before io success m c))
      → Closes c

-- The three steps of the finalize, last first.
pub cleanup-exit : (c : Ctx) → (cleanup_and_stop true c).sys.exit ≡ stopped_clean
unfolding cleanup_and_stop
cleanup-exit c = refl

toc-Closes :
    (success : Bool) (c : Ctx)
    → c.shutting_down ≡ true
    → Closes (daemon_finalize_toc_write_complete success c)
unfolding daemon_finalize_toc_write_complete daemon_teardown_and_exit
toc-Closes success c h =
    let c1 = record c { recording = false; current_segment_id = no_segment } in
    let c2 = record c1 { rx_poller = false } in
    subst⁻¹ Closes
      (if_true c.shutting_down (cleanup_and_stop true c2)
        (chrono_admin_fulfill (if success then ok else err eio) c1) h)
      (done (cleanup_and_stop true c2) (cleanup-exit c2))

-- A write that is submitted: accepted it is outstanding, refused `next` goes on.
answer_Closes :
    (offset len : ℕ) (bytes : Mem) (cb : Callback) (c : Ctx) (next : Ctx → Ctx)
    → c.shutting_down ≡ true
    → ((x : Ctx) → Submitted cb x → x.shutting_down ≡ true → Closes x)
    → ((x : Ctx) → x.shutting_down ≡ true → Closes (next x))
    → Closes (
        let (rc, c1) = submit (write_io offset len bytes cb) c in
        elim rc [ ok ↦ c1 | err e ↦ next c1 ])
unfolding submit
answer_Closes offset len bytes cb c next h accepted refused =
    by_rc (next_rc c.sys.submit_rcs) (after (next_rc c.sys.submit_rcs))
      (λ e. (c.sys.inflight, offset, len, bytes, ap (λ (r : Rc). enqueue r io c.sys.inflight) e)) h
  where
    io : Io
    io = write_io offset len bytes cb

    after : Rc → Ctx
    after rc = record c {
      sys = record c.sys {
        submit_rcs = rest_rcs c.sys.submit_rcs;
        inflight = enqueue rc io c.sys.inflight;
      };
    }

    by_rc :
        (rc : Rc) (x : Ctx)
        → (rc ≡ ok → Submitted cb x)
        → x.shutting_down ≡ true
        → Closes (elim rc [ ok ↦ x | err e ↦ next x ])
    by_rc ok x s k = accepted x (s refl) k
    by_rc (err e) x s k = refused x k

toc_outstanding :
    (c : Ctx) → Submitted daemon_finalize_toc_write c → c.shutting_down ≡ true → Closes c
unfolding complete completion transfer
toc_outstanding c (ios, offset, len, bytes, e) h =
    at_last_write c ios (write_io offset len bytes daemon_finalize_toc_write) e
      (λ b m. toc-Closes b _ h)

toc_submit-Closes :
    (c : Ctx)
    → c.shutting_down ≡ true
    → Closes (
        let (rc, c2) = write_toc_slot c.segment_id daemon_finalize_toc_write c in
        elim rc [ ok ↦ c2 | err e ↦ daemon_finalize_toc_write_complete false c2 ])
toc_submit-Closes c h =
    answer_Closes (toc_offset c c.segment_id) c.block_size c.io_buf daemon_finalize_toc_write c
      (daemon_finalize_toc_write_complete false) h toc_outstanding (toc-Closes false)

header-Closes :
    (success : Bool) (c : Ctx)
    → c.shutting_down ≡ true
    → Closes (daemon_finalize_header_write_complete success c)
unfolding daemon_finalize_header_write_complete
header-Closes true c h =
    let c0 = record c { mirror_next_data_block = c.vol.next_data_block } in
    toc_submit-Closes (fill_io_buf (finalized_entry c0) c0) h
header-Closes false c h = toc_submit-Closes (fill_io_buf (finalized_entry c) c) h

header_outstanding :
    (c : Ctx) → Submitted daemon_finalize_header_write c → c.shutting_down ≡ true → Closes c
unfolding complete completion transfer
header_outstanding c (ios, offset, len, bytes, e) h =
    at_last_write c ios (write_io offset len bytes daemon_finalize_header_write) e
      (λ b m. header-Closes b _ h)

pub finalize-Closes : (c : Ctx) → c.shutting_down ≡ true → Closes (daemon_finalize_segment c)
unfolding daemon_finalize_segment
finalize-Closes c h =
    let c1 = advance_header c in
    answer_Closes 0 c1.block_size c1.vol_buf daemon_finalize_header_write c1
      (daemon_finalize_header_write_complete false) h header_outstanding (header-Closes false)
