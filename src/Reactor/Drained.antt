-- ===== src/Reactor/Drained.antt =====
-- The reactor thread as a whole (src/main.c, src/chrono_admin.c): no segment is closed while a
-- buffer's write is outstanding.
use chrontabulator.Base.{
  ℕ, ◌≤◌, ◌<◌, ◌≡◌, refl, ap, ◌⊎◌, inl, inr, true, false, Option, none, some, arith,
}
use chrontabulator.Ctx.{Ctx}
use chrontabulator.Capture.Buffers.{stop_capture}
use chrontabulator.Reactor.{
  Step, outside, burst, completed, woken, request, signal, Reached, here, next,
}
use chrontabulator.Reactor.Books.{writes, waiting, closings}
use chrontabulator.Reactor.Counted.{Sound, Counts, IsDrained}
use chrontabulator.Reactor.Writes.{retry-Sound, stop_capture-Sound}
use chrontabulator.Reactor.Poller.{burst-Sound}
use chrontabulator.Reactor.Signals.{dispatch-Sound, signal-Sound}
use chrontabulator.Reactor.Handlers.{complete-Sound}

pub step-Sound :
    (d : ℕ) {c c' : Ctx}
    → Step c c'
    → c.opts.serve_mode ≡ true
    → Counts d c
    → Sound false d (closings c) c'
step-Sound d (outside c rcs sec nsec req) s h = (s, h, (λ e. cc), inl (omega arith))
step-Sound d (burst c now ps on) s h =
    burst-Sound d (closings c) now ps c (s, h, (λ e. cc), inl (omega arith))
step-Sound d (completed c before after io success m e) s h =
    complete-Sound d c before after io success m e s h
step-Sound d (woken c i e) s h =
    retry-Sound stop_capture stop_capture-Sound false d (closings c) i
      (record c { bdev_io_wait = none }) (s, omega (arith, ap waiting e), (λ x. cc), omega arith)
step-Sound d (request c) s h = dispatch-Sound d (closings c) c (s, h, (λ e. cc), omega arith)
step-Sound d (signal c) s h = signal-Sound d (closings c) c (s, h, (λ e. cc), omega arith)

pub Reached-Counts :
    (d : ℕ) {s c : Ctx}
    → s.opts.serve_mode ≡ true
    → Counts d s
    → Reached s c
    → (c.opts.serve_mode ≡ true) × Counts d c
Reached-Counts d s h here = (s, h)
Reached-Counts d s h (next r st) =
    let i = Reached-Counts d s h r in let j = step-Sound d st i.0 i.1 in (j.0, j.1)

none_waits : (o : Option ℕ) → waiting o ≡ 0 → o ≡ none
none_waits none h = refl
none_waits (some i) h = absurd (omega arith)

drained_of :
    (n : ℕ) (c : Ctx)
    → (closings c ≤ n) ⊎ IsDrained c
    → n < closings c
    → (writes c ≡ 0) × (c.bdev_io_wait ≡ none)
drained_of n c (inl l) h = absurd (omega arith)
drained_of n c (inr d) h = (d.1, none_waits c.bdev_io_wait d.2)

-- In the daemon, from a state with no buffer's write outstanding or waiting for memory, and after
-- any steps of the reactor thread (bursts of packets, I/O completed in any order, with success or
-- not, retries, requests, signals, submissions refused at any point): a step that starts to close
-- a segment, so that more of the writes that close one are outstanding after it, leaves no buffer's
-- write outstanding and none waiting. (A wait entry that is queued while it is queued already is
-- taken to stay queued once, for the buffer named last.)
pub Reached-closes_drained :
    {s c c' : Ctx}
    → s.opts.serve_mode ≡ true
    → writes s ≡ 0
    → s.bdev_io_wait ≡ none
    → Reached s c
    → Step c c'
    → closings c < closings c'
    → (writes c' ≡ 0) × (c'.bdev_io_wait ≡ none)
Reached-closes_drained {s} {c} {c'} serve empty free reached step closing =
    let i = Reached-Counts 0 serve (omega (arith, ap waiting free)) reached in
    drained_of (closings c) c' (step-Sound 0 step i.0 i.1).3 closing
