-- ===== src/Reactor/Counted.antt =====
-- src/main.c: what the daemon counts of the writes that are outstanding, and when it may close a
-- segment.
use mathlib.Core.Path.{subst⁻¹}
use chrontabulator.Base.{
  ℕ, ◌+◌, ◌≤◌, ◌≡◌, ap, ◌∙◌, ◌⊎◌, inl, inr, Bool, true, false, ◌&&◌, ◌==◌, if_cases, if_true, arith,
}
use chrontabulator.Ctx.{Ctx}
use chrontabulator.Capture.Finalize.{
  daemon_finalize_segment, finalize_segment_and_stop, finalize_current_stop,
}
use chrontabulator.Capture.Buffers.{finish_if_drained}
use chrontabulator.Reactor.Books.{Books, books, Keeps, writes, waiting, closings}
use chrontabulator.Reactor.Chains.{daemon_finalize-Keeps}

-- Recording has been told to stop, and no buffer's write is left.
abbrev pub IsDrained : Ctx → Type 0
IsDrained c =
    (c.stopping ≡ true) × (writes c ≡ 0) × (waiting c.bdev_io_wait ≡ 0) × (c.pending_writes ≡ 0)

-- The daemon counts each write that is outstanding, the one that waits, and `k` more: those on
-- their way to the device or being completed.
abbrev pub Counts : ℕ → Ctx → Type 0
Counts k c = writes c + waiting c.bdev_io_wait + k ≤ c.pending_writes

-- At most `n` closing writes are outstanding, or none of a buffer's.
-- `s` tells whether a stop is known to be under way.
abbrev pub Sound : Bool → ℕ → ℕ → Ctx → Type 0
Sound s k n c =
    (c.opts.serve_mode ≡ true)
    × Counts k c
    × (s ≡ true → c.stopping ≡ true)
    × ((closings c ≤ n) ⊎ IsDrained c)

abbrev pub Live : Bool → ℕ → ℕ → Ctx → Type 0
Live s k n c =
    (c.opts.serve_mode ≡ true) × Counts k c × (s ≡ true → c.stopping ≡ true) × (closings c ≤ n)

pub Live→Sound : (s : Bool) (k n : ℕ) (c : Ctx) → Live s k n c → Sound s k n c
Live→Sound s k n c h = (h.0, h.1, h.2, inl h.3)

-- What keeps the books.
pub serving-books :
    (c c' : Ctx) → books c' ≡ books c → c.opts.serve_mode ≡ true → c'.opts.serve_mode ≡ true
serving-books c c' e h = ap (λ (b : Books). b.serving) e ∙ h

pub Counts-books : (k : ℕ) (c c' : Ctx) → books c' ≡ books c → Counts k c → Counts k c'
Counts-books k c c' e h = omega (
  arith,
  ap (λ (b : Books). b.writing) e,
  ap (λ (b : Books). b.pending) e,
  ap (λ (b : Books). waiting b.waits) e,
)

stopping-books :
    (c c' : Ctx)
    → books c' ≡ books c
    → (s : Bool) → (s ≡ true → c.stopping ≡ true)
    → s ≡ true
    → c'.stopping ≡ true
stopping-books c c' e s h x = ap (λ (b : Books). b.stopping) e ∙ h x

-- A closing write may follow another.
pub closing-Sound :
    (d n : ℕ) (c c' : Ctx)
    → Keeps 1 c c'
    → c.opts.serve_mode ≡ true
    → Counts d c
    → closings c + 1 ≤ n
    → Sound false d n c'
closing-Sound d n c c' e s h k =
    (serving-books c c' e.0 s, Counts-books d c c' e.0 h, (λ x. cc), inl (omega (arith, e.1)))

pub Keeps-Sound : (s : Bool) (k n : ℕ) (c c' : Ctx) → Keeps 0 c c' → Live s k n c → Sound s k n c'
Keeps-Sound s k n c c' e h = (
  serving-books c c' e.0 h.0,
  Counts-books k c c' e.0 h.1,
  stopping-books c c' e.0 s h.2,
  inl (omega (arith, e.1, h.3)),
)

-- With nothing pending the segment is closed, and nothing of a buffer's is outstanding.
pub finalize-Sound :
    (s : Bool) (k n : ℕ) (c : Ctx)
    → c.opts.serve_mode ≡ true
    → Counts k c
    → c.stopping ≡ true
    → c.pending_writes ≡ 0
    → Sound s k n (daemon_finalize_segment c)
finalize-Sound s k n c serve h t z =
    let c' = daemon_finalize_segment c in
    let e : books c' ≡ books c = (daemon_finalize-Keeps c).0 in
    (
      serving-books c c' e serve,
      Counts-books k c c' e h,
      (λ x. ap (λ (b : Books). b.stopping) e ∙ t),
      inr (
        ap (λ (b : Books). b.stopping) e ∙ t,
        omega (arith, ap (λ (b : Books). b.writing) e),
        omega (arith, ap (λ (b : Books). waiting b.waits) e),
        ap (λ (b : Books). b.pending) e ∙ z,
      ),
    )

pub finish-Sound :
    (s : Bool) (k n : ℕ) (c : Ctx) → Sound s k n c → Sound s k n (finish_if_drained c)
unfolding finish_if_drained finalize_current_stop
finish-Sound s k n c h =
    if_cases (Sound s k n) (c.stopping && c.pending_writes == 0) {x = finalize_current_stop c}
      (λ e.
        subst⁻¹ (Sound s k n)
          (if_true c.opts.serve_mode (daemon_finalize_segment c) (finalize_segment_and_stop c) h.0)
          (finalize-Sound s k n c h.0 h.1 (ground arith) (ground arith)))
      (λ e. h)
