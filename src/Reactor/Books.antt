-- ===== src/Reactor/Books.antt =====
-- What is counted of the I/O outstanding (src/main.c): the writes of capture buffers, the waiting
-- retry, and the writes that close a segment; and what a submission does to the counts.
use mathlib.Core.Path.{subst⁻¹}
use chrontabulator.Base.{
  ℕ, ◌+◌, ◌≤◌, ◌≡◌, refl, ap, ◌∙◌, Bool, false, Option, none, some, List, [], ◌∷◌, ◌++◌, if_cases,
  arith,
}
use chrontabulator.Reactor.{callback_of}
use chrontabulator.Ctx.{
  Ctx, Rc, ok, err, Errno, Io, Callback, write_complete, daemon_finalize_header_write,
  daemon_finalize_toc_write,
}
use chrontabulator.Ctx.Device.{
  submit, next_rc, rest_rcs, enqueue, cleanup_and_stop, fail_started, chrono_admin_fulfill,
}

-- Whether a completion function is a capture buffer's, or belongs to the closing of a segment.
abbrev pub is_write : Callback → ℕ
is_write (write_complete i) = 1
is_write _ = 0

abbrev pub is_closing : Callback → ℕ
is_closing daemon_finalize_header_write = 1
is_closing daemon_finalize_toc_write = 1
is_closing _ = 0

-- The outstanding I/O of a kind.
unfoldable pub count : (Callback → ℕ) → List Io → ℕ
count k [] = 0
count k (io ∷ ios) = k (callback_of io) + count k ios

pub count-middle :
    (k : Callback → ℕ) (xs : List Io) (io : Io) (ys : List Io)
    → count k (xs ++ io ∷ ys) ≡ k (callback_of io) + count k (xs ++ ys)
unfolding count
count-middle k [] io ys = refl
count-middle k (x ∷ xs) io ys = omega (arith, count-middle k xs io ys)

pub count-snoc :
    (k : Callback → ℕ) (xs : List Io) (io : Io)
    → count k (xs ++ io ∷ []) ≡ k (callback_of io) + count k xs
unfolding count
count-snoc k [] io = omega arith
count-snoc k (x ∷ xs) io = omega (arith, count-snoc k xs io)

-- Writes of capture buffers that are outstanding, the retry that waits, and the closing writes.
abbrev pub writes : Ctx → ℕ
writes c = count is_write c.sys.inflight

abbrev pub waiting : Option ℕ → ℕ
waiting none = 0
waiting (some i) = 1

abbrev pub closings : Ctx → ℕ
closings c = count is_closing c.sys.inflight

pub record Books : Type 0 where
  pub serving : Bool
  pub stopping : Bool
  pub writing : ℕ
  pub waits : Option ℕ
  pub pending : ℕ

abbrev pub books : Ctx → Books
books c = record {
  serving = c.opts.serve_mode;
  stopping = c.stopping;
  writing = writes c;
  waits = c.bdev_io_wait;
  pending = c.pending_writes;
}

-- The books are as they were, and at most `d` more closing writes are outstanding.
abbrev pub Keeps : ℕ → Ctx → Ctx → Type 0
Keeps d c c' = (books c' ≡ books c) × (closings c' ≤ closings c + d)

pub Keeps-refl : (d : ℕ) (c : Ctx) → Keeps d c c
Keeps-refl d c = (refl, omega arith)

-- What keeps the books, before or after what does.
pub Keeps-trans : (d : ℕ) (a b c : Ctx) → Keeps 0 a b → Keeps d b c → Keeps d a c
Keeps-trans d a b c h k = (k.0 ∙ h.0, omega arith)

pub Keeps-then : (d : ℕ) (a b c : Ctx) → Keeps d a b → Keeps 0 b c → Keeps d a c
Keeps-then d a b c h k = (k.0 ∙ h.0, omega arith)

pub Keeps-more : (c c' : Ctx) → Keeps 0 c c' → Keeps 1 c c'
Keeps-more c c' h = (h.0, omega arith)

-- A submission that is not of a buffer's write, and what follows it.
pub submit-Keeps :
    (d : ℕ) (io : Io) (c : Ctx) (accepted : Ctx → Ctx) (refused : Errno → Ctx → Ctx)
    → is_write (callback_of io) ≡ 0
    → is_closing (callback_of io) ≤ d
    → ((x : Ctx) → Keeps 0 x (accepted x))
    → ((e : Errno) (x : Ctx) → Keeps d x (refused e x))
    → Keeps d c (let (rc, c1) = submit io c in elim rc [ ok ↦ accepted c1 | err e ↦ refused e c1 ])
unfolding submit
submit-Keeps d io c accepted refused w k yes_lem no_lem =
    by_rc (next_rc c.sys.submit_rcs) (after (next_rc c.sys.submit_rcs))
      (λ h. subst⁻¹ (λ (rc : Rc). Keeps d c (after rc)) h queued)
      (λ e h. subst⁻¹ (λ (rc : Rc). Keeps 0 c (after rc)) h (Keeps-refl 0 c))
  where
    after : Rc → Ctx
    after rc = record c {
      sys = record c.sys {
        submit_rcs = rest_rcs c.sys.submit_rcs;
        inflight = enqueue rc io c.sys.inflight;
      };
    }

    queued : Keeps d c (after ok)
    queued = (
      ap (λ (n : ℕ). record (books c) { writing = n })
          (omega (arith, count-snoc is_write c.sys.inflight io)),
      omega (arith, count-snoc is_closing c.sys.inflight io),
    )

    by_rc :
        (rc : Rc) (x : Ctx)
        → (rc ≡ ok → Keeps d c x)
        → ((e : Errno) → rc ≡ err e → Keeps 0 c x)
        → Keeps d c (elim rc [ ok ↦ accepted x | err e ↦ refused e x ])
    by_rc ok x h k = Keeps-then d c x (accepted x) (h refl) (yes_lem x)
    by_rc (err e) x h k = Keeps-trans d c x (refused e x) (k e refl) (no_lem e x)

-- One whose refusal and acceptance need no more to be said.
pub submit-next-Keeps :
    (d : ℕ) (io : Io) (c : Ctx) (refused : Errno → Ctx → Ctx)
    → is_write (callback_of io) ≡ 0
    → is_closing (callback_of io) ≤ d
    → ((e : Errno) (x : Ctx) → Keeps d x (refused e x))
    → Keeps d c (let (rc, c1) = submit io c in elim rc [ ok ↦ c1 | err e ↦ refused e c1 ])
submit-next-Keeps d io c refused w k h =
    submit-Keeps d io c (λ x. x) refused w k (λ x. Keeps-refl 0 x) h

-- The ways to stop and to answer.
pub cleanup-Keeps : (d : ℕ) (clean : Bool) (c : Ctx) → Keeps d c (cleanup_and_stop clean c)
unfolding cleanup_and_stop
cleanup-Keeps d clean c =
    if_cases (Keeps d c) c.nic_up {x = record c { nic_up = false }} (λ h. Keeps-refl d c)
      (λ h. Keeps-refl d c)

pub failed-Keeps : (d : ℕ) (c : Ctx) → Keeps d c (fail_started c)
unfolding fail_started
failed-Keeps d c =
    if_cases (Keeps d c) c.nic_up {x = record c { nic_up = false }} (λ h. Keeps-refl d c)
      (λ h. Keeps-refl d c)

pub fulfill-Keeps : (d : ℕ) (rc : Rc) (c : Ctx) → Keeps d c (chrono_admin_fulfill rc c)
unfolding chrono_admin_fulfill
fulfill-Keeps d rc c = Keeps-refl d c
