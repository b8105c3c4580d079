-- ===== src/Reactor/Settings.antt =====
-- The requests that start a recording, format, or change a setting (src/chrono_admin.c,
-- src/main.c) submit no buffer's write.
use chrontabulator.Base.{ℕ, Bool, true, false, ◌||◌, ltb, ◌==◌, if_cases}
use chrontabulator.Base.Mem.{Mem}
use chrontabulator.Ctx.{
  Ctx, ok, err, ebusy, eshutdown, ealready, einval, max_write_buffers, min_write_chunk_bytes,
  max_write_chunk_bytes,
}
use chrontabulator.Ctx.Device.{chrono_admin_fulfill}
use chrontabulator.Volume.Settings.{
  daemon_set_write_buf_count, daemon_set_write_chunk_bytes, daemon_set_wire_has_seq,
  daemon_set_local_ip,
}
use chrontabulator.Reader.Admin.{
  apply_session, admin_do_recording_start, admin_do_quick_format, when_idle,
}
use chrontabulator.Reactor.Books.{Keeps, Keeps-refl, fulfill-Keeps}
use chrontabulator.Reactor.Chains.{daemon_claim-Keeps}
use chrontabulator.Reactor.Formats.{format-Keeps}

-- A recording's start, a format, and the settings.
pub recording_start-Keeps : (c : Ctx) → Keeps 0 c (admin_do_recording_start c)
unfolding admin_do_recording_start
recording_start-Keeps c =
    let c1 = apply_session c in
    if_cases (Keeps 0 c) c.shutting_down (λ h. fulfill-Keeps 0 (err eshutdown) c)
      (λ h.
        if_cases (Keeps 0 c) c.recording (λ k. fulfill-Keeps 0 (err ealready) c)
          (λ k.
            if_cases (Keeps 0 c) (c1.opts.udp_port == 0) (λ l. fulfill-Keeps 0 (err einval) c1)
              (λ l. daemon_claim-Keeps c1)))

pub quick_format-Keeps : (c : Ctx) → Keeps 0 c (admin_do_quick_format c)
unfolding admin_do_quick_format
quick_format-Keeps c =
    if_cases (Keeps 0 c) c.recording (λ h. fulfill-Keeps 0 (err ebusy) c) (λ h. format-Keeps c)

pub when_idle-Keeps :
    (set : Ctx → Ctx) (c : Ctx) → ((x : Ctx) → Keeps 0 x (set x)) → Keeps 0 c (when_idle set c)
when_idle-Keeps set c h =
    if_cases (Keeps 0 c) (c.recording || c.claim_in_progress) (λ k. fulfill-Keeps 0 (err ebusy) c)
      (λ k. h c)

pub buf_count-Keeps : (n : ℕ) (c : Ctx) → Keeps 0 c (daemon_set_write_buf_count n c)
unfolding daemon_set_write_buf_count
buf_count-Keeps n c =
    if_cases (Keeps 0 c) (ltb n 1 || ltb max_write_buffers n) (λ h. fulfill-Keeps 0 (err einval) c)
      (λ h. fulfill-Keeps 0 ok (record c { write_buf_count = n }))

pub chunk_bytes-Keeps : (n : ℕ) (c : Ctx) → Keeps 0 c (daemon_set_write_chunk_bytes n c)
unfolding daemon_set_write_chunk_bytes chrono_admin_fulfill
chunk_bytes-Keeps n c =
    if_cases (Keeps 0 c) (ltb n min_write_chunk_bytes || ltb max_write_chunk_bytes n)
      (λ h. Keeps-refl 0 c) (λ h. Keeps-refl 0 c)

pub has_seq-Keeps : (b : Bool) (c : Ctx) → Keeps 0 c (daemon_set_wire_has_seq b c)
unfolding daemon_set_wire_has_seq
has_seq-Keeps b c = fulfill-Keeps 0 ok (record c { wire_has_seq = b })

pub local_ip-Keeps : (ip : Mem) (b : Bool) (c : Ctx) → Keeps 0 c (daemon_set_local_ip ip b c)
unfolding daemon_set_local_ip chrono_admin_fulfill
local_ip-Keeps ip true c = Keeps-refl 0 c
local_ip-Keeps ip false c = Keeps-refl 0 c
