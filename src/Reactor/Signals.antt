-- ===== src/Reactor/Signals.antt =====
-- What requests and signals do to the counts of the daemon (src/main.c, src/chrono_admin.c).
use mathlib.Core.Path.{subst⁻¹}
use chrontabulator.Base.{ℕ, refl, true, false, not, ◌&&◌, if_cases, if_true}
use chrontabulator.Ctx.{
  Ctx, err, eshutdown, ealready, einval, Op, recording_start, recording_stop, segments_list,
  segment_records, segment_delete, quick_format, set_write_buffers, set_write_chunk,
  set_wire_has_seq, set_local_ip, op_unknown, stop_user,
}
use chrontabulator.Ctx.Device.{chrono_admin_fulfill, cleanup_and_stop}
use chrontabulator.Capture.Finalize.{daemon_teardown_and_exit}
use chrontabulator.Volume.Settings.{
  daemon_set_write_buf_count, daemon_set_write_chunk_bytes, daemon_set_wire_has_seq,
}
use chrontabulator.Reader.Admin.{
  chrono_admin_dispatch, dispatch_op, is_stop, admin_do_recording_stop, admin_do_segment_records,
  admin_do_write_buffers, admin_do_write_chunk, admin_do_wire_has_seq, admin_do_set_local_ip,
}
use chrontabulator.Startup.Start.{shutdown_cb, daemon_shutdown_cb, app_shutdown_cb}
use chrontabulator.Reactor.Books.{cleanup-Keeps, fulfill-Keeps}
use chrontabulator.Reactor.Requests
use chrontabulator.Reactor.Settings
use chrontabulator.Reactor.Counted.{Sound, Live, Live→Sound, Keeps-Sound}
use chrontabulator.Reactor.Writes.{stop_recording-Sound}

-- With `d` writes counted beyond those outstanding and waiting.
module _ (d : ℕ) where
  stop_request-Sound :
      (n : ℕ) (c : Ctx) → Live false d n c → Sound false d n (admin_do_recording_stop c)
  unfolding admin_do_recording_stop
  stop_request-Sound n c h =
      if_cases (Sound false d n) (not c.recording)
        (λ e.
          Keeps-Sound false d n c (chrono_admin_fulfill (err ealready) c)
            (fulfill-Keeps 0 (err ealready) c) h)
        (λ e.
          stop_recording-Sound false d n (record c { last_stop_reason = stop_user })
            (Live→Sound false d n c h))

  op-Sound : (n : ℕ) (op : Op) (c : Ctx) → Live false d n c → Sound false d n (dispatch_op op c)
  unfolding dispatch_op admin_do_segment_records admin_do_write_buffers admin_do_write_chunk
      admin_do_wire_has_seq admin_do_set_local_ip
  op-Sound n recording_start c h =
      Keeps-Sound false d n c (dispatch_op recording_start c) (Settings.recording_start-Keeps c) h
  op-Sound n recording_stop c h = stop_request-Sound n c h
  op-Sound n segments_list c h =
      Keeps-Sound false d n c (dispatch_op segments_list c) (Requests.list-Keeps c) h
  op-Sound n segment_records c h =
      Keeps-Sound false d n c (dispatch_op segment_records c)
        (Requests.read_or_fulfill-Keeps _ _ _ c refl refl) h
  op-Sound n segment_delete c h =
      Keeps-Sound false d n c (dispatch_op segment_delete c) (Requests.delete-Keeps c) h
  op-Sound n quick_format c h =
      Keeps-Sound false d n c (dispatch_op quick_format c) (Settings.quick_format-Keeps c) h
  op-Sound n set_write_buffers c h =
      Keeps-Sound false d n c (dispatch_op set_write_buffers c)
        (Settings.when_idle-Keeps (daemon_set_write_buf_count c.admin_req.req_write_buf_count) c
          (Settings.buf_count-Keeps c.admin_req.req_write_buf_count))
        h
  op-Sound n set_write_chunk c h =
      Keeps-Sound false d n c (dispatch_op set_write_chunk c)
        (Settings.when_idle-Keeps (daemon_set_write_chunk_bytes c.admin_req.req_write_chunk_bytes) c
          (Settings.chunk_bytes-Keeps c.admin_req.req_write_chunk_bytes))
        h
  op-Sound n set_wire_has_seq c h =
      Keeps-Sound false d n c (dispatch_op set_wire_has_seq c)
        (Settings.when_idle-Keeps (daemon_set_wire_has_seq c.admin_req.req_wire_has_seq) c
          (Settings.has_seq-Keeps c.admin_req.req_wire_has_seq))
        h
  op-Sound n set_local_ip c h =
      Keeps-Sound false d n c (dispatch_op set_local_ip c)
        (Settings.local_ip-Keeps c.admin_req.req_local_ip c.admin_req.req_have_local_ip c) h
  op-Sound n op_unknown c h =
      Keeps-Sound false d n c (dispatch_op op_unknown c) (fulfill-Keeps 0 (err einval) c) h

  pub dispatch-Sound :
      (n : ℕ) (c : Ctx) → Live false d n c → Sound false d n (chrono_admin_dispatch c)
  unfolding chrono_admin_dispatch
  dispatch-Sound n c h =
      if_cases (Sound false d n) (c.shutting_down && not (is_stop c.admin_req.op))
        (λ e.
          Keeps-Sound false d n c (chrono_admin_fulfill (err eshutdown) c)
            (fulfill-Keeps 0 (err eshutdown) c) h)
        (λ e. op-Sound n c.admin_req.op c h)

  pub signal-Sound : (n : ℕ) (c : Ctx) → Live false d n c → Sound false d n (shutdown_cb c)
  unfolding shutdown_cb daemon_shutdown_cb daemon_teardown_and_exit
  signal-Sound n c h =
      let c1 = record c { shutting_down = true } in
      subst⁻¹ (Sound false d n)
        (if_true c.opts.serve_mode (daemon_shutdown_cb c) (app_shutdown_cb c) h.0)
        (if_cases (Sound false d n) c.recording
          (λ e. stop_recording-Sound false d n c1 (Live→Sound false d n c h))
          (λ e.
            Keeps-Sound false d n c (cleanup_and_stop true (record c1 { rx_poller = false }))
              (cleanup-Keeps 0 true (record c1 { rx_poller = false })) h))
