-- ===== src/Reader/Admin/Guards.antt =====
-- What a request can change while a segment is recorded (src/chrono_admin.c).
use chrontabulator.Base.{
  ℕ, ◌≡◌, refl, ap, Bool, true, not, ◌&&◌, ◌||◌, leb, ◌==◌, if_cases, if_true, arith,
}
use chrontabulator.Ctx.{
  Ctx, Rc, err, list_start, Callback, Op, recording_start, recording_stop, segments_list,
  segment_records, segment_delete, quick_format, set_write_buffers, set_write_chunk,
  set_wire_has_seq, set_local_ip, op_unknown, stop_user,
}
use chrontabulator.Ctx.Device.{respond, submit, next_rc, chrono_admin_fulfill}
use chrontabulator.Capture.Keeps.{Kept, kept, on_rc, daemon_stop_recording-kept}
use chrontabulator.Volume.Settings.{
  daemon_set_write_buf_count, daemon_set_write_chunk_bytes, daemon_set_wire_has_seq,
  daemon_set_local_ip,
}
use chrontabulator.Reader.Dump.{seed_list}
use chrontabulator.Reader.Admin.{
  chrono_admin_dispatch, dispatch_op, is_stop, admin_do_recording_start, admin_do_recording_stop,
  admin_do_segments_list, admin_list_read_next_chunk, admin_do_segment_records,
  admin_do_segment_delete, admin_do_quick_format, admin_do_write_buffers, admin_do_write_chunk,
  admin_do_wire_has_seq, admin_do_set_local_ip, read_or_fulfill, set_collected, when_idle,
}

-- What the recording depends on: how packets are taken apart, where they go and when it stops.
pub record Session : Type 0 where
  pub buf_size : ℕ
  pub buf_size_blocks : ℕ
  pub write_buf_count : ℕ
  pub wire_has_seq : Bool
  pub udp_port : ℕ
  pub count_limit : ℕ
  pub cur_buf : ℕ
  pub record_count : ℕ
  pub dropped_count : ℕ

abbrev session_of : Kept → Session
session_of k = record {
  buf_size = k.buf_size;
  buf_size_blocks = k.buf_size_blocks;
  write_buf_count = k.write_buf_count;
  wire_has_seq = k.wire_has_seq;
  udp_port = k.opts.udp_port;
  count_limit = k.opts.count_limit;
  cur_buf = k.cur_buf;
  record_count = k.record_count;
  dropped_count = k.dropped_count;
}

abbrev pub session : Ctx → Session
session c = session_of (kept c)

abbrev Quiet : Ctx → Ctx → Type 0
Quiet c c' = session c' ≡ session c

fulfill-Quiet : (rc : Rc) (c : Ctx) → Quiet c (chrono_admin_fulfill rc c)
unfolding chrono_admin_fulfill
fulfill-Quiet rc c = refl

read-Quiet : (off len : ℕ) (cb : Callback) (c : Ctx) → Quiet c (read_or_fulfill off len cb c)
unfolding submit
read-Quiet off len cb c =
    on_rc (Quiet c) (next_rc c.sys.submit_rcs) refl (λ e. fulfill-Quiet (err e) _)

list_next-Quiet : (c : Ctx) → Quiet c (admin_list_read_next_chunk c)
unfolding admin_list_read_next_chunk chrono_admin_fulfill
list_next-Quiet c =
    if_cases (Quiet c) (leb c.dump_target_count c.dump_records_seen) (λ h. refl)
      (λ h. read-Quiet _ _ _ c)

list-Quiet : (c : Ctx) → Quiet c (admin_do_segments_list c)
unfolding admin_do_segments_list chrono_admin_fulfill
list-Quiet c =
    let c1 = set_collected 0 (seed_list (respond list_start c)) in
    if_cases (Quiet c) (c1.dump_target_count == 0) (λ h. refl) (λ h. list_next-Quiet c1)

delete-Quiet : (c : Ctx) → Quiet c (admin_do_segment_delete c)
unfolding admin_do_segment_delete chrono_admin_fulfill
delete-Quiet c =
    if_cases (Quiet c) (c.recording && c.admin_req.req_segment_id == c.current_segment_id)
      (λ h. refl) (λ h. read-Quiet _ _ _ c)

local_ip-Quiet : (c : Ctx) → Quiet c (admin_do_set_local_ip c)
unfolding admin_do_set_local_ip daemon_set_local_ip chrono_admin_fulfill
local_ip-Quiet c = if_cases (Quiet c) c.admin_req.req_have_local_ip (λ h. refl) (λ h. refl)

stop-Quiet : (c : Ctx) → Quiet c (admin_do_recording_stop c)
unfolding admin_do_recording_stop chrono_admin_fulfill
stop-Quiet c =
    if_cases (Quiet c) (not c.recording) (λ h. refl)
      (λ h. ap session_of (daemon_stop_recording-kept (record c { last_stop_reason = stop_user })))

start-Quiet : (c : Ctx) → c.recording ≡ true → Quiet c (admin_do_recording_start c)
unfolding admin_do_recording_start chrono_admin_fulfill
start-Quiet c on =
    if_cases (Quiet c) c.shutting_down (λ h. refl) (λ h. ap session (if_true c.recording _ _ on))

format-Quiet : (c : Ctx) → c.recording ≡ true → Quiet c (admin_do_quick_format c)
unfolding admin_do_quick_format chrono_admin_fulfill
format-Quiet c on = ap session (if_true c.recording _ _ on)

refused-Quiet : (set : Ctx → Ctx) (c : Ctx) → c.recording ≡ true → Quiet c (when_idle set c)
unfolding chrono_admin_fulfill
refused-Quiet set c on =
    ap session (if_true (c.recording || c.claim_in_progress) _ _ (ground arith))

dispatch_op-Quiet : (op : Op) (c : Ctx) → c.recording ≡ true → Quiet c (dispatch_op op c)
unfolding dispatch_op admin_do_segment_records admin_do_write_buffers admin_do_write_chunk
    admin_do_wire_has_seq
dispatch_op-Quiet recording_start c on = start-Quiet c on
dispatch_op-Quiet recording_stop c on = stop-Quiet c
dispatch_op-Quiet segments_list c on = list-Quiet c
dispatch_op-Quiet segment_records c on = read-Quiet _ _ _ c
dispatch_op-Quiet segment_delete c on = delete-Quiet c
dispatch_op-Quiet quick_format c on = format-Quiet c on
dispatch_op-Quiet set_write_buffers c on =
    refused-Quiet (daemon_set_write_buf_count c.admin_req.req_write_buf_count) c on
dispatch_op-Quiet set_write_chunk c on =
    refused-Quiet (daemon_set_write_chunk_bytes c.admin_req.req_write_chunk_bytes) c on
dispatch_op-Quiet set_wire_has_seq c on =
    refused-Quiet (daemon_set_wire_has_seq c.admin_req.req_wire_has_seq) c on
dispatch_op-Quiet set_local_ip c on = local_ip-Quiet c
dispatch_op-Quiet op_unknown c on = fulfill-Quiet _ c

-- While a segment is being recorded no request, of any kind and with any arguments, changes at
-- once what the recording depends on: the chunk geometry, the number of buffers and which of them
-- is current, the packet format, the port, the count limit, and the counters. A stop is among the
-- requests.
pub chrono_admin_dispatch-session :
    (c : Ctx) → c.recording ≡ true → session (chrono_admin_dispatch c) ≡ session c
unfolding chrono_admin_dispatch chrono_admin_fulfill
chrono_admin_dispatch-session c on =
    if_cases (Quiet c) (c.shutting_down && not (is_stop c.admin_req.op)) (λ h. refl)
      (λ h. dispatch_op-Quiet c.admin_req.op c on)
