-- ===== src/Reader/Admin.antt =====
-- src/chrono_admin.c: the requests that the web server hands to the reactor thread. `resp` holds what
-- is printed, piece by piece; Reply has the buffer that it is printed into.
pub mod Entries
pub mod Records
pub mod Deletion
pub mod Guards
pub mod Pages
unfoldable pub use Entries.*
unfoldable pub use Records.*
use chrontabulator.Base.{
  ℕ, zero, suc, ◌+◌, ◌*◌, ◌/◌, ◌%◌, ◌^◌, Bool, true, false, not, ◌&&◌, ◌||◌, List, [], ◌∷◌, ◌++◌,
  map, Option, none, some, ltb, leb, ◌==◌, if◌then◌else◌, add64, sub64,
}
use chrontabulator.Base.Mem.{Mem, put_le}
use chrontabulator.Format.{
  Segment, RecordHdr, load_segment, load_record, record_hdr_size, record_magic, segment_deleted,
}
use chrontabulator.Format.Segments.{View, not_found, open_view, finalized, deleted, classify}
use chrontabulator.Ctx.{
  Rc, ok, err, eio, enoent, eagain, ebusy, eshutdown, ealready, einval, read_io, io_target,
  Callback, admin_list_chunk_read, admin_records_entry_read, admin_records_chunk_read,
  admin_delete_read, admin_delete_write, Item, list_start, list_item, open_item, list_end,
  records_start, record_item, records_end, Op, recording_start, recording_stop, segments_list,
  segment_records, segment_delete, quick_format, set_write_buffers, set_write_chunk,
  set_wire_has_seq, set_local_ip, op_unknown, stop_user, AdminRequest, Ctx,
}
use chrontabulator.Ctx.Device.{
  submit, chrono_admin_fulfill, respond, block_offset, toc_offset, write_toc_slot,
}
use chrontabulator.Capture.Buffers.{daemon_stop_recording}
use chrontabulator.Capture.Claim.{daemon_claim_segment_start}
use chrontabulator.Volume.Init.{daemon_quick_format_start}
use chrontabulator.Volume.Settings.{
  daemon_set_write_buf_count, daemon_set_write_chunk_bytes, daemon_set_wire_has_seq,
  daemon_set_local_ip,
}
use chrontabulator.Reader.Dump.{seed_dump, seed_list, next_slot}

-- RECORDING_START and RECORDING_STOP

abbrev pub apply_session : Ctx → Ctx
apply_session c =
    let req = c.admin_req in
    record c {
      opts = record c.opts {
        udp_port = if req.req_port == 0 then c.opts.udp_port else req.req_port;
        count_limit = if req.req_count_limit_given then req.req_count_limit else c.opts.count_limit;
      };
    }

unfoldable pub admin_do_recording_start : Ctx → Ctx
admin_do_recording_start c =
    if c.shutting_down
    then chrono_admin_fulfill (err eshutdown) c
    else if c.recording
    then chrono_admin_fulfill (err ealready) c
    else (let c1 = apply_session c in
        if c1.opts.udp_port == 0
        then chrono_admin_fulfill (err einval) c1
        else daemon_claim_segment_start c1)

unfoldable pub admin_do_recording_stop : Ctx → Ctx
admin_do_recording_stop c =
    if not c.recording
    then chrono_admin_fulfill (err ealready) c
    else daemon_stop_recording (record c { last_stop_reason = stop_user })

-- QUICK_FORMAT and the settings

unfoldable pub admin_do_quick_format : Ctx → Ctx
admin_do_quick_format c =
    if c.recording then chrono_admin_fulfill (err ebusy) c else daemon_quick_format_start c

-- Refused while a segment is recorded or claimed.
abbrev pub when_idle : (Ctx → Ctx) → Ctx → Ctx
when_idle set c =
    if c.recording || c.claim_in_progress then chrono_admin_fulfill (err ebusy) c else set c

unfoldable pub admin_do_write_buffers : Ctx → Ctx
admin_do_write_buffers c = when_idle (daemon_set_write_buf_count c.admin_req.req_write_buf_count) c

unfoldable pub admin_do_write_chunk : Ctx → Ctx
admin_do_write_chunk c =
    when_idle (daemon_set_write_chunk_bytes c.admin_req.req_write_chunk_bytes) c

unfoldable pub admin_do_wire_has_seq : Ctx → Ctx
admin_do_wire_has_seq c = when_idle (daemon_set_wire_has_seq c.admin_req.req_wire_has_seq) c

unfoldable pub admin_do_set_local_ip : Ctx → Ctx
admin_do_set_local_ip c =
    daemon_set_local_ip c.admin_req.req_local_ip c.admin_req.req_have_local_ip c

-- The `switch` of `chrono_admin_dispatch`.
unfoldable pub dispatch_op : Op → Ctx → Ctx
dispatch_op recording_start c = admin_do_recording_start c
dispatch_op recording_stop c = admin_do_recording_stop c
dispatch_op segments_list c = admin_do_segments_list c
dispatch_op segment_records c = admin_do_segment_records c
dispatch_op segment_delete c = admin_do_segment_delete c
dispatch_op quick_format c = admin_do_quick_format c
dispatch_op set_write_buffers c = admin_do_write_buffers c
dispatch_op set_write_chunk c = admin_do_write_chunk c
dispatch_op set_wire_has_seq c = admin_do_wire_has_seq c
dispatch_op set_local_ip c = admin_do_set_local_ip c
dispatch_op op_unknown c = chrono_admin_fulfill (err einval) c

abbrev pub is_stop : Op → Bool
is_stop recording_stop = true
is_stop _ = false

unfoldable pub chrono_admin_dispatch : Ctx → Ctx
chrono_admin_dispatch c =
    if c.shutting_down && not (is_stop c.admin_req.op)
    then chrono_admin_fulfill (err eshutdown) c
    else dispatch_op c.admin_req.op c
