-- ===== src/Reader/Admin/Entries.antt =====
-- src/chrono_admin.c: the requests about the table of contents, SEGMENTS_LIST and SEGMENT_DELETE.
use chrontabulator.Base.{ℕ, Bool, true, false, not, ◌&&◌, leb, ◌==◌, if◌then◌else◌, add64, sub64}
use chrontabulator.Base.Mem.{Mem, put_le}
use chrontabulator.Format.{Segment, load_segment, segment_deleted}
use chrontabulator.Format.Segments.{View, not_found, open_view, deleted, classify}
use chrontabulator.Ctx.{
  ok, err, eio, enoent, ebusy, read_io, io_target, Callback, admin_list_chunk_read,
  admin_delete_read, admin_delete_write, Item, list_start, list_item, open_item, list_end, Ctx,
}
use chrontabulator.Ctx.Device.{
  submit, chrono_admin_fulfill, respond, block_offset, toc_offset, write_toc_slot,
}
use chrontabulator.Reader.Dump.{seed_list, next_slot}

-- A read into `io_buf`; a refusal is the answer.
abbrev pub read_or_fulfill : ℕ → ℕ → Callback → Ctx → Ctx
read_or_fulfill offset len cb c =
    let (rc, c1) = submit (read_io offset len io_target cb) c in
    elim rc [ ok ↦ c1 | err e ↦ chrono_admin_fulfill (err e) c1 ]

abbrev pub set_collected : ℕ → Ctx → Ctx
set_collected n c = record c { admin_req = record c.admin_req { scan_collected = n } }

-- SEGMENTS_LIST

unfoldable pub admin_list_read_next_chunk : Ctx → Ctx
admin_list_read_next_chunk c =
    if leb c.dump_target_count c.dump_records_seen
    then chrono_admin_fulfill ok (respond (list_end c.admin_req.scan_collected) c)
    else read_or_fulfill (block_offset c c.dump_cur_block) c.block_size admin_list_chunk_read c

-- The size of the segment that is being recorded is live; any other open one has none.
unfoldable pub live_block_count : Segment → Ctx → ℕ
live_block_count s c =
    if c.recording && s.segment_id == c.segment_id
    then sub64 c.next_write_block c.segment_start_block
    else 0

unfoldable pub item_of : View → Segment → Ctx → Item
item_of open_view s c = open_item s.segment_id s.start_block (live_block_count s c)
item_of v s c = list_item v s

-- `view != NOT_FOUND && (view != DELETED || req->req_include_deleted)`
unfoldable pub listed : View → Bool → Bool
listed not_found include = false
listed deleted include = include
listed v include = true

unfoldable pub list_entry : Segment → Ctx → Ctx
list_entry s c =
    if listed (classify s) c.admin_req.req_include_deleted
    then set_collected (add64 c.admin_req.scan_collected 1) (respond (item_of (classify s) s c) c)
    else c

unfoldable pub admin_list_chunk_read_complete : Bool → Ctx → Ctx
admin_list_chunk_read_complete success c =
    if not success
    then chrono_admin_fulfill (err eio) c
    else admin_list_read_next_chunk (next_slot (list_entry (load_segment c.io_buf) c))

unfoldable pub admin_do_segments_list : Ctx → Ctx
admin_do_segments_list c =
    let c1 = set_collected 0 (seed_list (respond list_start c)) in
    if c1.dump_target_count == 0
    then chrono_admin_fulfill ok (respond (list_end 0) c1)
    else admin_list_read_next_chunk c1

-- SEGMENT_DELETE

unfoldable pub admin_delete_write_complete : Bool → Ctx → Ctx
admin_delete_write_complete success c = chrono_admin_fulfill (if success then ok else err eio) c

-- `seg->state = CHRONO_SEGMENT_DELETED`: the field at byte 12 of the entry in `io_buf`.
unfoldable pub mark_deleted : Mem → Mem
mark_deleted m = put_le 4 m 12 segment_deleted

unfoldable pub admin_delete_read_complete : Bool → Ctx → Ctx
admin_delete_read_complete success c =
    if not success
    then chrono_admin_fulfill (err eio) c
    else (let c1 = record c { io_buf = mark_deleted c.io_buf } in
        let (rc, c2) = write_toc_slot c1.admin_req.req_segment_id admin_delete_write c1 in
        let deleting : Ctx = elim rc [ ok ↦ c2 | err e ↦ chrono_admin_fulfill (err e) c2 ] in
        elim (classify (load_segment c.io_buf)) [
          | not_found ↦ chrono_admin_fulfill (err enoent) c
          | deleted ↦ chrono_admin_fulfill ok c
          | _ ↦ deleting
        ])

unfoldable pub admin_do_segment_delete : Ctx → Ctx
admin_do_segment_delete c =
    if c.recording && c.admin_req.req_segment_id == c.current_segment_id
    then chrono_admin_fulfill (err ebusy) c
    else read_or_fulfill (toc_offset c c.admin_req.req_segment_id) c.block_size admin_delete_read c
