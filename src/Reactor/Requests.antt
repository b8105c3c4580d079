-- ===== src/Reactor/Requests.antt =====
-- The handlers of requests about segments (src/chrono_admin.c) submit no buffer's write.
use chrontabulator.Base.{
  ℕ, ◌≡◌, refl, Bool, true, false, ◌&&◌, ◌||◌, ltb, leb, ◌==◌, if_cases, if◌then◌else◌, add64,
  arith,
}
use chrontabulator.Format.{Segment, load_segment}
use chrontabulator.Format.Segments.{View, not_found, open_view, finalized, deleted, classify}
use chrontabulator.Ctx.{
  Ctx, ok, err, eio, enoent, eagain, ebusy, Callback, read_io, io_target, admin_delete_write,
  admin_records_chunk_read, list_start, list_end, records_start, records_end,
}
use chrontabulator.Ctx.Device.{chrono_admin_fulfill, respond, write_toc_slot, block_offset}
use chrontabulator.Reader.Dump.{seed_list, seed_dump, next_slot}
use chrontabulator.Reader.Admin.{
  read_or_fulfill, set_collected, admin_list_read_next_chunk, listed, item_of, list_entry,
  admin_list_chunk_read_complete, admin_do_segments_list, admin_delete_write_complete, mark_deleted,
  admin_delete_read_complete, admin_do_segment_delete, admin_records_read_next_chunk, records_scan,
  take_scan, admin_records_chunk_read_complete, clamp_limit, start_records, records_limit_max,
  records_limit_default, admin_records_entry_read_complete,
}
use chrontabulator.Reactor.Books.{
  Keeps, Keeps-refl, Keeps-trans, submit-Keeps, submit-next-Keeps, fulfill-Keeps, is_write,
  is_closing,
}

pub read_or_fulfill-Keeps :
    (offset len : ℕ) (cb : Callback) (c : Ctx)
    → is_write cb ≡ 0
    → is_closing cb ≡ 0
    → Keeps 0 c (read_or_fulfill offset len cb c)
read_or_fulfill-Keeps offset len cb c w k =
    submit-next-Keeps 0 (read_io offset len io_target cb) c (λ e x. chrono_admin_fulfill (err e) x)
      w (omega arith) (λ e x. fulfill-Keeps 0 (err e) x)

list_next-Keeps : (c : Ctx) → Keeps 0 c (admin_list_read_next_chunk c)
unfolding admin_list_read_next_chunk
list_next-Keeps c =
    if_cases (Keeps 0 c) (leb c.dump_target_count c.dump_records_seen)
      (λ h. fulfill-Keeps 0 ok (respond (list_end c.admin_req.scan_collected) c))
      (λ h. read_or_fulfill-Keeps _ _ _ c refl refl)

entry-Keeps : (s : Segment) (c : Ctx) → Keeps 0 c (list_entry s c)
unfolding list_entry
entry-Keeps s c =
    if_cases (Keeps 0 c) (listed (classify s) c.admin_req.req_include_deleted)
      {x = set_collected (add64 c.admin_req.scan_collected 1)
        (respond (item_of (classify s) s c) c)}
      {y = c} (λ h. Keeps-refl 0 c) (λ h. Keeps-refl 0 c)

pub list_chunk-Keeps :
    (success : Bool) (c : Ctx) → Keeps 0 c (admin_list_chunk_read_complete success c)
unfolding admin_list_chunk_read_complete
list_chunk-Keeps false c = fulfill-Keeps 0 (err eio) c
list_chunk-Keeps true c =
    let c1 = list_entry (load_segment c.io_buf) c in
    Keeps-trans 0 c c1 (admin_list_read_next_chunk (next_slot c1))
      (entry-Keeps (load_segment c.io_buf) c) (list_next-Keeps (next_slot c1))

pub list-Keeps : (c : Ctx) → Keeps 0 c (admin_do_segments_list c)
unfolding admin_do_segments_list
list-Keeps c =
    let c1 = set_collected 0 (seed_list (respond list_start c)) in
    if_cases (Keeps 0 c) (c1.dump_target_count == 0)
      (λ h. fulfill-Keeps 0 ok (respond (list_end 0) c1)) (λ h. list_next-Keeps c1)

pub delete_write-Keeps :
    (success : Bool) (c : Ctx) → Keeps 0 c (admin_delete_write_complete success c)
unfolding admin_delete_write_complete
delete_write-Keeps success c = fulfill-Keeps 0 (if success then ok else err eio) c

pub delete_read-Keeps :
    (success : Bool) (c : Ctx) → Keeps 0 c (admin_delete_read_complete success c)
unfolding admin_delete_read_complete
delete_read-Keeps false c = fulfill-Keeps 0 (err eio) c
delete_read-Keeps true c = by_view (classify (load_segment c.io_buf))
  where
    c1 : Ctx
    c1 = record c { io_buf = mark_deleted c.io_buf }

    deleting : Keeps 0 c (
        let (rc, c2) = write_toc_slot c1.admin_req.req_segment_id admin_delete_write c1 in
        elim rc [ ok ↦ c2 | err e ↦ chrono_admin_fulfill (err e) c2 ])
    deleting =
        submit-next-Keeps 0 _ c1 (λ e x. chrono_admin_fulfill (err e) x) refl (omega arith)
          (λ e x. fulfill-Keeps 0 (err e) x)

    by_view :
        (v : View)
        → Keeps 0 c (elim v [
          | not_found ↦ chrono_admin_fulfill (err enoent) c
          | deleted ↦ chrono_admin_fulfill ok c
          | _ ↦
              let (rc, c2) = write_toc_slot c1.admin_req.req_segment_id admin_delete_write c1 in
              elim rc [ ok ↦ c2 | err e ↦ chrono_admin_fulfill (err e) c2 ]
        ])
    by_view not_found = fulfill-Keeps 0 (err enoent) c
    by_view deleted = fulfill-Keeps 0 ok c
    by_view open_view = deleting
    by_view finalized = deleting

pub delete-Keeps : (c : Ctx) → Keeps 0 c (admin_do_segment_delete c)
unfolding admin_do_segment_delete
delete-Keeps c =
    if_cases (Keeps 0 c) (c.recording && c.admin_req.req_segment_id == c.current_segment_id)
      (λ h. fulfill-Keeps 0 (err ebusy) c) (λ h. read_or_fulfill-Keeps _ _ _ c refl refl)

records_next-Keeps : (c : Ctx) → Keeps 0 c (admin_records_read_next_chunk c)
unfolding admin_records_read_next_chunk
records_next-Keeps c =
    let req = c.admin_req in
    if_cases (Keeps 0 c)
      (leb c.dump_target_count c.dump_records_seen || leb req.req_limit req.scan_collected)
      (λ h. fulfill-Keeps 0 ok (
        respond
          (records_end c.dump_target_count req.req_offset req.req_limit req.scan_collected
            (ltb c.dump_records_seen c.dump_target_count))
          c))
      (λ h.
        submit-Keeps 0
          (read_io (block_offset c c.dump_cur_block) c.dump_write_chunk_bytes io_target
            admin_records_chunk_read)
          c (λ x. record x { dump_cur_block = add64 x.dump_cur_block x.dump_write_chunk_blocks })
          (λ e x. chrono_admin_fulfill (err e) x) refl (omega arith) (λ x. Keeps-refl 0 x)
          (λ e x. fulfill-Keeps 0 (err e) x))

scanned-Keeps :
    (overrun stuck : Bool) (c : Ctx)
    → Keeps 0 c (
        if overrun
        then chrono_admin_fulfill (err eio) c
        else if stuck
        then chrono_admin_fulfill (err eio) c
        else admin_records_read_next_chunk c)
scanned-Keeps true stuck c = fulfill-Keeps 0 (err eio) c
scanned-Keeps false true c = fulfill-Keeps 0 (err eio) c
scanned-Keeps false false c = records_next-Keeps c

pub records_chunk-Keeps :
    (success : Bool) (c : Ctx) → Keeps 0 c (admin_records_chunk_read_complete success c)
unfolding admin_records_chunk_read_complete
records_chunk-Keeps false c = fulfill-Keeps 0 (err eio) c
records_chunk-Keeps true c =
    let s = records_scan c in
    let c1 = take_scan s c in
    scanned-Keeps s.overrun
      (s.offset == 0
        && (ltb c1.dump_records_seen c1.dump_target_count
            && ltb c1.admin_req.scan_collected c1.admin_req.req_limit))
      c1

clamp-Keeps : (c : Ctx) → Keeps 0 c (clamp_limit c)
clamp-Keeps c =
    if_cases (Keeps 0 c) (c.admin_req.req_limit == 0 || ltb records_limit_max c.admin_req.req_limit)
      {x = record c { admin_req = record c.admin_req { req_limit = records_limit_default } }}
      {y = c} (λ h. Keeps-refl 0 c) (λ h. Keeps-refl 0 c)

none_left-Keeps :
    (done : Bool) (c c' : Ctx)
    → Keeps 0 c c'
    → Keeps 0 c (if done then chrono_admin_fulfill ok c' else admin_records_read_next_chunk c)
none_left-Keeps true c c' h =
    Keeps-trans 0 c c' (chrono_admin_fulfill ok c') h (fulfill-Keeps 0 ok c')
none_left-Keeps false c c' h = records_next-Keeps c

start-Keeps : (s : Segment) (c : Ctx) → Keeps 0 c (start_records s c)
unfolding start_records
start-Keeps s c =
    let c0 = clamp_limit c in
    let c1 = respond (records_start s.segment_id) c0 in
    let c2 =
      set_collected 0
        (record (seed_dump s c1) { dump_cur_block = s.start_block; dump_records_seen = 0 }) in
    let req = c2.admin_req in
    Keeps-trans 0 c c0 (start_records s c) (clamp-Keeps c) (
      none_left-Keeps (c2.dump_target_count == 0 || leb c2.dump_target_count req.req_offset) c2
        (respond (records_end c2.dump_target_count req.req_offset req.req_limit 0 false) c2)
        (Keeps-refl 0 c2))

pub records_entry-Keeps :
    (success : Bool) (c : Ctx) → Keeps 0 c (admin_records_entry_read_complete success c)
unfolding admin_records_entry_read_complete
records_entry-Keeps false c = fulfill-Keeps 0 (err eio) c
records_entry-Keeps true c = by_view (load_segment c.io_buf) (classify (load_segment c.io_buf))
  where
    by_view :
        (s : Segment) (v : View)
        → Keeps 0 c (elim v [
          | not_found ↦ chrono_admin_fulfill (err enoent) c
          | open_view ↦ chrono_admin_fulfill (err eagain) c
          | _ ↦ start_records s c
        ])
    by_view s not_found = fulfill-Keeps 0 (err enoent) c
    by_view s open_view = fulfill-Keeps 0 (err eagain) c
    by_view s finalized = start-Keeps s c
    by_view s deleted = start-Keeps s c
