-- ===== src/Reactor/Volumes.antt =====
-- Reading back on the command line, and taking over the volume header (src/main.c), submit no
-- buffer's write.
use chrontabulator.Base.{
  ℕ, ◌≡◌, refl, Bool, true, false, not, ◌&&◌, leb, ◌==◌, if_cases, if◌then◌else◌, add64, arith,
}
use chrontabulator.Base.Mem.{put_le}
use chrontabulator.Format.{Volume, Segment, volume_header_is_valid, load_volume, load_segment}
use chrontabulator.Format.Segments.{View, not_found, open_view, finalized, deleted, classify}
use chrontabulator.Ctx.{Ctx, Callback, read_io, io_target, dump_chunk_read, open_line, segment_line}
use chrontabulator.Ctx.Device.{fail_started, cleanup_and_stop, print_line, block_offset}
use chrontabulator.Reader.Dump.{
  read_or_stop, dump_read_next_chunk, print_records, dump_walk, dump_chunk_read_complete,
  repair_chunk_bytes_write_complete, repair_chunk_bytes, seed_dump, dump_found_segment,
  dump_segment_entry_read_complete, list_read_next_chunk, list_line, next_slot,
  list_chunk_read_complete, seed_list, list_start, dump_start,
}
use chrontabulator.Startup.Start.{
  take_header, volume_header_read_complete, daemon_finish_startup, chrono_admin_init,
  publish_volume, daemon_volume_header_read_complete, zero_request,
}
use chrontabulator.Reactor.Books.{
  Keeps, Keeps-refl, Keeps-trans, submit-next-Keeps, cleanup-Keeps, failed-Keeps, is_write,
  is_closing,
}
use chrontabulator.Reactor.Chains.{claim-Keeps}

-- Reading back.
read_or_stop-Keeps :
    (offset len : ℕ) (cb : Callback) (c : Ctx)
    → is_write cb ≡ 0
    → is_closing cb ≡ 0
    → Keeps 0 c (read_or_stop offset len cb c)
read_or_stop-Keeps offset len cb c w k =
    submit-next-Keeps 0 (read_io offset len io_target cb) c (λ e x. cleanup_and_stop false x) w
      (omega arith) (λ e x. cleanup-Keeps 0 false x)

walked-Keeps :
    (overrun done stuck : Bool) (block : ℕ) (c : Ctx)
    → Keeps 0 c (
        if overrun
        then cleanup_and_stop false c
        else (let c2 = record c { dump_cur_block = block } in
            if done
            then cleanup_and_stop true c2
            else if stuck
            then cleanup_and_stop false c2
            else dump_read_next_chunk c2))
unfolding dump_read_next_chunk
walked-Keeps true done stuck block c = cleanup-Keeps 0 false c
walked-Keeps false true stuck block c = cleanup-Keeps 0 true (record c { dump_cur_block = block })
walked-Keeps false false true block c = cleanup-Keeps 0 false (record c { dump_cur_block = block })
walked-Keeps false false false block c =
    let c2 = record c { dump_cur_block = block } in
    read_or_stop-Keeps (block_offset c2 c2.dump_cur_block) c2.dump_write_chunk_bytes dump_chunk_read
      c2 refl refl

pub dump_chunk-Keeps : (success : Bool) (c : Ctx) → Keeps 0 c (dump_chunk_read_complete success c)
unfolding dump_chunk_read_complete print_records
dump_chunk-Keeps false c = cleanup-Keeps 0 false c
dump_chunk-Keeps true c =
    let w = dump_walk c in
    let c1 = print_records w.printed (record c { dump_records_seen = w.seen }) in
    walked-Keeps w.overrun (leb c1.dump_target_count c1.dump_records_seen) (w.offset == 0)
      (add64 c1.dump_cur_block c1.dump_write_chunk_blocks) c1

pub repaired-Keeps :
    (success : Bool) (c : Ctx) → Keeps 0 c (repair_chunk_bytes_write_complete success c)
unfolding repair_chunk_bytes_write_complete
repaired-Keeps success c = cleanup-Keeps 0 success c

started-Keeps :
    (empty : Bool) (block : ℕ) (c : Ctx)
    → Keeps 0 c (
        if empty
        then cleanup_and_stop true c
        else dump_read_next_chunk (record c { dump_cur_block = block }))
unfolding dump_read_next_chunk
started-Keeps true block c = cleanup-Keeps 0 true c
started-Keeps false block c =
    let c2 = record c { dump_cur_block = block } in
    read_or_stop-Keeps (block_offset c2 c2.dump_cur_block) c2.dump_write_chunk_bytes dump_chunk_read
      c2 refl refl

repair-Keeps : (c : Ctx) → Keeps 0 c (repair_chunk_bytes c)
unfolding repair_chunk_bytes
repair-Keeps c =
    submit-next-Keeps 0 _ (record c { io_buf = put_le 4 c.io_buf 32 c.opts.repair_chunk_bytes })
      (λ e x. cleanup_and_stop false x) refl (omega arith) (λ e x. cleanup-Keeps 0 false x)

found-Keeps : (s : Segment) (c : Ctx) → Keeps 0 c (dump_found_segment s c)
unfolding dump_found_segment
found-Keeps s c =
    let c1 =
      seed_dump s
        (record (print_line (segment_line (classify s) s) c) { segment_id = s.segment_id }) in
    if_cases (Keeps 0 c) (not (c.opts.repair_chunk_bytes == 0)) (λ h. repair-Keeps c)
      (λ h. started-Keeps (c1.dump_target_count == 0) s.start_block c1)

entry-Keeps :
    (v : View) (s : Segment) (c : Ctx)
    → Keeps 0 c (elim v [
      | not_found ↦ cleanup_and_stop false c
      | open_view ↦ cleanup_and_stop true (print_line (open_line s) c)
      | _ ↦ dump_found_segment s c
    ])
entry-Keeps not_found s c = cleanup-Keeps 0 false c
entry-Keeps open_view s c = cleanup-Keeps 0 true (print_line (open_line s) c)
entry-Keeps finalized s c = found-Keeps s c
entry-Keeps deleted s c = found-Keeps s c

pub dump_entry-Keeps :
    (success : Bool) (c : Ctx) → Keeps 0 c (dump_segment_entry_read_complete success c)
unfolding dump_segment_entry_read_complete
dump_entry-Keeps false c = cleanup-Keeps 0 false c
dump_entry-Keeps true c = entry-Keeps (classify (load_segment c.io_buf)) (load_segment c.io_buf) c

list_next-Keeps : (c : Ctx) → Keeps 0 c (list_read_next_chunk c)
unfolding list_read_next_chunk
list_next-Keeps c =
    if_cases (Keeps 0 c) (leb c.dump_target_count c.dump_records_seen) (λ h. cleanup-Keeps 0 true c)
      (λ h. read_or_stop-Keeps _ _ _ c refl refl)

pub list_chunk-Keeps : (success : Bool) (c : Ctx) → Keeps 0 c (list_chunk_read_complete success c)
unfolding list_chunk_read_complete
list_chunk-Keeps false c = cleanup-Keeps 0 false c
list_chunk-Keeps true c =
    let c1 = list_line (load_segment c.io_buf) c in
    Keeps-trans 0 c c1 (list_read_next_chunk (next_slot c1))
      (printed (classify (load_segment c.io_buf))) (list_next-Keeps (next_slot c1))
  where
    printed :
        (v : View)
        → Keeps 0 c (elim v [
          | not_found ↦ c
          | open_view ↦ print_line (open_line (load_segment c.io_buf)) c
          | v' ↦ print_line (segment_line v' (load_segment c.io_buf)) c
        ])
    printed not_found = Keeps-refl 0 c
    printed open_view = Keeps-refl 0 c
    printed finalized = Keeps-refl 0 c
    printed deleted = Keeps-refl 0 c

dump_start-Keeps : (c : Ctx) → Keeps 0 c (dump_start c)
unfolding dump_start list_start
dump_start-Keeps c =
    let c1 = seed_list c in
    if_cases (Keeps 0 c) (not c.opts.dump_segment_given)
      (λ h.
        if_cases (Keeps 0 c) (c1.dump_target_count == 0) (λ k. cleanup-Keeps 0 true c1)
          (λ k. list_next-Keeps c1))
      (λ h. read_or_stop-Keeps _ _ _ c refl refl)

checked-Keeps :
    (invalid other_size : Bool) (next : Ctx → Ctx) (v : Volume) (c : Ctx)
    → ((x : Ctx) → Keeps 0 x (next x))
    → Keeps 0 c (
        if invalid
        then fail_started c
        else (let c1 = record c { vol = v } in if other_size then fail_started c1 else next c1))
checked-Keeps true other_size next v c h = failed-Keeps 0 c
checked-Keeps false true next v c h = failed-Keeps 0 (record c { vol = v })
checked-Keeps false false next v c h = h (record c { vol = v })

take_header-Keeps :
    (next : Ctx → Ctx) (success : Bool) (c : Ctx)
    → ((x : Ctx) → Keeps 0 x (next x))
    → Keeps 0 c (take_header next success c)
unfolding take_header
take_header-Keeps next false c h = failed-Keeps 0 c
take_header-Keeps next true c h =
    let v = load_volume c.vol_buf in
    checked-Keeps (not (volume_header_is_valid v)) (not (v.block_size == c.block_size)) next v c h

pub header_read-Keeps :
    (success : Bool) (c : Ctx) → Keeps 0 c (volume_header_read_complete success c)
unfolding volume_header_read_complete
header_read-Keeps success c =
    take_header-Keeps _ success c
      (λ x. if_cases (Keeps 0 x) x.opts.dump_mode (λ h. dump_start-Keeps x) (λ h. claim-Keeps x))

finish_startup-Keeps : (c : Ctx) → Keeps 0 c (daemon_finish_startup c)
unfolding daemon_finish_startup chrono_admin_init
finish_startup-Keeps c =
    let c1 = record c { buffers = λ i. record (c.buffers i) { bytes = λ j. 0 } } in
    let c2 = record c1 { admin_req = zero_request } in
    let c3 = publish_volume c2 in
    if_cases (Keeps 0 c) (not c.sys.hw.write_buffers_allocate) (λ h. failed-Keeps 0 c)
      (λ h.
        if_cases (Keeps 0 c) (not c.sys.hw.admin_starts) (λ k. failed-Keeps 0 c2)
          (λ k.
            if_cases (Keeps 0 c) (not (c3.opts.web_port == 0) && not c3.sys.hw.web_starts) {y = c3}
              (λ l. failed-Keeps 0 c3) (λ l. Keeps-refl 0 c)))

pub daemon_header_read-Keeps :
    (success : Bool) (c : Ctx) → Keeps 0 c (daemon_volume_header_read_complete success c)
unfolding daemon_volume_header_read_complete
daemon_header_read-Keeps success c =
    take_header-Keeps daemon_finish_startup success c finish_startup-Keeps
