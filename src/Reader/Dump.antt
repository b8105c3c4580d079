-- ===== src/Reader/Dump.antt =====
-- src/main.c: `-D`, the listing of segments, and `-D -S`, the dump of one segment's records or the
-- repair of its chunk size. The lengths of reads are the segment's own chunk size.
use chrontabulator.Base.{
  ℕ, ◌+◌, ◌/◌, Bool, true, false, not, List, ◌++◌, map, leb, ◌==◌, if◌then◌else◌, add64,
}
use chrontabulator.Base.Mem.{put_le}
use chrontabulator.Format.{Segment, RecordHdr, load_segment}
use chrontabulator.Format.Segments.{not_found, open_view, classify}
use chrontabulator.Format.Chunk.{Walk, dump_loop}
use chrontabulator.Ctx.{
  ok, err, read_io, io_target, Callback, dump_chunk_read, repair_chunk_bytes_write,
  dump_segment_entry_read, list_chunk_read, segment_line, open_line, record_line, Ctx,
}
use chrontabulator.Ctx.Device.{
  submit, cleanup_and_stop, print_line, block_offset, toc_offset, write_toc_slot,
}

-- A read into `io_buf`; a refusal ends the program.
abbrev pub read_or_stop : ℕ → ℕ → Callback → Ctx → Ctx
read_or_stop offset len cb c =
    let (rc, c1) = submit (read_io offset len io_target cb) c in
    elim rc [ ok ↦ c1 | err e ↦ cleanup_and_stop false c1 ]

unfoldable pub dump_read_next_chunk : Ctx → Ctx
dump_read_next_chunk c =
    read_or_stop (block_offset c c.dump_cur_block) c.dump_write_chunk_bytes dump_chunk_read c

unfoldable pub print_records : List RecordHdr → Ctx → Ctx
print_records hs c = record c {
  sys = record c.sys { printed = c.sys.printed ++ map record_line hs };
}

-- The loop over the chunk that was read.
unfoldable pub dump_walk : Ctx → Walk
dump_walk c =
    dump_loop (c.dump_write_chunk_bytes + 1) c.io_buf c.dump_write_chunk_bytes c.dump_target_count 0
      c.dump_records_seen

unfoldable pub dump_chunk_read_complete : Bool → Ctx → Ctx
dump_chunk_read_complete success c =
    if not success
    then cleanup_and_stop false c
    else (let w = dump_walk c in
        let c1 = print_records w.printed (record c { dump_records_seen = w.seen }) in
        if w.overrun
        then cleanup_and_stop false c1
        else (let c2 = record c1 {
          dump_cur_block = add64 c1.dump_cur_block c1.dump_write_chunk_blocks;
        } in
            if leb c2.dump_target_count c2.dump_records_seen
            then cleanup_and_stop true c2
            else if w.offset == 0
            then cleanup_and_stop false c2
            else dump_read_next_chunk c2))

unfoldable pub repair_chunk_bytes_write_complete : Bool → Ctx → Ctx
repair_chunk_bytes_write_complete success c = cleanup_and_stop success c

-- `seg->write_chunk_bytes = …`: the field at byte 32 of the entry in `io_buf`.
unfoldable pub repair_chunk_bytes : Ctx → Ctx
repair_chunk_bytes c =
    let c1 = record c { io_buf = put_le 4 c.io_buf 32 c.opts.repair_chunk_bytes } in
    let (rc, c2) = write_toc_slot c1.opts.dump_segment_id repair_chunk_bytes_write c1 in
    elim rc [ ok ↦ c2 | err e ↦ cleanup_and_stop false c2 ]

-- What a reader takes from a segment's entry: 0 for the chunk size stands for the reader's own.
abbrev pub seed_dump : Segment → Ctx → Ctx
seed_dump s c =
    let bytes = if s.write_chunk_bytes == 0 then c.buf_size else s.write_chunk_bytes in
    record c {
      dump_target_count = s.record_count;
      dump_first_capture_tsc = s.first_capture_tsc;
      dump_tsc_hz = s.tsc_hz;
      dump_write_chunk_bytes = bytes;
      dump_write_chunk_blocks = bytes / c.block_size;
    }

unfoldable pub dump_found_segment : Segment → Ctx → Ctx
dump_found_segment s c =
    if not (c.opts.repair_chunk_bytes == 0)
    then repair_chunk_bytes c
    else (let c1 =
          seed_dump s
            (record (print_line (segment_line (classify s) s) c) { segment_id = s.segment_id }) in
        if c1.dump_target_count == 0
        then cleanup_and_stop true c1
        else dump_read_next_chunk (record c1 { dump_cur_block = s.start_block }))

unfoldable pub dump_segment_entry_read_complete : Bool → Ctx → Ctx
dump_segment_entry_read_complete success c =
    if not success
    then cleanup_and_stop false c
    else (let s = load_segment c.io_buf in
        elim (classify s) [
          | not_found ↦ cleanup_and_stop false c
          | open_view ↦ cleanup_and_stop true (print_line (open_line s) c)
          | _ ↦ dump_found_segment s c
        ])

unfoldable pub list_read_next_chunk : Ctx → Ctx
list_read_next_chunk c =
    if leb c.dump_target_count c.dump_records_seen
    then cleanup_and_stop true c
    else read_or_stop (block_offset c c.dump_cur_block) c.block_size list_chunk_read c

abbrev pub list_line : Segment → Ctx → Ctx
list_line s c = elim (classify s) [
  | not_found ↦ c
  | open_view ↦ print_line (open_line s) c
  | v ↦ print_line (segment_line v s) c
]

-- One slot further.
abbrev pub next_slot : Ctx → Ctx
next_slot c = record c {
  dump_records_seen = add64 c.dump_records_seen 1;
  dump_cur_block = add64 c.dump_cur_block 1;
}

unfoldable pub list_chunk_read_complete : Bool → Ctx → Ctx
list_chunk_read_complete success c =
    if not success
    then cleanup_and_stop false c
    else list_read_next_chunk (next_slot (list_line (load_segment c.io_buf) c))

abbrev pub seed_list : Ctx → Ctx
seed_list c = record c {
  dump_cur_block = c.vol.toc_start_block;
  dump_records_seen = 0;
  dump_target_count = c.vol.next_segment_id;
}

unfoldable pub list_start : Ctx → Ctx
list_start c =
    let c1 = seed_list c in
    if c1.dump_target_count == 0 then cleanup_and_stop true c1 else list_read_next_chunk c1

unfoldable pub dump_start : Ctx → Ctx
dump_start c =
    if not c.opts.dump_segment_given
    then list_start c
    else read_or_stop (toc_offset c c.opts.dump_segment_id) c.block_size dump_segment_entry_read c
