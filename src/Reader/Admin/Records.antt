-- ===== src/Reader/Admin/Records.antt =====
-- src/chrono_admin.c: SEGMENT_RECORDS, the scan over a segment's chunks.
use chrontabulator.Base.{
  ℕ, zero, suc, ◌+◌, Bool, true, false, not, ◌&&◌, ◌||◌, List, [], ◌∷◌, ◌++◌, none, some, ltb, leb,
  ◌==◌, if◌then◌else◌, add64,
}
use chrontabulator.Base.Mem.{Mem}
use chrontabulator.Format.{
  Segment, RecordHdr, load_segment, load_record, record_hdr_size, record_magic,
}
use chrontabulator.Format.Segments.{not_found, open_view, classify}
use chrontabulator.Ctx.{
  ok, err, eio, enoent, eagain, read_io, io_target, admin_records_entry_read,
  admin_records_chunk_read, Item, records_start, record_item, records_end, Ctx,
}
use chrontabulator.Ctx.Device.{submit, chrono_admin_fulfill, respond, block_offset, toc_offset}
use chrontabulator.Reader.Dump.{seed_dump}
use chrontabulator.Reader.Admin.Entries.{read_or_fulfill, set_collected}

-- `CHRONO_RECORDS_LIMIT_MAX`, `CHRONO_RECORDS_LIMIT_DEFAULT`
abbrev pub records_limit_max : ℕ
records_limit_max = 2000

abbrev pub records_limit_default : ℕ
records_limit_default = 500

-- Where the loop over one chunk stands.
pub record Scan : Type 0 where
  pub offset : ℕ
  pub seen : ℕ
  pub collected : ℕ
  pub items : List Item
  pub overrun : Bool

-- The payload goes along when one record is asked for.
abbrev pub record_piece : ℕ → Mem → ℕ → RecordHdr → Item
record_piece limit m off hdr =
    record_item hdr (if limit == 1 then some (λ i. m (off + record_hdr_size + i)) else none)

abbrev pub scan_item : Item → Scan → Scan
scan_item i s = record s { items = i ∷ s.items }

-- The `while` loop on fuel; `from` and `limit` are `req_offset` and `req_limit`.
unfoldable pub scan_loop : ℕ → Mem → ℕ → ℕ → ℕ → ℕ → ℕ → ℕ → ℕ → Scan
scan_loop zero m size target from limit offset seen collected = record {
  offset = offset;
  seen = seen;
  collected = collected;
  items = [];
  overrun = false;
}
scan_loop (suc fuel) m size target from limit offset seen collected =
    let hdr = load_record m offset in
    let next = offset + record_hdr_size + hdr.len in
    let stop : Scan = record {
      offset = offset;
      seen = seen;
      collected = collected;
      items = [];
      overrun = false;
    } in
    let skip = scan_loop fuel m size target from limit next (seen + 1) collected in
    let take =
      scan_item (record_piece limit m offset hdr)
        (scan_loop fuel m size target from limit next (seen + 1) (collected + 1)) in
    if not (leb (offset + record_hdr_size) size && (ltb seen target && ltb collected limit))
    then stop
    else if not (hdr.magic == record_magic)
    then stop
    else if ltb size next
    then record stop { overrun = true }
    else if leb from seen
    then take
    else skip

unfoldable pub admin_records_read_next_chunk : Ctx → Ctx
admin_records_read_next_chunk c =
    let req = c.admin_req in
    if leb c.dump_target_count c.dump_records_seen || leb req.req_limit req.scan_collected
    then chrono_admin_fulfill ok (
        respond
          (records_end c.dump_target_count req.req_offset req.req_limit req.scan_collected
            (ltb c.dump_records_seen c.dump_target_count))
          c)
    else (let (rc, c1) =
          submit
            (read_io (block_offset c c.dump_cur_block) c.dump_write_chunk_bytes io_target
              admin_records_chunk_read)
            c in
        elim rc [
          | ok ↦ record c1 { dump_cur_block = add64 c1.dump_cur_block c1.dump_write_chunk_blocks }
          | err e ↦ chrono_admin_fulfill (err e) c1
        ])

unfoldable pub records_scan : Ctx → Scan
records_scan c =
    scan_loop (c.dump_write_chunk_bytes + 1) c.io_buf c.dump_write_chunk_bytes c.dump_target_count
      c.admin_req.req_offset c.admin_req.req_limit 0 c.dump_records_seen c.admin_req.scan_collected

abbrev pub take_scan : Scan → Ctx → Ctx
take_scan s c = record c {
  dump_records_seen = s.seen;
  admin_req = record c.admin_req {
    scan_collected = s.collected;
    resp = c.admin_req.resp ++ s.items;
  };
}

unfoldable pub admin_records_chunk_read_complete : Bool → Ctx → Ctx
admin_records_chunk_read_complete success c =
    if not success
    then chrono_admin_fulfill (err eio) c
    else (let s = records_scan c in
        let c1 = take_scan s c in
        if s.overrun
        then chrono_admin_fulfill (err eio) c1
        else if s.offset == 0
            && (ltb c1.dump_records_seen c1.dump_target_count
                && ltb c1.admin_req.scan_collected c1.admin_req.req_limit)
        then chrono_admin_fulfill (err eio) c1
        else admin_records_read_next_chunk c1)

abbrev pub clamp_limit : Ctx → Ctx
clamp_limit c =
    if c.admin_req.req_limit == 0 || ltb records_limit_max c.admin_req.req_limit
    then record c { admin_req = record c.admin_req { req_limit = records_limit_default } }
    else c

unfoldable pub start_records : Segment → Ctx → Ctx
start_records s c =
    let c1 = respond (records_start s.segment_id) (clamp_limit c) in
    let c2 =
      set_collected 0
        (record (seed_dump s c1) { dump_cur_block = s.start_block; dump_records_seen = 0 }) in
    let req = c2.admin_req in
    if c2.dump_target_count == 0 || leb c2.dump_target_count req.req_offset
    then chrono_admin_fulfill ok
        (respond (records_end c2.dump_target_count req.req_offset req.req_limit 0 false) c2)
    else admin_records_read_next_chunk c2

unfoldable pub admin_records_entry_read_complete : Bool → Ctx → Ctx
admin_records_entry_read_complete success c =
    if not success
    then chrono_admin_fulfill (err eio) c
    else (let s = load_segment c.io_buf in
        elim (classify s) [
          | not_found ↦ chrono_admin_fulfill (err enoent) c
          | open_view ↦ chrono_admin_fulfill (err eagain) c
          | _ ↦ start_records s c
        ])

unfoldable pub admin_do_segment_records : Ctx → Ctx
admin_do_segment_records c =
    read_or_fulfill (toc_offset c c.admin_req.req_segment_id) c.block_size admin_records_entry_read
      c
