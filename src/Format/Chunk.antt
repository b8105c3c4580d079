-- ===== src/Format/Chunk.antt =====
-- A write chunk: records back to back, then zeros. The writer is the tail of `capture_poll` and
-- the padding of `flush_buffer`; the reader is the loop that `dump_chunk_read_complete` runs over
-- each chunk (src/main.c).
pub mod Packed
pub mod RoundTrip
use chrontabulator.Base.{
  ℕ, zero, suc, ◌+◌, ◌-◌, Bool, true, false, not, ◌&&◌, ltb, leb, ◌==◌, if◌then◌else◌, List, [],
  ◌∷◌,
}
use chrontabulator.Base.Mem.{Mem, copy, fill}
use chrontabulator.Format.{RecordHdr, load_record, store_record, record_hdr_size, record_magic}

-- One record at `off`: its header, then `hdr.len` bytes from `payload + q`.
unfoldable pub put_record : Mem → ℕ → RecordHdr → Mem → ℕ → Mem
put_record m off hdr payload q =
    copy (store_record m off hdr) (off + record_hdr_size) payload q hdr.len

-- `if (wb->used < ctx->buf_size) memset(wb->data + wb->used, 0, ctx->buf_size - wb->used);`
unfoldable pub pad_chunk : Mem → ℕ → ℕ → Mem
pad_chunk m used size = if ltb used size then fill m used 0 (size - used) else m

-- Where the loop over one chunk stands: the offset, the records seen so far in the segment, what
-- was printed, and whether a record ran over the end of the chunk.
pub record Walk : Type 0 where
  pub offset : ℕ
  pub seen : ℕ
  pub printed : List RecordHdr
  pub overrun : Bool

abbrev pub walk_record : RecordHdr → Walk → Walk
walk_record h w = record {
  offset = w.offset;
  seen = w.seen;
  printed = h ∷ w.printed;
  overrun = w.overrun;
}

-- The `while` loop on fuel, from an offset and a count of records seen. A record takes at least
-- its header, so `size` rounds are enough.
unfoldable pub dump_loop : ℕ → Mem → ℕ → ℕ → ℕ → ℕ → Walk
dump_loop zero m size target offset seen = record {
  offset = offset;
  seen = seen;
  printed = [];
  overrun = false;
}
dump_loop (suc fuel) m size target offset seen =
    let hdr = load_record m offset in
    let next = offset + record_hdr_size + hdr.len in
    let stop : Walk = record { offset = offset; seen = seen; printed = []; overrun = false } in
    let rest = walk_record hdr (dump_loop fuel m size target next (seen + 1)) in
    if not (leb (offset + record_hdr_size) size && ltb seen target)
    then stop
    else if not (hdr.magic == record_magic)
    then stop
    else if ltb size next
    then record stop { overrun = true }
    else rest
