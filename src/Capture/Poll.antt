-- ===== src/Capture/Poll.antt =====
-- src/main.c: `capture_poll`, one packet at a time. The responder and the receive ring are
-- parameters: what a burst holds, and whether the responder took a packet.
pub mod Records
pub mod Append
use chrontabulator.Base.{
  ℕ, zero, suc, ◌+◌, ◌-◌, ◌%◌, ◌^◌, Bool, true, false, not, ◌&&◌, ◌||◌, Option, none, some, List,
  [], ◌∷◌, ltb, leb, ◌==◌, if◌then◌else◌, add64, add32,
}
use chrontabulator.Base.Mem.{Mem}
use chrontabulator.Wire.Frame.{Parsed, app_parse_packet}
use chrontabulator.Format.{RecordHdr, record_magic, record_hdr_size}
use chrontabulator.Format.Chunk.{put_record}
use chrontabulator.Ctx.{stop_disk_full, stop_count_limit, WriteBuf, Ctx}
use chrontabulator.Ctx.Device.{set_buffer}
use chrontabulator.Capture.Buffers.{flush_buffer, stop_capture, past_end}

-- A received packet: the bytes that `rte_pktmbuf_mtod` points at, its `pkt_len`, and whether
-- `net_responder_try_handle` took it.
pub record Packet : Type 0 where
  pub bytes : Mem
  pub pkt_len : ℕ
  pub answered : Bool

abbrev pub count_drop : Ctx → Ctx
count_drop c = record c { dropped_count = add64 c.dropped_count 1 }

-- `app_parse_packet(…) == 0 && dst_port == ctx->opts.udp_port`
unfoldable pub our_packet : Ctx → Packet → Option Parsed
our_packet c p = elim (app_parse_packet p.bytes p.pkt_len c.wire_has_seq) [
  | none ↦ none
  | some r ↦ if r.dst_port == c.opts.udp_port then some r else none
]

-- `(uint32_t)sizeof(struct chrono_record_hdr) + payload_len`
abbrev pub rec_size : Parsed → ℕ
rec_size r = add32 record_hdr_size r.payload_len

abbrev pub captured_hdr : ℕ → ℕ → Parsed → RecordHdr
captured_hdr seq now r = record {
  magic = record_magic;
  seq = seq;
  capture_tsc = now;
  len = r.payload_len;
  reserved = 0;
}

-- The record into the current buffer, and the counters.
unfoldable pub append_record : ℕ → Packet → Parsed → Ctx → Ctx
append_record now p r c =
    let wb = c.buffers c.cur_buf in
    let wb' = record wb {
      bytes = put_record wb.bytes wb.used (captured_hdr c.record_count now r) p.bytes r.payload;
      used = add32 wb.used (rec_size r);
    } in
    record (set_buffer c.cur_buf wb' c) {
      record_count = add64 c.record_count 1;
      first_capture_tsc = if c.first_capture_tsc == 0 then now else c.first_capture_tsc;
      last_capture_tsc = now;
    }

-- Whether the rest of the burst is looked at.
pub data Next : Type 0 where
  go_on leave : Next

-- `if (ctx->opts.count_limit != 0 && new_count >= ctx->opts.count_limit)`
unfoldable pub check_count_limit : Ctx → Next × Ctx
check_count_limit c =
    if not (c.opts.count_limit == 0) && leb c.opts.count_limit c.record_count
    then (leave, stop_capture (record c { last_stop_reason = stop_count_limit }))
    else (go_on, c)

unfoldable pub store_packet : ℕ → Packet → Parsed → Ctx → Next × Ctx
store_packet now p r c = check_count_limit (append_record now p r c)

-- The flushed context, with the next buffer current.
unfoldable pub next_buffer : Ctx → Ctx
next_buffer c =
    let c1 = flush_buffer stop_capture c.cur_buf c in
    record c1 { cur_buf = (c1.cur_buf + 1) % c1.write_buf_count }

-- A packet of ours while recording.
unfoldable pub record_packet : ℕ → Packet → Parsed → Ctx → Next × Ctx
record_packet now p r c =
    let wb = c.buffers c.cur_buf in
    if wb.in_flight
    then (go_on, count_drop c)
    else if leb (add32 wb.used (rec_size r)) c.buf_size
    then store_packet now p r c
    else if past_end c c.next_write_block
    then (leave, stop_capture (count_drop (record c { last_stop_reason = stop_disk_full })))
    else (let c1 = next_buffer c in
        if (c1.buffers c1.cur_buf).in_flight || ltb c1.buf_size (rec_size r)
        then (go_on, count_drop c1)
        else store_packet now p r c1)

-- `serve_mode` and not recording: the packet is dropped uncounted.
unfoldable pub idle : Ctx → Bool
idle c = c.opts.serve_mode && (c.stopping || not c.recording)

unfoldable pub poll_packet : ℕ → Packet → Ctx → Next × Ctx
poll_packet now p c =
    if p.answered || idle c
    then (go_on, c)
    else elim (our_packet c p) [ none ↦ (go_on, c) | some r ↦ record_packet now p r c ]

-- The loop over a burst; `now` is the one reading of the time-stamp counter.
unfoldable pub poll_burst : ℕ → List Packet → Ctx → Ctx
poll_burst now [] c = c
poll_burst now (p ∷ ps) c =
    let (n, c1) = poll_packet now p c in
    let rest = poll_burst now ps c1 in elim n [ go_on ↦ rest | leave ↦ c1 ]
