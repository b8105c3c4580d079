-- ===== src/Tests/CaptureTests.antt =====
-- The capture path on concrete inputs.
use chrontabulator.Volume.Init.{fresh_volume}
use chrontabulator.Base.{suc, ◌≡◌, refl, true, false, List, [], ◌∷◌, ◌++◌, add64, ltb, arith}
use chrontabulator.Wire.Frame.{Parsed}
use chrontabulator.Format.{load_volume, load_segment}
use chrontabulator.Format.Segments.{VolumeFits, SegmentFits}
use chrontabulator.Format.Chunk.{pad_chunk, dump_loop}
use chrontabulator.Format.Chunk.Packed.{Entry, entry_of, Packed}
use chrontabulator.Ctx.{Ctx, write_io, write_complete}
use chrontabulator.Ctx.Device.{block_offset}
use chrontabulator.Capture.Buffers.{flush_buffer, stop_capture, stop_on}
use chrontabulator.Capture.Buffers.Stop.{stop_capture-stop_on}
use chrontabulator.Capture.Buffers.Flush.{Holds, flush_buffer-reads_back}
use chrontabulator.Capture.Poll.{Packet, append_record, captured_hdr, record_packet, poll_burst}
use chrontabulator.Capture.Poll.Append.{append_record-Holds}
use chrontabulator.Capture.Poll.Records.{accounted, record_packet-accounted, poll_burst-in_flight}
use chrontabulator.Capture.Claim.{fresh_buffer, open_entry, toc_full, daemon_claim_segment_start}
use chrontabulator.Capture.Claim.Session.{
  new_entry, new_header, claim_writes, Outcome, claimed, claimed_lem,
}
use chrontabulator.Capture.Finalize.{finalized_entry}
use chrontabulator.Capture.Finalize.Chain.{closing_header, entry_of_recording, closed, closed_lem}
use chrontabulator.Capture.Claim.Successive.{daemon_claim_segment_start-closed}
use chrontabulator.Tests.Data.{recording_ctx}
use chrontabulator.Tests.FormatTests.{recorded-SegmentFits}

abbrev packet : Packet
packet = record { bytes = λ i. 65; pkt_len = 60; answered = false }

abbrev parsed : Parsed
parsed = record { dst_port = 5005; seq = 0; payload = 42; payload_len = 18 }

abbrev captured : Ctx
captured = append_record 900 packet parsed recording_ctx

abbrev one_record : List Entry
one_record = entry_of (captured_hdr 0 900 parsed) packet.bytes 42 ∷ []

append_record-Holds_example :
    Holds (captured.buffers captured.cur_buf) captured.buf_size one_record
    × (captured.record_count ≡ 1)
append_record-Holds_example =
    append_record-Holds 900 packet parsed recording_ctx []
      (record { packed = (unfold Packed in refl); bounded = (omega arith) }) (omega arith)
      (omega arith) (omega arith) (omega arith)

flush_buffer-reads_back_example :
    let chunk = pad_chunk (captured.buffers 0).bytes (captured.buffers 0).used captured.buf_size in
    let c' = flush_buffer stop_capture 0 captured in
    (c'.sys.inflight
      ≡ captured.sys.inflight
        ++ write_io
            (block_offset captured captured.next_write_block)
            captured.buf_size
            chunk
            (write_complete 0)
          ∷ [])
    × (dump_loop (suc captured.buf_size) chunk captured.buf_size 1 0 0 ≡ record {
      offset = (captured.buffers 0).used;
      seen = 1;
      printed = captured_hdr 0 900 parsed ∷ [];
      overrun = false;
    })
    × (c'.next_write_block ≡ add64 captured.next_write_block captured.buf_size_blocks)
unfolding append_record
flush_buffer-reads_back_example =
    flush_buffer-reads_back 0 captured one_record 0 1 append_record-Holds_example.0 (omega arith)
      refl refl (omega arith)

record_packet-accounted_example : accounted (record_packet 900 packet parsed recording_ctx).1 ≡ 1
record_packet-accounted_example =
    record_packet-accounted 900 packet parsed recording_ctx (omega arith)

-- Buffer 1 is still being written.
abbrev writing : Ctx
writing = record recording_ctx {
  buffers = λ i. record fresh_buffer { in_flight = ltb 0 i; used = i };
}

poll_burst-in_flight_example :
    (poll_burst 900 (packet ∷ packet ∷ []) writing).buffers 1 ≡ writing.buffers 1
poll_burst-in_flight_example = poll_burst-in_flight 900 (packet ∷ packet ∷ []) 1 writing refl

stop_capture-stop_on_example : stop_on 7 captured ≡ stop_capture captured
stop_capture-stop_on_example = stop_capture-stop_on 6 captured

closing-VolumeFits : VolumeFits (closing_header recording_ctx)
unfolding fresh_volume
closing-VolumeFits = (
  omega arith,
  (
    omega arith,
    (
      omega arith,
      (
        omega arith,
        (
          omega arith,
          (
            omega arith,
            (
              omega arith,
              (
                omega arith,
                (omega arith, (omega arith, (omega arith, (omega arith, (omega arith, (tt)))))),
              ),
            ),
          ),
        ),
      ),
    ),
  ),
)

claiming-VolumeFits : VolumeFits (new_header recording_ctx)
unfolding fresh_volume
claiming-VolumeFits = (
  omega arith,
  (
    omega arith,
    (
      omega arith,
      (
        omega arith,
        (
          omega arith,
          (
            omega arith,
            (
              omega arith,
              (
                omega arith,
                (omega arith, (omega arith, (omega arith, (omega arith, (omega arith, (tt)))))),
              ),
            ),
          ),
        ),
      ),
    ),
  ),
)

claiming-SegmentFits : SegmentFits (new_entry recording_ctx)
unfolding fresh_volume
claiming-SegmentFits = (
  omega arith,
  (
    omega arith,
    (
      omega arith,
      (
        omega arith,
        (
          omega arith,
          (
            omega arith,
            (
              omega arith,
              (
                omega arith,
                (
                  omega arith,
                  (
                    omega arith,
                    (omega arith, (omega arith, (omega arith, (omega arith, (omega arith, (tt)))))),
                  ),
                ),
              ),
            ),
          ),
        ),
      ),
    ),
  ),
)

free_slot : toc_full recording_ctx ≡ false
unfolding toc_full fresh_volume
free_slot = refl

closed_lem_example :
    load_segment (closed false true recording_ctx).io_buf ≡ entry_of_recording recording_ctx
closed_lem_example =
    (closed_lem false true recording_ctx refl recorded-SegmentFits closing-VolumeFits).2

claimed_lem_example :
    let x = claimed true false recording_ctx in
    (x.sys.inflight ≡ recording_ctx.sys.inflight ++ claim_writes true recording_ctx)
    × (load_segment x.io_buf ≡ new_entry recording_ctx)
    × (true ≡ true → load_volume x.vol_buf ≡ new_header recording_ctx)
    × Outcome false recording_ctx x
claimed_lem_example =
    claimed_lem true false recording_ctx free_slot claiming-SegmentFits claiming-VolumeFits

-- One chunk of eight blocks has been written.
abbrev one_chunk : Ctx
one_chunk = record recording_ctx { next_write_block = 4105 }

daemon_claim_segment_start-closed_example :
    let after = open_entry (daemon_claim_segment_start (closed true true one_chunk)) in
    (after.segment_id ≡ 1) × (after.start_block ≡ 4105)
unfolding fresh_volume finalized_entry
daemon_claim_segment_start-closed_example =
    daemon_claim_segment_start-closed true true one_chunk refl (omega arith) (omega arith) refl
      (omega arith)
