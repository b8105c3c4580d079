-- ===== src/Capture/Finalize/Chain.antt =====
-- Closing a segment (src/main.c): what is written, and in which order.
use mathlib.Core.List.{append_assoc}
use mathlib.Core.Path.{subst⁻¹}
use chrontabulator.Base.{
  ◌%◌, ◌^◌, sub64, ◌≡◌, refl, ap, ◌∙◌, Bool, true, false, List, [], ◌∷◌, ◌++◌, if_false,
  if◌then◌else◌,
}
use chrontabulator.Base.Mem.{fill}
use chrontabulator.Format.{
  Volume, Segment, segment_magic, segment_finalized, load_segment, load_volume, store_segment,
  store_volume,
}
use chrontabulator.Format.Segments.{
  SegmentFits, VolumeFits, load_volume-store_volume, load_segment-store_segment, classify,
  finalized,
}
use chrontabulator.Ctx.{
  Ctx, no_segment, Rc, ok, err, eio, Io, write_io, daemon_finalize_toc_write,
  daemon_finalize_header_write,
}
use chrontabulator.Ctx.Device.{accepting, submit, toc_offset, chrono_admin_fulfill, fulfill_request}
use chrontabulator.Capture.Finalize.{
  daemon_finalize_segment, daemon_finalize_header_write_complete,
  daemon_finalize_toc_write_complete, finalized_entry,
}

-- A daemon's finalize up to its second write, and with that completed.
abbrev closing : Bool → Ctx → Ctx
closing header_ok c =
    daemon_finalize_header_write_complete header_ok (daemon_finalize_segment (accepting c))

abbrev pub closed : Bool → Bool → Ctx → Ctx
closed header_ok toc_ok c = daemon_finalize_toc_write_complete toc_ok (closing header_ok c)

abbrev pub closing_header : Ctx → Volume
closing_header c = record c.vol { next_data_block = c.next_write_block }

-- The entry that is to stand in the slot.
abbrev pub entry_of_recording : Ctx → Segment
entry_of_recording c = record {
  magic = segment_magic;
  segment_id = c.segment_id;
  state = segment_finalized;
  start_block = c.segment_start_block;
  block_count = sub64 c.next_write_block c.segment_start_block;
  write_chunk_bytes = c.buf_size;
  record_count = c.record_count;
  dropped_count = c.dropped_count;
  first_capture_tsc = c.first_capture_tsc;
  last_capture_tsc = c.last_capture_tsc;
  tsc_hz = c.sys.tsc_hz;
  wall_clock_start_sec = c.segment_wall_start_sec;
  wall_clock_start_nsec = c.segment_wall_start_nsec;
  wall_clock_end_sec = c.sys.clock_sec;
  wall_clock_end_nsec = c.sys.clock_nsec % 2 ^ 32;
}

abbrev closing_writes : Ctx → List Io
closing_writes c =
    write_io 0 c.block_size (store_volume (fill c.vol_buf 0 0 c.block_size) (closing_header c))
      daemon_finalize_header_write
    ∷ write_io (toc_offset c c.segment_id) c.block_size
        (store_segment (fill c.io_buf 0 0 c.block_size) (entry_of_recording c))
        daemon_finalize_toc_write
    ∷ []

abbrev pub answer : Bool → Rc
answer success = if success then ok else err eio

stopped : Bool → Ctx → Ctx
stopped toc_ok c =
    chrono_admin_fulfill (answer toc_ok)
      (record c { recording = false; current_segment_id = no_segment })

toc_write-stopped :
    (toc_ok : Bool) (c : Ctx)
    → c.shutting_down ≡ false
    → daemon_finalize_toc_write_complete toc_ok c ≡ stopped toc_ok c
unfolding daemon_finalize_toc_write_complete stopped
toc_write-stopped toc_ok c idle = if_false c.shutting_down _ _ idle

-- Closing a segment while the program is not shutting down, with both writes accepted: the volume
-- header is written first and the segment's slot second, whether the header's write then succeeded
-- or not. The header reads back with the new end of the data; the slot reads back as the entry
-- of the recording (its id, where it starts and how far it goes, the chunk size, the counts of
-- records and drops and the times), and is classified as finalized. After that nothing is
-- being recorded, and the pending request is answered with the result of the slot's write.
pub closed_lem :
    (header_ok toc_ok : Bool) (c : Ctx)
    → c.shutting_down ≡ false
    → SegmentFits (entry_of_recording c)
    → VolumeFits (closing_header c)
    → ((closed header_ok toc_ok c).sys.inflight ≡ c.sys.inflight ++ closing_writes c)
      × (load_volume (closed header_ok toc_ok c).vol_buf ≡ closing_header c)
      × (load_segment (closed header_ok toc_ok c).io_buf ≡ entry_of_recording c)
      × (classify (load_segment (closed header_ok toc_ok c).io_buf) ≡ finalized)
      × ((closed header_ok toc_ok c).recording ≡ false)
      × ((closed header_ok toc_ok c).admin_req ≡ fulfill_request (answer toc_ok) c.admin_req)
unfolding daemon_finalize_segment daemon_finalize_header_write_complete submit chrono_admin_fulfill
    stopped finalized_entry
closed_lem header_ok toc_ok c idle fs fv = cases header_ok
  where
    read :
        load_segment (store_segment (fill c.io_buf 0 0 c.block_size) (entry_of_recording c))
        ≡ entry_of_recording c
    read = load_segment-store_segment (fill c.io_buf 0 0 c.block_size) (entry_of_recording c) fs

    Good : Ctx → Type 0
    Good x =
        (x.sys.inflight ≡ c.sys.inflight ++ closing_writes c)
        × (load_volume x.vol_buf ≡ closing_header c)
        × (load_segment x.io_buf ≡ entry_of_recording c)
        × (classify (load_segment x.io_buf) ≡ finalized)
        × (x.recording ≡ false)
        × (x.admin_req ≡ fulfill_request (answer toc_ok) c.admin_req)

    cases : (header_ok : Bool) → Good (closed header_ok toc_ok c)
    cases true = subst⁻¹ Good (toc_write-stopped toc_ok (closing true c) idle) (
      append_assoc c.sys.inflight (_ ∷ []) (_ ∷ []),
      load_volume-store_volume (fill c.vol_buf 0 0 c.block_size) (closing_header c) fv,
      read,
      ap classify read ∙ (unfold classify in refl),
      refl,
      refl,
    )
    cases false = subst⁻¹ Good (toc_write-stopped toc_ok (closing false c) idle) (
      append_assoc c.sys.inflight (_ ∷ []) (_ ∷ []),
      load_volume-store_volume (fill c.vol_buf 0 0 c.block_size) (closing_header c) fv,
      read,
      ap classify read ∙ (unfold classify in refl),
      refl,
      refl,
    )

pub closed-vol :
    (header_ok toc_ok : Bool) (c : Ctx)
    → c.shutting_down ≡ false
    → (closed header_ok toc_ok c).vol ≡ closing_header c
unfolding daemon_finalize_segment daemon_finalize_header_write_complete submit chrono_admin_fulfill
    stopped
closed-vol true toc_ok c idle =
    ap (λ (x : Ctx). x.vol) (toc_write-stopped toc_ok (closing true c) idle)
closed-vol false toc_ok c idle =
    ap (λ (x : Ctx). x.vol) (toc_write-stopped toc_ok (closing false c) idle)
