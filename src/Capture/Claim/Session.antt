-- ===== src/Capture/Claim/Session.antt =====
-- A claim in the daemon, from the request to the recording (src/main.c).
use chrontabulator.Base.{
  ◌+◌, ◌%◌, ◌^◌, ◌≡◌, refl, Bool, true, false, ◌&&◌, List, [], ◌∷◌, ◌++◌, if_false, if◌then◌else◌,
  add32, leb, arith,
}
use chrontabulator.Base.Mem.{fill}
use chrontabulator.Format.{
  segment_magic, segment_open, Segment, Volume, load_segment, load_volume, store_segment,
  store_volume,
}
use chrontabulator.Format.Segments.{
  SegmentFits, VolumeFits, load_volume-store_volume, load_segment-store_segment,
}
use chrontabulator.Ctx.{
  Ctx, ok, err, eio, Io, write_io, daemon_claim_toc_write, daemon_claim_header_write,
}
use chrontabulator.Ctx.Device.{
  accepting, submit, write_toc_slot, toc_offset, chrono_admin_fulfill, fulfill_request,
}
use chrontabulator.Capture.Finalize.{fill_io_buf}
use mathlib.Core.Path.{subst⁻¹}
use mathlib.Core.List.{append_assoc}
use chrontabulator.Capture.Claim.{
  daemon_claim_segment_start, daemon_claim_toc_write_complete, daemon_claim_header_write_complete,
  open_entry, take_segment, toc_full, claim_failed,
}

-- The claim with its writes accepted: the slot's completes, and if it succeeded the header's.
abbrev pub after_toc_write : Bool → Bool → Ctx → Ctx
after_toc_write toc_ok header_ok c =
    let c1 = daemon_claim_toc_write_complete toc_ok c in
    if toc_ok then daemon_claim_header_write_complete header_ok c1 else c1

abbrev pub claimed : Bool → Bool → Ctx → Ctx
claimed toc_ok header_ok c =
    after_toc_write toc_ok header_ok (daemon_claim_segment_start (accepting c))

-- The entry of the slot that is claimed, and the header behind it.
abbrev pub new_entry : Ctx → Segment
new_entry c = record {
  magic = segment_magic;
  segment_id = c.vol.next_segment_id;
  state = segment_open;
  start_block = c.vol.next_data_block;
  block_count = 0;
  write_chunk_bytes = c.buf_size;
  record_count = 0;
  dropped_count = 0;
  first_capture_tsc = 0;
  last_capture_tsc = 0;
  tsc_hz = 0;
  wall_clock_start_sec = c.sys.clock_sec;
  wall_clock_start_nsec = c.sys.clock_nsec % 2 ^ 32;
  wall_clock_end_sec = 0;
  wall_clock_end_nsec = 0;
}

abbrev pub new_header : Ctx → Volume
new_header c = record c.vol { next_segment_id = add32 c.vol.next_segment_id 1 }

abbrev pub claim_writes : Bool → Ctx → List Io
claim_writes toc_ok c =
    write_io (toc_offset c c.vol.next_segment_id) c.block_size
      (store_segment (fill c.io_buf 0 0 c.block_size) (new_entry c)) daemon_claim_toc_write
    ∷ (if toc_ok
        then write_io 0 c.block_size (store_volume (fill c.vol_buf 0 0 c.block_size) (new_header c))
            daemon_claim_header_write
          ∷ []
        else [])

-- What becomes of the claim `x`, by whether both writes have succeeded.
abbrev pub Outcome : Bool → Ctx → Ctx → Type 0
Outcome true c x =
    (x.recording ≡ true)
    × (x.current_segment_id ≡ c.vol.next_segment_id)
    × (x.next_write_block ≡ c.vol.next_data_block)
    × (x.record_count + x.dropped_count ≡ 0)
    × (x.admin_req ≡ fulfill_request ok c.admin_req)
Outcome false c x =
    (x.recording ≡ c.recording)
    × (x.current_segment_id ≡ c.current_segment_id)
    × (x.claim_in_progress ≡ false)
    × (x.admin_req ≡ fulfill_request (err eio) c.admin_req)

-- The claim up to its first write, once there is a free slot.
started : Ctx → Ctx
started c =
    let c1 = take_segment (record (accepting c) { claim_in_progress = true }) in
    (write_toc_slot c1.segment_id daemon_claim_toc_write (fill_io_buf (open_entry c1) c1)).1

daemon_claim_segment_start-started :
    (c : Ctx) → toc_full c ≡ false → daemon_claim_segment_start (accepting c) ≡ started c
unfolding daemon_claim_segment_start submit started toc_full
daemon_claim_segment_start-started c free =
    if_false (leb c.vol.toc_slot_count c.vol.next_segment_id) _ _ free

-- A claim that finds a free slot, and whose writes are accepted, writes the slot of the next id
-- first: it reads back as an open entry with that id, which starts where the data ends, now. If that
-- succeeds the volume header is written second, and reads back as the old one with the next id. If
-- both succeed the recording is on, in that segment, with the counters at zero and the writes
-- starting there, and the request is answered with success; if one fails, recording is as before,
-- no claim is under way, and the request is answered with an I/O error.
pub claimed_lem :
    (toc_ok header_ok : Bool) (c : Ctx)
    → toc_full c ≡ false
    → SegmentFits (new_entry c)
    → VolumeFits (new_header c)
    → (let x = claimed toc_ok header_ok c in
        (x.sys.inflight ≡ c.sys.inflight ++ claim_writes toc_ok c)
        × (load_segment x.io_buf ≡ new_entry c)
        × (toc_ok ≡ true → load_volume x.vol_buf ≡ new_header c)
        × Outcome (toc_ok && header_ok) c x)
unfolding started submit daemon_claim_toc_write_complete daemon_claim_header_write_complete
    chrono_admin_fulfill open_entry claim_failed
claimed_lem toc_ok header_ok c free fs fv =
    subst⁻¹ (λ (c1 : Ctx). Good toc_ok header_ok (after_toc_write toc_ok header_ok c1))
      (daemon_claim_segment_start-started c free) (by_results toc_ok header_ok)
  where
    Good : Bool → Bool → Ctx → Type 0
    Good toc_ok header_ok x =
        (x.sys.inflight ≡ c.sys.inflight ++ claim_writes toc_ok c)
        × (load_segment x.io_buf ≡ new_entry c)
        × (toc_ok ≡ true → load_volume x.vol_buf ≡ new_header c)
        × Outcome (toc_ok && header_ok) c x

    slot : load_segment (store_segment (fill c.io_buf 0 0 c.block_size) (new_entry c)) ≡ new_entry c
    slot = load_segment-store_segment (fill c.io_buf 0 0 c.block_size) (new_entry c) fs

    header :
        load_volume (store_volume (fill c.vol_buf 0 0 c.block_size) (new_header c)) ≡ new_header c
    header = load_volume-store_volume (fill c.vol_buf 0 0 c.block_size) (new_header c) fv

    by_results :
        (toc_ok header_ok : Bool)
        → Good toc_ok header_ok (after_toc_write toc_ok header_ok (started c))
    by_results true true = (
      append_assoc c.sys.inflight (_ ∷ []) (_ ∷ []),
      slot,
      (λ e. header),
      (refl, refl, refl, refl, refl),
    )
    by_results true false = (
      append_assoc c.sys.inflight (_ ∷ []) (_ ∷ []),
      slot,
      (λ e. header),
      (refl, refl, refl, refl),
    )
    by_results false true = (refl, slot, (λ e. absurd (ground arith)), (refl, refl, refl, refl))
    by_results false false = (refl, slot, (λ e. absurd (ground arith)), (refl, refl, refl, refl))
