-- ===== src/Capture/Claim.antt =====
-- src/main.c: claiming a segment. The slot in the table of contents is written first, then the
-- volume header with the next id.
pub mod Session
pub mod Successive
use chrontabulator.Base.{
  ℕ, ◌+◌, ◌%◌, ◌^◌, Bool, true, false, not, ltb, leb, ◌==◌, if◌then◌else◌, add32,
}
use chrontabulator.Base.Mem.{Mem}
use chrontabulator.Format.{Volume, Segment, segment_magic, segment_open}
use chrontabulator.Ctx.{
  Rc, ok, err, eio, enospc, stop_none, claim_toc_write, claim_header_write, daemon_claim_toc_write,
  daemon_claim_header_write, WriteBuf, Ctx, max_write_buffers,
}
use chrontabulator.Ctx.Device.{
  fail_started, chrono_admin_fulfill, fill_vol_buf, write_header, write_toc_slot,
}
use chrontabulator.Capture.Finalize.{fill_io_buf}

unfoldable pub open_entry : Ctx → Segment
open_entry c = record {
  magic = segment_magic;
  segment_id = c.segment_id;
  state = segment_open;
  start_block = c.segment_start_block;
  block_count = 0;
  write_chunk_bytes = c.buf_size;
  record_count = 0;
  dropped_count = 0;
  first_capture_tsc = 0;
  last_capture_tsc = 0;
  tsc_hz = 0;
  wall_clock_start_sec = c.segment_wall_start_sec;
  wall_clock_start_nsec = c.segment_wall_start_nsec;
  wall_clock_end_sec = 0;
  wall_clock_end_nsec = 0;
}

-- `ctx->vol.next_segment_id >= ctx->vol.toc_slot_count`
unfoldable pub toc_full : Ctx → Bool
toc_full c = leb c.vol.toc_slot_count c.vol.next_segment_id

-- The segment that is claimed, and the time.
abbrev pub take_segment : Ctx → Ctx
take_segment c = record c {
  segment_id = c.vol.next_segment_id;
  segment_start_block = c.vol.next_data_block;
  segment_wall_start_sec = c.sys.clock_sec;
  segment_wall_start_nsec = c.sys.clock_nsec % 2 ^ 32;
}

-- `ctx->vol.next_segment_id++`, in the context and in the header's buffer.
abbrev pub count_claim : Ctx → Ctx
count_claim c =
    let c1 = record c { vol = record c.vol { next_segment_id = add32 c.vol.next_segment_id 1 } } in
    fill_vol_buf c1.vol c1

-- A freshly allocated buffer is zeroed.
abbrev pub fresh_buffer : WriteBuf
fresh_buffer = record { bytes = λ i. 0; used = 0; in_flight = false; target_block = 0 }

-- The port is brought up, or the application fails.
unfoldable pub bring_up_port : Ctx → Ctx
bring_up_port c =
    if not (c.sys.hw.ports_available == 1)
    then fail_started c
    else if not c.sys.hw.pool_allocates
    then fail_started c
    else if not c.sys.hw.port_starts
    then fail_started c
    else record c { nic_up = true; rx_poller = true }

unfoldable pub claim_header_write_complete : Bool → Ctx → Ctx
claim_header_write_complete success c =
    if not success
    then fail_started c
    else (let c1 = record c { next_write_block = c.segment_start_block } in
        if not c1.sys.hw.write_buffers_allocate
        then fail_started c1
        else bring_up_port (record c1 { buffers = λ i. fresh_buffer }))

unfoldable pub claim_toc_write_complete : Bool → Ctx → Ctx
claim_toc_write_complete success c =
    if not success
    then fail_started c
    else (let (rc, c1) = write_header claim_header_write (count_claim c) in
        elim rc [ ok ↦ c1 | err e ↦ fail_started c1 ])

unfoldable pub claim_segment_start : Ctx → Ctx
claim_segment_start c =
    if toc_full c
    then fail_started c
    else (let c1 = take_segment c in
        let c2 = fill_io_buf (open_entry c1) c1 in
        let (rc, c3) = write_toc_slot c2.segment_id claim_toc_write c2 in
        elim rc [ ok ↦ c3 | err e ↦ fail_started c3 ])

-- The daemon answers the admin request, and its claim is marked while it is under way.
unfoldable pub claim_failed : Rc → Ctx → Ctx
claim_failed rc c = chrono_admin_fulfill rc (record c { claim_in_progress = false })

-- `used = 0; in_flight = false` in each of the slots.
abbrev pub idle_buffers : (ℕ → WriteBuf) → ℕ → WriteBuf
idle_buffers b i =
    if ltb i max_write_buffers then record (b i) { used = 0; in_flight = false } else b i

abbrev pub begin_recording : Ctx → Ctx
begin_recording c = record c {
  mirror_next_segment_id = c.vol.next_segment_id;
  next_write_block = c.segment_start_block;
  cur_buf = 0;
  buffers = idle_buffers c.buffers;
  record_count = 0;
  dropped_count = 0;
  first_capture_tsc = 0;
  last_capture_tsc = 0;
  last_stop_reason = stop_none;
  consecutive_write_failures = 0;
  stopping = false;
  current_segment_id = c.segment_id;
  claim_in_progress = false;
  recording = true;
}

unfoldable pub daemon_claim_header_write_complete : Bool → Ctx → Ctx
daemon_claim_header_write_complete success c =
    if not success then claim_failed (err eio) c else chrono_admin_fulfill ok (begin_recording c)

unfoldable pub daemon_claim_toc_write_complete : Bool → Ctx → Ctx
daemon_claim_toc_write_complete success c =
    if not success
    then claim_failed (err eio) c
    else (let (rc, c1) = write_header daemon_claim_header_write (count_claim c) in
        elim rc [ ok ↦ c1 | err e ↦ claim_failed (err e) c1 ])

unfoldable pub daemon_claim_segment_start : Ctx → Ctx
daemon_claim_segment_start c =
    if toc_full c
    then chrono_admin_fulfill (err enospc) c
    else (let c1 = take_segment (record c { claim_in_progress = true }) in
        let c2 = fill_io_buf (open_entry c1) c1 in
        let (rc, c3) = write_toc_slot c2.segment_id daemon_claim_toc_write c2 in
        elim rc [ ok ↦ c3 | err e ↦ claim_failed (err e) c3 ])
