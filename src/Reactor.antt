-- ===== src/Reactor.antt =====
-- src/main.c, src/chrono_admin.c: everything that runs on the reactor thread, as steps of one
-- transition system on the context: bursts of packets, completions of I/O in any order, the retry
-- that waits for memory, requests, and signals.
pub mod Books
pub mod Chains
pub mod Formats
pub mod Volumes
pub mod Requests
pub mod Settings
pub mod Counted
pub mod Writes
pub mod Poller
pub mod Signals
pub mod Handlers
pub mod Drained
use chrontabulator.Base.{
  ℕ, ◌≡◌, Bool, true, false, Option, none, some, List, ◌∷◌, ◌++◌, if◌then◌else◌,
}
use chrontabulator.Base.Mem.{Mem, copy}
use chrontabulator.Ctx.{
  Ctx, Rc, AdminRequest, Io, write_io, read_io, Target, vol_target, io_target, Callback,
  write_complete, finalize_header_write, finalize_toc_write, claim_toc_write, claim_header_write,
  dump_chunk_read, repair_chunk_bytes_write, dump_segment_entry_read, list_chunk_read,
  volume_header_read, init_check_read, init_zero_toc_chunk_write, init_header_write,
  daemon_finalize_header_write, daemon_finalize_toc_write, daemon_claim_toc_write,
  daemon_claim_header_write, daemon_quick_format_zero_write, daemon_quick_format_header_write,
  daemon_volume_header_read, admin_list_chunk_read, admin_records_entry_read,
  admin_records_chunk_read, admin_delete_read, admin_delete_write,
}
use chrontabulator.Capture.Finalize.{
  finalize_header_write_complete, finalize_toc_write_complete,
  daemon_finalize_header_write_complete, daemon_finalize_toc_write_complete,
}
use chrontabulator.Capture.Buffers.{on_write_complete, retry_flush, stop_capture}
use chrontabulator.Capture.Poll.{Packet, poll_burst}
use chrontabulator.Capture.Claim.{
  claim_toc_write_complete, claim_header_write_complete, daemon_claim_toc_write_complete,
  daemon_claim_header_write_complete,
}
use chrontabulator.Volume.Init.{
  init_check_read_complete, init_zero_toc_chunk_write_complete, init_write_header_complete,
  daemon_quick_format_zero_toc_chunk_write_complete, daemon_quick_format_write_header_complete,
}
use chrontabulator.Reader.Dump.{
  dump_chunk_read_complete, repair_chunk_bytes_write_complete, dump_segment_entry_read_complete,
  list_chunk_read_complete,
}
use chrontabulator.Reader.Admin.{
  chrono_admin_dispatch, admin_list_chunk_read_complete, admin_records_entry_read_complete,
  admin_records_chunk_read_complete, admin_delete_read_complete, admin_delete_write_complete,
}
use chrontabulator.Startup.Start.{
  volume_header_read_complete, daemon_volume_header_read_complete, shutdown_cb,
}

-- The completion function that an I/O was submitted with.
unfoldable pub completion : Callback → Bool → Ctx → Ctx
completion (write_complete i) = on_write_complete i
completion finalize_header_write = finalize_header_write_complete
completion finalize_toc_write = finalize_toc_write_complete
completion claim_toc_write = claim_toc_write_complete
completion claim_header_write = claim_header_write_complete
completion dump_chunk_read = dump_chunk_read_complete
completion repair_chunk_bytes_write = repair_chunk_bytes_write_complete
completion dump_segment_entry_read = dump_segment_entry_read_complete
completion list_chunk_read = list_chunk_read_complete
completion volume_header_read = volume_header_read_complete
completion init_check_read = init_check_read_complete
completion init_zero_toc_chunk_write = init_zero_toc_chunk_write_complete
completion init_header_write = init_write_header_complete
completion daemon_finalize_header_write = daemon_finalize_header_write_complete
completion daemon_finalize_toc_write = daemon_finalize_toc_write_complete
completion daemon_claim_toc_write = daemon_claim_toc_write_complete
completion daemon_claim_header_write = daemon_claim_header_write_complete
completion daemon_quick_format_zero_write = daemon_quick_format_zero_toc_chunk_write_complete
completion daemon_quick_format_header_write = daemon_quick_format_write_header_complete
completion daemon_volume_header_read = daemon_volume_header_read_complete
completion admin_list_chunk_read = admin_list_chunk_read_complete
completion admin_records_entry_read = admin_records_entry_read_complete
completion admin_records_chunk_read = admin_records_chunk_read_complete
completion admin_delete_read = admin_delete_read_complete
completion admin_delete_write = admin_delete_write_complete

abbrev pub callback_of : Io → Callback
callback_of (write_io offset len bytes cb) = cb
callback_of (read_io offset len buffer cb) = cb

-- What the transfer leaves; `m` is what a failed one leaves in its range.
unfoldable pub transfer : Io → Bool → Mem → Ctx → Ctx
transfer (write_io offset len bytes cb) success m c = record c {
  sys = record c.sys { disk = copy c.sys.disk offset (if success then bytes else m) 0 len };
}
transfer (read_io offset len vol_target cb) success m c = record c {
  vol_buf = copy c.vol_buf 0 (if success then c.sys.disk else m) offset len;
}
transfer (read_io offset len io_target cb) success m c = record c {
  io_buf = copy c.io_buf 0 (if success then c.sys.disk else m) offset len;
}

-- The I/O is no longer outstanding, and its completion function is called.
unfoldable pub complete : List Io → Io → Bool → Mem → Ctx → Ctx
complete rest io success m c =
    completion (callback_of io) success
      (transfer io success m (record c { sys = record c.sys { inflight = rest } }))

-- The steps. `outside` is what the reactor thread does not do itself: the time, what submissions
-- will return, and the request slot, which the web server's thread fills.
pub data Step : Ctx → Ctx → Type 0 where
  outside :
      (c : Ctx) (rcs : List Rc) (sec nsec : ℕ) (req : AdminRequest)
      → Step c (record c {
        admin_req = req;
        sys = record c.sys { submit_rcs = rcs; clock_sec = sec; clock_nsec = nsec };
      })
  burst : (c : Ctx) (now : ℕ) (ps : List Packet) → c.rx_poller ≡ true → Step c (poll_burst now ps c)
  completed :
      (c : Ctx) (before after : List Io) (io : Io) (success : Bool) (m : Mem)
      → c.sys.inflight ≡ before ++ io ∷ after
      → Step c (complete (before ++ after) io success m c)
  woken :
      (c : Ctx) (i : ℕ)
      → c.bdev_io_wait ≡ some i
      → Step c (retry_flush stop_capture i (record c { bdev_io_wait = none }))
  request : (c : Ctx) → Step c (chrono_admin_dispatch c)
  signal : (c : Ctx) → Step c (shutdown_cb c)

pub data Reached (s : Ctx) : Ctx → Type 0 where
  here : Reached s s
  next : {c c' : Ctx} → Reached s c → Step c c' → Reached s c'
