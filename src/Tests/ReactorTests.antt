-- ===== src/Tests/ReactorTests.antt =====
-- The reactor thread of a recording daemon (src/main.c): a stop, and the write that it waits for.
use chrontabulator.Base.{◌*◌, ◌≡◌, ◌<◌, refl, true, none, [], ◌∷◌, arith}
use chrontabulator.Ctx.{Ctx, Io, write_io, write_complete, recording_stop}
use chrontabulator.Ctx.Device.{submit}
use chrontabulator.Format.Chunk.{pad_chunk}
use chrontabulator.Capture.Claim.{fresh_buffer}
use chrontabulator.Capture.Finalize.{daemon_finalize_segment, finalize_current_stop}
use chrontabulator.Capture.Buffers.{
  daemon_stop_recording, daemon_stop_recording_with, flush_buffer, retry_flush, retry_answered,
  hand_over, on_write_complete, finish_if_drained,
}
use chrontabulator.Reader.Admin.{chrono_admin_dispatch, dispatch_op, admin_do_recording_stop}
use chrontabulator.Reactor.{completed, request, here, next, complete, completion, transfer}
use chrontabulator.Reactor.Books.{count, writes, closings}
use chrontabulator.Reactor.Drained.{Reached-closes_drained}
use chrontabulator.Tests.Data.{recording_ctx, test_request}

-- Some records in the current buffer, and a request to stop.
abbrev stopping : Ctx
stopping = record recording_ctx {
  buffers = λ i. record fresh_buffer { used = 64 };
  admin_req = record test_request { op = recording_stop };
}

-- The flush that the stop waits for.
abbrev last_flush : Io
last_flush = write_io (4097 * 512) 4096 (pad_chunk fresh_buffer.bytes 64 4096) (write_complete 0)

flushing : (chrono_admin_dispatch stopping).sys.inflight ≡ last_flush ∷ []
unfolding chrono_admin_dispatch dispatch_op admin_do_recording_stop daemon_stop_recording
    daemon_stop_recording_with flush_buffer hand_over retry_flush retry_answered submit
flushing = refl

abbrev flushed : Ctx
flushed = complete [] last_flush true (λ i. 0) (chrono_admin_dispatch stopping)

closing : closings (chrono_admin_dispatch stopping) < closings flushed
unfolding chrono_admin_dispatch dispatch_op admin_do_recording_stop daemon_stop_recording
    daemon_stop_recording_with flush_buffer hand_over retry_flush retry_answered submit complete
    completion transfer on_write_complete finish_if_drained finalize_current_stop
    daemon_finalize_segment count
closing = omega arith

no_writes : writes stopping ≡ 0
unfolding count
no_writes = refl

Reached-closes_drained_example : (writes flushed ≡ 0) × (flushed.bdev_io_wait ≡ none)
Reached-closes_drained_example =
    Reached-closes_drained refl no_writes refl (next here (request stopping))
      (completed (chrono_admin_dispatch stopping) [] [] last_flush true (λ i. 0) flushing) closing
