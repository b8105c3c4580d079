-- ===== src/Startup/Shutdown.antt =====
-- Stopping the daemon by a signal (src/main.c, `daemon_shutdown_cb`) while a segment is recorded.
pub mod Flags
pub mod Ending
pub mod Owed
use chrontabulator.Base.{◌*◌, Option, some, length}
use chrontabulator.Base.Mem.{Mem}
use chrontabulator.Ctx.{Ctx}
use chrontabulator.Capture.Buffers.{retry_flush}
