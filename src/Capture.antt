-- ===== src/Capture.antt =====
-- src/main.c: the capture path. Closing a segment, the write buffers, the poller, and claiming a
-- segment.
pub mod Finalize
pub mod Buffers
pub mod Keeps
pub mod Poll
pub mod Claim
