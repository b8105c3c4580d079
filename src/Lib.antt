-- ===== src/Lib.antt =====
-- chrontabulator records UDP packets from a DPDK port onto a raw NVMe device through SPDK, and reads
-- them back. The program is one reactor thread on which everything happens in callbacks: a poller
-- takes packets and fills write buffers, the buffers are written to the device, and a segment of the
-- device is claimed before a recording and finalized after it. A daemon does the same at the request
-- of a web server, which hands requests to the reactor thread through a single slot. Paths below are
-- from the root of the repository.
--
-- Base      The names that all share: Boolean tests, lists, fixed-width arithmetic (Word), memories
--           (Mem: a pointer is an offset, memcpy and memset are functions) and records of
--           little-endian fields (Fields), for the structures as the compiler lays them out.
-- Wire      src/common.c: big-endian fields (Bytes), checksums (Checksum, Sums), building and parsing
--           a frame (Frame). Where C returns -1 the model returns none.
-- Format    src/record.h: the volume header, segment entries and record headers, each with a load and
--           a store of its bytes; how an entry is classified (Segments); a write chunk (Chunk), as
--           `flush_buffer` and `capture_poll` write it and `dump_chunk_read_complete` reads it.
-- Ctx       src/chrono_ctx.h: `struct app_context_t` as a record, with `Sys` for what is outside the
--           program. SPDK, DPDK and the clock are parameters: `Sys` holds what each submission to come
--           returns, the I/O that is outstanding, the time, and what the set-up calls find.
--           Device has the submission of I/O and the ways to stop.
-- Capture   src/main.c: Poll is `capture_poll`, a function of the packets of a burst; Buffers is
--           `flush_buffer`, `retry_flush`, `write_complete` and the two stops; Finalize and Claim are
--           the chains at the end and the start of a segment, in both modes.
-- Volume    src/main.c: Init is `--init` and the quick format, Settings the daemon's settings.
-- Reader    src/main.c and src/chrono_admin.c: Dump is `-D`, Admin the requests to the daemon, Reply
--           the buffer that their answers are printed into.
-- Startup   src/main.c: Options is `app_parse_arg`, Start is `app_started` and what it leads to in each
--           mode, up to the first I/O and again from the header on; Shutdown is about the signal
--           handlers. src/port_init.c: Port is `chrono_port_init`, on what DPDK answers.
-- Bridge    src/chrono_admin.c: `chrono_admin_call` and `chrono_admin_fulfill` as steps of the two
--           threads on the slot.
-- Net       src/net_responder.c: the answers to ARP requests and pings, as functions on frames.
-- Web       src/web_status.c: Request is `read_request_line`, Query reads what the line asks,
--           Routes is `handle_connection`, Response is `send_response` with what is sent in each
--           case, Status the values of `render_status_json` and `render_eal_json`, Server the
--           server's sockets and thread.
-- Reactor   src/main.c, src/chrono_admin.c: all that runs on the reactor thread as one transition system:
--           which function an I/O completes in, and the steps; Books to Handlers say what each
--           handler does to the outstanding I/O.
-- Tests     Concrete inputs, and the theorems applied to them.
--
-- A completion function is a function of the result of the I/O and the context; each `spdk_bdev_write`
-- or `spdk_bdev_read` is `submit`, which records the bytes that are handed over. An I/O that is
-- refused at once goes on in the same call, as in the source. Atomic counters are plain fields: the
-- reactor thread is the only one that writes them. The conversions of the C library (strtoul, strtoull,
-- sscanf) are functions of the text, and DPDK's checksums of the frame; what is assumed of the latter
-- is what DPDK documents, and stands in the theorem that needs it.
--
-- Bounds. Words wrap where the source's do. The carries of a checksum are folded on 3 rounds, which
-- are enough for a 32-bit sum. The wait for the link runs on its limit in milliseconds, since every
-- round waits for one at least. A walk over a chunk runs on the chunk's size and one more, since
-- every round takes at least a record's header. The stop, the flush and the count of write failures
-- call one another; a stop that finds `stopping` set returns, so one level of calls back is enough.
-- A query string is read on its length, since every round goes on behind an ampersand, and a
-- request on the size of its buffer, since every round receives a byte.
--
-- Not modelled: the usage text; the set-up of threads, of which only whether it succeeds is used; a
-- write to a connection that takes only a part of what is sent; the page, and the text around the
-- values of the status and of the EAL diagnostics; what printf makes of the numbers in an answer.
-- What SPDK does with a wait entry that is queued while it is queued already: here it stays queued
-- once, for the buffer named last (`retry_answered`). Log messages are left out.
pub mod Base
pub mod Wire
pub mod Format
pub mod Ctx
pub mod Capture
pub mod Volume
pub mod Reader
pub mod Startup
pub mod Bridge
pub mod Net
pub mod Web
pub mod Reactor
pub mod Tests
