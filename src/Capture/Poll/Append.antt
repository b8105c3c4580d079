-- ===== src/Capture/Poll/Append.antt =====
-- The record that the poller (src/main.c, `capture_poll`) adds to the current buffer.
use mathlib.Core.Path.{subst, subst⁻¹}
use chrontabulator.Base.{ℕ, ◌+◌, ◌^◌, ◌≤◌, ◌<◌, ◌≡◌, refl, List, [], ◌∷◌, ◌++◌, add32, arith}
use chrontabulator.Wire.Frame.{Parsed}
use chrontabulator.Format.{record_hdr_size}
use chrontabulator.Format.Chunk.{put_record}
use chrontabulator.Format.Chunk.Packed.{Packed, Entry, entry_of, put_record-Packed}
use chrontabulator.Ctx.{Ctx, WriteBuf}
use chrontabulator.Capture.Buffers.Flush.{Holds, same_index}
use chrontabulator.Capture.Poll.{Packet, append_record, captured_hdr, rec_size}

Holds-append :
    (b : WriteBuf) (size : ℕ) (es : List Entry) (p : Packet) (r : Parsed) (seq now : ℕ)
    → Holds b size es
    → b.used + record_hdr_size + r.payload_len ≤ size
    → size < 2 ^ 32
    → now < 2 ^ 64
    → seq < 2 ^ 64
    → Holds
        (record b {
          bytes = put_record b.bytes b.used (captured_hdr seq now r) p.bytes r.payload;
          used = add32 b.used (rec_size r);
        })
        size
        (es ++ entry_of (captured_hdr seq now r) p.bytes r.payload ∷ [])
Holds-append b size es p r seq now holds room small time count =
    let end : b.used + record_hdr_size + r.payload_len ≡ add32 b.used (rec_size r) = omega arith in
    record {
      packed =
          subst
            (λ (u : ℕ).
              Packed (put_record b.bytes b.used (captured_hdr seq now r) p.bytes r.payload) 0
                (es ++ entry_of (captured_hdr seq now r) p.bytes r.payload ∷ []) u)
            end
            (put_record-Packed b.bytes 0 es b.used (captured_hdr seq now r) p.bytes r.payload
              (omega arith, (omega arith, (time, (omega arith, (omega arith, tt))))) refl
              holds.packed);
      bounded = omega arith;
    }

appended :
    (now : ℕ) (p : Packet) (r : Parsed) (c : Ctx)
    → (append_record now p r c).buffers c.cur_buf ≡ record (c.buffers c.cur_buf) {
      bytes =
          put_record
            (c.buffers c.cur_buf).bytes
            (c.buffers c.cur_buf).used
            (captured_hdr c.record_count now r)
            p.bytes
            r.payload;
      used = add32 (c.buffers c.cur_buf).used (rec_size r);
    }
unfolding append_record
appended now p r c = rw (same_index c.cur_buf) refl

pub append_record-Holds :
    (now : ℕ) (p : Packet) (r : Parsed) (c : Ctx) (es : List Entry)
    → Holds (c.buffers c.cur_buf) c.buf_size es
    → (c.buffers c.cur_buf).used + record_hdr_size + r.payload_len ≤ c.buf_size
    → c.buf_size < 2 ^ 32
    → now < 2 ^ 64
    → c.record_count + 1 < 2 ^ 64
    → let c' = append_record now p r c in
      Holds
        (c'.buffers c'.cur_buf)
        c'.buf_size
        (es ++ entry_of (captured_hdr c.record_count now r) p.bytes r.payload ∷ [])
      × (c'.record_count ≡ c.record_count + 1)
unfolding append_record
append_record-Holds now p r c es holds room small time count = (
  subst⁻¹
      (λ (b : WriteBuf).
        Holds b c.buf_size
          (es ++ entry_of (captured_hdr c.record_count now r) p.bytes r.payload ∷ []))
      (appended now p r c)
      (Holds-append (c.buffers c.cur_buf) c.buf_size es p r c.record_count now holds room small time
        (omega arith)),
  omega arith,
)
