-- ===== src/Capture/Buffers/Flush.antt =====
-- What a flush hands to the device (src/main.c, `flush_buffer` and `retry_flush`).
use native.Mathlib.Nat.{mul-le-mul_right, add-mul}
use chrontabulator.Base.{
  ℕ, suc, ◌+◌, ◌*◌, ◌^◌, ◌≤◌, ◌<◌, ◌≡◌, ◌≢◌, refl, ap, ◌∙◌, true, false, ◌==◌, List, [], ◌∷◌, ◌++◌,
  map, length, add64, if_false, arith,
}
use chrontabulator.Format.Chunk.{pad_chunk, dump_loop}
use chrontabulator.Format.Chunk.Packed.{Entry, Packed, pad_chunk-Packed, dump_loop-Packed}
use chrontabulator.Format.Chunk.RoundTrip.{pad_chunk-Ends}
use chrontabulator.Ctx.{Ctx, Rc, ok, WriteBuf, Io, write_io, write_complete}
use chrontabulator.Ctx.Device.{submit, enqueue, next_rc, block_offset}
use chrontabulator.Capture.Buffers.{
  flush_buffer, retry_flush, retry_answered, abandon, hand_over, past_end, stop_capture,
}

-- The buffer holds these records, and nothing else up to `used`.
pub record Holds (b : WriteBuf) (size : ℕ) (es : List Entry) : Type 0 where
  pub packed : Packed b.bytes 0 es b.used
  pub bounded : b.used ≤ size

pub same_index : (i : ℕ) → (i == i) ≡ true
same_index i = ground arith

-- The write of a buffer.
abbrev write_of : Ctx → ℕ → WriteBuf → Io
write_of c i b = write_io (block_offset c b.target_block) c.buf_size b.bytes (write_complete i)

retry_flush-accepted :
    (i : ℕ) (c : Ctx) (b : WriteBuf)
    → c.buffers i ≡ b
    → past_end c b.target_block ≡ false
    → next_rc c.sys.submit_rcs ≡ ok
    → retry_flush stop_capture i c ≡ (submit (write_of c i b) c).1
unfolding retry_flush submit
retry_flush-accepted i c b at_i room accepted =
    let c1 = (submit (write_of c i (c.buffers i)) c).1 in
    if_false (past_end c (c.buffers i).target_block) (abandon stop_capture i c)
      (retry_answered stop_capture i (next_rc c.sys.submit_rcs) c1)
      (ap (λ (b : WriteBuf). past_end c b.target_block) at_i ∙ room)
    ∙ ap (λ (rc : Rc). retry_answered stop_capture i rc c1) accepted
    ∙ unfold retry_answered in ap (λ (b : WriteBuf). (submit (write_of c i b) c).1) at_i

-- The buffer as it is handed over.
abbrev handed : Ctx → WriteBuf → WriteBuf
handed c b = record b {
  bytes = pad_chunk b.bytes b.used c.buf_size;
  in_flight = true;
  target_block = c.next_write_block;
}

hand_over-buffer : (i : ℕ) (c : Ctx) → (hand_over i c).buffers i ≡ handed c (c.buffers i)
unfolding hand_over
hand_over-buffer i c = rw (same_index i) refl

-- The flush is the write of the padded buffer, and the step to the next blocks.
flush_buffer-accepted :
    (i : ℕ) (c : Ctx)
    → (c.buffers i).used ≢ 0
    → past_end c c.next_write_block ≡ false
    → next_rc c.sys.submit_rcs ≡ ok
    → flush_buffer stop_capture i c ≡ (
        let c1 = (submit (write_of c i (handed c (c.buffers i))) (hand_over i c)).1 in
        record c1 {
          next_write_block = add64 c.next_write_block c.buf_size_blocks;
          mirror_next_data_block = add64 c.next_write_block c.buf_size_blocks;
        })
unfolding flush_buffer submit hand_over
flush_buffer-accepted i c used room accepted =
    if_false ((c.buffers i).used == 0) _ _ (ground arith)
    ∙ if_false (past_end c c.next_write_block) _ _ room
    ∙ ap
        (λ (c1 : Ctx). record c1 {
          next_write_block = add64 c1.next_write_block c1.buf_size_blocks;
          mirror_next_data_block = add64 c1.next_write_block c1.buf_size_blocks;
        })
        (unfold hand_over in
          retry_flush-accepted i (hand_over i c) (handed c (c.buffers i)) (hand_over-buffer i c)
            room accepted)

-- A flush of a buffer that is not empty, with room on the device and a submission that SPDK
-- accepts: the write that becomes outstanding starts at the next free block and is one chunk long,
-- and its bytes, walked by the reader, give the headers of the buffer's records, in order. The
-- next write goes to the blocks after it.
pub flush_buffer-reads_back :
    (i : ℕ) (c : Ctx) (es : List Entry) (seen target : ℕ)
    → Holds (c.buffers i) c.buf_size es
    → (c.buffers i).used ≢ 0
    → past_end c c.next_write_block ≡ false
    → next_rc c.sys.submit_rcs ≡ ok
    → seen + length es ≤ target
    → let chunk = pad_chunk (c.buffers i).bytes (c.buffers i).used c.buf_size in
      let c' = flush_buffer stop_capture i c in
      (c'.sys.inflight
        ≡ c.sys.inflight
          ++ write_io (block_offset c c.next_write_block) c.buf_size chunk (write_complete i) ∷ [])
      × (dump_loop (suc c.buf_size) chunk c.buf_size target 0 seen ≡ record {
        offset = (c.buffers i).used;
        seen = seen + length es;
        printed = map (λ e. e.hdr) es;
        overrun = false;
      })
      × (c'.next_write_block ≡ add64 c.next_write_block c.buf_size_blocks)
flush_buffer-reads_back i c es seen target holds used room accepted t =
    let flushed = flush_buffer-accepted i c used room accepted in
    (
      ap (λ (x : Ctx). x.sys.inflight) flushed
          ∙ (unfold submit hand_over in
              ap (λ (rc : Rc). enqueue rc (write_of c i (handed c (c.buffers i))) c.sys.inflight)
                accepted),
      dump_loop-Packed (suc c.buf_size)
          (pad_chunk (c.buffers i).bytes (c.buffers i).used c.buf_size) c.buf_size target 0 seen es
          (c.buffers i).used
          (pad_chunk-Packed (c.buffers i).bytes 0 es (c.buffers i).used c.buf_size holds.packed)
          (pad_chunk-Ends (c.buffers i).bytes (c.buffers i).used c.buf_size) holds.bounded
          (omega arith) t,
      ap (λ (x : Ctx). x.next_write_block) flushed ∙ unfold submit in refl,
    )

-- A block that passes the check against the device's end leaves room for a whole chunk: the bytes
-- that are written there lie within the device. The chunk is a whole number of blocks, and the
-- device's size and the block's number are in range.
pub past_end-in_device :
    (c : Ctx) (block : ℕ)
    → past_end c block ≡ false
    → c.buf_size ≡ c.buf_size_blocks * c.block_size
    → block + c.buf_size_blocks < 2 ^ 64
    → c.cached_num_blocks * c.block_size < 2 ^ 64
    → block_offset c block + c.buf_size ≤ c.cached_num_blocks * c.block_size
past_end-in_device c block room whole small device =
    let fits : block + c.buf_size_blocks ≤ c.cached_num_blocks = ground arith in
    let scaled : (block + c.buf_size_blocks) * c.block_size ≤ c.cached_num_blocks * c.block_size =
      mul-le-mul_right c.block_size fits in
    let split : (block + c.buf_size_blocks) * c.block_size
        ≡ block * c.block_size + c.buf_size_blocks * c.block_size =
      add-mul block c.buf_size_blocks c.block_size in
    omega arith
