-- ===== src/Volume/Init.antt =====
-- src/main.c: formatting. The table of contents is zeroed in chunks, then the header is written.
-- The two copies of the chain differ in where they stage the header and in how they end.
pub mod Zeroing
pub mod Guard
use chrontabulator.Base.{
  ℕ, ◌+◌, ◌%◌, ◌^◌, Bool, true, false, not, ◌&&◌, ltb, leb, ◌==◌, if◌then◌else◌, add64, sub64,
  mul64,
}
use chrontabulator.Base.Mem.{Mem, fill}
use chrontabulator.Format.{
  Volume, zero_volume, volume_magic, superblock_magic_v1, format_version, toc_slots, load_volume,
}
use chrontabulator.Ctx.{
  Rc, ok, err, eio, write_io, read_io, vol_target, Callback, init_check_read,
  init_zero_toc_chunk_write, init_header_write, daemon_quick_format_zero_write,
  daemon_quick_format_header_write, Ctx,
}
use chrontabulator.Ctx.Device.{
  submit, fail_started, cleanup_and_stop, chrono_admin_fulfill, fill_vol_buf, write_header,
  block_offset,
}

-- The fixed layout that both write.
unfoldable pub fresh_volume : ℕ → ℕ → Volume
fresh_volume block_size now = record zero_volume {
  magic = volume_magic;
  version = format_version;
  block_size = block_size;
  toc_slot_count = toc_slots;
  next_segment_id = 0;
  toc_start_block = 1;
  data_start_block = 1 + toc_slots;
  next_data_block = 1 + toc_slots;
  init_wall_clock_sec = now;
}

-- `blocks_left < ctx->buf_size_blocks ? blocks_left : ctx->buf_size_blocks`
abbrev pub chunk_blocks : Volume → Ctx → ℕ
chunk_blocks v c =
    let left = sub64 v.data_start_block c.init_cur_block in
    if ltb left c.buf_size_blocks then left else c.buf_size_blocks

-- `(uint32_t)(chunk_blocks * ctx->block_size)`
abbrev pub chunk_bytes : Volume → Ctx → ℕ
chunk_bytes v c = mul64 (chunk_blocks v c) c.block_size % 2 ^ 32

abbrev pub write_zeros : Volume → Callback → Ctx → Rc × Ctx
write_zeros v cb c =
    submit (write_io (block_offset c c.init_cur_block) (chunk_bytes v c) c.io_buf cb) c

unfoldable pub init_write_header_complete : Bool → Ctx → Ctx
init_write_header_complete success c = if success then cleanup_and_stop true c else fail_started c

unfoldable pub init_write_header : Ctx → Ctx
init_write_header c =
    let (rc, c1) = write_header init_header_write (fill_vol_buf c.vol c) in
    elim rc [ ok ↦ c1 | err e ↦ fail_started c1 ]

-- `io_buf` is still as it was allocated, all zeros.
unfoldable pub init_zero_toc_chunk : Ctx → Ctx
init_zero_toc_chunk c =
    if leb c.vol.data_start_block c.init_cur_block
    then init_write_header c
    else (let (rc, c1) = write_zeros c.vol init_zero_toc_chunk_write c in
        elim rc [ ok ↦ c1 | err e ↦ fail_started c1 ])

unfoldable pub init_zero_toc_chunk_write_complete : Bool → Ctx → Ctx
init_zero_toc_chunk_write_complete success c =
    if success
    then init_zero_toc_chunk
        (record c { init_cur_block = add64 c.init_cur_block (chunk_blocks c.vol c) })
    else fail_started c

-- A device that already holds a volume, of any version, or a V1 capture wants `--force`.
unfoldable pub refuse_format : Volume → Bool
refuse_format hdr =
    if hdr.magic == volume_magic
    then true
    else if hdr.magic == superblock_magic_v1
    then true
    else false

unfoldable pub init_check_read_complete : Bool → Ctx → Ctx
init_check_read_complete success c =
    if not success
    then fail_started c
    else if refuse_format (load_volume c.vol_buf) && not c.opts.force
    then fail_started c
    else init_zero_toc_chunk
        (record c { vol = fresh_volume c.block_size c.sys.clock_sec; init_cur_block = 1 })

unfoldable pub init_start : Ctx → Ctx
init_start c =
    let (rc, c1) = submit (read_io 0 c.block_size vol_target init_check_read) c in
    elim rc [ ok ↦ c1 | err e ↦ fail_started c1 ]

-- The live header is replaced only here, once the new one is on the device.
unfoldable pub daemon_quick_format_write_header_complete : Bool → Ctx → Ctx
daemon_quick_format_write_header_complete success c =
    if not success
    then chrono_admin_fulfill (err eio) c
    else chrono_admin_fulfill ok (record c {
      vol = c.qf_staged_vol;
      next_write_block = c.qf_staged_vol.data_start_block;
      record_count = 0;
      dropped_count = 0;
      first_capture_tsc = 0;
      last_capture_tsc = 0;
      mirror_next_segment_id = c.qf_staged_vol.next_segment_id;
      mirror_next_data_block = c.qf_staged_vol.next_data_block;
    })

unfoldable pub daemon_quick_format_write_header : Ctx → Ctx
daemon_quick_format_write_header c =
    let (rc, c1) = write_header daemon_quick_format_header_write (fill_vol_buf c.qf_staged_vol c) in
    elim rc [ ok ↦ c1 | err e ↦ chrono_admin_fulfill (err e) c1 ]

-- `io_buf` may hold anything here, so the chunk is zeroed first.
unfoldable pub daemon_quick_format_zero_toc_chunk : Ctx → Ctx
daemon_quick_format_zero_toc_chunk c =
    if leb c.qf_staged_vol.data_start_block c.init_cur_block
    then daemon_quick_format_write_header c
    else (let c1 = record c { io_buf = fill c.io_buf 0 0 (chunk_bytes c.qf_staged_vol c) } in
        let (rc, c2) = write_zeros c1.qf_staged_vol daemon_quick_format_zero_write c1 in
        elim rc [ ok ↦ c2 | err e ↦ chrono_admin_fulfill (err e) c2 ])

unfoldable pub daemon_quick_format_zero_toc_chunk_write_complete : Bool → Ctx → Ctx
daemon_quick_format_zero_toc_chunk_write_complete success c =
    if success
    then daemon_quick_format_zero_toc_chunk
        (record c { init_cur_block = add64 c.init_cur_block (chunk_blocks c.qf_staged_vol c) })
    else chrono_admin_fulfill (err eio) c

unfoldable pub daemon_quick_format_start : Ctx → Ctx
daemon_quick_format_start c =
    daemon_quick_format_zero_toc_chunk
      (record c { qf_staged_vol = fresh_volume c.block_size c.sys.clock_sec; init_cur_block = 1 })
