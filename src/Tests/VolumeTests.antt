-- ===== src/Tests/VolumeTests.antt =====
-- Formatting and the settings on concrete inputs.
use chrontabulator.Base.{◌≡◌, refl, true, List, [], ◌∷◌, ◌++◌, length, arith}
use chrontabulator.Format.{load_volume, store_volume, volume_header_is_valid}
use chrontabulator.Ctx.{Ctx, Io, stopped_failed}
use chrontabulator.Ctx.Device.{accepting}
use chrontabulator.Volume.Init.{
  fresh_volume, init_zero_toc_chunk, init_check_read_complete, daemon_quick_format_start,
  daemon_quick_format_zero_toc_chunk_write_complete, daemon_quick_format_write_header_complete,
}
use chrontabulator.Volume.Init.Zeroing.{
  Sized, Tiles, completions, header_io, init_zero_toc_chunk-tiles,
}
use chrontabulator.Volume.Init.Guard.{init_check_read_complete-formatted, daemon_quick_format-vol}
use chrontabulator.Tests.Data.{recording_ctx}

-- A format that is about to zero the table of contents.
abbrev formatting : Ctx
formatting = record recording_ctx { vol = fresh_volume 512 1700000000; init_cur_block = 1 }

formatting-Sized : Sized formatting
unfolding fresh_volume
formatting-Sized = record {
  chunk = omega arith;
  small = omega arith;
  block = omega arith;
  chunk_small = omega arith;
}

init_zero_toc_chunk-tiles_example :
    (ios : List Io) × (Tiles 512 4097 formatting.io_buf 1 ios
      × ((completions (length ios) (init_zero_toc_chunk (accepting formatting))).sys.inflight
          ≡ formatting.sys.inflight ++ (ios ++ header_io formatting ∷ [])))
unfolding fresh_volume
init_zero_toc_chunk-tiles_example =
    init_zero_toc_chunk-tiles 4096 formatting formatting-Sized (omega arith) (omega arith)

abbrev formatted : Ctx
formatted = record recording_ctx { vol_buf = store_volume (λ i. 0) (fresh_volume 512 1700000000) }

init_check_read_complete-formatted_example :
    (volume_header_is_valid (load_volume formatted.vol_buf) ≡ true)
    × ((init_check_read_complete true formatted).sys.inflight ≡ formatted.sys.inflight)
    × ((init_check_read_complete true formatted).sys.exit ≡ stopped_failed)
init_check_read_complete-formatted_example =
    init_check_read_complete-formatted (λ i. 0) 512 1700000000 formatted (omega arith) (omega arith)
      refl refl

daemon_quick_format-vol_example :
    ((daemon_quick_format_start formatting).vol ≡ formatting.vol)
    × ((daemon_quick_format_zero_toc_chunk_write_complete true formatting).vol ≡ formatting.vol)
    × ((daemon_quick_format_write_header_complete true formatting).vol ≡ formatting.qf_staged_vol)
daemon_quick_format-vol_example = daemon_quick_format-vol true formatting
