-- ===== src/Reactor/Formats.antt =====
-- Formatting (src/main.c) submits no buffer's write.
use chrontabulator.Base.{refl, Bool, true, false, not, ◌&&◌, leb, if_cases, add64, arith}
use chrontabulator.Base.Mem.{fill}
use chrontabulator.Format.{load_volume}
use chrontabulator.Ctx.{Ctx, err, eio}
use chrontabulator.Ctx.Device.{fail_started, chrono_admin_fulfill, fill_vol_buf}
use chrontabulator.Volume.Init.{
  chunk_blocks, chunk_bytes, fresh_volume, refuse_format, init_write_header_complete,
  init_write_header, init_zero_toc_chunk, init_zero_toc_chunk_write_complete,
  init_check_read_complete, daemon_quick_format_write_header_complete,
  daemon_quick_format_write_header, daemon_quick_format_zero_toc_chunk,
  daemon_quick_format_zero_toc_chunk_write_complete, daemon_quick_format_start,
}
use chrontabulator.Reactor.Books.{
  Keeps, Keeps-refl, submit-next-Keeps, cleanup-Keeps, failed-Keeps, fulfill-Keeps,
}

pub init_header-Keeps :
    (success : Bool) (c : Ctx) → Keeps 0 c (init_write_header_complete success c)
unfolding init_write_header_complete
init_header-Keeps true c = cleanup-Keeps 0 true c
init_header-Keeps false c = failed-Keeps 0 c

init_zero-Keeps : (c : Ctx) → Keeps 0 c (init_zero_toc_chunk c)
unfolding init_zero_toc_chunk init_write_header
init_zero-Keeps c =
    if_cases (Keeps 0 c) (leb c.vol.data_start_block c.init_cur_block)
      (λ h.
        submit-next-Keeps 0 _ (fill_vol_buf c.vol c) (λ e x. fail_started x) refl (omega arith)
          (λ e x. failed-Keeps 0 x))
      (λ h.
        submit-next-Keeps 0 _ c (λ e x. fail_started x) refl (omega arith)
          (λ e x. failed-Keeps 0 x))

pub init_zeroed-Keeps :
    (success : Bool) (c : Ctx) → Keeps 0 c (init_zero_toc_chunk_write_complete success c)
unfolding init_zero_toc_chunk_write_complete
init_zeroed-Keeps true c =
    init_zero-Keeps (record c { init_cur_block = add64 c.init_cur_block (chunk_blocks c.vol c) })
init_zeroed-Keeps false c = failed-Keeps 0 c

pub init_check-Keeps : (success : Bool) (c : Ctx) → Keeps 0 c (init_check_read_complete success c)
unfolding init_check_read_complete
init_check-Keeps false c = failed-Keeps 0 c
init_check-Keeps true c =
    if_cases (Keeps 0 c) (refuse_format (load_volume c.vol_buf) && not c.opts.force)
      (λ h. failed-Keeps 0 c)
      (λ h.
        init_zero-Keeps
          (record c { vol = fresh_volume c.block_size c.sys.clock_sec; init_cur_block = 1 }))

pub format_header-Keeps :
    (success : Bool) (c : Ctx) → Keeps 0 c (daemon_quick_format_write_header_complete success c)
unfolding daemon_quick_format_write_header_complete chrono_admin_fulfill
format_header-Keeps true c = Keeps-refl 0 c
format_header-Keeps false c = Keeps-refl 0 c

format_zero-Keeps : (c : Ctx) → Keeps 0 c (daemon_quick_format_zero_toc_chunk c)
unfolding daemon_quick_format_zero_toc_chunk daemon_quick_format_write_header
format_zero-Keeps c =
    if_cases (Keeps 0 c) (leb c.qf_staged_vol.data_start_block c.init_cur_block)
      (λ h.
        submit-next-Keeps 0 _ (fill_vol_buf c.qf_staged_vol c)
          (λ e x. chrono_admin_fulfill (err e) x) refl (omega arith)
          (λ e x. fulfill-Keeps 0 (err e) x))
      (λ h.
        submit-next-Keeps 0 _
          (record c { io_buf = fill c.io_buf 0 0 (chunk_bytes c.qf_staged_vol c) })
          (λ e x. chrono_admin_fulfill (err e) x) refl (omega arith)
          (λ e x. fulfill-Keeps 0 (err e) x))

pub format_zeroed-Keeps :
    (success : Bool) (c : Ctx)
    → Keeps 0 c (daemon_quick_format_zero_toc_chunk_write_complete success c)
unfolding daemon_quick_format_zero_toc_chunk_write_complete
format_zeroed-Keeps true c =
    format_zero-Keeps
      (record c { init_cur_block = add64 c.init_cur_block (chunk_blocks c.qf_staged_vol c) })
format_zeroed-Keeps false c = fulfill-Keeps 0 (err eio) c

pub format-Keeps : (c : Ctx) → Keeps 0 c (daemon_quick_format_start c)
unfolding daemon_quick_format_start
format-Keeps c =
    format_zero-Keeps
      (record c { qf_staged_vol = fresh_volume c.block_size c.sys.clock_sec; init_cur_block = 1 })
