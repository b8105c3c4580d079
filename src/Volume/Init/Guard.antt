-- ===== src/Volume/Init/Guard.antt =====
-- What a format leaves behind, what it refuses to overwrite, and when the daemon's live header
-- changes (src/main.c).
use chrontabulator.Base.{
  ℕ, ◌^◌, ◌<◌, ◌≡◌, refl, ap, ◌∙◌, Bool, true, false, not, ◌&&◌, leb, if_cases, if_true,
  if◌then◌else◌, arith,
}
use chrontabulator.Base.Mem.{Mem}
use chrontabulator.Format.{load_volume, store_volume, volume_header_is_valid}
use chrontabulator.Format.Segments.{VolumeFits, load_volume-store_volume}
use chrontabulator.Ctx.{Ctx, stopped_failed}
use chrontabulator.Ctx.Device.{submit, next_rc, fail_started, chrono_admin_fulfill}
use chrontabulator.Capture.Keeps.{on_rc}
use chrontabulator.Volume.Init.{
  fresh_volume, refuse_format, init_check_read_complete, daemon_quick_format_start,
  daemon_quick_format_zero_toc_chunk, daemon_quick_format_write_header,
  daemon_quick_format_zero_toc_chunk_write_complete, daemon_quick_format_write_header_complete,
}

fresh_volume-VolumeFits :
    (block_size now : ℕ)
    → block_size < 2 ^ 32
    → now < 2 ^ 64
    → VolumeFits (fresh_volume block_size now)
unfolding fresh_volume
fresh_volume-VolumeFits block_size now h k = (
  omega arith,
  (
    omega arith,
    (
      h,
      (
        omega arith,
        (
          omega arith,
          (
            omega arith,
            (
              omega arith,
              (omega arith, (k, (omega arith, (omega arith, (omega arith, (omega arith, tt)))))),
            ),
          ),
        ),
      ),
    ),
  ),
)

fail_started-inflight : (c : Ctx) → (fail_started c).sys.inflight ≡ c.sys.inflight
unfolding fail_started
fail_started-inflight c =
    if_cases (λ (x : Ctx). x.sys.inflight ≡ c.sys.inflight) c.nic_up (λ h. refl) (λ h. refl)

-- A device that holds a header of this format is not formatted again without `--force`: with the
-- bytes that a format writes as block 0, the header read back is a valid one, and the check of a
-- second format stops with a failure and submits nothing.
pub init_check_read_complete-formatted :
    (m : Mem) (block_size now : ℕ) (c : Ctx)
    → block_size < 2 ^ 32
    → now < 2 ^ 64
    → c.vol_buf ≡ store_volume m (fresh_volume block_size now)
    → c.opts.force ≡ false
    → (volume_header_is_valid (load_volume c.vol_buf) ≡ true)
      × ((init_check_read_complete true c).sys.inflight ≡ c.sys.inflight)
      × ((init_check_read_complete true c).sys.exit ≡ stopped_failed)
unfolding init_check_read_complete
init_check_read_complete-formatted m block_size now c h k held gentle =
    let read : load_volume c.vol_buf ≡ fresh_volume block_size now =
      ap load_volume held
      ∙ load_volume-store_volume m (fresh_volume block_size now)
          (fresh_volume-VolumeFits block_size now h k) in
    let refused : refuse_format (load_volume c.vol_buf) ≡ true =
      ap refuse_format read ∙ (unfold refuse_format fresh_volume in refl) in
    let stops =
      if_true (refuse_format (load_volume c.vol_buf) && not c.opts.force) _ _
        (rw (refused, gentle) refl) in
    (
      ap volume_header_is_valid read ∙ (unfold volume_header_is_valid fresh_volume in refl),
      ap (λ (x : Ctx). x.sys.inflight) stops ∙ fail_started-inflight c,
      ap (λ (x : Ctx). x.sys.exit) stops ∙ (unfold fail_started in refl),
    )

quick_header-vol : (c : Ctx) → (daemon_quick_format_write_header c).vol ≡ c.vol
unfolding daemon_quick_format_write_header submit chrono_admin_fulfill
quick_header-vol c = on_rc (λ (x : Ctx). x.vol ≡ c.vol) (next_rc c.sys.submit_rcs) refl (λ e. refl)

quick_zero-vol : (c : Ctx) → (daemon_quick_format_zero_toc_chunk c).vol ≡ c.vol
unfolding daemon_quick_format_zero_toc_chunk submit chrono_admin_fulfill
quick_zero-vol c =
    if_cases (λ (x : Ctx). x.vol ≡ c.vol) (leb c.qf_staged_vol.data_start_block c.init_cur_block)
      (λ h. quick_header-vol c)
      (λ h. on_rc (λ (x : Ctx). x.vol ≡ c.vol) (next_rc c.sys.submit_rcs) refl (λ e. refl))

-- A quick format stages its header: the live one stays as it is from the request through every
-- write of the chain, accepted or refused, completed or failed, and is replaced by the staged one
-- only when the write of the header has succeeded.
pub daemon_quick_format-vol :
    (success : Bool) (c : Ctx)
    → ((daemon_quick_format_start c).vol ≡ c.vol)
      × ((daemon_quick_format_zero_toc_chunk_write_complete success c).vol ≡ c.vol)
      × ((daemon_quick_format_write_header_complete success c).vol
          ≡ (if success then c.qf_staged_vol else c.vol))
unfolding daemon_quick_format_start daemon_quick_format_zero_toc_chunk_write_complete
    daemon_quick_format_write_header_complete chrono_admin_fulfill
daemon_quick_format-vol true c = (quick_zero-vol _, quick_zero-vol _, refl)
daemon_quick_format-vol false c = (quick_zero-vol _, refl, refl)
