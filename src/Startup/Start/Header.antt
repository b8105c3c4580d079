-- ===== src/Startup/Start/Header.antt =====
-- What a start makes of the volume header that it read (src/main.c).
use chrontabulator.Base.{
  ◌≡◌, refl, ◌⊎◌, inl, inr, Bool, true, not, ◌&&◌, ◌==◌, if◌then◌else◌, if_cases, arith,
}
use chrontabulator.Format.{Volume, volume_magic, load_volume, volume_header_is_valid}
use chrontabulator.Ctx.{Ctx, no_segment}
use chrontabulator.Ctx.Device.{fail_started}
use chrontabulator.Startup.Start.{
  take_header, volume_header_read_complete, daemon_volume_header_read_complete,
  daemon_finish_startup, chrono_admin_init, publish_volume, zero_request,
}
use chrontabulator.Startup.Start.Submits.{Failed, fail_started-Failed}

-- The header was read, has the magic number and the version 2 of the format, and was made for the
-- device's block size.
abbrev pub Trusted : Bool → Ctx → Type 0
Trusted success c =
    (success ≡ true)
    × ((load_volume c.vol_buf).magic ≡ volume_magic)
    × ((load_volume c.vol_buf).version ≡ 2)
    × ((load_volume c.vol_buf).block_size ≡ c.block_size)

abbrev with_header : Ctx → Ctx
with_header c = record c { vol = load_volume c.vol_buf }

valid_cases :
    (v : Volume) → volume_header_is_valid v ≡ true → (v.magic ≡ volume_magic) × (v.version ≡ 2)
unfolding volume_header_is_valid
valid_cases v h = (ground arith, ground arith)

take_header-cases :
    (P : Ctx → Type 0) (next : Ctx → Ctx) (success : Bool) (c : Ctx)
    → ((x : Ctx) → x.sys.inflight ≡ c.sys.inflight → P (fail_started x))
    → (Trusted success c → P (next (with_header c)))
    → P (take_header next success c)
unfolding take_header
take_header-cases P next success c failed good =
    if_cases P (not success) (λ h. failed c refl)
      (λ read.
        if_cases P (not (volume_header_is_valid (load_volume c.vol_buf))) (λ h. failed c refl)
          (λ valid.
            if_cases P (not ((load_volume c.vol_buf).block_size == c.block_size))
              (λ h. failed (with_header c) refl)
              (λ same.
                let v = valid_cases (load_volume c.vol_buf) (ground arith) in
                good (ground arith, v.0, v.1, ground arith))))

-- A volume whose header was not read, has another magic number or another version than 2, or was made
-- for another block size, is neither recorded on, dumped nor served: the program fails, and submits
-- nothing more.
pub take_header-guard :
    (success : Bool) (c : Ctx)
    → ¬ Trusted success c
    → Failed c (volume_header_read_complete success c)
      × Failed c (daemon_volume_header_read_complete success c)
unfolding volume_header_read_complete daemon_volume_header_read_complete
take_header-guard success c bad = (
  take_header-cases (Failed c) _ success c (fail_started-Failed c) (λ t. absurd (bad t)),
  take_header-cases (Failed c) _ success c (fail_started-Failed c) (λ t. absurd (bad t)),
)

-- The daemon is ready: the header is taken over, what the web server's thread reads agrees with it
-- and with the device, no segment is open, the request slot is free, and nothing is submitted.
pub record Ready (c x : Ctx) : Type 0 where
  pub header : x.vol ≡ load_volume c.vol_buf
  pub next_id : x.mirror_next_segment_id ≡ x.vol.next_segment_id
  pub next_block : x.mirror_next_data_block ≡ x.vol.next_data_block
  pub blocks : x.cached_num_blocks ≡ c.sys.hw.bdev_num_blocks
  pub no_open_segment : x.current_segment_id ≡ no_segment
  pub free_slot : x.admin_req ≡ zero_request
  pub nothing_submitted : x.sys.inflight ≡ c.sys.inflight
  pub still_running : x.sys.exit ≡ c.sys.exit

-- Once the daemon's read of the header has completed, either the program has failed and submitted
-- nothing, or the header is one to trust and the daemon is ready.
pub daemon_volume_header_read_complete-Ready :
    (success : Bool) (c : Ctx)
    → Failed c (daemon_volume_header_read_complete success c)
      ⊎ (Trusted success c × Ready c (daemon_volume_header_read_complete success c))
unfolding daemon_volume_header_read_complete daemon_finish_startup chrono_admin_init
daemon_volume_header_read_complete-Ready success c =
    take_header-cases Good daemon_finish_startup success c (λ x h. inl (fail_started-Failed c x h))
      (λ t.
        if_cases Good (not c.sys.hw.write_buffers_allocate) {x = fail_started (with_header c)}
          {y = admin_started} (λ h. inl (fail_started-Failed c (with_header c) refl))
          (λ h.
            if_cases Good (not c.sys.hw.admin_starts) {x = fail_started with_request}
              {y = web_started} (λ h. inl (fail_started-Failed c with_request refl))
              (λ h.
                if_cases Good (not (c.opts.web_port == 0) && not c.sys.hw.web_starts)
                  {x = fail_started published} {y = published}
                  (λ h. inl (fail_started-Failed c published refl)) (λ h. inr (t, ready)))))
  where
    Good : Ctx → Type 0
    Good x = Failed c x ⊎ (Trusted success c × Ready c x)

    with_request : Ctx
    with_request = record (with_header c) {
      buffers = λ i. record (c.buffers i) { bytes = λ j. 0 };
      admin_req = zero_request;
    }

    published : Ctx
    published = publish_volume with_request

    web_started : Ctx
    web_started =
        if not (c.opts.web_port == 0) && not c.sys.hw.web_starts
        then fail_started published
        else published

    admin_started : Ctx
    admin_started = if not c.sys.hw.admin_starts then fail_started with_request else web_started

    ready : Ready c published
    ready = record {
      header = refl;
      next_id = refl;
      next_block = refl;
      blocks = refl;
      no_open_segment = refl;
      free_slot = refl;
      nothing_submitted = refl;
      still_running = refl;
    }
