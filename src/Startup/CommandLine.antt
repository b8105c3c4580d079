-- ===== src/Startup/CommandLine.antt =====
-- A capture from the command line (src/main.c): what `cached_num_blocks` is in it, and what that
-- makes of its writes.
use chrontabulator.Base.{
  ℕ, ◌+◌, ◌^◌, ◌<◌, ◌≡◌, leb, refl, ◌∙◌, Bool, true, false, not, ◌==◌, arith, if_cases, ==_iff,
  if_true, ap, if◌then◌else◌,
}
use chrontabulator.Base.Mem.{Mem}
use chrontabulator.Format.{load_volume, volume_header_is_valid}
use chrontabulator.Ctx.{
  Ctx, Callback, WriteBuf, stopped_failed, volume_header_read, daemon_volume_header_read,
}
use chrontabulator.Ctx.Device.{
  submit, next_rc, fail_started, set_buffer, cleanup_and_stop, set_exit,
}
use chrontabulator.Capture.Keeps.{on_rc}
use chrontabulator.Capture.Buffers.{flush_buffer, past_end}
use chrontabulator.Capture.Claim.{
  claim_header_write_complete, claim_toc_write_complete, claim_segment_start, bring_up_port,
  toc_full, fresh_buffer,
}
use chrontabulator.Reader.Dump.{dump_start, list_start, list_read_next_chunk, seed_list}
use chrontabulator.Volume.Init.{init_start}
use chrontabulator.Startup.Start.{
  app_started, set_geometry, start_mode, daemon_start, daemon_bring_up_nic, read_header,
  take_header, volume_header_read_complete, refuse_options,
}

-- The device's size, as the write path knows it, is not set.
abbrev Unsized : Ctx → Type 0
Unsized c = c.cached_num_blocks ≡ 0

fail_started-Unsized : (c : Ctx) → Unsized c → Unsized (fail_started c)
unfolding fail_started
fail_started-Unsized c h =
    if_cases Unsized c.nic_up {x = record c { nic_up = false }} (λ e. h) (λ e. h)

bring_up_port-Unsized : (c : Ctx) → Unsized c → Unsized (bring_up_port c)
unfolding bring_up_port
bring_up_port-Unsized c h =
    if_cases Unsized (not (c.sys.hw.ports_available == 1)) (λ e. fail_started-Unsized c h)
      (λ e.
        if_cases Unsized (not c.sys.hw.pool_allocates) (λ e. fail_started-Unsized c h)
          (λ e.
            if_cases Unsized (not c.sys.hw.port_starts)
              {y = record c { nic_up = true; rx_poller = true }} (λ e. fail_started-Unsized c h)
              (λ e. h)))

claim_toc-Unsized :
    (success : Bool) (c : Ctx) → Unsized c → Unsized (claim_toc_write_complete success c)
unfolding claim_toc_write_complete submit
claim_toc-Unsized false c h = fail_started-Unsized c h
claim_toc-Unsized true c h =
    on_rc Unsized (next_rc c.sys.submit_rcs) h (λ e. fail_started-Unsized _ h)

claim_start-Unsized : (c : Ctx) → Unsized c → Unsized (claim_segment_start c)
unfolding claim_segment_start submit
claim_start-Unsized c h =
    if_cases Unsized (toc_full c) (λ e. fail_started-Unsized c h)
      (λ e. on_rc Unsized (next_rc c.sys.submit_rcs) h (λ e. fail_started-Unsized _ h))

claim_header-Unsized :
    (success : Bool) (c : Ctx) → Unsized c → Unsized (claim_header_write_complete success c)
unfolding claim_header_write_complete
claim_header-Unsized false c h = fail_started-Unsized c h
claim_header-Unsized true c h =
    let c1 = record c { next_write_block = c.segment_start_block } in
    let c2 = record c1 { buffers = λ i. fresh_buffer } in
    if_cases Unsized (not c1.sys.hw.write_buffers_allocate) {x = fail_started c1}
      {y = bring_up_port c2} (λ e. fail_started-Unsized c1 h) (λ e. bring_up_port-Unsized c2 h)

cleanup-Unsized : (clean : Bool) (c : Ctx) → Unsized c → Unsized (cleanup_and_stop clean c)
unfolding cleanup_and_stop
cleanup-Unsized clean c h =
    if_cases Unsized c.nic_up {x = record c { nic_up = false }} (λ e. h) (λ e. h)

dump_start-Unsized : (c : Ctx) → Unsized c → Unsized (dump_start c)
unfolding dump_start list_start list_read_next_chunk submit
dump_start-Unsized c h =
    if_cases Unsized (not c.opts.dump_segment_given)
      (λ e.
        if_cases Unsized (c1.dump_target_count == 0) (λ e. cleanup-Unsized true c1 h)
          (λ e.
            if_cases Unsized (leb c1.dump_target_count c1.dump_records_seen)
              (λ e. cleanup-Unsized true c1 h)
              (λ e. on_rc Unsized (next_rc c1.sys.submit_rcs) h (λ e. cleanup-Unsized false _ h))))
      (λ e. on_rc Unsized (next_rc c.sys.submit_rcs) h (λ e. cleanup-Unsized false _ h))
  where
    c1 : Ctx
    c1 = seed_list c

header-Unsized :
    (success : Bool) (c : Ctx) → Unsized c → Unsized (volume_header_read_complete success c)
unfolding volume_header_read_complete take_header
header-Unsized success c h =
    if_cases Unsized (not success) (λ e. fail_started-Unsized c h)
      (λ e.
        if_cases Unsized (not (volume_header_is_valid (load_volume c.vol_buf)))
          (λ e. fail_started-Unsized c h)
          (λ e.
            if_cases Unsized (not ((load_volume c.vol_buf).block_size == c.block_size))
              {x = fail_started c1}
              {y = if c.opts.dump_mode then dump_start c1 else claim_segment_start c1}
              (λ e. fail_started-Unsized c1 h)
              (λ e.
                if_cases Unsized c.opts.dump_mode (λ e. dump_start-Unsized c1 h)
                  (λ e. claim_start-Unsized c1 h))))
  where
    c1 : Ctx
    c1 = record c { vol = load_volume c.vol_buf }

init_start-Unsized : (c : Ctx) → Unsized c → Unsized (init_start c)
unfolding init_start submit
init_start-Unsized c h = on_rc Unsized (next_rc c.sys.submit_rcs) h (λ e. fail_started-Unsized _ h)

read_header-Unsized : (cb : Callback) (c : Ctx) → Unsized c → Unsized (read_header cb c)
unfolding read_header submit
read_header-Unsized cb c h =
    on_rc Unsized (next_rc c.sys.submit_rcs) h (λ e. fail_started-Unsized _ h)

daemon_start-Unsized : (c : Ctx) → Unsized c → Unsized (daemon_start c)
unfolding daemon_start daemon_bring_up_nic
daemon_start-Unsized c h =
    if_cases Good (not (c.sys.hw.ports_available == 1)) (λ e. fail_started-Unsized c h)
      (λ e.
        if_cases Good (not c.sys.hw.pool_allocates) (λ e. fail_started-Unsized c h)
          (λ e.
            if_cases Good (not c.sys.hw.port_starts) {y = (true, up)}
              (λ e. fail_started-Unsized c h)
              (λ e. read_header-Unsized daemon_volume_header_read up h)))
  where
    up : Ctx
    up = record c { nic_up = true; rx_poller = true }

    Good : Bool × Ctx → Type 0
    Good r = Unsized (if r.0 then read_header daemon_volume_header_read r.1 else r.1)

start_mode-Unsized : (c : Ctx) → Unsized c → Unsized (start_mode c)
unfolding start_mode
start_mode-Unsized c h =
    if_cases Unsized c.opts.init_mode (λ e. init_start-Unsized c h)
      (λ e.
        if_cases Unsized c.opts.serve_mode (λ e. daemon_start-Unsized c h)
          (λ e. read_header-Unsized volume_header_read c h))

set_geometry-Unsized : (c : Ctx) → Unsized c → Unsized (set_geometry c)
unfolding set_geometry
set_geometry-Unsized c h = h

allocated-Unsized :
    (g : Ctx)
    → Unsized g
    → Unsized (
        if not g.sys.hw.buffers_allocate
        then fail_started g
        else start_mode (record g { vol_buf = λ i. 0; io_buf = λ i. 0 }))
allocated-Unsized g h =
    if_cases Unsized (not g.sys.hw.buffers_allocate) (λ e. fail_started-Unsized g h)
      (λ e. start_mode-Unsized (record g { vol_buf = λ i. 0; io_buf = λ i. 0 }) h)

app_started-Unsized : (c : Ctx) → Unsized c → Unsized (app_started c)
unfolding app_started
app_started-Unsized c h =
    if_cases Unsized (refuse_options c.opts) {x = set_exit stopped_failed c} (λ e. h)
      (λ e.
        if_cases Unsized (not c.sys.hw.bdev_opens) {x = set_exit stopped_failed c} (λ e. h)
          (λ e.
            if_cases Unsized (not c.sys.hw.channel_opens) {x = set_exit stopped_failed c} (λ e. h)
              (λ e. allocated-Unsized (set_geometry c) (set_geometry-Unsized c h))))

flush_buffer-Unsized :
    (stop : Ctx → Ctx) (i : ℕ) (x : Ctx)
    → Unsized x
    → 0 < x.buf_size_blocks
    → x.next_write_block + x.buf_size_blocks < 2 ^ 64
    → ((flush_buffer stop i x).sys ≡ x.sys) × (((flush_buffer stop i x).buffers i).used ≡ 0)
unfolding flush_buffer
flush_buffer-Unsized stop i x h some_blocks small =
    if_cases Dropped ((x.buffers i).used == 0) (λ e. (refl, (==_iff (x.buffers i).used 0).0 e))
      (λ e.
        if_cases Dropped (past_end x x.next_write_block)
          {x = set_buffer i (record (x.buffers i) { used = 0 }) x} (λ e. (refl, emptied))
          (λ fits. absurd (ground (arith, past))))
  where
    Dropped : Ctx → Type 0
    Dropped y = (y.sys ≡ x.sys) × ((y.buffers i).used ≡ 0)

    past : past_end x x.next_write_block ≡ true
    past = ground arith

    emptied : (if i == i then record (x.buffers i) { used = 0 } else x.buffers i).used ≡ 0
    emptied = ap (λ (b : WriteBuf). b.used) (if_true (i == i) _ _ ((==_iff i i).1 refl))

-- The start of a capture from the command line: `m` is what the read of the header puts into its
-- buffer, the flags are the results of that read and of the two writes of the claim.
abbrev pub capture_start : Bool → Bool → Bool → Mem → Ctx → Ctx
capture_start read toc header m c = claim_header_write_complete header (
    claim_toc_write_complete toc
      (volume_header_read_complete read (record (app_started c) { vol_buf = m })))

-- A capture from the command line is started with the number of the device's blocks still zero, as
-- it is when the program starts; and while it is what the start left, a flush of a buffer, of some
-- blocks and without wrapping, submits nothing and leaves the buffer empty: its records are lost.
pub flush_buffer-capture_start :
    (read toc header : Bool) (m : Mem) (c x : Ctx) (stop : Ctx → Ctx) (i : ℕ)
    → c.cached_num_blocks ≡ 0
    → x.cached_num_blocks ≡ (capture_start read toc header m c).cached_num_blocks
    → 0 < x.buf_size_blocks
    → x.next_write_block + x.buf_size_blocks < 2 ^ 64
    → (x.cached_num_blocks ≡ 0)
      × ((flush_buffer stop i x).sys ≡ x.sys)
      × (((flush_buffer stop i x).buffers i).used ≡ 0)
flush_buffer-capture_start read toc header m c x stop i h e some_blocks small =
    let (same, empty) = flush_buffer-Unsized stop i x (e ∙ unsized) some_blocks small in
    (e ∙ unsized, same, empty)
  where
    unsized : Unsized (capture_start read toc header m c)
    unsized = claim_header-Unsized header _ (
        claim_toc-Unsized toc _
          (header-Unsized read (record (app_started c) { vol_buf = m }) (app_started-Unsized c h)))
