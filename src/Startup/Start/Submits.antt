-- ===== src/Startup/Start/Submits.antt =====
-- What start-up submits and when it gives up (src/main.c, `app_started` and what it calls).
use mathlib.Core.Path.{subst}
use chrontabulator.Base.{
  ℕ, ◌+◌, ◌≤◌, ◌<◌, ◌≡◌, refl, ◌∙◌, ◌⊎◌, inl, inr, Bool, true, false, not, [], ◌∷◌, ◌++◌, arith,
  ◌==◌, if◌then◌else◌, if_cases,
}
use chrontabulator.Ctx.{
  Ctx, Opts, Rc, ok, err, read_io, vol_target, Callback, init_check_read, volume_header_read,
  daemon_volume_header_read, stopped_failed,
}
use chrontabulator.Ctx.Device.{submit, fail_started, next_rc, rest_rcs, enqueue}
use chrontabulator.Volume.Init.{init_start}
use chrontabulator.Startup.Start.{
  app_started, start_mode, daemon_start, daemon_bring_up_nic, read_header, refuse_options,
  set_geometry,
}

-- The program has given up and has submitted nothing on top of what `c` had outstanding.
abbrev pub Failed : Ctx → Ctx → Type 0
Failed c x = (x.sys.exit ≡ stopped_failed) × (x.sys.inflight ≡ c.sys.inflight)

pub fail_started-Failed : (c x : Ctx) → x.sys.inflight ≡ c.sys.inflight → Failed c (fail_started x)
unfolding fail_started
fail_started-Failed c x h =
    if_cases (λ (y : Ctx). (stopped_failed ≡ stopped_failed) × (y.sys.inflight ≡ c.sys.inflight))
      x.nic_up {x = record x { nic_up = false }} (λ e. (refl, h)) (λ e. (refl, h))

abbrev pub SameGeometry : Ctx → Ctx → Type 0
SameGeometry c x =
    (x.block_size ≡ c.block_size)
    × (x.buf_size ≡ c.buf_size)
    × (x.buf_size_blocks ≡ c.buf_size_blocks)
    × (x.write_buf_count ≡ c.write_buf_count)

-- One read of block 0 has been submitted.
abbrev pub Reads : Callback → Ctx → Ctx → Type 0
Reads cb c x =
    (x.sys.inflight ≡ c.sys.inflight ++ read_io 0 c.block_size vol_target cb ∷ [])
    × (x.sys.exit ≡ c.sys.exit)
    × SameGeometry c x

abbrev Outcome : Callback → Ctx → Ctx → Type 0
Outcome cb c x = Failed c x ⊎ Reads cb c x

answered :
    (cb : Callback) (c : Ctx) (rc : Rc)
    → let after : Ctx = record c {
      sys = record c.sys {
        submit_rcs = rest_rcs c.sys.submit_rcs;
        inflight = enqueue rc (read_io 0 c.block_size vol_target cb) c.sys.inflight;
      };
    } in
      Outcome cb c (elim rc [ ok ↦ after | err e ↦ fail_started after ])
answered cb c ok = inr (refl, refl, (refl, refl, refl, refl))
answered cb c (err e) = inl (fail_started-Failed c _ refl)

init_start-Outcome : (c : Ctx) → Outcome init_check_read c (init_start c)
unfolding init_start submit
init_start-Outcome c = answered init_check_read c (next_rc c.sys.submit_rcs)

read_header-Outcome : (cb : Callback) (c : Ctx) → Outcome cb c (read_header cb c)
unfolding read_header submit
read_header-Outcome cb c = answered cb c (next_rc c.sys.submit_rcs)

daemon_start-Outcome : (c : Ctx) → Outcome daemon_volume_header_read c (daemon_start c)
unfolding daemon_start daemon_bring_up_nic
daemon_start-Outcome c =
    if_cases Good (not (c.sys.hw.ports_available == 1)) (λ h. inl failed)
      (λ h.
        if_cases Good (not c.sys.hw.pool_allocates) (λ h. inl failed)
          (λ h.
            if_cases Good (not c.sys.hw.port_starts) {y = (true, up)} (λ h. inl failed)
              (λ h. read_header-Outcome daemon_volume_header_read up)))
  where
    up : Ctx
    up = record c { nic_up = true; rx_poller = true }

    Good : Bool × Ctx → Type 0
    Good r =
        Outcome daemon_volume_header_read c
          (if r.0 then read_header daemon_volume_header_read r.1 else r.1)

    failed : Failed c (fail_started c)
    failed = fail_started-Failed c c refl

-- The mode's completion function for the read of the header.
abbrev pub header_callback : Opts → Callback
header_callback o =
    if o.init_mode
    then init_check_read
    else if o.serve_mode
    then daemon_volume_header_read
    else volume_header_read

start_mode-Outcome : (c : Ctx) → Outcome (header_callback c.opts) c (start_mode c)
unfolding start_mode
start_mode-Outcome c = by_mode c.opts.init_mode c.opts.serve_mode
  where
    by_mode :
        (i s : Bool)
        → Outcome
            (if i
              then init_check_read
              else if s
              then daemon_volume_header_read
              else volume_header_read)
            c
            (if i
              then init_start c
              else if s
              then daemon_start c
              else read_header volume_header_read c)
    by_mode true s = init_start-Outcome c
    by_mode false true = daemon_start-Outcome c
    by_mode false false = read_header-Outcome volume_header_read c

abbrev count : Bool → ℕ
count b = if b then 1 else 0

-- The options make sense together: a device, at most one mode, a port where packets are captured
-- from the command line, and a segment to dump only in a dump.
abbrev pub modes : Opts → ℕ
modes o = count o.dump_mode + count o.init_mode + count o.serve_mode

pub record IsConsistent (o : Opts) : Type 0 where
  pub device : o.bdev_given ≡ true
  pub one_mode : modes o ≤ 1
  pub port : modes o ≡ 0 → 0 < o.udp_port
  pub dump_only : o.dump_segment_given ≡ true → o.dump_mode ≡ true

pub refuse_options-IsConsistent : (o : Opts) → refuse_options o ≡ false → IsConsistent o
unfolding refuse_options
refuse_options-IsConsistent o h = record {
  device = ground arith;
  one_mode = ground arith;
  port = ground arith;
  dump_only = ground arith;
}

set_geometry-opts : (c : Ctx) → (set_geometry c).opts ≡ c.opts
unfolding set_geometry
set_geometry-opts c = refl

set_geometry-inflight : (c : Ctx) → (set_geometry c).sys.inflight ≡ c.sys.inflight
unfolding set_geometry
set_geometry-inflight c = refl

abbrev Started : Ctx → Ctx → Ctx → Type 0
Started c g x = Failed c x ⊎ (IsConsistent c.opts × Reads (header_callback c.opts) g x)

start_allocated :
    (c g : Ctx)
    → g.opts ≡ c.opts
    → g.sys.inflight ≡ c.sys.inflight
    → IsConsistent c.opts
    → Started c g (
        if not g.sys.hw.buffers_allocate
        then fail_started g
        else start_mode (record g { vol_buf = λ i. 0; io_buf = λ i. 0 }))
start_allocated c g same_opts same k =
    if_cases (Started c g) (not g.sys.hw.buffers_allocate) (λ h. inl (fail_started-Failed c g same))
      (λ h. go_on (start_mode ready) (start_mode-Outcome ready))
  where
    ready : Ctx
    ready = record g { vol_buf = λ i. 0; io_buf = λ i. 0 }

    go_on : (x : Ctx) → Outcome (header_callback g.opts) g x → Started c g x
    go_on x (inl (e, i)) = inl (e, i ∙ same)
    go_on x (inr reads) =
        inr (k, subst (λ (o : Opts). Reads (header_callback o) g x) same_opts reads)

-- When SPDK has started, the program either stops with a failure and has submitted nothing, or its
-- options make sense together, it goes on, and exactly one I/O has been submitted: the read of
-- block 0, for the completion function of its mode. Nothing is written in either case.
pub app_started-Reads :
    (c : Ctx)
    → Failed c (app_started c)
      ⊎ (IsConsistent c.opts × Reads (header_callback c.opts) (set_geometry c) (app_started c))
unfolding app_started
app_started-Reads c =
    if_cases (Started c (set_geometry c)) (refuse_options c.opts) (λ h. inl (refl, refl))
      (λ consistent.
        if_cases (Started c (set_geometry c)) (not c.sys.hw.bdev_opens) (λ h. inl (refl, refl))
          (λ h.
            if_cases (Started c (set_geometry c)) (not c.sys.hw.channel_opens)
              (λ h. inl (refl, refl))
              (λ h.
                start_allocated c (set_geometry c) (set_geometry-opts c) (set_geometry-inflight c)
                  (refuse_options-IsConsistent c.opts consistent))))
