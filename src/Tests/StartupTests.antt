-- ===== src/Tests/StartupTests.antt =====
-- Start-up and shutdown (src/main.c) at a device of 512-byte blocks.
use chrontabulator.Base.{
  ◌≤◌, ◌==◌, ◌↔◌, leb, if◌then◌else◌, ℕ, ◌+◌, ◌-◌, ◌*◌, ◌≡◌, refl, sym, ◌∙◌, ◌⊎◌, true, false, List,
  [], ◌∷◌, arith,
}
use chrontabulator.Wire.Address.{Text}
use chrontabulator.Ctx.{Ctx, write_io, write_complete}
use chrontabulator.Format.{store_volume, load_volume}
use chrontabulator.Base.Mem.{get_le}
use chrontabulator.Base.Fields.{load_fields}
use chrontabulator.Volume.Init.{fresh_volume}
use chrontabulator.Startup.Options.{
  default_opts, Configured, defaults, given, opt_b, opt_serve, opt_write_buffers, app_parse_arg,
  set_write_buffers,
}
use chrontabulator.Startup.Start.{
  app_started, set_geometry, volume_header_read_complete, daemon_volume_header_read_complete,
}
use chrontabulator.Startup.Start.Submits.{
  Failed, Reads, IsConsistent, header_callback, app_started-Reads,
}
use chrontabulator.Startup.Start.Geometry.{IsWellSized, Device, app_started-IsWellSized}
use chrontabulator.Startup.Start.Header.{
  Trusted, Ready, take_header-guard, daemon_volume_header_read_complete-Ready,
}
use chrontabulator.Startup.Port.{
  EthDev, success, failure, dev_info_get, dev_configure, adjust_nb_desc, rx_queue_setup,
  tx_queue_setup, dev_start, macaddr_get, link_get, delay_us, promiscuous_enable, mtu_refused,
  port_conf, wait_for_link, after_start, set_up_queues, configure_port, chrono_port_init,
}
use chrontabulator.Startup.Port.Waits.{waits_us}
use chrontabulator.Startup.Port.Ready.{IsUsable, chrono_port_init-IsUsable}
use chrontabulator.Capture.Claim.{fresh_buffer}
use chrontabulator.Capture.Buffers.{flush_buffer, stop_capture}
use chrontabulator.Startup.CommandLine.{capture_start, flush_buffer-capture_start}
use chrontabulator.Tests.Data.{recording_ctx}

-- Decimal digits, as `strtoul` reads them.
abbrev decimal_from : ℕ → Text → ℕ
decimal_from n [] = n
decimal_from n (c ∷ s) = decimal_from (n * 10 + (c - 48)) s

abbrev decimal : Text → ℕ
decimal = decimal_from 0

abbrev no_numbers : Text → List ℕ
no_numbers s = []

-- `-b … --serve --write-buffers=4`
abbrev starting : Ctx
starting = record recording_ctx {
  opts = record default_opts { bdev_given = true; serve_mode = true; write_buf_count = 4 };
}

starting-Configured : Configured decimal decimal no_numbers starting.opts
unfolding app_parse_arg set_write_buffers
starting-Configured =
    given opt_write_buffers (52 ∷ []) (record default_opts { bdev_given = true; serve_mode = true })
      (given opt_serve [] (record default_opts { bdev_given = true })
        (given opt_b [] default_opts defaults))

starting-Device : Device starting.sys.hw.bdev_block_size starting.sys.hw.bdev_write_unit_size 4096
starting-Device = record {
  some_block = omega arith;
  some_unit = omega arith;
  divides = omega arith;
}

app_started-Reads_example :
    Failed starting (app_started starting)
    ⊎ (IsConsistent starting.opts
        × Reads (header_callback starting.opts) (set_geometry starting) (app_started starting))
app_started-Reads_example = app_started-Reads starting

app_started-IsWellSized_example :
    Failed starting (app_started starting) ⊎ IsWellSized (app_started starting)
app_started-IsWellSized_example =
    app_started-IsWellSized decimal decimal no_numbers starting 4096 starting-Configured
      starting-Device

-- A device of zeros.
blank_version : (load_volume starting.vol_buf).version ≡ 0
unfolding load_volume get_le load_fields
blank_version = refl

unformatted : ¬ Trusted true starting
unformatted t = let e = sym t.2 ∙ blank_version in absurd (omega (arith, e))

take_header-guard_example :
    Failed starting (volume_header_read_complete true starting)
    × Failed starting (daemon_volume_header_read_complete true starting)
take_header-guard_example = take_header-guard true starting unformatted

abbrev formatted : Ctx
formatted = record starting { vol_buf = store_volume (λ i. 0) (fresh_volume 512 1700000000) }

daemon_volume_header_read_complete-Ready_example :
    Failed formatted (daemon_volume_header_read_complete true formatted)
    ⊎ (Trusted true formatted × Ready formatted (daemon_volume_header_read_complete true formatted))
daemon_volume_header_read_complete-Ready_example =
    daemon_volume_header_read_complete-Ready true formatted

-- A write is outstanding, and records wait in the other buffer.
abbrev writing_and_filling : Ctx
writing_and_filling = record recording_ctx {
  cur_buf = 1;
  buffers = λ i. record fresh_buffer { used = 64; in_flight = i == 0 };
  pending_writes = 1;
  sys = record recording_ctx.sys {
    inflight = write_io (4097 * 512) 4096 fresh_buffer.bytes (write_complete 0) ∷ [];
  };
}

abbrev from_shell : Ctx
from_shell = record starting {
  cached_num_blocks = 0;
  opts = record default_opts { bdev_given = true; udp_port = 5005 };
}

-- Capturing on, with the number of blocks that the start has left and some records to flush.
abbrev capturing : Ctx
capturing = record recording_ctx {
  cached_num_blocks = (capture_start true true true formatted.vol_buf from_shell).cached_num_blocks;
  buffers = λ i. record fresh_buffer { used = 64 };
}

flush_buffer-capture_start_example :
    (capturing.cached_num_blocks ≡ 0)
    × ((flush_buffer stop_capture 0 capturing).sys ≡ capturing.sys)
    × (((flush_buffer stop_capture 0 capturing).buffers 0).used ≡ 0)
flush_buffer-capture_start_example =
    flush_buffer-capture_start true true true formatted.vol_buf from_shell capturing stop_capture 0
      refl refl (omega arith) (omega arith)

-- A port that takes jumbo frames, and whose link is up after a second.
abbrev port : EthDev
port = record {
  is_valid = true;
  info = success;
  min_mtu = 68;
  max_mtu = 9000;
  can_scatter = true;
  configured = λ conf. if conf.scatter then success else failure 22;
  adjusted = success;
  nb_rxd = 1024;
  nb_txd = 512;
  rx_set_up = success;
  tx_set_up = success;
  started = success;
  mac = success;
  link_up = λ k. leb 5 k;
  promiscuous = success;
}

port_calls :
    (chrono_port_init port 9000 false).1
    ≡ dev_info_get
      ∷ dev_configure (record { speed_10g = false; mtu = 9000; scatter = true })
      ∷ adjust_nb_desc 1024 512
      ∷ rx_queue_setup 1024
      ∷ tx_queue_setup 512
      ∷ dev_start
      ∷ macaddr_get
      ∷ link_get
      ∷ delay_us 200000
      ∷ link_get
      ∷ delay_us 200000
      ∷ link_get
      ∷ delay_us 200000
      ∷ link_get
      ∷ delay_us 200000
      ∷ link_get
      ∷ delay_us 200000
      ∷ link_get
      ∷ promiscuous_enable
      ∷ []
unfolding chrono_port_init configure_port mtu_refused port_conf set_up_queues after_start
    wait_for_link
port_calls = refl

chrono_port_init-IsUsable_example :
    (((chrono_port_init port 9001 false).0 ≡ success) ↔ IsUsable port 9001 false)
    × (waits_us (chrono_port_init port 9001 false).1 ≤ 10000000)
chrono_port_init-IsUsable_example = chrono_port_init-IsUsable port 9001 false
