-- ===== src/Ctx/Device.antt =====
-- How the program reaches what it does not implement: submitting I/O to SPDK, stopping the
-- application, answering the admin request. SPDK is asynchronous: a submission that returns 0 is
-- completed later, by a call of its completion function.
use chrontabulator.Base.{
  ℕ, Bool, true, false, List, [], ◌∷◌, ◌++◌, ◌==◌, if◌then◌else◌, mul64, add64,
}
use chrontabulator.Base.Mem.{fill}
use chrontabulator.Format.{Volume, store_volume}
use chrontabulator.Ctx.{
  Rc, ok, err, Io, write_io, Callback, Exit, stopped_clean, stopped_failed, Line, Item,
  AdminRequest, WriteBuf, Ctx,
}

abbrev pub next_rc : List Rc → Rc
next_rc [] = ok
next_rc (r ∷ rs) = r

abbrev pub rest_rcs : List Rc → List Rc
rest_rcs [] = []
rest_rcs (r ∷ rs) = rs

abbrev pub enqueue : Rc → Io → List Io → List Io
enqueue ok io ios = ios ++ io ∷ []
enqueue (err e) io ios = ios

-- `spdk_bdev_write` and `spdk_bdev_read`: the return code, and the I/O outstanding if it is 0.
unfoldable pub submit : Io → Ctx → Rc × Ctx
submit io c = (
  next_rc c.sys.submit_rcs,
  record c {
    sys = record c.sys {
      submit_rcs = rest_rcs c.sys.submit_rcs;
      inflight = enqueue (next_rc c.sys.submit_rcs) io c.sys.inflight;
    };
  },
)

abbrev pub set_exit : Exit → Ctx → Ctx
set_exit e c = record c { sys = record c.sys { exit = e } }

abbrev pub print_line : Line → Ctx → Ctx
print_line l c = record c { sys = record c.sys { printed = c.sys.printed ++ l ∷ [] } }

-- src/main.c: `chrono_port_teardown`, which does nothing when the port is not up.
abbrev pub chrono_port_teardown : Ctx → Ctx
chrono_port_teardown c = if c.nic_up then record c { nic_up = false } else c

-- src/main.c: `fail_started` stops with -1, `cleanup_and_stop` with the given code; what they
-- free is not read again.
unfoldable pub fail_started : Ctx → Ctx
fail_started c = set_exit stopped_failed (chrono_port_teardown c)

unfoldable pub cleanup_and_stop : Bool → Ctx → Ctx
cleanup_and_stop clean c =
    set_exit (if clean then stopped_clean else stopped_failed) (chrono_port_teardown c)

-- src/chrono_admin.c: `chrono_admin_fulfill`.
abbrev pub fulfill_request : Rc → AdminRequest → AdminRequest
fulfill_request rc req =
    if req.abandoned
    then record req { rc = rc; busy = false }
    else record req { rc = rc; done = true }

unfoldable pub chrono_admin_fulfill : Rc → Ctx → Ctx
chrono_admin_fulfill rc c = record c { admin_req = fulfill_request rc c.admin_req }

-- `admin_buf_appendf(req, …)`
abbrev pub respond : Item → Ctx → Ctx
respond i c = record c { admin_req = record c.admin_req { resp = c.admin_req.resp ++ i ∷ [] } }

-- `ctx->buffers[i] = b`
abbrev pub set_buffer : ℕ → WriteBuf → Ctx → Ctx
set_buffer i b c = record c { buffers = λ j. if j == i then b else c.buffers j }

-- The byte offset of a block.
abbrev pub block_offset : Ctx → ℕ → ℕ
block_offset c block = mul64 block c.block_size

-- `memset(ctx->vol_buf, 0, ctx->block_size); *(struct chrono_volume_header *)ctx->vol_buf = v;`
abbrev pub fill_vol_buf : Volume → Ctx → Ctx
fill_vol_buf v c = record c { vol_buf = store_volume (fill c.vol_buf 0 0 c.block_size) v }

-- Writing block 0 from `vol_buf`, and the block of a TOC slot from `io_buf`.
abbrev pub write_header : Callback → Ctx → Rc × Ctx
write_header cb c = submit (write_io 0 c.block_size c.vol_buf cb) c

abbrev pub toc_offset : Ctx → ℕ → ℕ
toc_offset c id = block_offset c (add64 c.vol.toc_start_block id)

abbrev pub write_toc_slot : ℕ → Callback → Ctx → Rc × Ctx
write_toc_slot id cb c = submit (write_io (toc_offset c id) c.block_size c.io_buf cb) c

-- The device accepts what is submitted.
abbrev pub accepting : Ctx → Ctx
accepting c = record c { sys = record c.sys { submit_rcs = [] } }
