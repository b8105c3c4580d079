-- ===== src/Reactor/Chains.antt =====
-- The chains that close and claim a segment (src/main.c) submit no buffer's write.
use chrontabulator.Base.{refl, Bool, true, false, not, ◌==◌, if_cases, if◌then◌else◌, arith}
use chrontabulator.Ctx.{Ctx, Rc, ok, err, eio, enospc, daemon_finalize_toc_write, no_segment}
use chrontabulator.Ctx.Device.{fail_started, write_toc_slot}
use chrontabulator.Capture.Finalize.{
  fill_io_buf, advance_header, finalized_entry, finalize_toc_write_complete,
  finalize_header_write_complete, daemon_teardown_and_exit, daemon_finalize_toc_write_complete,
  daemon_finalize_header_write_complete, daemon_finalize_segment,
}
use chrontabulator.Capture.Claim.{
  open_entry, toc_full, take_segment, count_claim, fresh_buffer, bring_up_port,
  claim_header_write_complete, claim_toc_write_complete, claim_segment_start, claim_failed,
  daemon_claim_toc_write_complete, daemon_claim_segment_start,
}
use chrontabulator.Reactor.Books.{
  Keeps, Keeps-refl, Keeps-more, submit-next-Keeps, cleanup-Keeps, failed-Keeps, fulfill-Keeps,
}

pub finalize_toc-Keeps :
    (success : Bool) (c : Ctx) → Keeps 0 c (finalize_toc_write_complete success c)
unfolding finalize_toc_write_complete
finalize_toc-Keeps success c = cleanup-Keeps 0 true c

pub finalize_header-Keeps :
    (success : Bool) (c : Ctx) → Keeps 0 c (finalize_header_write_complete success c)
unfolding finalize_header_write_complete
finalize_header-Keeps success c =
    submit-next-Keeps 0 _ (fill_io_buf (finalized_entry c) c)
      (λ e x. finalize_toc_write_complete false x) refl (omega arith)
      (λ e x. finalize_toc-Keeps false x)

pub daemon_toc-Keeps :
    (success : Bool) (c : Ctx) → Keeps 0 c (daemon_finalize_toc_write_complete success c)
unfolding daemon_finalize_toc_write_complete daemon_teardown_and_exit
daemon_toc-Keeps success c =
    let c1 = record c { recording = false; current_segment_id = no_segment } in
    if_cases (Keeps 0 c) c.shutting_down
      (λ h. cleanup-Keeps 0 true (record c1 { rx_poller = false }))
      (λ h. fulfill-Keeps 0 (if success then ok else err eio) c1)

-- One closing write follows the other.
toc_submit-Keeps :
    (c : Ctx)
    → Keeps 1 c (
        let (rc, c2) = write_toc_slot c.segment_id daemon_finalize_toc_write c in
        elim rc [ ok ↦ c2 | err e ↦ daemon_finalize_toc_write_complete false c2 ])
toc_submit-Keeps c =
    submit-next-Keeps 1 _ c (λ e x. daemon_finalize_toc_write_complete false x) refl (omega arith)
      (λ e x. Keeps-more x (daemon_finalize_toc_write_complete false x) (daemon_toc-Keeps false x))

pub daemon_header-Keeps :
    (success : Bool) (c : Ctx) → Keeps 1 c (daemon_finalize_header_write_complete success c)
unfolding daemon_finalize_header_write_complete
daemon_header-Keeps true c =
    let c0 = record c { mirror_next_data_block = c.vol.next_data_block } in
    toc_submit-Keeps (fill_io_buf (finalized_entry c0) c0)
daemon_header-Keeps false c = toc_submit-Keeps (fill_io_buf (finalized_entry c) c)

pub daemon_finalize-Keeps : (c : Ctx) → Keeps 1 c (daemon_finalize_segment c)
unfolding daemon_finalize_segment
daemon_finalize-Keeps c =
    submit-next-Keeps 1 _ (advance_header c) (λ e x. daemon_finalize_header_write_complete false x)
      refl (omega arith) (λ e x. daemon_header-Keeps false x)

bring_up-Keeps : (c : Ctx) → Keeps 0 c (bring_up_port c)
unfolding bring_up_port
bring_up-Keeps c =
    if_cases (Keeps 0 c) (not (c.sys.hw.ports_available == 1)) (λ h. failed-Keeps 0 c)
      (λ h.
        if_cases (Keeps 0 c) (not c.sys.hw.pool_allocates) (λ h. failed-Keeps 0 c)
          (λ h.
            if_cases (Keeps 0 c) (not c.sys.hw.port_starts)
              {y = record c { nic_up = true; rx_poller = true }} (λ h. failed-Keeps 0 c)
              (λ h. Keeps-refl 0 c)))

pub claim_header-Keeps :
    (success : Bool) (c : Ctx) → Keeps 0 c (claim_header_write_complete success c)
unfolding claim_header_write_complete
claim_header-Keeps false c = failed-Keeps 0 c
claim_header-Keeps true c =
    let c1 = record c { next_write_block = c.segment_start_block } in
    if_cases (Keeps 0 c) (not c.sys.hw.write_buffers_allocate) (λ h. failed-Keeps 0 c1)
      (λ h. bring_up-Keeps (record c1 { buffers = λ i. fresh_buffer }))

pub claim_toc-Keeps : (success : Bool) (c : Ctx) → Keeps 0 c (claim_toc_write_complete success c)
unfolding claim_toc_write_complete
claim_toc-Keeps false c = failed-Keeps 0 c
claim_toc-Keeps true c =
    submit-next-Keeps 0 _ (count_claim c) (λ e x. fail_started x) refl (omega arith)
      (λ e x. failed-Keeps 0 x)

pub claim-Keeps : (c : Ctx) → Keeps 0 c (claim_segment_start c)
unfolding claim_segment_start
claim-Keeps c =
    let c1 = take_segment c in
    if_cases (Keeps 0 c) (toc_full c) (λ h. failed-Keeps 0 c)
      (λ h.
        submit-next-Keeps 0 _ (fill_io_buf (open_entry c1) c1) (λ e x. fail_started x) refl
          (omega arith) (λ e x. failed-Keeps 0 x))

claim_failed-Keeps : (rc : Rc) (c : Ctx) → Keeps 0 c (claim_failed rc c)
unfolding claim_failed
claim_failed-Keeps rc c = fulfill-Keeps 0 rc (record c { claim_in_progress = false })

pub daemon_claim_toc-Keeps :
    (success : Bool) (c : Ctx) → Keeps 0 c (daemon_claim_toc_write_complete success c)
unfolding daemon_claim_toc_write_complete
daemon_claim_toc-Keeps false c = claim_failed-Keeps (err eio) c
daemon_claim_toc-Keeps true c =
    submit-next-Keeps 0 _ (count_claim c) (λ e x. claim_failed (err e) x) refl (omega arith)
      (λ e x. claim_failed-Keeps (err e) x)

pub daemon_claim-Keeps : (c : Ctx) → Keeps 0 c (daemon_claim_segment_start c)
unfolding daemon_claim_segment_start
daemon_claim-Keeps c =
    let c1 = take_segment (record c { claim_in_progress = true }) in
    if_cases (Keeps 0 c) (toc_full c) (λ h. fulfill-Keeps 0 (err enospc) c)
      (λ h.
        submit-next-Keeps 0 _ (fill_io_buf (open_entry c1) c1) (λ e x. claim_failed (err e) x) refl
          (omega arith) (λ e x. claim_failed-Keeps (err e) x))
