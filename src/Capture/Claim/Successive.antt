-- ===== src/Capture/Claim/Successive.antt =====
-- A segment that is claimed after another was closed (src/main.c).
use chrontabulator.Base.{
  ◌+◌, ◌^◌, ◌≤◌, ◌<◌, ◌≡◌, refl, ap, ◌∙◌, Bool, false, leb, arith, add32, sub64, if_cases,
}
use chrontabulator.Format.{Volume}
use chrontabulator.Ctx.{Ctx}
use chrontabulator.Ctx.Device.{submit, next_rc, chrono_admin_fulfill}
use chrontabulator.Capture.Keeps.{on_rc}
use chrontabulator.Capture.Finalize.{finalized_entry}
use chrontabulator.Capture.Finalize.Chain.{closed, closed-vol, closing_header}
use chrontabulator.Capture.Claim.{daemon_claim_segment_start, open_entry, toc_full, claim_failed}

-- The header that the claim goes by.
abbrev Taken : Ctx → Ctx → Type 0
Taken c x = (x.segment_id ≡ c.vol.next_segment_id) × (x.segment_start_block ≡ c.vol.next_data_block)

claim-Taken : (c : Ctx) → toc_full c ≡ false → Taken c (daemon_claim_segment_start c)
unfolding daemon_claim_segment_start submit claim_failed chrono_admin_fulfill
claim-Taken c room =
    if_cases (Taken c) (toc_full c) (λ full. absurd (ground arith))
      (λ h. on_rc (Taken c) (next_rc c.sys.submit_rcs) (refl, refl) (λ e. (refl, refl)))

-- Segments of one volume lie one behind the other: once a recording of the daemon has been closed,
-- its writes accepted, the next claim, if the table has room, takes the next id, and a segment
-- that starts exactly where the closed one ends.
pub daemon_claim_segment_start-closed :
    (header_ok toc_ok : Bool) (c : Ctx)
    → c.shutting_down ≡ false
    → c.segment_start_block ≤ c.next_write_block
    → c.next_write_block < 2 ^ 64
    → c.vol.next_segment_id ≡ add32 c.segment_id 1
    → c.vol.next_segment_id < c.vol.toc_slot_count
    → let before = finalized_entry c in
      let after = open_entry (daemon_claim_segment_start (closed header_ok toc_ok c)) in
      (after.segment_id ≡ add32 before.segment_id 1)
      × (after.start_block ≡ before.start_block + before.block_count)
unfolding finalized_entry open_entry toc_full
daemon_claim_segment_start-closed header_ok toc_ok c idle order small counted room = (
  taken.0 ∙ ap (λ (v : Volume). v.next_segment_id) header ∙ counted,
  taken.1 ∙ ap (λ (v : Volume). v.next_data_block) header ∙ length,
)
  where
    x : Ctx
    x = closed header_ok toc_ok c

    header : x.vol ≡ closing_header c
    header = closed-vol header_ok toc_ok c idle

    has_room : toc_full x ≡ false
    has_room = ap (λ (v : Volume). leb v.toc_slot_count v.next_segment_id) header ∙ (ground arith)

    taken : Taken x (daemon_claim_segment_start x)
    taken = claim-Taken x has_room

    length :
        c.next_write_block ≡ c.segment_start_block + sub64 c.next_write_block c.segment_start_block
    length = omega arith
