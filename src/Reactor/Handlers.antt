-- ===== src/Reactor/Handlers.antt =====
-- What completions do to the counts of the daemon (src/main.c, src/chrono_admin.c).
use chrontabulator.Base.{ℕ, ◌+◌, ◌≤◌, ◌≡◌, ap, inl, Bool, true, false, List, ◌∷◌, ◌++◌, arith}
use chrontabulator.Base.Mem.{Mem}
use chrontabulator.Ctx.{
  Ctx, Io, write_io, read_io, vol_target, io_target, Callback, write_complete,
  finalize_header_write, finalize_toc_write, claim_toc_write, claim_header_write, dump_chunk_read,
  repair_chunk_bytes_write, dump_segment_entry_read, list_chunk_read, volume_header_read,
  init_check_read, init_zero_toc_chunk_write, init_header_write, daemon_finalize_header_write,
  daemon_finalize_toc_write, daemon_claim_toc_write, daemon_claim_header_write,
  daemon_quick_format_zero_write, daemon_quick_format_header_write, daemon_volume_header_read,
  admin_list_chunk_read, admin_records_entry_read, admin_records_chunk_read, admin_delete_read,
  admin_delete_write,
}
use chrontabulator.Ctx.Device.{chrono_admin_fulfill}
use chrontabulator.Capture.Claim.{daemon_claim_header_write_complete, claim_failed}
use chrontabulator.Reactor.{callback_of, completion, transfer, complete}
use chrontabulator.Reactor.Books.{
  Keeps, Keeps-refl, is_write, is_closing, count, count-middle, closings,
}
use chrontabulator.Reactor.Chains
use chrontabulator.Reactor.Volumes
use chrontabulator.Reactor.Formats
use chrontabulator.Reactor.Requests
use chrontabulator.Reactor.Counted.{
  Sound, Live, Counts, Live→Sound, serving-books, Counts-books, Keeps-Sound, closing-Sound,
}
use chrontabulator.Reactor.Writes.{completed-Sound}

-- With `d` writes counted beyond those outstanding and waiting.
module _ (d : ℕ) where
  -- Completions; the I/O itself is no longer outstanding.
  claimed-Sound :
      (n : ℕ) (success : Bool) (c : Ctx)
      → Live false d n c
      → Sound false d n (daemon_claim_header_write_complete success c)
  unfolding daemon_claim_header_write_complete claim_failed chrono_admin_fulfill
  claimed-Sound n false c h = Live→Sound false d n c h
  claimed-Sound n true c h = (h.0, h.1, (λ e. cc), inl h.3)

  live :
      (n : ℕ) (c : Ctx)
      → c.opts.serve_mode ≡ true
      → Counts (0 + d) c
      → closings c + 0 ≤ n
      → Live false d n c
  live n c s h k = (s, omega arith, (λ e. cc), omega arith)

  completion-Sound :
      (n : ℕ) (cb : Callback) (success : Bool) (c : Ctx)
      → c.opts.serve_mode ≡ true
      → Counts (is_write cb + d) c
      → closings c + is_closing cb ≤ n
      → Sound false d n (completion cb success c)
  unfolding completion
  completion-Sound n (write_complete i) b c s h k =
      completed-Sound false d n i b c (s, omega arith, (λ e. cc), omega arith)
  completion-Sound n daemon_finalize_header_write b c s h k =
      closing-Sound d n c (completion daemon_finalize_header_write b c)
        (Chains.daemon_header-Keeps b c) s (omega arith) k
  completion-Sound n daemon_finalize_toc_write b c s h k =
      Keeps-Sound false d n c (completion daemon_finalize_toc_write b c)
        (Chains.daemon_toc-Keeps b c) (s, omega arith, (λ e. cc), omega arith)
  completion-Sound n daemon_claim_header_write b c s h k = claimed-Sound n b c (live n c s h k)
  completion-Sound n finalize_header_write b c s h k =
      Keeps-Sound false d n c (completion finalize_header_write b c)
        (Chains.finalize_header-Keeps b c) (live n c s h k)
  completion-Sound n finalize_toc_write b c s h k =
      Keeps-Sound false d n c (completion finalize_toc_write b c) (Chains.finalize_toc-Keeps b c)
        (live n c s h k)
  completion-Sound n claim_toc_write b c s h k =
      Keeps-Sound false d n c (completion claim_toc_write b c) (Chains.claim_toc-Keeps b c)
        (live n c s h k)
  completion-Sound n claim_header_write b c s h k =
      Keeps-Sound false d n c (completion claim_header_write b c) (Chains.claim_header-Keeps b c)
        (live n c s h k)
  completion-Sound n dump_chunk_read b c s h k =
      Keeps-Sound false d n c (completion dump_chunk_read b c) (Volumes.dump_chunk-Keeps b c)
        (live n c s h k)
  completion-Sound n repair_chunk_bytes_write b c s h k =
      Keeps-Sound false d n c (completion repair_chunk_bytes_write b c) (Volumes.repaired-Keeps b c)
        (live n c s h k)
  completion-Sound n dump_segment_entry_read b c s h k =
      Keeps-Sound false d n c (completion dump_segment_entry_read b c)
        (Volumes.dump_entry-Keeps b c) (live n c s h k)
  completion-Sound n list_chunk_read b c s h k =
      Keeps-Sound false d n c (completion list_chunk_read b c) (Volumes.list_chunk-Keeps b c)
        (live n c s h k)
  completion-Sound n volume_header_read b c s h k =
      Keeps-Sound false d n c (completion volume_header_read b c) (Volumes.header_read-Keeps b c)
        (live n c s h k)
  completion-Sound n init_check_read b c s h k =
      Keeps-Sound false d n c (completion init_check_read b c) (Formats.init_check-Keeps b c)
        (live n c s h k)
  completion-Sound n init_zero_toc_chunk_write b c s h k =
      Keeps-Sound false d n c (completion init_zero_toc_chunk_write b c)
        (Formats.init_zeroed-Keeps b c) (live n c s h k)
  completion-Sound n init_header_write b c s h k =
      Keeps-Sound false d n c (completion init_header_write b c) (Formats.init_header-Keeps b c)
        (live n c s h k)
  completion-Sound n daemon_claim_toc_write b c s h k =
      Keeps-Sound false d n c (completion daemon_claim_toc_write b c)
        (Chains.daemon_claim_toc-Keeps b c) (live n c s h k)
  completion-Sound n daemon_quick_format_zero_write b c s h k =
      Keeps-Sound false d n c (completion daemon_quick_format_zero_write b c)
        (Formats.format_zeroed-Keeps b c) (live n c s h k)
  completion-Sound n daemon_quick_format_header_write b c s h k =
      Keeps-Sound false d n c (completion daemon_quick_format_header_write b c)
        (Formats.format_header-Keeps b c) (live n c s h k)
  completion-Sound n daemon_volume_header_read b c s h k =
      Keeps-Sound false d n c (completion daemon_volume_header_read b c)
        (Volumes.daemon_header_read-Keeps b c) (live n c s h k)
  completion-Sound n admin_list_chunk_read b c s h k =
      Keeps-Sound false d n c (completion admin_list_chunk_read b c) (Requests.list_chunk-Keeps b c)
        (live n c s h k)
  completion-Sound n admin_records_entry_read b c s h k =
      Keeps-Sound false d n c (completion admin_records_entry_read b c)
        (Requests.records_entry-Keeps b c) (live n c s h k)
  completion-Sound n admin_records_chunk_read b c s h k =
      Keeps-Sound false d n c (completion admin_records_chunk_read b c)
        (Requests.records_chunk-Keeps b c) (live n c s h k)
  completion-Sound n admin_delete_read b c s h k =
      Keeps-Sound false d n c (completion admin_delete_read b c) (Requests.delete_read-Keeps b c)
        (live n c s h k)
  completion-Sound n admin_delete_write b c s h k =
      Keeps-Sound false d n c (completion admin_delete_write b c) (Requests.delete_write-Keeps b c)
        (live n c s h k)

  -- The transfer itself only moves bytes.
  transfer-Keeps :
      (io : Io) (success : Bool) (m : Mem) (c : Ctx) → Keeps 0 c (transfer io success m c)
  unfolding transfer
  transfer-Keeps (write_io offset len bytes cb) success m c = Keeps-refl 0 c
  transfer-Keeps (read_io offset len vol_target cb) success m c = Keeps-refl 0 c
  transfer-Keeps (read_io offset len io_target cb) success m c = Keeps-refl 0 c

  pub complete-Sound :
      (c : Ctx) (before after : List Io) (io : Io) (success : Bool) (m : Mem)
      → c.sys.inflight ≡ before ++ io ∷ after
      → c.opts.serve_mode ≡ true
      → Counts d c
      → Sound false d (closings c) (complete (before ++ after) io success m c)
  unfolding complete
  complete-Sound c before after io success m e s h =
      let x = record c { sys = record c.sys { inflight = before ++ after } } in
      let y = transfer io success m x in
      let k = transfer-Keeps io success m x in
      completion-Sound (closings c) (callback_of io) success y (serving-books x y k.0 s)
        (Counts-books (is_write (callback_of io) + d) x y k.0
          (omega (arith, ap (count is_write) e, count-middle is_write before io after)))
        (omega (arith, k.1, ap (count is_closing) e, count-middle is_closing before io after))
