-- ===== src/Reactor/Poller.antt =====
-- What a burst of packets does to the counts of the daemon (src/main.c, `capture_poll`).
use chrontabulator.Base.{
  ℕ, ◌≤◌, ◌≡◌, ◌⊎◌, inl, inr, true, false, not, ◌&&◌, ◌||◌, Option, none, some, List, [], ◌∷◌, ltb,
  leb, ◌==◌, if_cases, add32, arith,
}
use chrontabulator.Wire.Frame.{Parsed}
use chrontabulator.Ctx.{Ctx, stop_disk_full, stop_count_limit}
use chrontabulator.Capture.Buffers.{past_end, stop_capture}
use chrontabulator.Capture.Poll.{
  Packet, count_drop, our_packet, rec_size, append_record, Next, go_on, leave, check_count_limit,
  store_packet, next_buffer, record_packet, idle, poll_packet, poll_burst,
}
use chrontabulator.Reactor.Books.{closings}
use chrontabulator.Reactor.Counted.{Sound, Live, IsDrained, Live→Sound}
use chrontabulator.Reactor.Writes.{flush-Sound, stop_capture-Sound}

-- With `d` writes counted beyond those outstanding and waiting.
module _ (d : ℕ) where
  -- The poller.
  limit-Sound : (n : ℕ) (c : Ctx) → Sound false d n c → Sound false d n (check_count_limit c).1
  unfolding check_count_limit
  limit-Sound n c h =
      if_cases (λ (r : Next × Ctx). Sound false d n r.1)
        (not (c.opts.count_limit == 0) && leb c.opts.count_limit c.record_count)
        (λ e. stop_capture-Sound false d n (record c { last_stop_reason = stop_count_limit }) h)
        (λ e. h)

  store-Sound :
      (n now : ℕ) (p : Packet) (r : Parsed) (c : Ctx)
      → Sound false d n c
      → Sound false d n (store_packet now p r c).1
  unfolding store_packet append_record
  store-Sound n now p r c h = limit-Sound n (append_record now p r c) h

  next_buffer-Sound : (n : ℕ) (c : Ctx) → Live false d n c → Sound false d n (next_buffer c)
  unfolding next_buffer
  next_buffer-Sound n c h = flush-Sound stop_capture stop_capture-Sound false d n c.cur_buf c h

  record-Sound :
      (n now : ℕ) (p : Packet) (r : Parsed) (c : Ctx)
      → Live false d n c
      → Sound false d n (record_packet now p r c).1
  unfolding record_packet
  record-Sound n now p r c h =
      let P = λ (x : Next × Ctx). Sound false d n x.1 in
      let s = Live→Sound false d n c h in
      let c1 = next_buffer c in
      let t = next_buffer-Sound n c h in
      if_cases P (c.buffers c.cur_buf).in_flight {x = (go_on, count_drop c)} (λ e. s)
        (λ e.
          if_cases P (leb (add32 (c.buffers c.cur_buf).used (rec_size r)) c.buf_size)
            (λ f. store-Sound n now p r c s)
            (λ f.
              if_cases P (past_end c c.next_write_block)
                (λ g.
                  stop_capture-Sound false d n
                    (count_drop (record c { last_stop_reason = stop_disk_full })) s)
                (λ g.
                  if_cases P ((c1.buffers c1.cur_buf).in_flight || ltb c1.buf_size (rec_size r))
                    {x = (go_on, count_drop c1)} (λ l. t) (λ l. store-Sound n now p r c1 t))))

  packet-Sound :
      (n now : ℕ) (p : Packet) (c : Ctx)
      → Sound false d n c
      → Sound false d n (poll_packet now p c).1
  unfolding poll_packet idle
  packet-Sound n now p c h =
      if_cases (λ (x : Next × Ctx). Sound false d n x.1) (p.answered || idle c) {x = (go_on, c)}
        (λ e. h) (λ e. ours (our_packet c p) (h.0, h.1, h.2, recording h.0 h.3 e))
    where
      recording :
          c.opts.serve_mode ≡ true
          → (closings c ≤ n) ⊎ IsDrained c
          → (p.answered || idle c) ≡ false
          → closings c ≤ n
      recording serve (inl l) e = l
      recording serve (inr d) e = absurd (ground arith)

      ours :
          (o : Option Parsed)
          → Live false d n c
          → (λ (x : Next × Ctx). Sound false d n x.1)
              (elim o [ none ↦ (go_on, c) | some r ↦ record_packet now p r c ])
      ours none l = Live→Sound false d n c l
      ours (some r) l = record-Sound n now p r c l

  pub burst-Sound :
      (n now : ℕ) (ps : List Packet) (c : Ctx)
      → Sound false d n c
      → Sound false d n (poll_burst now ps c)
  unfolding poll_burst
  burst-Sound n now [] c h = h
  burst-Sound n now (p ∷ ps) c h =
      onward (poll_packet now p c) (packet-Sound n now p c h) (burst-Sound n now ps)
    where
      onward :
          (r : Next × Ctx)
          → Sound false d n r.1
          → ((x : Ctx) → Sound false d n x → Sound false d n (poll_burst now ps x))
          → Sound false d n
              (let rest = poll_burst now ps r.1 in elim r.0 [ go_on ↦ rest | leave ↦ r.1 ])
      onward (go_on, x) s f = f x s
      onward (leave, x) s f = s
