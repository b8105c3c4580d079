-- ===== src/Capture/Poll/Records.antt =====
-- What the poller (src/main.c, `capture_poll`) does with a packet of ours.
use chrontabulator.Base.{
  ℕ, suc, ◌+◌, ◌^◌, ◌<◌, ◌≡◌, ◌≢◌, refl, ap, ◌∙◌, Bool, true, false, not, ◌&&◌, ◌||◌, ◌==◌, ltb,
  leb, Option, none, some, List, [], ◌∷◌, add32, if_cases, arith,
}
use chrontabulator.Wire.Frame.{Parsed}
use chrontabulator.Ctx.{Ctx, WriteBuf, stop_disk_full, stop_count_limit}
use chrontabulator.Capture.Buffers.{flush_buffer, stop_capture, past_end}
use chrontabulator.Capture.Keeps.{Kept, kept, flush_buffer-Same, stop_capture-Same}
use chrontabulator.Capture.Poll.{
  Packet, Next, go_on, leave, count_drop, append_record, check_count_limit, store_packet,
  next_buffer, record_packet, rec_size, poll_packet, poll_burst, idle, our_packet,
}

-- Records and drops together.
abbrev pub accounted : Ctx → ℕ
accounted c = c.record_count + c.dropped_count

stop-kept : (c : Ctx) → kept (stop_capture c) ≡ kept c
stop-kept c = (stop_capture-Same (suc c.cur_buf) c (omega arith)).1

flush-kept : (c : Ctx) → kept (flush_buffer stop_capture c.cur_buf c) ≡ kept c
flush-kept c = (flush_buffer-Same (suc c.cur_buf) c (omega arith)).1

stop-accounted : (c : Ctx) → accounted (stop_capture c) ≡ accounted c
stop-accounted c = ap (λ (k : Kept). k.record_count + k.dropped_count) (stop-kept c)

next_buffer-accounted : (c : Ctx) → accounted (next_buffer c) ≡ accounted c
unfolding next_buffer
next_buffer-accounted c = ap (λ (k : Kept). k.record_count + k.dropped_count) (flush-kept c)

count_limit-accounted : (c : Ctx) → accounted (check_count_limit c).1 ≡ accounted c
unfolding check_count_limit
count_limit-accounted c =
    if_cases (λ (x : Next × Ctx). accounted x.1 ≡ accounted c)
      (not (c.opts.count_limit == 0) && leb c.opts.count_limit c.record_count)
      (λ h. stop-accounted (record c { last_stop_reason = stop_count_limit })) (λ h. refl)

module _ (now : ℕ) (p : Packet) (r : Parsed) where
  store-accounted :
      (c : Ctx) → accounted c + 1 < 2 ^ 64 → accounted (store_packet now p r c).1 ≡ accounted c + 1
  unfolding store_packet
  store-accounted c b =
      count_limit-accounted (append_record now p r c) ∙ (unfold append_record in omega arith)

  -- A packet of ours that comes while recording is either recorded or counted as dropped, and
  -- exactly one of the two, on every path through the poller: with the buffer busy, with room in
  -- it, at the end of the device, after a flush, and when the count limit stops the recording.
  -- The two counters must not be about to wrap.
  pub record_packet-accounted :
      (c : Ctx) → accounted c + 1 < 2 ^ 64 → accounted (record_packet now p r c).1 ≡ accounted c + 1
  unfolding record_packet
  record_packet-accounted c b =
      let Good : Next × Ctx → Type 0 = λ x. accounted x.1 ≡ accounted c + 1 in
      let c1 = next_buffer c in
      let same : accounted c1 ≡ accounted c = next_buffer-accounted c in
      if_cases Good (c.buffers c.cur_buf).in_flight (λ h. omega arith)
        (λ h.
          if_cases Good (leb (add32 (c.buffers c.cur_buf).used (rec_size r)) c.buf_size)
            (λ k. store-accounted c b)
            (λ k.
              if_cases Good (past_end c c.next_write_block)
                (λ l.
                  stop-accounted (count_drop (record c { last_stop_reason = stop_disk_full }))
                  ∙ (omega arith))
                (λ l.
                  if_cases Good ((c1.buffers c1.cur_buf).in_flight || ltb c1.buf_size (rec_size r))
                    (λ m. omega arith) (λ m. store-accounted c1 (omega arith) ∙ (omega arith)))))

neither : (a b : Bool) → (a || b) ≡ false → a ≡ false
neither a b h = ground arith

other_than :
    (j : ℕ) (c : Ctx)
    → (c.buffers j).in_flight ≡ true
    → (c.buffers c.cur_buf).in_flight ≡ false
    → j ≢ c.cur_buf
other_than j c h k e = ground arith

module _ (now : ℕ) (p : Packet) (r : Parsed) (j : ℕ) where
  store-Untouched : (c : Ctx) → j ≢ c.cur_buf → (store_packet now p r c).1.buffers j ≡ c.buffers j
  unfolding store_packet check_count_limit append_record
  store-Untouched c n =
      let c1 = append_record now p r c in
      let appended : c1.buffers j ≡ c.buffers j = ground arith in
      if_cases (λ (x : Next × Ctx). x.1.buffers j ≡ c.buffers j)
        (not (c.opts.count_limit == 0) && leb c.opts.count_limit c1.record_count)
        (λ h.
          (stop_capture-Same j (record c1 { last_stop_reason = stop_count_limit }) n).0 ∙ appended)
        (λ h. appended)

  -- The poller leaves a buffer that is being written alone, whatever the packet leads to: the
  -- device reads the memory of an outstanding write.
  pub record_packet-in_flight :
      (c : Ctx)
      → (c.buffers j).in_flight ≡ true
      → (record_packet now p r c).1.buffers j ≡ c.buffers j
  unfolding record_packet next_buffer
  record_packet-in_flight c f =
      let Good : Next × Ctx → Type 0 = λ x. x.1.buffers j ≡ c.buffers j in
      let c1 = next_buffer c in
      if_cases Good (c.buffers c.cur_buf).in_flight (λ h. refl)
        (λ h.
          let n : j ≢ c.cur_buf = other_than j c f h in
          let same : c1.buffers j ≡ c.buffers j = (flush_buffer-Same j c n).0 in
          if_cases Good (leb (add32 (c.buffers c.cur_buf).used (rec_size r)) c.buf_size)
            (λ k. store-Untouched c n)
            (λ k.
              if_cases Good (past_end c c.next_write_block)
                (λ l.
                  (stop_capture-Same j (count_drop (record c { last_stop_reason = stop_disk_full }))
                    n).0)
                (λ l.
                  if_cases Good ((c1.buffers c1.cur_buf).in_flight || ltb c1.buf_size (rec_size r))
                    (λ m. same)
                    (λ m.
                      store-Untouched c1 (
                        other_than j c1 (ap (λ (b : WriteBuf). b.in_flight) same ∙ f) (
                          neither (c1.buffers c1.cur_buf).in_flight (ltb c1.buf_size (rec_size r))
                            m))
                      ∙ same))))

on_next :
    (P : Ctx → Type 0) (n : Next) {a b : Ctx} → P a → P b → P (elim n [ go_on ↦ a | leave ↦ b ])
on_next P go_on x y = x
on_next P leave x y = y

poll_packet-in_flight :
    (now : ℕ) (p : Packet) (j : ℕ) (c : Ctx)
    → (c.buffers j).in_flight ≡ true
    → (poll_packet now p c).1.buffers j ≡ c.buffers j
unfolding poll_packet
poll_packet-in_flight now p j c f =
    let Good : Next × Ctx → Type 0 = λ x. x.1.buffers j ≡ c.buffers j in
    if_cases Good (p.answered || idle c) (λ h. refl) (λ h. ours (our_packet c p))
  where
    ours :
        (o : Option Parsed)
        → (elim o as (λ o. Next × Ctx) [
          | none ↦ (go_on, c)
          | some r ↦ record_packet now p r c
        ]).1.buffers
            j
          ≡ c.buffers j
    ours none = refl
    ours (some r) = record_packet-in_flight now p r j c f

-- A whole burst leaves every buffer that is being written alone.
pub poll_burst-in_flight :
    (now : ℕ) (ps : List Packet) (j : ℕ) (c : Ctx)
    → (c.buffers j).in_flight ≡ true
    → (poll_burst now ps c).buffers j ≡ c.buffers j
unfolding poll_burst
poll_burst-in_flight now [] j c f = refl
poll_burst-in_flight now (p ∷ ps) j c f =
    let (n, c1) = poll_packet now p c in
    let one : c1.buffers j ≡ c.buffers j = poll_packet-in_flight now p j c f in
    on_next (λ (x : Ctx). x.buffers j ≡ c.buffers j) n
      (poll_burst-in_flight now ps j c1 (ap (λ (b : WriteBuf). b.in_flight) one ∙ f) ∙ one) one
