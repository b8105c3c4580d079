-- ===== src/Reader/Admin/Pages.antt =====
-- The walk that answers a request for records (src/chrono_admin.c) against the one that `-D` prints
-- from (src/main.c).
use chrontabulator.Base.{
  ℕ, zero, suc, ◌+◌, ◌≤◌, ◌≡◌, ◌≢◌, ap, ◌∙◌, Bool, true, false, ◌&&◌, ◌==◌, leb, ltb, none, [], ◌∷◌,
  map, length, Bool-cases, inl, inr, arith,
}
use chrontabulator.Base.Mem.{Mem}
use chrontabulator.Format.{load_record, record_hdr_size, record_magic}
use chrontabulator.Format.Chunk.{Walk, dump_loop}
use chrontabulator.Ctx.{record_item}
use chrontabulator.Reader.Admin.{Scan, scan_loop, scan_item}

-- What a walk is as a page: its headers without payloads, counted on from `collected`.
abbrev pub page_of : ℕ → Walk → Scan
page_of collected w = record {
  offset = w.offset;
  seen = w.seen;
  collected = collected + length w.printed;
  items = map (λ h. record_item h none) w.printed;
  overrun = w.overrun;
}

-- A request for more than one record that starts at or before the records seen, with room in the
-- page for all that are left, walks a chunk exactly as `-D` does: it collects the headers that `-D`
-- prints, in order, ends at the same offset with the same count, and reports an overrun where
-- `-D` does.
pub scan_loop-dump_loop :
    (fuel : ℕ) (m : Mem) (size target from limit offset seen collected : ℕ)
    → from ≤ seen
    → limit ≢ 1
    → collected + target ≤ limit + seen
    → scan_loop fuel m size target from limit offset seen collected
      ≡ page_of collected (dump_loop fuel m size target offset seen)
unfolding scan_loop dump_loop
scan_loop-dump_loop zero m size target from limit offset seen collected start several room =
    ap
      (λ (n : ℕ). record {
        offset = offset;
        seen = seen;
        collected = n;
        items = [];
        overrun = false;
      })
      (omega arith)
scan_loop-dump_loop (suc fuel) m size target from limit offset seen collected start several room =
    let hdr = load_record m offset in
    let next = offset + record_hdr_size + hdr.len in
    let one : (limit == 1) ≡ false = ground arith in
    elim (Bool-cases (leb (offset + record_hdr_size) size && ltb seen target)) [
      | inr done ↦
          let done' : (leb (offset + record_hdr_size) size
                && (ltb seen target && ltb collected limit))
              ≡ false =
            ground arith in
          rw (done, done') (stop false)
      | inl more ↦
          let more' : (leb (offset + record_hdr_size) size
                && (ltb seen target && ltb collected limit))
              ≡ true =
            ground arith in
          elim (Bool-cases (hdr.magic == record_magic)) [
            | inr other ↦ rw (more, more', other) (stop false)
            | inl real ↦ elim (Bool-cases (ltb size next)) [
              | inl over ↦ rw (more, more', real, over) (stop true)
              | inr fits ↦
                  let from_here : leb from seen ≡ true = ground arith in
                  let w = dump_loop fuel m size target next (seen + 1) in
                  rw (more, more', real, fits, from_here, one)
                    (ap (scan_item (record_item hdr none)) (
                        scan_loop-dump_loop fuel m size target from limit next (seen + 1)
                          (collected + 1) (omega arith) several (omega arith))
                      ∙ ap
                          (λ (n : ℕ). record {
                            offset = w.offset;
                            seen = w.seen;
                            collected = n;
                            items = record_item hdr none ∷ map (λ h. record_item h none) w.printed;
                            overrun = w.overrun;
                          })
                          (omega arith))
            ]
          ]
    ]
  where
    stop :
        (b : Bool)
        → (let s : Scan = record {
          offset = offset;
          seen = seen;
          collected = collected;
          items = [];
          overrun = b;
        } in
            s)
          ≡ record {
            offset = offset;
            seen = seen;
            collected = collected + 0;
            items = [];
            overrun = b;
          }
    stop b =
        ap
          (λ (n : ℕ). record {
            offset = offset;
            seen = seen;
            collected = n;
            items = [];
            overrun = b;
          })
          (omega arith)
