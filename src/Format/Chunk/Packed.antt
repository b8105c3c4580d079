-- ===== src/Format/Chunk/Packed.antt =====
-- What a chunk holds, and that the reader finds it.
use chrontabulator.Base.{
  ℕ, zero, suc, ◌+◌, ◌≤◌, ◌<◌, ◌≡◌, ◌≢◌, refl, sym, ap, ◌∙◌, true, false, ◌&&◌, ltb, leb, ◌==◌,
  List, [], ◌∷◌, ◌++◌, map, Bool-cases, lt→ltb, le→ltb, length, arith, inl, inr,
}
use chrontabulator.Base.Mem.{get_le, Mem, copy, copy_in, copy_out}
use chrontabulator.Base.Fields.{
  load_fields, load_fields-Agree, load_fields-store_fields, store_fields_below,
}
use chrontabulator.Format.{
  RecordHdr, load_record, store_record, record_hdr_size, record_magic, record_layout, record_of,
  record_values,
}
use chrontabulator.Format.Segments.{RecordFits}
use chrontabulator.Format.Chunk.{put_record, pad_chunk, Walk, walk_record, dump_loop}

-- A captured record: its header and its payload.
pub record Entry : Type 0 where
  pub hdr : RecordHdr
  pub payload : Mem

-- From `off` to `end` the memory holds the entries, back to back, each a real record.
unfoldable pub Packed : Mem → ℕ → List Entry → ℕ → Type 0
Packed m off [] end = off ≡ end
Packed m off (e ∷ es) end =
    (load_record m off ≡ e.hdr)
    × (e.hdr.magic ≡ record_magic)
    × ((i : ℕ) → i < e.hdr.len → m (off + record_hdr_size + i) ≡ e.payload i)
    × Packed m (off + record_hdr_size + e.hdr.len) es end

pub Packed-le : (m : Mem) (off : ℕ) (es : List Entry) (end : ℕ) → Packed m off es end → off ≤ end
unfolding Packed
Packed-le m off [] end h = omega arith
Packed-le m off (e ∷ es) end h =
    omega (arith, Packed-le m (off + record_hdr_size + e.hdr.len) es end h.3)

load_record-Agree :
    (m m' : Mem) (p : ℕ)
    → ((i : ℕ) → p ≤ i → i < p + 32 → m i ≡ m' i)
    → load_record m p ≡ load_record m' p
unfolding load_record
load_record-Agree m m' p h = ap record_of (
    load_fields-Agree record_layout m m' p p 0 32 (omega arith)
      (λ i k. h (p + i) (omega arith) (omega arith)))

-- Entries depend on the bytes from `off` to `end` only.
pub Packed-Agree :
    (m m' : Mem) (off : ℕ) (es : List Entry) (end : ℕ)
    → ((i : ℕ) → off ≤ i → i < end → m i ≡ m' i)
    → Packed m off es end
    → Packed m' off es end
unfolding Packed
Packed-Agree m m' off [] end a h = h
Packed-Agree m m' off (e ∷ es) end a h =
    let le = Packed-le m (off + record_hdr_size + e.hdr.len) es end h.3 in
    (
      sym (load_record-Agree m m' off (λ i x y. a i x (omega arith))) ∙ h.0,
      h.1,
      λ i k. sym (a (off + record_hdr_size + i) (omega arith) (omega arith)) ∙ h.2 i k,
      Packed-Agree m m' (off + record_hdr_size + e.hdr.len) es end (λ i x y. a i (omega arith) y)
          h.3,
    )

Packed-append :
    (m : Mem) (off : ℕ) (es : List Entry) (mid : ℕ) (fs : List Entry) (end : ℕ)
    → Packed m off es mid
    → Packed m mid fs end
    → Packed m off (es ++ fs) end
unfolding Packed
Packed-append m off [] mid fs end h k = rw h k
Packed-append m off (e ∷ es) mid fs end h k =
    (h.0, h.1, h.2, Packed-append m (off + record_hdr_size + e.hdr.len) es mid fs end h.3 k)

put_record_below :
    (m : Mem) (off : ℕ) (hdr : RecordHdr) (payload : Mem) (q i : ℕ)
    → i < off
    → put_record m off hdr payload q i ≡ m i
unfolding put_record store_record
put_record_below m off hdr payload q i h =
    copy_out (store_record m off hdr) (off + record_hdr_size) payload q hdr.len i
      (inl (omega arith))
    ∙ store_fields_below record_layout (record_values hdr) m off 0 32 i (omega arith) (omega arith)

load_record-put_record :
    (m : Mem) (off : ℕ) (hdr : RecordHdr) (payload : Mem) (q : ℕ)
    → RecordFits hdr
    → load_record (put_record m off hdr payload q) off ≡ hdr
unfolding put_record
load_record-put_record m off hdr payload q f =
    load_record-Agree (copy (store_record m off hdr) (off + record_hdr_size) payload q hdr.len)
      (store_record m off hdr) off
      (λ i x y.
        copy_out (store_record m off hdr) (off + record_hdr_size) payload q hdr.len i
          (inl (omega arith)))
    ∙ (unfold load_record store_record in
        ap record_of
          (load_fields-store_fields record_layout (record_values hdr) m off 0 32 (omega arith) f))

abbrev pub entry_of : RecordHdr → Mem → ℕ → Entry
entry_of hdr payload q = record { hdr = hdr; payload = λ i. payload (q + i) }

-- Writing a record after the entries adds it.
pub put_record-Packed :
    (m : Mem) (off : ℕ) (es : List Entry) (end : ℕ) (hdr : RecordHdr) (payload : Mem) (q : ℕ)
    → RecordFits hdr
    → hdr.magic ≡ record_magic
    → Packed m off es end
    → Packed
        (put_record m end hdr payload q)
        off
        (es ++ entry_of hdr payload q ∷ [])
        (end + record_hdr_size + hdr.len)
put_record-Packed m off es end hdr payload q f g h =
    Packed-append (put_record m end hdr payload q) off es end (entry_of hdr payload q ∷ [])
      (end + record_hdr_size + hdr.len)
      (Packed-Agree m (put_record m end hdr payload q) off es end
        (λ i x y. sym (put_record_below m end hdr payload q i y)) h)
      (unfold Packed put_record in
        (
          load_record-put_record m end hdr payload q f,
          g,
          λ i k. copy_in (store_record m end hdr) (end + record_hdr_size) payload q hdr.len i k,
          refl,
        ))

-- Padding leaves the entries, and after them there is no record.
pub pad_chunk-Packed :
    (m : Mem) (off : ℕ) (es : List Entry) (end size : ℕ)
    → Packed m off es end
    → Packed (pad_chunk m end size) off es end
pad_chunk-Packed m off es end size h =
    Packed-Agree m (pad_chunk m end size) off es end (λ i x y. unfold pad_chunk in ground arith) h

pub pad_chunk_magic :
    (m : Mem) (end size : ℕ) → end + 32 ≤ size → (load_record (pad_chunk m end size) end).magic ≡ 0
pad_chunk_magic m end size h =
    ap (λ (r : RecordHdr). r.magic)
      (load_record-Agree (pad_chunk m end size) (λ i. 0) end
        (λ i x y. unfold pad_chunk in ground arith))
    ∙ zero_magic end
  where
    zero_magic : (p : ℕ) → (load_record (λ i. 0) p).magic ≡ 0
    zero_magic p = unfold load_record load_fields get_le in refl

-- Nothing that reads as a record stands at `end`.
abbrev pub Ends : Mem → ℕ → ℕ → Type 0
Ends m end size = end + record_hdr_size ≤ size → (load_record m end).magic ≢ record_magic

abbrev stopped : ℕ → ℕ → Walk
stopped offset seen = record { offset = offset; seen = seen; printed = []; overrun = false }

dump_loop-Ends :
    (fuel : ℕ) (m : Mem) (size target offset seen : ℕ)
    → Ends m offset size
    → dump_loop (suc fuel) m size target offset seen ≡ stopped offset seen
unfolding dump_loop
dump_loop-Ends fuel m size target offset seen s =
    elim (Bool-cases (leb (offset + record_hdr_size) size && ltb seen target)) [
      | inl more ↦
          let other : ((load_record m offset).magic == record_magic) ≡ false =
            not_equal (load_record m offset).magic record_magic (s (ground arith)) in
          rw (more, other)
      | inr done ↦ rw done
    ]
  where
    not_equal : (a b : ℕ) → a ≢ b → (a == b) ≡ false
    not_equal a b h = ground arith

dump_loop_record :
    (fuel : ℕ) (m : Mem) (size target offset seen : ℕ) (hdr : RecordHdr)
    → load_record m offset ≡ hdr
    → hdr.magic ≡ record_magic
    → offset + record_hdr_size + hdr.len ≤ size
    → seen < target
    → dump_loop (suc fuel) m size target offset seen
      ≡ walk_record hdr
          (dump_loop fuel m size target (offset + record_hdr_size + hdr.len) (seen + 1))
unfolding dump_loop
dump_loop_record fuel m size target offset seen hdr l g h t =
    let room : leb (offset + 32) size ≡ true = ground arith in
    let more : ltb seen target ≡ true = lt→ltb seen target t in
    let fits : ltb size (offset + 32 + hdr.len) ≡ false = le→ltb size (offset + 32 + hdr.len) h in
    rw (l, room, more, g, fits)

-- The reader's loop over a chunk that holds entries, within the segment's count, prints exactly
-- their headers, in order, and stops where they end.
pub dump_loop-Packed :
    (fuel : ℕ) (m : Mem) (size target offset seen : ℕ) (es : List Entry) (end : ℕ)
    → Packed m offset es end
    → Ends m end size
    → end ≤ size
    → size < offset + fuel
    → seen + length es ≤ target
    → dump_loop fuel m size target offset seen ≡ record {
      offset = end;
      seen = seen + length es;
      printed = map (λ e. e.hdr) es;
      overrun = false;
    }
unfolding Packed
dump_loop-Packed zero m size target offset seen es end h s k f t =
    absurd (omega (arith, Packed-le m offset es end h))
dump_loop-Packed (suc fuel) m size target offset seen [] end h s k f t =
    rw h (dump_loop-Ends fuel m size target end seen s ∙ ap (stopped end) (omega arith))
dump_loop-Packed (suc fuel) m size target offset seen (e ∷ es) end h s k f t =
    let le = Packed-le m (offset + record_hdr_size + e.hdr.len) es end h.3 in
    dump_loop_record fuel m size target offset seen e.hdr h.0 h.1 (omega arith) (omega arith)
    ∙ ap (walk_record e.hdr) (
        dump_loop-Packed fuel m size target (offset + record_hdr_size + e.hdr.len) (seen + 1) es end
          h.3 s k (omega arith) (omega arith))
    ∙ ap
        (λ (n : ℕ). record {
          offset = end;
          seen = n;
          printed = map (λ e. e.hdr) (e ∷ es);
          overrun = false;
        })
        (omega arith)
