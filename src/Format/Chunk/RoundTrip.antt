-- ===== src/Format/Chunk/RoundTrip.antt =====
-- Writing records to a chunk, padding it and reading it back (src/main.c).
use mathlib.Core.Path.{subst}
use mathlib.Core.List.{append-nil, append_assoc}
use chrontabulator.Base.{
  ℕ, suc, ◌+◌, ◌≤◌, ◌≡◌, ap, refl, false, List, [], ◌∷◌, ◌++◌, fun_ext, map, length, arith,
}
use chrontabulator.Base.Mem.{Mem}
use chrontabulator.Format.{record_hdr_size, record_magic}
use chrontabulator.Format.Segments.{RecordFits}
use chrontabulator.Format.Chunk.{put_record, pad_chunk, dump_loop}
use chrontabulator.Format.Chunk.Packed.{
  Entry, Packed, put_record-Packed, pad_chunk-Packed, pad_chunk_magic, dump_loop-Packed, entry_of,
  Ends,
}

-- What a record needs: its fields fit, and it has the magic.
abbrev pub IsRecord : Entry → Type 0
IsRecord e = RecordFits e.hdr × (e.hdr.magic ≡ record_magic)

unfoldable pub AreRecords : List Entry → Type 0
AreRecords [] = Unit
AreRecords (e ∷ es) = IsRecord e × AreRecords es

-- Where records written from `off` on end.
unfoldable pub end_of : ℕ → List Entry → ℕ
end_of off [] = off
end_of off (e ∷ es) = end_of (off + record_hdr_size + e.hdr.len) es

unfoldable pub put_records : Mem → ℕ → List Entry → Mem
put_records m off [] = m
put_records m off (e ∷ es) =
    put_records (put_record m off e.hdr e.payload 0) (off + record_hdr_size + e.hdr.len) es

entry_of_self : (e : Entry) → entry_of e.hdr e.payload 0 ≡ e
entry_of_self e =
    ap (λ (f : Mem). record { hdr = e.hdr; payload = f })
      (fun_ext (λ i. ap e.payload (omega arith)))

put_records-Packed :
    (m : Mem) (start off : ℕ) (es fs : List Entry)
    → AreRecords fs
    → Packed m start es off
    → Packed (put_records m off fs) start (es ++ fs) (end_of off fs)
unfolding put_records AreRecords end_of
put_records-Packed m start off es [] a h = rw (append-nil es) h
put_records-Packed m start off es (e ∷ fs) a h =
    subst (λ (xs : List Entry). Packed (put_records m off (e ∷ fs)) start xs (end_of off (e ∷ fs)))
      (append_assoc es (e ∷ []) fs)
      (put_records-Packed (put_record m off e.hdr e.payload 0) start
        (off + record_hdr_size + e.hdr.len) (es ++ e ∷ []) fs a.1
        (subst
          (λ (x : Entry).
            Packed (put_record m off e.hdr e.payload 0) start (es ++ x ∷ [])
              (off + record_hdr_size + e.hdr.len))
          (entry_of_self e) (put_record-Packed m start es off e.hdr e.payload 0 a.0.0 a.0.1 h)))

-- A padded chunk has no record after its entries.
pub pad_chunk-Ends : (m : Mem) (end size : ℕ) → Ends (pad_chunk m end size) end size
pad_chunk-Ends m end size room magic =
    absurd (omega (arith, pad_chunk_magic m end size room, magic))

-- Records are written from the start of a chunk and the rest is padded. The reader's loop, which
-- has seen `seen` records and expects that many more at least, then prints exactly the headers
-- written, in order, and stops where they end, with no overrun reported.
pub dump_loop-put_records :
    (m : Mem) (size seen target : ℕ) (es : List Entry)
    → AreRecords es
    → end_of 0 es ≤ size
    → seen + length es ≤ target
    → dump_loop (suc size) (pad_chunk (put_records m 0 es) (end_of 0 es) size) size target 0 seen
      ≡ record {
        offset = end_of 0 es;
        seen = seen + length es;
        printed = map (λ e. e.hdr) es;
        overrun = false;
      }
dump_loop-put_records m size seen target es a room t =
    dump_loop-Packed (suc size) (pad_chunk (put_records m 0 es) (end_of 0 es) size) size target 0
      seen es (end_of 0 es)
      (pad_chunk-Packed (put_records m 0 es) 0 es (end_of 0 es) size
        (put_records-Packed m 0 0 [] es a (unfold Packed in refl)))
      (pad_chunk-Ends (put_records m 0 es) (end_of 0 es) size) room (omega arith) t
