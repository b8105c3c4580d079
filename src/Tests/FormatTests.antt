-- ===== src/Tests/FormatTests.antt =====
-- The structures on the device and a chunk, on concrete inputs.
use chrontabulator.Base.{List, ◌≡◌, refl, false, [], ◌∷◌, arith}
use chrontabulator.Format.{RecordHdr, record_magic}
use chrontabulator.Format.Segments.{VolumeFits, SegmentFits, RecordFits}
use chrontabulator.Format.Chunk.{pad_chunk, dump_loop}
use chrontabulator.Format.Chunk.Packed.{Entry}
use chrontabulator.Format.Chunk.RoundTrip.{AreRecords, put_records, end_of, dump_loop-put_records}
use chrontabulator.Capture.Finalize.Chain.{entry_of_recording}
use chrontabulator.Volume.Init.{fresh_volume}
use chrontabulator.Tests.Data.{recording_ctx}

abbrev first_hdr : RecordHdr
first_hdr = record { magic = record_magic; seq = 0; capture_tsc = 900; len = 3; reserved = 0 }

abbrev second_hdr : RecordHdr
second_hdr = record { magic = record_magic; seq = 1; capture_tsc = 901; len = 0; reserved = 0 }

abbrev pub two_records : List Entry
two_records =
    record { hdr = first_hdr; payload = λ i. 7 }
    ∷ record { hdr = second_hdr; payload = λ i. 0 }
    ∷ []

first-RecordFits : RecordFits first_hdr
first-RecordFits = (omega arith, (omega arith, (omega arith, (omega arith, (omega arith, tt)))))

second-RecordFits : RecordFits second_hdr
second-RecordFits = (omega arith, (omega arith, (omega arith, (omega arith, (omega arith, tt)))))

two_records-AreRecords : AreRecords two_records
unfolding AreRecords
two_records-AreRecords = ((first-RecordFits, refl), ((second-RecordFits, refl), tt))

dump_loop-put_records_example :
    dump_loop 129
      (pad_chunk (put_records (λ i. 255) 0 two_records) (end_of 0 two_records) 128)
      128
      9
      0
      4
    ≡ record {
      offset = end_of 0 two_records;
      seen = 6;
      printed = first_hdr ∷ second_hdr ∷ [];
      overrun = false;
    }
dump_loop-put_records_example =
    dump_loop-put_records (λ i. 255) 128 4 9 two_records two_records-AreRecords
      (unfold end_of in omega arith) (omega arith)

pub fresh-VolumeFits : VolumeFits (fresh_volume 512 1700000000)
unfolding fresh_volume
fresh-VolumeFits = (
  omega arith,
  (
    omega arith,
    (
      omega arith,
      (
        omega arith,
        (
          omega arith,
          (
            omega arith,
            (
              omega arith,
              (
                omega arith,
                (omega arith, (omega arith, (omega arith, (omega arith, (omega arith, (tt)))))),
              ),
            ),
          ),
        ),
      ),
    ),
  ),
)

pub recorded-SegmentFits : SegmentFits (entry_of_recording recording_ctx)
recorded-SegmentFits = (
  omega arith,
  (
    omega arith,
    (
      omega arith,
      (
        omega arith,
        (
          omega arith,
          (
            omega arith,
            (
              omega arith,
              (
                omega arith,
                (
                  omega arith,
                  (
                    omega arith,
                    (omega arith, (omega arith, (omega arith, (omega arith, (omega arith, (tt)))))),
                  ),
                ),
              ),
            ),
          ),
        ),
      ),
    ),
  ),
)
