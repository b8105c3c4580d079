-- ===== src/Format/Segments.antt =====
-- Reading back the structures of src/record.h, and how a slot of the table of contents is
-- classified (src/chrono_admin.c).
use chrontabulator.Base.{ℕ, ◌≡◌, ◌≢◌, ◌↔◌, ◌⊎◌, ap, not, ◌||◌, ◌==◌, if◌then◌else◌, arith}
use chrontabulator.Base.Mem.{Mem}
use chrontabulator.Base.Fields.{FitFields, load_fields-store_fields}
use chrontabulator.Format.{
  Volume, Segment, RecordHdr, volume_layout, segment_layout, record_layout, volume_values,
  segment_values, record_values, volume_of, segment_of, record_of, load_volume, store_volume,
  load_segment, store_segment, load_record, store_record, segment_magic, segment_free,
  segment_finalized, segment_deleted,
}

-- Each field of the struct fits its width.
abbrev pub VolumeFits : Volume → Type 0
VolumeFits v = FitFields volume_layout (volume_values v)

abbrev pub SegmentFits : Segment → Type 0
SegmentFits s = FitFields segment_layout (segment_values s)

abbrev pub RecordFits : RecordHdr → Type 0
RecordFits h = FitFields record_layout (record_values h)

pub load_volume-store_volume :
    (m : Mem) (v : Volume) → VolumeFits v → load_volume (store_volume m v) ≡ v
unfolding load_volume store_volume
load_volume-store_volume m v f =
    ap volume_of (load_fields-store_fields volume_layout (volume_values v) m 0 0 88 (omega arith) f)

pub load_segment-store_segment :
    (m : Mem) (s : Segment) → SegmentFits s → load_segment (store_segment m s) ≡ s
unfolding load_segment store_segment
load_segment-store_segment m s f =
    ap segment_of
      (load_fields-store_fields segment_layout (segment_values s) m 0 0 112 (omega arith) f)

-- Each of the three structures is read back as it was written, for field values of their widths.
pub load-store :
    (m : Mem) (p : ℕ) (v : Volume) (s : Segment) (h : RecordHdr)
    → VolumeFits v
    → SegmentFits s
    → RecordFits h
    → (load_volume (store_volume m v) ≡ v)
      × (load_segment (store_segment m s) ≡ s)
      × (load_record (store_record m p h) p ≡ h)
unfolding load_record store_record
load-store m p v s h fv fs fh = (
  load_volume-store_volume m v fv,
  load_segment-store_segment m s fs,
  ap record_of (load_fields-store_fields record_layout (record_values h) m p 0 32 (omega arith) fh),
)

-- `enum chrono_segment_view`
pub data View : Type 0 where
  not_found open_view finalized deleted : View

-- `chrono_segment_classify`: the last case is OPEN and `default`.
unfoldable pub classify : Segment → View
classify s =
    if not (s.magic == segment_magic) || s.state == segment_free
    then not_found
    else if s.state == segment_finalized
    then finalized
    else if s.state == segment_deleted
    then deleted
    else open_view

-- An entry is classified as finalized exactly if it has the magic and the state FINALIZED, as
-- deleted exactly if it has the magic and the state DELETED, and as not found exactly if it lacks
-- the magic or has the state FREE.
pub classify_lem :
    (s : Segment)
    → ((classify s ≡ finalized) ↔ (s.magic ≡ segment_magic) × (s.state ≡ segment_finalized))
      × ((classify s ≡ deleted) ↔ (s.magic ≡ segment_magic) × (s.state ≡ segment_deleted))
      × ((classify s ≡ not_found) ↔ ((s.magic ≢ segment_magic) ⊎ (s.state ≡ segment_free)))
unfolding classify
classify_lem s = (
  (λ h. ground arith, λ h. ground arith),
  (λ h. ground arith, λ h. ground arith),
  (λ h. ground arith, λ h. ground arith),
)
