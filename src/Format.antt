-- ===== src/Format.antt =====
-- src/record.h: the on-disk structures, as the target machine (little-endian, natural alignment)
-- lays them out.
pub mod Segments
pub mod Chunk
use chrontabulator.Base.{ℕ, ◌+◌, ◌*◌, ◌^◌, List, [], ◌∷◌, get_or, Bool, ◌&&◌, ◌==◌}
use chrontabulator.Base.Mem.{Mem}
use chrontabulator.Base.Fields.{Layout, load_fields, store_fields}

-- `CHRONO_MAGIC_U64`: eight characters, the first in the lowest byte.
abbrev pub magic_u64 : List ℕ → ℕ
magic_u64 [] = 0
magic_u64 (c ∷ cs) = c + 2 ^ 8 * magic_u64 cs

abbrev pub record_magic : ℕ
record_magic = magic_u64 (b'C' ∷ b'H' ∷ b'R' ∷ b'R' ∷ b'E' ∷ b'C' ∷ b'1' ∷ b' ' ∷ [])

abbrev pub superblock_magic_v1 : ℕ
superblock_magic_v1 = magic_u64 (b'C' ∷ b'H' ∷ b'R' ∷ b'S' ∷ b'B' ∷ b'L' ∷ b'K' ∷ b'1' ∷ [])

abbrev pub volume_magic : ℕ
volume_magic = magic_u64 (b'C' ∷ b'H' ∷ b'R' ∷ b'V' ∷ b'O' ∷ b'L' ∷ b'2' ∷ b' ' ∷ [])

abbrev pub segment_magic : ℕ
segment_magic = magic_u64 (b'C' ∷ b'H' ∷ b'R' ∷ b'S' ∷ b'E' ∷ b'G' ∷ b'1' ∷ b' ' ∷ [])

abbrev pub format_version : ℕ
format_version = 2

abbrev pub toc_slots : ℕ
toc_slots = 4096

-- `struct chrono_record_hdr`
pub record RecordHdr : Type 0 where
  pub magic : ℕ
  pub seq : ℕ
  pub capture_tsc : ℕ
  pub len : ℕ
  pub reserved : ℕ

abbrev pub record_hdr_size : ℕ
record_hdr_size = 32

abbrev pub record_layout : Layout
record_layout = (0, 8) ∷ (8, 8) ∷ (16, 8) ∷ (24, 4) ∷ (28, 4) ∷ []

abbrev pub record_values : RecordHdr → List ℕ
record_values h = h.magic ∷ h.seq ∷ h.capture_tsc ∷ h.len ∷ h.reserved ∷ []

abbrev pub record_of : List ℕ → RecordHdr
record_of vs = record {
  magic = get_or vs 0 0;
  seq = get_or vs 1 0;
  capture_tsc = get_or vs 2 0;
  len = get_or vs 3 0;
  reserved = get_or vs 4 0;
}

unfoldable pub load_record : Mem → ℕ → RecordHdr
load_record m p = record_of (load_fields record_layout m p)

unfoldable pub store_record : Mem → ℕ → RecordHdr → Mem
store_record m p h = store_fields record_layout (record_values h) m p

-- `enum chrono_segment_state`, kept on disk as a plain number.
abbrev pub segment_free : ℕ
segment_free = 0

abbrev pub segment_open : ℕ
segment_open = 1

abbrev pub segment_finalized : ℕ
segment_finalized = 2

abbrev pub segment_deleted : ℕ
segment_deleted = 3

-- `struct chrono_volume_header`; `reserved` is its array of four words.
pub record Volume : Type 0 where
  pub magic : ℕ
  pub version : ℕ
  pub block_size : ℕ
  pub toc_slot_count : ℕ
  pub next_segment_id : ℕ
  pub toc_start_block : ℕ
  pub data_start_block : ℕ
  pub next_data_block : ℕ
  pub init_wall_clock_sec : ℕ
  pub reserved0 : ℕ
  pub reserved1 : ℕ
  pub reserved2 : ℕ
  pub reserved3 : ℕ

abbrev pub volume_layout : Layout
volume_layout =
    (0, 8)
    ∷ (8, 4)
    ∷ (12, 4)
    ∷ (16, 4)
    ∷ (20, 4)
    ∷ (24, 8)
    ∷ (32, 8)
    ∷ (40, 8)
    ∷ (48, 8)
    ∷ (56, 8)
    ∷ (64, 8)
    ∷ (72, 8)
    ∷ (80, 8)
    ∷ []

abbrev pub volume_values : Volume → List ℕ
volume_values v =
    v.magic ∷ v.version ∷ v.block_size ∷ v.toc_slot_count ∷ v.next_segment_id ∷ v.toc_start_block
    ∷ v.data_start_block ∷ v.next_data_block ∷ v.init_wall_clock_sec ∷ v.reserved0 ∷ v.reserved1
    ∷ v.reserved2 ∷ v.reserved3 ∷ []

abbrev pub volume_of : List ℕ → Volume
volume_of vs = record {
  magic = get_or vs 0 0;
  version = get_or vs 1 0;
  block_size = get_or vs 2 0;
  toc_slot_count = get_or vs 3 0;
  next_segment_id = get_or vs 4 0;
  toc_start_block = get_or vs 5 0;
  data_start_block = get_or vs 6 0;
  next_data_block = get_or vs 7 0;
  init_wall_clock_sec = get_or vs 8 0;
  reserved0 = get_or vs 9 0;
  reserved1 = get_or vs 10 0;
  reserved2 = get_or vs 11 0;
  reserved3 = get_or vs 12 0;
}

unfoldable pub load_volume : Mem → Volume
load_volume m = volume_of (load_fields volume_layout m 0)

unfoldable pub store_volume : Mem → Volume → Mem
store_volume m v = store_fields volume_layout (volume_values v) m 0

-- A zeroed `struct chrono_volume_header`.
abbrev pub zero_volume : Volume
zero_volume = volume_of []

-- `struct chrono_segment_entry`; four bytes of padding follow `write_chunk_bytes` and each
-- `nsec`.
pub record Segment : Type 0 where
  pub magic : ℕ
  pub segment_id : ℕ
  pub state : ℕ
  pub start_block : ℕ
  pub block_count : ℕ
  pub write_chunk_bytes : ℕ
  pub record_count : ℕ
  pub dropped_count : ℕ
  pub first_capture_tsc : ℕ
  pub last_capture_tsc : ℕ
  pub tsc_hz : ℕ
  pub wall_clock_start_sec : ℕ
  pub wall_clock_start_nsec : ℕ
  pub wall_clock_end_sec : ℕ
  pub wall_clock_end_nsec : ℕ

abbrev pub segment_layout : Layout
segment_layout =
    (0, 8)
    ∷ (8, 4)
    ∷ (12, 4)
    ∷ (16, 8)
    ∷ (24, 8)
    ∷ (32, 4)
    ∷ (40, 8)
    ∷ (48, 8)
    ∷ (56, 8)
    ∷ (64, 8)
    ∷ (72, 8)
    ∷ (80, 8)
    ∷ (88, 4)
    ∷ (96, 8)
    ∷ (104, 4)
    ∷ []

abbrev pub segment_values : Segment → List ℕ
segment_values s =
    s.magic ∷ s.segment_id ∷ s.state ∷ s.start_block ∷ s.block_count ∷ s.write_chunk_bytes
    ∷ s.record_count ∷ s.dropped_count ∷ s.first_capture_tsc ∷ s.last_capture_tsc ∷ s.tsc_hz
    ∷ s.wall_clock_start_sec ∷ s.wall_clock_start_nsec ∷ s.wall_clock_end_sec
    ∷ s.wall_clock_end_nsec ∷ []

abbrev pub segment_of : List ℕ → Segment
segment_of vs = record {
  magic = get_or vs 0 0;
  segment_id = get_or vs 1 0;
  state = get_or vs 2 0;
  start_block = get_or vs 3 0;
  block_count = get_or vs 4 0;
  write_chunk_bytes = get_or vs 5 0;
  record_count = get_or vs 6 0;
  dropped_count = get_or vs 7 0;
  first_capture_tsc = get_or vs 8 0;
  last_capture_tsc = get_or vs 9 0;
  tsc_hz = get_or vs 10 0;
  wall_clock_start_sec = get_or vs 11 0;
  wall_clock_start_nsec = get_or vs 12 0;
  wall_clock_end_sec = get_or vs 13 0;
  wall_clock_end_nsec = get_or vs 14 0;
}

unfoldable pub load_segment : Mem → Segment
load_segment m = segment_of (load_fields segment_layout m 0)

unfoldable pub store_segment : Mem → Segment → Mem
store_segment m s = store_fields segment_layout (segment_values s) m 0

-- src/main.c: `volume_header_is_valid`.
unfoldable pub volume_header_is_valid : Volume → Bool
volume_header_is_valid v = (v.magic == volume_magic) && (v.version == format_version)
