-- ===== src/Wire/Frame/RoundTrip.antt =====
-- A frame that src/common.c builds is parsed by it, and when building is refused.
use chrontabulator.Base.{
  ℕ, ◌+◌, ◌-◌, ◌^◌, ◌≤◌, ◌<◌, ◌≡◌, Bool, true, false, none, some, ltb, le→ltb, ◌⊎◌, ◌↔◌, ◌∙◌, inl,
  inr, if◌then◌else◌, arith, Bool-cases,
}
use chrontabulator.Base.Mem.{Mem}
use chrontabulator.Wire.Bytes.{get_be16, get_be64}
use chrontabulator.Wire.Frame.{
  Fields, Parsed, app_hdr_len, fill_frame, app_build_packet, parse_udp, app_parse_packet,
}
use chrontabulator.Wire.Frame.Layout.{
  frame-ethertype, frame-version, frame-protocol, frame-dst_port, frame-udp_len, frame-seq,
  frame-payload, frame-padding, frame_above,
}

-- The lengths that a frame of the given size can carry.
abbrev pub Fits : Fields → ℕ → Type 0
Fits f total = app_hdr_len f.with_seq + f.payload_len ≤ total

build-Fits :
    (buf : Mem) (capacity total : ℕ) (f : Fields)
    → Fits f total
    → total ≤ capacity
    → total < 2 ^ 32
    → app_build_packet buf capacity total f ≡ some (fill_frame f total buf)
unfolding app_build_packet
build-Fits buf capacity total f h k l = ground arith

build_refused :
    (buf : Mem) (capacity total : ℕ) (f : Fields)
    → app_hdr_len f.with_seq + f.payload_len < 2 ^ 32
    → (total < app_hdr_len f.with_seq + f.payload_len) ⊎ (capacity < total)
    → app_build_packet buf capacity total f ≡ none
unfolding app_build_packet
build_refused buf capacity total f s h = ground arith

abbrev pub expected : Fields → ℕ → Parsed
expected f total = record {
  dst_port = f.dst_port;
  seq = if f.with_seq then f.seq else 0;
  payload = app_hdr_len f.with_seq;
  payload_len = total - app_hdr_len f.with_seq;
}

parse_udp_lem :
    (m : Mem) (total : ℕ) (f : Fields)
    → get_be16 m 36 ≡ f.dst_port
    → get_be16 m 38 ≡ total - 34
    → (f.with_seq ≡ true → get_be64 m 42 ≡ f.seq)
    → Fits f total
    → parse_udp m total f.with_seq 20 ≡ some (expected f total)
unfolding parse_udp
parse_udp_lem m total f p l s h = elim (Bool-cases f.with_seq) [
  | inl w ↦ ground (arith, s w)
  | inr w ↦ ground arith
]

-- A well-formed header is parsed by the UDP part alone.
parse_header :
    (m : Mem) (len : ℕ) (with_seq : Bool)
    → get_be16 m 12 ≡ 0x0800
    → m 14 ≡ 0x45
    → m 23 ≡ 17
    → 42 ≤ len
    → app_parse_packet m len with_seq ≡ parse_udp m len with_seq 20
unfolding app_parse_packet
parse_header m len with_seq e v p h =
    let big : ltb len 34 ≡ false = le→ltb len 34 (omega arith) in
    let room : ltb len 42 ≡ false = le→ltb len 42 h in rw (big, e, v, p, room)

-- The sum of the lengths of a frame that fits does not wrap.
pub Fits-short :
    (f : Fields) (total : ℕ)
    → Fits f total
    → total < 34 + 2 ^ 16
    → app_hdr_len f.with_seq + f.payload_len < 2 ^ 32
Fits-short f total fits small = omega arith

parse_frame :
    (buf : Mem) (total : ℕ) (f : Fields)
    → Fits f total
    → total < 34 + 2 ^ 16
    → f.dst_port < 2 ^ 16
    → f.seq < 2 ^ 64
    → app_parse_packet (fill_frame f total buf) total f.with_seq ≡ some (expected f total)
parse_frame buf total f fits small port seq =
    parse_header (fill_frame f total buf) total f.with_seq
      (frame-ethertype f total buf (Fits-short f total fits small))
      (frame-version f total buf (Fits-short f total fits small))
      (frame-protocol f total buf (Fits-short f total fits small)) (ground arith)
    ∙ parse_udp_lem (fill_frame f total buf) total f
        (frame-dst_port f total buf (Fits-short f total fits small) port)
        (frame-udp_len f total buf (Fits-short f total fits small) small)
        (λ w. frame-seq f total buf (Fits-short f total fits small) w seq) fits

-- For a frame whose lengths fit its size, its capacity and the 16-bit UDP length, building
-- succeeds; parsing what was built gives the destination port, the sequence number (0 without
-- one) and the offset and length of the rest; the payload stands there, zeros follow it up to the
-- size of the frame, and nothing of the buffer is written past that.
pub parse-build :
    (buf : Mem) (capacity total : ℕ) (f : Fields)
    → Fits f total
    → total ≤ capacity
    → total < 34 + 2 ^ 16
    → f.dst_port < 2 ^ 16
    → f.seq < 2 ^ 64
    → (m : Mem) × (app_build_packet buf capacity total f ≡ some m)
      × (app_parse_packet m total f.with_seq ≡ some (expected f total))
      × ((i : ℕ) → i < f.payload_len → m (app_hdr_len f.with_seq + i) ≡ f.payload i)
      × ((i : ℕ) → app_hdr_len f.with_seq + f.payload_len ≤ i → i < total → m i ≡ 0)
      × ((i : ℕ) → total ≤ i → m i ≡ buf i)
parse-build buf capacity total f fits room small port seq = (
  fill_frame f total buf,
  build-Fits buf capacity total f fits room (omega arith),
  parse_frame buf total f fits small port seq,
  frame-payload f total buf (Fits-short f total fits small),
  frame-padding f total buf (Fits-short f total fits small),
  λ i h. frame_above f total buf (Fits-short f total fits small) i fits h,
)

-- Building is refused exactly where the lengths do not fit the size, or the size the capacity,
-- for lengths whose sum does not wrap.
pub build-none_iff :
    (buf : Mem) (capacity total : ℕ) (f : Fields)
    → app_hdr_len f.with_seq + f.payload_len < 2 ^ 32
    → (app_build_packet buf capacity total f ≡ none)
      ↔ ((total < app_hdr_len f.with_seq + f.payload_len) ⊎ (capacity < total))
unfolding app_build_packet
build-none_iff buf capacity total f s = (λ h. ground arith, build_refused buf capacity total f s)
