-- ===== src/Wire/Frame/Verify.antt =====
-- The checksums of a frame that src/common.c builds, as a receiver verifies them.
use chrontabulator.Base.{
  ℕ, zero, suc, ◌+◌, ◌-◌, ◌^◌, ◌≤◌, ◌<◌, ◌≡◌, refl, true, lt_cases, inl, inr, arith, ◌∙◌, ap,
}
use chrontabulator.Base.Mem.{Mem, Agree}
use chrontabulator.Wire.Bytes.{get_be16, put_be16}
use chrontabulator.Wire.Checksum.{ip_checksum, udp_sum, udp_checksum}
use chrontabulator.Wire.Sums.{AreBytes, sum_words-Agree}
use chrontabulator.Wire.Frame.{
  Fields, app_hdr_len, put_ethernet, put_ipv4, put_ip_checksum, put_udp, put_body, put_udp_checksum,
  fill_frame,
}
use chrontabulator.Wire.Frame.RoundTrip.{Fits-short, Fits}
use chrontabulator.Wire.Frame.Layout.{
  segment, headers, put_body_below, put_body_seq_byte, put_body-payload, put_body-padding,
  frame-udp_len, frame_header,
}
use chrontabulator.Wire.Sums.Verified.{ip_verifies}
use chrontabulator.Wire.Sums.UdpVerified.{udp_verifies}

ip_checksum-Agree : (m m' : Mem) → Agree m m' 14 20 → ip_checksum m 14 20 ≡ ip_checksum m' 14 20
unfolding ip_checksum
ip_checksum-Agree m m' h = rw (sum_words-Agree 10 m m' 14 0 h)

fill_frame_lem :
    (f : Fields) (total : ℕ) (buf : Mem)
    → fill_frame f total buf
      ≡ put_be16
          (segment f total buf)
          40
          (udp_checksum f.src_ip f.dst_ip (segment f total buf) 34 (total - 34))
unfolding fill_frame put_udp_checksum segment headers
fill_frame_lem f total buf =
    let seg =
      put_body f total
        (put_udp f total (put_ip_checksum (put_ipv4 f total (put_ethernet f buf)))) in
    ap (λ (n : ℕ). put_be16 seg 40 (udp_checksum f.src_ip f.dst_ip seg 34 n)) (omega arith)

segment_zero :
    (f : Fields) (total : ℕ) (buf : Mem)
    → app_hdr_len f.with_seq + f.payload_len < 2 ^ 32
    → (segment f total buf 40 ≡ 0) × (segment f total buf 41 ≡ 0)
unfolding segment headers put_udp
segment_zero f total buf short = (
  put_body_below f total (headers f total buf) short 40 (omega arith),
  put_body_below f total (headers f total buf) short 41 (omega arith),
)

src_byte :
    (f : Fields) (total : ℕ) (buf : Mem) (i : ℕ) → i < 4 → headers f total buf (26 + i) ≡ f.src_ip i
unfolding headers put_udp put_ip_checksum put_ipv4
src_byte f total buf zero h = refl
src_byte f total buf (suc zero) h = refl
src_byte f total buf (suc (suc zero)) h = refl
src_byte f total buf (suc (suc (suc zero))) h = refl
src_byte f total buf (suc (suc (suc (suc i)))) h = absurd (omega arith)

dst_byte :
    (f : Fields) (total : ℕ) (buf : Mem) (i : ℕ) → i < 4 → headers f total buf (30 + i) ≡ f.dst_ip i
unfolding headers put_udp put_ip_checksum put_ipv4
dst_byte f total buf zero h = refl
dst_byte f total buf (suc zero) h = refl
dst_byte f total buf (suc (suc zero)) h = refl
dst_byte f total buf (suc (suc (suc zero))) h = refl
dst_byte f total buf (suc (suc (suc (suc i)))) h = absurd (omega arith)

module _ (f : Fields) (total : ℕ) (buf : Mem) (hs : AreBytes f.src_ip 0 4)
    (hd : AreBytes f.dst_ip 0 4) where
  before_checksum : Mem
  before_checksum = put_ipv4 f total (put_ethernet f buf)

  before_checksum-AreBytes : AreBytes before_checksum 14 20
  unfolding before_checksum put_ipv4
  before_checksum-AreBytes i a b =
      ground (arith, hd (0 + (i - 30)) (omega arith), hs (0 + (i - 26)) (omega arith))

  headers-ip : ip_checksum (headers f total buf) 14 20 ≡ 0
  unfolding headers put_ip_checksum put_udp before_checksum
  headers-ip =
      ip_checksum-Agree (headers f total buf)
        (put_be16 before_checksum 24 (ip_checksum before_checksum 14 20)) (λ i a b. ground arith)
      ∙ (unfold put_ipv4 in
          ip_verifies before_checksum before_checksum-AreBytes refl refl (omega arith))

  module _ (hp : AreBytes f.payload 0 f.payload_len) (fits : Fits f total)
      (short : app_hdr_len f.with_seq + f.payload_len < 2 ^ 32) where
    segment-AreBytes : AreBytes (segment f total buf) 34 (total - 34)
    segment-AreBytes i a b = elim (lt_cases i 42) [
      | inl h ↦
          unfold segment in
          rw (put_body_below f total (headers f total buf) short i h) (headers_byte i a h)
      | inr h ↦ elim (lt_cases i (app_hdr_len f.with_seq)) [
        | inl k ↦ seq_byte i h (ground arith) (ground arith)
        | inr k ↦ elim (lt_cases i (app_hdr_len f.with_seq + f.payload_len)) [
          | inl l ↦ payload_byte i (i - app_hdr_len f.with_seq) (omega arith) (omega arith)
          | inr l ↦
              unfold segment in
              rw (put_body-padding f total (headers f total buf) short i l (ground arith))
                (omega arith)
        ]
      ]
    ]
      where
        headers_byte : (i : ℕ) → 34 ≤ i → i < 42 → headers f total buf i < 256
        headers_byte i a h = unfold headers put_udp in ground arith

        seq_byte : (i : ℕ) → 42 ≤ i → f.with_seq ≡ true → i < 50 → segment f total buf i < 256
        seq_byte i a w h =
            unfold segment in
            rw (put_body_seq_byte f total (headers f total buf) short i w h) (ground arith)

        payload_byte :
            (i j : ℕ)
            → i ≡ app_hdr_len f.with_seq + j
            → j < f.payload_len
            → segment f total buf i < 256
        payload_byte i j e h =
            unfold segment in
            rw e (
              rw (put_body-payload f total (headers f total buf) short j h)
                (hp j (omega arith) (omega arith)))

    udp_sum_frame :
        8 ≤ total - 34
        → total < 34 + 2 ^ 16
        → udp_sum f.src_ip f.dst_ip (fill_frame f total buf) 34 (total - 34) ≡ 65535
    udp_sum_frame long small = rw (fill_frame_lem f total buf) (
        udp_verifies f.src_ip f.dst_ip (segment f total buf) (total - 34) hs hd segment-AreBytes
          long (omega arith) (segment_zero f total buf short).0 (segment_zero f total buf short).1)

udp_sum-Agree :
    (src src' dst dst' m : Mem) (p len : ℕ)
    → Agree src src' 0 4
    → Agree dst dst' 0 4
    → udp_sum src dst m p len ≡ udp_sum src' dst' m p len
unfolding udp_sum
udp_sum-Agree src src' dst dst' m p len h k = rw (
  h 0 (omega arith) (omega arith),
  h 1 (omega arith) (omega arith),
  h 2 (omega arith) (omega arith),
  h 3 (omega arith) (omega arith),
  k 0 (omega arith) (omega arith),
  k 1 (omega arith) (omega arith),
  k 2 (omega arith) (omega arith),
  k 3 (omega arith) (omega arith),
)

-- The address of a built frame's header, as a memory of its own.
abbrev pub at : Mem → ℕ → Mem
at m p i = m (p + i)

-- In a frame built from byte values whose lengths fit, with a 16-bit UDP length, both checksums
-- verify as a receiver computes them: over the IPv4 header with its checksum in place the
-- algorithm gives 0, and over the UDP segment with its checksum in place, with the addresses and
-- the length that the frame itself holds, the folded sum is all ones.
pub build-checksums_verify :
    (f : Fields) (total : ℕ) (buf : Mem)
    → Fits f total
    → total < 34 + 2 ^ 16
    → AreBytes f.src_ip 0 4
    → AreBytes f.dst_ip 0 4
    → AreBytes f.payload 0 f.payload_len
    → let m = fill_frame f total buf in
      (ip_checksum m 14 20 ≡ 0) × (udp_sum (at m 26) (at m 30) m 34 (get_be16 m 38) ≡ 65535)
build-checksums_verify f total buf fits small hs hd hp =
    let m = fill_frame f total buf in
    let short = Fits-short f total fits small in
    (
      ip_checksum-Agree m (headers f total buf)
            (λ i a b. frame_header f total buf short i (omega arith))
          ∙ headers-ip f total buf hs hd,
      rw (frame-udp_len f total buf short small) (
          udp_sum-Agree (at m 26) f.src_ip (at m 30) f.dst_ip m 34 (total - 34)
            (λ i a b.
              frame_header f total buf short (26 + i) (omega arith) ∙ src_byte f total buf i b)
            (λ i a b.
              frame_header f total buf short (30 + i) (omega arith) ∙ dst_byte f total buf i b)
          ∙ udp_sum_frame f total buf hs hd hp fits short (ground arith) small),
    )
