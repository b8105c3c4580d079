-- ===== src/Wire/Frame/Layout.antt =====
-- What the bytes of a frame built by src/common.c are.
use chrontabulator.Base.{
  ◌≢◌, ℕ, ◌+◌, ◌-◌, ◌%◌, ◌^◌, ◌≤◌, ◌<◌, ◌≡◌, ◌∙◌, true, ltb, if◌then◌else◌, arith,
}
use chrontabulator.Base.Mem.{Mem, copy, fill, copy_in}
use chrontabulator.Wire.Bytes.{get_be64-put_be64, get_be64-Agree, get_be16, get_be64, put_be64}
use chrontabulator.Wire.Frame.{
  Fields, app_hdr_len, seq_len, put_ethernet, put_ipv4, put_ip_checksum, put_udp, put_body,
  put_udp_checksum, fill_frame,
}

-- Below the payload, and the padding from `used` on, the frame is as it was.
padded_below :
    (base src : Mem) (p n used total i : ℕ)
    → i < p
    → i < used
    → (if ltb used total
          then fill (copy base p src 0 n) used 0 (total - used)
          else copy base p src 0 n)
        i
      ≡ base i
padded_below base src p n used total i h k = ground arith

module _ (f : Fields) (total : ℕ) (m : Mem)
    (room : app_hdr_len f.with_seq + f.payload_len < 2 ^ 32) where
  pub put_body_below : (i : ℕ) → i < 42 → put_body f total m i ≡ m i
  unfolding put_body
  put_body_below i h = ground arith

  pub put_body_seq_byte :
      (i : ℕ) → f.with_seq ≡ true → i < 50 → put_body f total m i ≡ put_be64 m 42 f.seq i
  unfolding put_body
  put_body_seq_byte i w h =
      let used : i < (50 + f.payload_len) % 2 ^ 32 = ground (arith, room) in
      rw w (
        padded_below (put_be64 m 42 f.seq) f.payload 50 f.payload_len
          ((50 + f.payload_len) % 2 ^ 32) total i h used)

  pub put_body-payload :
      (i : ℕ) → i < f.payload_len → put_body f total m (app_hdr_len f.with_seq + i) ≡ f.payload i
  unfolding put_body
  put_body-payload i h = ground (
    arith,
    copy_in (if f.with_seq then put_be64 m 42 f.seq else m) (42 + seq_len f.with_seq) f.payload 0
        f.payload_len i h,
  )

  pub put_body-padding :
      (i : ℕ) → app_hdr_len f.with_seq + f.payload_len ≤ i → i < total → put_body f total m i ≡ 0
  unfolding put_body
  put_body-padding i h k = ground arith

  put_body_above :
      (i : ℕ)
      → app_hdr_len f.with_seq + f.payload_len ≤ total
      → total ≤ i
      → put_body f total m i ≡ m i
  unfolding put_body
  put_body_above i h k = ground arith

module _ (f : Fields) (total : ℕ) (m : Mem) where
  -- The frame below its UDP checksum.
  unfoldable pub headers : Mem
  headers = put_udp f total (put_ip_checksum (put_ipv4 f total (put_ethernet f m)))

  -- The frame before its UDP checksum.
  unfoldable pub segment : Mem
  segment = put_body f total headers

  pub frame_other : (i : ℕ) → i ≢ 40 → i ≢ 41 → fill_frame f total m i ≡ segment i
  unfolding fill_frame put_udp_checksum segment headers
  frame_other i h k = ground arith

-- With lengths whose sum does not wrap.
module _ (f : Fields) (total : ℕ) (m : Mem)
    (room : app_hdr_len f.with_seq + f.payload_len < 2 ^ 32) where
  pub frame_header : (i : ℕ) → i < 40 → fill_frame f total m i ≡ headers f total m i
  unfolding segment
  frame_header i h =
      frame_other f total m i (omega arith) (omega arith)
      ∙ put_body_below f total (headers f total m) room i (omega arith)

  -- The fields that a parser tests.
  pub frame-ethertype : get_be16 (fill_frame f total m) 12 ≡ 0x0800
  unfolding headers put_udp put_ip_checksum put_ipv4 put_ethernet
  frame-ethertype = omega (arith, frame_header 12 (omega arith), frame_header 13 (omega arith))

  pub frame-version : fill_frame f total m 14 ≡ 0x45
  unfolding headers put_udp put_ip_checksum put_ipv4
  frame-version = frame_header 14 (omega arith)

  pub frame-protocol : fill_frame f total m 23 ≡ 17
  unfolding headers put_udp put_ip_checksum put_ipv4
  frame-protocol = frame_header 23 (omega arith)

  pub frame-dst_port : f.dst_port < 2 ^ 16 → get_be16 (fill_frame f total m) 36 ≡ f.dst_port
  unfolding headers put_udp
  frame-dst_port h = omega (arith, frame_header 36 (omega arith), frame_header 37 (omega arith))

  pub frame-udp_len : total < 34 + 2 ^ 16 → get_be16 (fill_frame f total m) 38 ≡ total - 34
  unfolding headers put_udp
  frame-udp_len h = omega (arith, frame_header 38 (omega arith), frame_header 39 (omega arith))

  pub frame-seq : f.with_seq ≡ true → f.seq < 2 ^ 64 → get_be64 (fill_frame f total m) 42 ≡ f.seq
  unfolding segment
  frame-seq w h =
      get_be64-Agree (fill_frame f total m) (put_be64 (headers f total m) 42 f.seq) 42 (λ i a b.
        frame_other f total m i (omega arith) (omega arith)
        ∙ put_body_seq_byte f total (headers f total m) room i w (omega arith))
      ∙ get_be64-put_be64 (headers f total m) f.seq h

  pub frame-payload :
      (i : ℕ) → i < f.payload_len → fill_frame f total m (app_hdr_len f.with_seq + i) ≡ f.payload i
  unfolding segment
  frame-payload i h =
      frame_other f total m (app_hdr_len f.with_seq + i) (ground arith) (ground arith)
      ∙ put_body-payload f total (headers f total m) room i h

  pub frame-padding :
      (i : ℕ) → app_hdr_len f.with_seq + f.payload_len ≤ i → i < total → fill_frame f total m i ≡ 0
  unfolding segment
  frame-padding i h k =
      frame_other f total m i (ground arith) (ground arith)
      ∙ put_body-padding f total (headers f total m) room i h k

  -- Nothing is written past the frame.
  pub frame_above :
      (i : ℕ)
      → app_hdr_len f.with_seq + f.payload_len ≤ total
      → total ≤ i
      → fill_frame f total m i ≡ m i
  unfolding segment headers put_udp put_ip_checksum put_ipv4 put_ethernet
  frame_above i h k =
      frame_other f total m i (ground arith) (ground arith)
      ∙ put_body_above f total (headers f total m) room i h k
      ∙ ground arith
