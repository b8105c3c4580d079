-- ===== src/Wire/Frame.antt =====
-- src/common.c: building and parsing a frame. A buffer is a memory with offsets for pointers; an
-- `Option` result is `none` where the C function returns -1.
pub mod Layout
pub mod RoundTrip
pub mod Bounds
pub mod Verify
use chrontabulator.Base.{
  ℕ, ◌+◌, ◌-◌, ◌*◌, ◌/◌, ◌%◌, ◌^◌, Bool, not, ◌||◌, Option, none, some, ltb, ◌==◌, if◌then◌else◌,
}
use chrontabulator.Base.Mem.{Mem, put_byte, copy, fill}
use chrontabulator.Wire.Bytes.{put_be16, put_be64, get_be16, get_be64}
use chrontabulator.Wire.Checksum.{ip_checksum, udp_checksum}

abbrev pub eth_hdr_len : ℕ
eth_hdr_len = 14

abbrev pub ipv4_hdr_len : ℕ
ipv4_hdr_len = 20

abbrev pub udp_hdr_len : ℕ
udp_hdr_len = 8

-- `with_seq ? SEQ_LEN : 0`
abbrev pub seq_len : Bool → ℕ
seq_len with_seq = if with_seq then 8 else 0

abbrev pub app_hdr_len : Bool → ℕ
app_hdr_len with_seq = eth_hdr_len + ipv4_hdr_len + udp_hdr_len + seq_len with_seq

-- What the caller gives to `app_build_packet` beside the buffer and the lengths.
pub record Fields : Type 0 where
  pub dst_mac : Mem
  pub src_mac : Mem
  pub src_ip : Mem
  pub dst_ip : Mem
  pub src_port : ℕ
  pub dst_port : ℕ
  pub with_seq : Bool
  pub seq : ℕ
  pub payload : Mem
  pub payload_len : ℕ

unfoldable pub put_ethernet : Fields → Mem → Mem
put_ethernet f m = put_be16 (copy (copy m 0 f.dst_mac 0 6) 6 f.src_mac 0 6) 12 0x0800

-- The header with a zero checksum field.
unfoldable pub put_ipv4 : Fields → ℕ → Mem → Mem
put_ipv4 f total m =
    let ip_total_len = total - eth_hdr_len in
    let m1 = put_be16 (put_byte (put_byte m 14 0x45) 15 0x00) 16 (ip_total_len % 2 ^ 16) in
    let m2 = put_be16 (put_be16 m1 18 0) 20 0 in
    let m3 = put_be16 (put_byte (put_byte m2 22 64) 23 17) 24 0 in
    copy (copy m3 26 f.src_ip 0 4) 30 f.dst_ip 0 4

unfoldable pub put_ip_checksum : Mem → Mem
put_ip_checksum m = put_be16 m 24 (ip_checksum m 14 ipv4_hdr_len)

unfoldable pub put_udp : Fields → ℕ → Mem → Mem
put_udp f total m =
    let udp_len = total - eth_hdr_len - ipv4_hdr_len in
    put_be16 (put_be16 (put_be16 (put_be16 m 34 f.src_port) 36 f.dst_port) 38 (udp_len % 2 ^ 16)) 40
      0

-- The sequence number, the payload, and zeros up to `total`.
unfoldable pub put_body : Fields → ℕ → Mem → Mem
put_body f total m =
    let m1 = if f.with_seq then put_be64 m 42 f.seq else m in
    let m2 = copy m1 (42 + seq_len f.with_seq) f.payload 0 f.payload_len in
    let used = (app_hdr_len f.with_seq + f.payload_len) % 2 ^ 32 in
    if ltb used total then fill m2 used 0 (total - used) else m2

unfoldable pub put_udp_checksum : Fields → ℕ → Mem → Mem
put_udp_checksum f total m =
    put_be16 m 40 (udp_checksum f.src_ip f.dst_ip m 34 (total - eth_hdr_len - ipv4_hdr_len))

-- The frame as written, once the lengths have passed the test.
pub fill_frame : Fields → ℕ → Mem → Mem
fill_frame f total m =
    put_udp_checksum f total
      (put_body f total (put_udp f total (put_ip_checksum (put_ipv4 f total (put_ethernet f m)))))

-- The sum of the lengths is a `uint32_t`.
pub app_build_packet : Mem → ℕ → ℕ → Fields → Option Mem
app_build_packet buf capacity total f =
    if ltb total ((app_hdr_len f.with_seq + f.payload_len) % 2 ^ 32) || ltb capacity total
    then none
    else some (fill_frame f total buf)

-- `payload` is the offset that `*out_payload` points at.
pub record Parsed : Type 0 where
  pub dst_port : ℕ
  pub seq : ℕ
  pub payload : ℕ
  pub payload_len : ℕ

-- The part after the IPv4 header, whose length the caller has tested.
parse_udp : Mem → ℕ → Bool → ℕ → Option Parsed
parse_udp m len with_seq ip_hdr_len =
    let udp = eth_hdr_len + ip_hdr_len in
    let udp_len = get_be16 m (udp + 4) in
    if ltb udp_len (udp_hdr_len + seq_len with_seq) || ltb len (eth_hdr_len + ip_hdr_len + udp_len)
    then none
    else some (record {
      dst_port = get_be16 m (udp + 2);
      seq = if with_seq then get_be64 m (udp + udp_hdr_len) else 0;
      payload = udp + udp_hdr_len + seq_len with_seq;
      payload_len = udp_len - udp_hdr_len - seq_len with_seq;
    })

pub app_parse_packet : Mem → ℕ → Bool → Option Parsed
app_parse_packet m len with_seq =
    let ip_hdr_len = m 14 % 2 ^ 4 * 4 in
    if ltb len (eth_hdr_len + ipv4_hdr_len)
    then none
    else if not (get_be16 m 12 == 0x0800)
    then none
    else if not (m 14 / 2 ^ 4 == 4)
    then none
    else if ltb ip_hdr_len ipv4_hdr_len || ltb len (eth_hdr_len + ip_hdr_len + udp_hdr_len)
    then none
    else if not (m (14 + 9) == 17)
    then none
    else parse_udp m len with_seq ip_hdr_len
