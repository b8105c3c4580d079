-- ===== src/Net/Responder/Echo.antt =====
-- The answers to pings of src/net_responder.c. What DPDK documents of its checksum functions:
-- they give the Internet checksum, and the sum before its complement, as they stand in memory.
use chrontabulator.Base.{ℕ, ◌+◌, ◌-◌, ◌*◌, ◌/◌, ◌%◌, ◌^◌, ◌≤◌, ◌<◌, ◌≡◌, refl, ap, ap₂, ◌∙◌, arith}
use chrontabulator.Base.Mem.{Mem, Agree, copy, put_byte, put_le}
use chrontabulator.Wire.Bytes.{get_be16, put_be16}
use chrontabulator.Wire.Checksum.{complement16, fold_carries, ip_checksum}
use chrontabulator.Wire.Sums.{AreBytes, sum_words-Agree}
use chrontabulator.Wire.Sums.Verified.{ip_verifies, complement16-lt}
use chrontabulator.Wire.Sums.Message.{message_verifies}
use chrontabulator.Net.Responder.{swap_ethernet, echo_ip, echo_icmp, echo_reply}

-- The two bytes of a 16-bit number, exchanged: network order read as a little-endian number.
abbrev pub swap16 : ℕ → ℕ
swap16 v = v % 2 ^ 8 * 2 ^ 8 + v / 2 ^ 8

put_le-swap16 : (m : Mem) (q v : ℕ) → v < 2 ^ 16 → put_le 2 m q (swap16 v) ≡ put_be16 m q v
unfolding put_le
put_le-swap16 m q v h =
    ap₂ (λ (a b : ℕ). put_byte (put_byte m q a) (q + 1) b) (omega arith) (omega arith)

put_le-zero : (m : Mem) (q : ℕ) → put_le 2 m q 0 ≡ put_be16 m q 0
unfolding put_le
put_le-zero m q = refl

-- The reply with the checksums of src/common.c in place of DPDK's.
swapped : Mem → Mem → Mem
swapped mac m = let m1 = swap_ethernet mac m in copy (copy m1 26 m1 30 4) 30 m1 26 4

cleared_ip : Mem → Mem → Mem
cleared_ip mac m = put_be16 (swapped mac m) 24 0

patched_ip : Mem → Mem → Mem
patched_ip mac m = put_be16 (cleared_ip mac m) 24 (ip_checksum (cleared_ip mac m) 14 20)

cleared_icmp : Mem → Mem → Mem
cleared_icmp mac m = put_be16 (put_byte (patched_ip mac m) 34 0) 36 0

pub patched : ℕ → Mem → Mem → Mem
patched n mac m = put_be16 (cleared_icmp mac m) 36 (ip_checksum (cleared_icmp mac m) 34 n)

-- The answer to a ping: addresses exchanged at both layers, the type of a reply, the rest as it
-- came, and checksums that the receiver verifies.
pub record IsEchoReply (mac m : Mem) (n : ℕ) (r : Mem) : Type 0 where
  pub to : (i : ℕ) → i < 6 → r i ≡ m (6 + i)
  pub sender : (i : ℕ) → i < 6 → r (6 + i) ≡ mac i
  pub kept : (i : ℕ) → 12 ≤ i → i < 24 → r i ≡ m i
  pub source : (i : ℕ) → i < 4 → r (26 + i) ≡ m (30 + i)
  pub destination : (i : ℕ) → i < 4 → r (30 + i) ≡ m (26 + i)
  pub reply_type : r 34 ≡ 0
  pub code : r 35 ≡ m 35
  pub rest : (i : ℕ) → 38 ≤ i → r i ≡ m i
  pub ip_verified : ip_checksum r 14 20 ≡ 0
  pub icmp_verified : ip_checksum r 34 n ≡ 0

pub ip_checksum-lt : (m : Mem) (p n : ℕ) → ip_checksum m p n < 2 ^ 16
unfolding ip_checksum
ip_checksum-lt m p n = complement16-lt _

cleared_ip-AreBytes : (mac m : Mem) → ((i : ℕ) → m i < 256) → AreBytes (cleared_ip mac m) 14 20
unfolding cleared_ip swapped
cleared_ip-AreBytes mac m h i a b = ground (arith, h i, h (30 + (i - 26)), h (26 + (i - 30)))

cleared_icmp-AreBytes :
    (mac m : Mem) (n : ℕ) → ((i : ℕ) → m i < 256) → AreBytes (cleared_icmp mac m) 34 n
unfolding cleared_icmp patched_ip cleared_ip swapped
cleared_icmp-AreBytes mac m n h i a b = ground (arith, h i)

ip_checksum-Agree : (m m' : Mem) → Agree m m' 14 20 → ip_checksum m 14 20 ≡ ip_checksum m' 14 20
unfolding ip_checksum
ip_checksum-Agree m m' h =
    ap (λ (x : ℕ). complement16 (fold_carries 3 x)) (sum_words-Agree 10 m m' 14 0 h)

module _ (mac m : Mem) (n : ℕ) where
  fields :
      (c d : ℕ)
      → let r =
          put_be16
            (put_be16 (put_byte (put_be16 (put_be16 (swapped mac m) 24 0) 24 c) 34 0) 36 0)
            36
            d in
        ((i : ℕ) → i < 6 → r i ≡ m (6 + i))
        × ((i : ℕ) → i < 6 → r (6 + i) ≡ mac i)
        × ((i : ℕ) → 12 ≤ i → i < 24 → r i ≡ m i)
        × ((i : ℕ) → i < 4 → r (26 + i) ≡ m (30 + i))
        × ((i : ℕ) → i < 4 → r (30 + i) ≡ m (26 + i))
        × (r 34 ≡ 0)
        × (r 35 ≡ m 35)
        × ((i : ℕ) → 38 ≤ i → r i ≡ m i)
  unfolding swapped
  fields c d = (
    λ i h. ground arith,
    λ i h. ground arith,
    λ i h k. ground arith,
    λ i h. ground arith,
    λ i h. ground arith,
    refl,
    refl,
    λ i h. ground arith,
  )

pub patched-IsEchoReply :
    (mac m : Mem) (n : ℕ)
    → ((i : ℕ) → m i < 256)
    → m 14 ≡ 0x45
    → 8 ≤ n
    → n < 2 ^ 16
    → IsEchoReply mac m n (patched n mac m)
unfolding patched cleared_icmp patched_ip cleared_ip
patched-IsEchoReply mac m n bytes version long small =
    let (a, b, c, d, e, f, g, h) =
      fields mac m n (ip_checksum (cleared_ip mac m) 14 20)
        (ip_checksum (cleared_icmp mac m) 34 n) in
    record {
      to = a;
      sender = b;
      kept = c;
      source = d;
      destination = e;
      reply_type = f;
      code = g;
      rest = h;
      ip_verified = ip_verified;
      icmp_verified = icmp_verified;
    }
  where
    version_kept : 0 < cleared_ip mac m 14
    version_kept = unfold swapped in omega (arith, version)

    ip_verified : ip_checksum (patched n mac m) 14 20 ≡ 0
    ip_verified =
        ip_checksum-Agree (patched n mac m) (patched_ip mac m) (λ i x y. ground arith)
        ∙ ip_verifies (cleared_ip mac m) (cleared_ip-AreBytes mac m bytes) refl refl version_kept

    icmp_verified : ip_checksum (patched n mac m) 34 n ≡ 0
    icmp_verified =
        message_verifies (cleared_icmp mac m) n (cleared_icmp-AreBytes mac m n bytes) long small
          refl refl

pub record IsChecksums (ck : Mem → ℕ → ℕ) (raw : Mem → ℕ → ℕ → ℕ) : Type 0 where
  pub ipv4 : (m : Mem) (p : ℕ) → m p ≡ 0x45 → ck m p ≡ swap16 (ip_checksum m p 20)
  pub sum : (m : Mem) (p n : ℕ) → complement16 (raw m p n) ≡ swap16 (ip_checksum m p n)

module _ (ck : Mem → ℕ → ℕ) (raw : Mem → ℕ → ℕ → ℕ) (h : IsChecksums ck raw) (mac : Mem) where
  echo_ip-patched : (m : Mem) → m 14 ≡ 0x45 → echo_ip ck raw mac m ≡ patched_ip mac m
  unfolding echo_ip patched_ip cleared_ip swapped put_le
  echo_ip-patched m version =
      ap (put_le 2 (cleared_ip mac m) 24) (h.ipv4 (cleared_ip mac m) 14 version)
      ∙ put_le-swap16 (cleared_ip mac m) 24 (ip_checksum (cleared_ip mac m) 14 20)
          (ip_checksum-lt (cleared_ip mac m) 14 20)

  pub echo_reply-patched :
      (m : Mem) → m 14 ≡ 0x45 → echo_reply ck raw mac m ≡ patched (get_be16 m 16 - 20) mac m
  unfolding echo_reply echo_icmp patched cleared_icmp put_le
  echo_reply-patched m version =
      let n = get_be16 m 16 - 20 in
      let m5 = cleared_icmp mac m in
      ap (echo_icmp ck raw n) (echo_ip-patched m version)
      ∙ ap (put_le 2 m5 36) (h.sum m5 34 n)
      ∙ put_le-swap16 m5 36 (ip_checksum m5 34 n) (ip_checksum-lt m5 34 n)
