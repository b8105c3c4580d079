-- ===== src/Tests/NetTests.antt =====
-- Requests to the responder (src/net_responder.c) for 192.168.1.2.
use chrontabulator.Base.{◌⊎◌, ℕ, ◌+◌, ◌^◌, ◌<◌, ◌≡◌, refl, true, false, [], ◌∷◌, arith, get_or}
use chrontabulator.Base.Mem.{Mem, put_byte}
use chrontabulator.Wire.Bytes.{put_be16}
use chrontabulator.Wire.Checksum.{complement16, ip_checksum}
use chrontabulator.Ctx.{Ctx}
use chrontabulator.Net.Responder.{left, sent, freed, net_responder_try_handle}
use chrontabulator.Net.Responder.Arp.{IsArpRequest, IsArpReply, try_handle-IsArpRequest}
use chrontabulator.Net.Responder.Echo.{swap16, IsChecksums, IsEchoReply, ip_checksum-lt}
use chrontabulator.Net.Responder.Ping.{IsPing, try_handle-IsPing}
use chrontabulator.Tests.Data.{recording_ctx, test_opts}

abbrev our_ip : Mem
our_ip i = get_or (192 ∷ 168 ∷ 1 ∷ 2 ∷ []) i 0

abbrev our_mac : Mem
our_mac i = 2

abbrev answering : Ctx
answering = record recording_ctx {
  opts = record test_opts { have_local_ip = true; local_ip = our_ip };
}

abbrev with_ip : ℕ → Mem → Mem
with_ip p m = put_byte (put_byte (put_byte (put_byte m p 192) (p + 1) 168) (p + 2) 1) (p + 3) 2

abbrev who_has : Mem
who_has = with_ip 38 (
    put_be16
      (put_byte (put_byte (put_be16 (put_be16 (put_be16 (λ i. 7) 12 0x0806) 14 1) 16 0x0800) 18 6)
        19 4)
      20 1)

abbrev ping : Mem
ping =
    put_byte
      (put_byte
        (with_ip 30
          (put_byte (put_be16 (put_byte (put_be16 (λ i. 7) 12 0x0800) 14 0x45) 16 60) 23 1))
        34 8)
      35 0

-- Checksums in the order of the machine, as DPDK gives them.
abbrev ipv4_cksum : Mem → ℕ → ℕ
ipv4_cksum m p = swap16 (ip_checksum m p 20)

abbrev raw_cksum : Mem → ℕ → ℕ → ℕ
raw_cksum m p n = complement16 (swap16 (ip_checksum m p n))

swap16_twice : (v : ℕ) → v < 2 ^ 16 → complement16 (complement16 (swap16 v)) ≡ swap16 v
swap16_twice v h = omega arith

cksum-IsChecksums : IsChecksums ipv4_cksum raw_cksum
cksum-IsChecksums = record {
  ipv4 = λ m p h. refl;
  sum = λ m p n. swap16_twice (ip_checksum m p n) (ip_checksum-lt m p n);
}

try_handle-IsArpRequest_example :
    (IsArpRequest our_ip who_has 60
      × ((r : Mem) × ((net_responder_try_handle ipv4_cksum raw_cksum true our_mac answering who_has
                60
              ≡ sent r)
            × IsArpReply our_mac our_ip who_has r))
      × (net_responder_try_handle ipv4_cksum raw_cksum false our_mac answering who_has 60 ≡ freed))
    ⊎ ((¬ IsArpRequest our_ip who_has 60)
        × (net_responder_try_handle ipv4_cksum raw_cksum true our_mac answering who_has 60 ≡ left)
        × (net_responder_try_handle ipv4_cksum raw_cksum false our_mac answering who_has 60 ≡ left))
try_handle-IsArpRequest_example =
    try_handle-IsArpRequest ipv4_cksum raw_cksum our_mac answering who_has 60 refl (omega arith)
      refl

ping_bytes : (i : ℕ) → ping i < 256
ping_bytes i = ground arith

try_handle-IsPing_example :
    (IsPing our_ip ping 74
      × ((r : Mem) × ((net_responder_try_handle ipv4_cksum raw_cksum true our_mac answering ping 74
              ≡ sent r)
            × IsEchoReply our_mac ping 40 r))
      × (net_responder_try_handle ipv4_cksum raw_cksum false our_mac answering ping 74 ≡ freed))
    ⊎ ((¬ IsPing our_ip ping 74)
        × (net_responder_try_handle ipv4_cksum raw_cksum true our_mac answering ping 74 ≡ left)
        × (net_responder_try_handle ipv4_cksum raw_cksum false our_mac answering ping 74 ≡ left))
try_handle-IsPing_example =
    try_handle-IsPing ipv4_cksum raw_cksum our_mac answering ping 74 cksum-IsChecksums ping_bytes
      refl (omega arith) refl

-- Both frames are of the kind that is answered.
who_has-IsArpRequest : IsArpRequest our_ip who_has 60
who_has-IsArpRequest = record {
  whole = omega arith;
  hardware = refl;
  protocol = refl;
  hardware_len = refl;
  protocol_len = refl;
  request = refl;
  target_0 = refl;
  target_1 = refl;
  target_2 = refl;
  target_3 = refl;
}

ping-IsPing : IsPing our_ip ping 74
ping-IsPing = record {
  version = refl;
  protocol = refl;
  long = omega arith;
  whole = omega arith;
  target_0 = refl;
  target_1 = refl;
  target_2 = refl;
  target_3 = refl;
  request = refl;
  code = refl;
}
