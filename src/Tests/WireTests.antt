-- ===== src/Tests/WireTests.antt =====
-- Frames on concrete inputs.
use chrontabulator.Base.{◌⊎◌, ℕ, ◌+◌, ◌<◌, ◌≤◌, ◌≡◌, true, false, List, [], ◌∷◌, some, arith}
use chrontabulator.Base.Mem.{Mem}
use chrontabulator.Wire.Address.{Text, app_parse_ipv4}
use chrontabulator.Wire.Address.Octets.{AreOctets, stored, app_parse_ipv4-AreOctets}
use chrontabulator.Wire.Checksum.{ip_checksum, udp_sum}
use chrontabulator.Wire.Bytes.{get_be16}
use chrontabulator.Wire.Frame.{Fields, fill_frame, app_build_packet, app_parse_packet}
use chrontabulator.Wire.Frame.RoundTrip.{expected, parse-build}
use chrontabulator.Wire.Frame.Verify.{at, build-checksums_verify}

-- Five bytes of payload behind a sequence number, in a frame of 60 bytes.
abbrev small_frame : Fields
small_frame = record {
  dst_mac = λ i. 1;
  src_mac = λ i. 2;
  src_ip = λ i. 10;
  dst_ip = λ i. 11;
  src_port = 4000;
  dst_port = 5005;
  with_seq = true;
  seq = 77;
  payload = λ i. 65;
  payload_len = 5;
}

abbrev blank : Mem
blank i = 0

abbrev built : Mem
built = fill_frame small_frame 60 blank

parse-build_example :
    (m : Mem) × (app_build_packet blank 128 60 small_frame ≡ some m)
    × (app_parse_packet m 60 true ≡ some (expected small_frame 60))
    × ((i : ℕ) → i < 5 → m (50 + i) ≡ 65)
    × ((i : ℕ) → 55 ≤ i → i < 60 → m i ≡ 0)
    × ((i : ℕ) → 60 ≤ i → m i ≡ 0)
parse-build_example =
    parse-build blank 128 60 small_frame (omega arith) (omega arith) (omega arith) (omega arith)
      (omega arith)

build-checksums_verify_example :
    (ip_checksum built 14 20 ≡ 0)
    × (udp_sum (at built 26) (at built 30) built 34 (get_be16 built 38) ≡ 65535)
build-checksums_verify_example =
    build-checksums_verify small_frame 60 blank (omega arith) (omega arith) (λ i a b. omega arith)
      (λ i a b. omega arith) (λ i a b. omega arith)

abbrev one_address : Text → List ℕ
one_address s = 192 ∷ 168 ∷ 1 ∷ 2 ∷ []

app_parse_ipv4-AreOctets_example :
    ((a : ℕ) × (b : ℕ) × (c : ℕ) × (d : ℕ) × AreOctets (one_address []) a b c d
      × (app_parse_ipv4 one_address [] (λ i. 0) ≡ (true, stored (λ i. 0) a b c d)))
    ⊎ (((a b c d : ℕ) → ¬ AreOctets (one_address []) a b c d)
        × ((app_parse_ipv4 one_address [] (λ i. 0)).0 ≡ false))
app_parse_ipv4-AreOctets_example = app_parse_ipv4-AreOctets one_address [] (λ i. 0)
