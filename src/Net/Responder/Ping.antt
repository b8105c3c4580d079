-- ===== src/Net/Responder/Ping.antt =====
-- When src/net_responder.c answers a ping, and what it then sends.
use mathlib.Core.Path.{subst⁻¹}
use chrontabulator.Base.{
  ◌⊎◌, ℕ, ◌+◌, ◌-◌, ◌^◌, ◌≤◌, ◌<◌, ◌≡◌, ap, ◌∙◌, Bool, true, false, not, arith, ltb, ◌==◌, if_false,
  if_true, le→ltb, ==_iff, inl, inr, Bool-cases, lt→ltb, lt_cases,
}
use chrontabulator.Base.Mem.{Mem}
use chrontabulator.Wire.Bytes.{get_be16}
use chrontabulator.Ctx.{Ctx}
use chrontabulator.Net.Responder.{
  Handled, left, sent, freed, same_ip, is_echo, echo_reply, try_icmp_echo, tx_or_free,
  net_responder_try_handle,
}
use chrontabulator.Net.Responder.Echo.{
  IsChecksums, IsEchoReply, echo_reply-patched, patched-IsEchoReply,
}

-- A whole echo request for our address, in an IPv4 packet without options.
pub record IsPing (ip m : Mem) (len : ℕ) : Type 0 where
  pub version : m 14 ≡ 0x45
  pub protocol : m 23 ≡ 1
  pub long : 28 ≤ get_be16 m 16
  pub whole : 14 + get_be16 m 16 ≤ len
  pub target_0 : m 30 ≡ ip 0
  pub target_1 : m 31 ≡ ip 1
  pub target_2 : m 32 ≡ ip 2
  pub target_3 : m 33 ≡ ip 3
  pub request : m 34 ≡ 8
  pub code : m 35 ≡ 0

is_echo-IsPing : (ip m : Mem) (len : ℕ) → is_echo ip m len ≡ true → IsPing ip m len
unfolding is_echo same_ip
is_echo-IsPing ip m len e = record {
  version = ground arith;
  protocol = ground arith;
  long = ground arith;
  whole = ground arith;
  target_0 = ground arith;
  target_1 = ground arith;
  target_2 = ground arith;
  target_3 = ground arith;
  request = ground arith;
  code = ground arith;
}

is_echo_complete : (ip m : Mem) (len : ℕ) → IsPing ip m len → is_echo ip m len ≡ true
unfolding is_echo same_ip
is_echo_complete ip m len h = ground (
  arith, h.version, h.protocol, h.long, h.whole, h.target_0, h.target_1, h.target_2, h.target_3,
  h.request, h.code,
)

ipv4_dispatch :
    (ck : Mem → ℕ → ℕ) (raw : Mem → ℕ → ℕ → ℕ) (tx : Bool) (mac : Mem) (c : Ctx) (m : Mem) (len : ℕ)
    → c.opts.have_local_ip ≡ true
    → 14 ≤ len
    → get_be16 m 12 ≡ 0x0800
    → net_responder_try_handle ck raw tx mac c m len
      ≡ try_icmp_echo ck raw tx mac c.opts.local_ip m len
unfolding net_responder_try_handle
ipv4_dispatch ck raw tx mac c m len on long ipv4 =
    if_false (not c.opts.have_local_ip) _ _ (ap not on)
    ∙ if_false (ltb len 14) _ _ (le→ltb len 14 long)
    ∙ if_false (get_be16 m 12 == 0x0806) _ _ (ground (arith, ipv4))
    ∙ if_true (get_be16 m 12 == 0x0800) _ _ ((==_iff (get_be16 m 12) 0x0800).1 ipv4)

-- An IPv4 packet, with the responder on and DPDK's checksums as documented. A whole echo request
-- for our address, in a header without options, is answered, if the ring takes the answer, and is
-- never left to the capture: the addresses are exchanged, the message comes back as it was, and
-- both checksums verify. Any other packet is left. The flags and the offset of a fragment are not
-- looked at: a fragment that has the form of an echo request is answered as well, although the
-- comment at the head of the source says that fragments are left alone.
pub try_handle-IsPing :
    (ck : Mem → ℕ → ℕ) (raw : Mem → ℕ → ℕ → ℕ) (mac : Mem) (c : Ctx) (m : Mem) (len : ℕ)
    → IsChecksums ck raw
    → ((i : ℕ) → m i < 256)
    → c.opts.have_local_ip ≡ true
    → 14 ≤ len
    → get_be16 m 12 ≡ 0x0800
    → let handle = λ (tx : Bool). net_responder_try_handle ck raw tx mac c m len in
      (IsPing c.opts.local_ip m len
        × ((r : Mem) × ((handle true ≡ sent r) × IsEchoReply mac m (get_be16 m 16 - 20) r))
        × (handle false ≡ freed))
      ⊎ ((¬ IsPing c.opts.local_ip m len) × (handle true ≡ left) × (handle false ≡ left))
unfolding try_icmp_echo tx_or_free
try_handle-IsPing ck raw mac c m len h bytes on long ipv4 = elim (lt_cases len 34) [
  | inl short ↦ inr (
    λ q. absurd (omega (arith, q.long, q.whole)),
    to_icmp true ∙ if_true (ltb len 34) _ _ (lt→ltb len 34 short),
    to_icmp false ∙ if_true (ltb len 34) _ _ (lt→ltb len 34 short),
  )
  | inr whole ↦ by_request (le→ltb len 34 whole) (Bool-cases (is_echo ip m len))
]
  where
    ip : Mem
    ip = c.opts.local_ip

    n : ℕ
    n = get_be16 m 16 - 20

    small : n < 2 ^ 16
    small = omega (arith, bytes 16, bytes 17)

    handle : Bool → Handled
    handle tx = net_responder_try_handle ck raw tx mac c m len

    to_icmp : (tx : Bool) → handle tx ≡ try_icmp_echo ck raw tx mac ip m len
    to_icmp tx = ipv4_dispatch ck raw tx mac c m len on long ipv4

    replied : IsPing ip m len → IsEchoReply mac m n (echo_reply ck raw mac m)
    replied q =
        subst⁻¹ (IsEchoReply mac m n) (echo_reply-patched ck raw h mac m q.version)
          (patched-IsEchoReply mac m n bytes q.version (omega (arith, q.long)) small)

    by_request :
        ltb len 34 ≡ false
        → (is_echo ip m len ≡ true) ⊎ (is_echo ip m len ≡ false)
        → (IsPing ip m len
            × ((r : Mem) × ((handle true ≡ sent r) × IsEchoReply mac m n r))
            × (handle false ≡ freed))
          ⊎ ((¬ IsPing ip m len) × (handle true ≡ left) × (handle false ≡ left))
    by_request fits (inl asks) = inl (
      is_echo-IsPing ip m len asks,
      (
        echo_reply ck raw mac m,
        (
          to_icmp true ∙ if_false (ltb len 34) _ _ fits ∙ if_true (is_echo ip m len) _ _ asks,
          replied (is_echo-IsPing ip m len asks),
        ),
      ),
      to_icmp false ∙ if_false (ltb len 34) _ _ fits ∙ if_true (is_echo ip m len) _ _ asks,
    )
    by_request fits (inr other) = inr (
      λ q. let asks = is_echo_complete ip m len q in absurd (ground arith),
      to_icmp true ∙ if_false (ltb len 34) _ _ fits ∙ if_false (is_echo ip m len) _ _ other,
      to_icmp false ∙ if_false (ltb len 34) _ _ fits ∙ if_false (is_echo ip m len) _ _ other,
    )
