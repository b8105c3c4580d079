-- ===== src/Net/Responder/Arp.antt =====
-- The ARP replies of src/net_responder.c.
use chrontabulator.Base.{
  ◌⊎◌, ℕ, ◌+◌, ◌≤◌, ◌<◌, ◌≡◌, refl, ap, ◌∙◌, inl, inr, Bool, true, false, arith, ltb, ◌==◌, not,
  if_false, if_true, le→ltb, lt→ltb, ==_iff, lt_cases, Bool-cases,
}
use chrontabulator.Base.Mem.{Mem}
use chrontabulator.Wire.Bytes.{get_be16}
use chrontabulator.Ctx.{Ctx}
use chrontabulator.Net.Responder.{
  Handled, left, sent, freed, same_ip, asks_for, arp_reply, try_arp, tx_or_free,
  net_responder_try_handle,
}

-- The answer to an ARP request, field by field: addressed to the sender, from the port's address,
-- an ARP reply that gives our two addresses as the sender's and the asker's as the target's.
pub record IsArpReply (mac ip m r : Mem) : Type 0 where
  pub to : (i : ℕ) → i < 6 → r i ≡ m (6 + i)
  pub sender : (i : ℕ) → i < 6 → r (6 + i) ≡ mac i
  pub kept : (i : ℕ) → 12 ≤ i → i < 20 → r i ≡ m i
  pub opcode : get_be16 r 20 ≡ 2
  pub sender_mac : (i : ℕ) → i < 6 → r (22 + i) ≡ mac i
  pub sender_ip : (i : ℕ) → i < 4 → r (28 + i) ≡ ip i
  pub target_mac : (i : ℕ) → i < 6 → r (32 + i) ≡ m (22 + i)
  pub target_ip : (i : ℕ) → i < 4 → r (38 + i) ≡ m (28 + i)
  pub rest : (i : ℕ) → 42 ≤ i → r i ≡ m i

pub arp_reply-IsArpReply : (mac ip m : Mem) → IsArpReply mac ip m (arp_reply mac ip m)
unfolding arp_reply
arp_reply-IsArpReply mac ip m = record {
  to = λ i h. ground arith;
  sender = λ i h. ground arith;
  kept = λ i h k. ground arith;
  opcode = refl;
  sender_mac = λ i h. ground arith;
  sender_ip = λ i h. ground arith;
  target_mac = λ i h. ground arith;
  target_ip = λ i h. ground arith;
  rest = λ i h. ground arith;
}

-- A whole ARP request on Ethernet for our IPv4 address.
pub record IsArpRequest (ip m : Mem) (len : ℕ) : Type 0 where
  pub whole : 42 ≤ len
  pub hardware : get_be16 m 14 ≡ 1
  pub protocol : get_be16 m 16 ≡ 0x0800
  pub hardware_len : m 18 ≡ 6
  pub protocol_len : m 19 ≡ 4
  pub request : get_be16 m 20 ≡ 1
  pub target_0 : m 38 ≡ ip 0
  pub target_1 : m 39 ≡ ip 1
  pub target_2 : m 40 ≡ ip 2
  pub target_3 : m 41 ≡ ip 3

asks_for-IsArpRequest :
    (ip m : Mem) (len : ℕ) → 42 ≤ len → asks_for ip m ≡ true → IsArpRequest ip m len
unfolding asks_for same_ip
asks_for-IsArpRequest ip m len h e = record {
  whole = h;
  hardware = ground arith;
  protocol = ground arith;
  hardware_len = ground arith;
  protocol_len = ground arith;
  request = ground arith;
  target_0 = ground arith;
  target_1 = ground arith;
  target_2 = ground arith;
  target_3 = ground arith;
}

asks_for_complete : (ip m : Mem) (len : ℕ) → IsArpRequest ip m len → asks_for ip m ≡ true
unfolding asks_for same_ip
asks_for_complete ip m len h = ground (
  arith, h.hardware, h.protocol, h.hardware_len, h.protocol_len, h.request, h.target_0, h.target_1,
  h.target_2, h.target_3,
)

arp_dispatch :
    (ck : Mem → ℕ → ℕ) (raw : Mem → ℕ → ℕ → ℕ) (tx : Bool) (mac : Mem) (c : Ctx) (m : Mem) (len : ℕ)
    → c.opts.have_local_ip ≡ true
    → 14 ≤ len
    → get_be16 m 12 ≡ 0x0806
    → net_responder_try_handle ck raw tx mac c m len ≡ try_arp ck raw tx mac c.opts.local_ip m len
unfolding net_responder_try_handle
arp_dispatch ck raw tx mac c m len on long arp =
    if_false (not c.opts.have_local_ip) _ _ (ap not on)
    ∙ if_false (ltb len 14) _ _ (le→ltb len 14 long)
    ∙ if_true (get_be16 m 12 == 0x0806) _ _ ((==_iff (get_be16 m 12) 0x0806).1 arp)

-- An ARP packet, with the responder on. A whole request on Ethernet for our IPv4 address is
-- answered, if the ring takes the answer, and is never left to the capture; any other is left.
pub try_handle-IsArpRequest :
    (rte_ipv4_cksum : Mem → ℕ → ℕ) (rte_raw_cksum : Mem → ℕ → ℕ → ℕ) (mac : Mem) (c : Ctx) (m : Mem)
    (len : ℕ)
    → c.opts.have_local_ip ≡ true
    → 14 ≤ len
    → get_be16 m 12 ≡ 0x0806
    → let handle =
        λ (tx : Bool). net_responder_try_handle rte_ipv4_cksum rte_raw_cksum tx mac c m len in
      (IsArpRequest c.opts.local_ip m len
        × ((r : Mem) × ((handle true ≡ sent r) × IsArpReply mac c.opts.local_ip m r))
        × (handle false ≡ freed))
      ⊎ ((¬ IsArpRequest c.opts.local_ip m len) × (handle true ≡ left) × (handle false ≡ left))
unfolding try_arp tx_or_free
try_handle-IsArpRequest ck raw mac c m len on long arp = elim (lt_cases len 42) [
  | inl short ↦ inr (
    λ q. absurd (omega (arith, q.whole)),
    to_arp true ∙ if_true (ltb len 42) _ _ (lt→ltb len 42 short),
    to_arp false ∙ if_true (ltb len 42) _ _ (lt→ltb len 42 short),
  )
  | inr whole ↦ by_request whole (le→ltb len 42 whole) (Bool-cases (asks_for ip m))
]
  where
    ip : Mem
    ip = c.opts.local_ip

    handle : Bool → Handled
    handle tx = net_responder_try_handle ck raw tx mac c m len

    to_arp : (tx : Bool) → handle tx ≡ try_arp ck raw tx mac ip m len
    to_arp tx = arp_dispatch ck raw tx mac c m len on long arp

    by_request :
        42 ≤ len
        → ltb len 42 ≡ false
        → (asks_for ip m ≡ true) ⊎ (asks_for ip m ≡ false)
        → (IsArpRequest ip m len
            × ((r : Mem) × ((handle true ≡ sent r) × IsArpReply mac ip m r))
            × (handle false ≡ freed))
          ⊎ ((¬ IsArpRequest ip m len) × (handle true ≡ left) × (handle false ≡ left))
    by_request whole fits (inl asks) = inl (
      asks_for-IsArpRequest ip m len whole asks,
      (
        arp_reply mac ip m,
        (
          to_arp true ∙ if_false (ltb len 42) _ _ fits ∙ if_true (asks_for ip m) _ _ asks,
          arp_reply-IsArpReply mac ip m,
        ),
      ),
      to_arp false ∙ if_false (ltb len 42) _ _ fits ∙ if_true (asks_for ip m) _ _ asks,
    )
    by_request whole fits (inr other) = inr (
      λ q. let asks = asks_for_complete ip m len q in absurd (ground arith),
      to_arp true ∙ if_false (ltb len 42) _ _ fits ∙ if_false (asks_for ip m) _ _ other,
      to_arp false ∙ if_false (ltb len 42) _ _ fits ∙ if_false (asks_for ip m) _ _ other,
    )
