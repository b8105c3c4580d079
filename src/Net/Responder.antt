-- ===== src/Net/Responder.antt =====
-- src/net_responder.c. A frame is its bytes and their number, `rte_pktmbuf_data_len`; requests are
-- rewritten in place into their replies. DPDK's two checksum functions, whether the transmit ring
-- takes a packet, and the port's address are parameters.
pub mod Arp
pub mod Echo
pub mod Ping
use chrontabulator.Base.{
  ℕ, ◌+◌, ◌-◌, ◌*◌, Bool, true, false, not, ◌&&◌, ◌||◌, Option, none, some, ltb, ◌==◌,
  if◌then◌else◌,
}
use chrontabulator.Base.Mem.{Mem, copy, put_byte, put_le}
use chrontabulator.Wire.Bytes.{get_be16, put_be16}
use chrontabulator.Wire.Checksum.{complement16}
use chrontabulator.Ctx.{Ctx}

-- What becomes of a packet: `false` leaves it to the caller; `true` has sent it, or freed it when
-- the ring was full.
pub data Handled : Type 0 where
  left freed : Handled
  sent : Mem → Handled

-- `memcmp(m + p, ip, 4) == 0`
unfoldable pub same_ip : Mem → ℕ → Mem → Bool
same_ip m p ip = m p == ip 0 && m (p + 1) == ip 1 && m (p + 2) == ip 2 && m (p + 3) == ip 3

-- The Ethernet addresses of a reply: to the sender, from us.
abbrev pub swap_ethernet : Mem → Mem → Mem
swap_ethernet local_mac m = copy (copy m 0 m 6 6) 6 local_mac 0 6

-- The header of an ARP request for our address, at byte 14.
unfoldable pub asks_for : Mem → Mem → Bool
asks_for local_ip m = not (
    not (get_be16 m 14 == 1)
    || not (get_be16 m 16 == 0x0800)
    || not (m 18 == 6)
    || not (m 19 == 4)
    || not (get_be16 m 20 == 1)
    || not (same_ip m 38 local_ip))

-- The assignments in their order.
unfoldable pub arp_reply : Mem → Mem → Mem → Mem
arp_reply local_mac local_ip m =
    let m1 = put_be16 (swap_ethernet local_mac m) 20 2 in
    let m2 = copy m1 32 m1 22 6 in
    let m3 = copy m2 38 m2 28 4 in copy (copy m3 22 local_mac 0 6) 28 local_ip 0 4

-- An echo request for our address in a plain IPv4 header, whole within the frame's `len` bytes.
unfoldable pub is_echo : Mem → Mem → ℕ → Bool
is_echo local_ip m len =
    if not (m 14 == 0x45) || not (m 23 == 1)
    then false
    else if ltb (get_be16 m 16) 28 || ltb len (14 + get_be16 m 16)
    then false
    else if not (same_ip m 30 local_ip)
    then false
    else if not (m 34 == 8) || not (m 35 == 0)
    then false
    else true

module _ (rte_ipv4_cksum : Mem → ℕ → ℕ) (rte_raw_cksum : Mem → ℕ → ℕ → ℕ) where
  -- Addresses swapped, then the header's checksum; 16-bit stores are little-endian.
  unfoldable pub echo_ip : Mem → Mem → Mem
  echo_ip local_mac m =
      let m1 = swap_ethernet local_mac m in
      let m2 = copy (copy m1 26 m1 30 4) 30 m1 26 4 in
      let m3 = put_le 2 m2 24 0 in put_le 2 m3 24 (rte_ipv4_cksum m3 14)

  -- The type of a reply, then the message's checksum.
  unfoldable pub echo_icmp : ℕ → Mem → Mem
  echo_icmp n m =
      let m1 = put_le 2 (put_byte m 34 0) 36 0 in
      put_le 2 m1 36 (complement16 (rte_raw_cksum m1 34 n))

  unfoldable pub echo_reply : Mem → Mem → Mem
  echo_reply local_mac m = echo_icmp (get_be16 m 16 - 20) (echo_ip local_mac m)

  module _ (tx_accepts : Bool) (local_mac : Mem) where
    unfoldable pub tx_or_free : Mem → Handled
    tx_or_free m = if tx_accepts then sent m else freed

    unfoldable pub try_arp : Mem → Mem → ℕ → Handled
    try_arp local_ip m len =
        if ltb len 42
        then left
        else if asks_for local_ip m
        then tx_or_free (arp_reply local_mac local_ip m)
        else left

    unfoldable pub try_icmp_echo : Mem → Mem → ℕ → Handled
    try_icmp_echo local_ip m len =
        if ltb len 34
        then left
        else if is_echo local_ip m len
        then tx_or_free (echo_reply local_mac m)
        else left

    unfoldable pub net_responder_try_handle : Ctx → Mem → ℕ → Handled
    net_responder_try_handle c m len =
        if not c.opts.have_local_ip
        then left
        else if ltb len 14
        then left
        else if get_be16 m 12 == 0x0806
        then try_arp c.opts.local_ip m len
        else if get_be16 m 12 == 0x0800
        then try_icmp_echo c.opts.local_ip m len
        else left
