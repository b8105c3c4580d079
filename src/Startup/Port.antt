-- ===== src/Startup/Port.antt =====
-- src/port_init.c: `chrono_port_init`, as the calls of DPDK that it makes, in order. What each call
-- finds and returns is a parameter.
pub mod Waits
pub mod Ready
use chrontabulator.Base.{
  ℕ, zero, suc, ◌+◌, ◌*◌, Bool, true, false, not, ◌&&◌, ◌||◌, List, [], ◌∷◌, ◌++◌, ltb, ◌==◌,
  if◌then◌else◌,
}

-- An `int` that a call returns: 0, a negated error, or a positive number.
pub data Ret : Type 0 where
  success : Ret
  failure : ℕ → Ret
  positive : ℕ → Ret

-- `retval != 0` and `retval < 0`
abbrev pub is_nonzero : Ret → Bool
is_nonzero success = false
is_nonzero _ = true

abbrev pub is_negative : Ret → Bool
is_negative (failure e) = true
is_negative _ = false

-- The fields of `struct rte_eth_conf` that are set.
pub record PortConf : Type 0 where
  pub speed_10g : Bool
  pub mtu : ℕ
  pub scatter : Bool

-- What the device answers; `link_up k` is the state at the reading `k` of the link.
pub record EthDev : Type 0 where
  pub is_valid : Bool
  pub info : Ret
  pub min_mtu : ℕ
  pub max_mtu : ℕ
  pub can_scatter : Bool
  pub configured : PortConf → Ret
  pub adjusted : Ret
  pub nb_rxd : ℕ
  pub nb_txd : ℕ
  pub rx_set_up : Ret
  pub tx_set_up : Ret
  pub started : Ret
  pub mac : Ret
  pub link_up : ℕ → Bool
  pub promiscuous : Ret

-- The calls; the two counts of descriptors are those asked for, or as adjusted.
pub data Call : Type 0 where
  dev_info_get : Call
  dev_configure : PortConf → Call
  adjust_nb_desc : ℕ → ℕ → Call
  rx_queue_setup tx_queue_setup : ℕ → Call
  dev_start macaddr_get link_get : Call
  delay_us : ℕ → Call
  promiscuous_enable : Call

-- `RX_RING_SIZE`, `TX_RING_SIZE`
abbrev pub rx_ring_size : ℕ
rx_ring_size = 1024

abbrev pub tx_ring_size : ℕ
tx_ring_size = 512

-- `RTE_ETHER_MTU`
abbrev pub ether_mtu : ℕ
ether_mtu = 1500

-- `max_wait_ms`, `poll_interval_ms`
abbrev pub max_wait_ms : ℕ
max_wait_ms = 10000

abbrev pub poll_interval_ms : ℕ
poll_interval_ms = 200

-- A call that returns `rc`; a failure is returned, else `next` goes on.
abbrev pub call : Call → Bool → Ret → Ret × List Call → Ret × List Call
call c failed rc next = if failed then (rc, c ∷ []) else (next.0, c ∷ next.1)

-- `mtu < dev_info.min_mtu || mtu > dev_info.max_mtu`, unless none is asked for.
unfoldable pub mtu_refused : EthDev → ℕ → Bool
mtu_refused d mtu = not (mtu == 0) && (ltb mtu d.min_mtu || ltb d.max_mtu mtu)

unfoldable pub port_conf : EthDev → ℕ → Bool → PortConf
port_conf d mtu force_10g = record {
  speed_10g = force_10g;
  mtu = mtu;
  scatter = not (mtu == 0) && (ltb ether_mtu mtu && d.can_scatter);
}

-- The `do` loop, on fuel; `k` counts its rounds.
unfoldable pub wait_for_link : ℕ → (ℕ → Bool) → ℕ → ℕ → List Call
wait_for_link zero up k waited_ms = []
wait_for_link (suc fuel) up k waited_ms =
    let waited = waited_ms + poll_interval_ms in
    let again = wait_for_link fuel up (suc k) waited in
    let wait =
      delay_us (poll_interval_ms * 1000) ∷ (if ltb waited max_wait_ms then again else []) in
    link_get ∷ (if up k then [] else wait)

-- Every round that goes on waits a millisecond at least.
abbrev pub link_rounds : ℕ
link_rounds = max_wait_ms

-- From the port being started on.
unfoldable pub after_start : EthDev → Ret × List Call
after_start d =
    let (rc, calls) =
      call promiscuous_enable (is_nonzero d.promiscuous) d.promiscuous (success, []) in
    call macaddr_get (is_nonzero d.mac) d.mac (rc, wait_for_link link_rounds d.link_up 0 0 ++ calls)

unfoldable pub set_up_queues : EthDev → Ret × List Call
set_up_queues d = call (rx_queue_setup d.nb_rxd) (is_negative d.rx_set_up) d.rx_set_up (
    call (tx_queue_setup d.nb_txd) (is_negative d.tx_set_up) d.tx_set_up
      (call dev_start (is_negative d.started) d.started (after_start d)))

unfoldable pub configure_port : EthDev → ℕ → Bool → Ret × List Call
configure_port d mtu force_10g =
    let conf = port_conf d mtu force_10g in
    if mtu_refused d mtu
    then (failure 1, [])
    else call (dev_configure conf) (is_nonzero (d.configured conf)) (d.configured conf) (
        call (adjust_nb_desc rx_ring_size tx_ring_size) (is_nonzero d.adjusted) d.adjusted
          (set_up_queues d))

unfoldable pub chrono_port_init : EthDev → ℕ → Bool → Ret × List Call
chrono_port_init d mtu force_10g =
    if not d.is_valid
    then (failure 1, [])
    else call dev_info_get (is_nonzero d.info) d.info (configure_port d mtu force_10g)
