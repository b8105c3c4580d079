-- ===== src/Startup/Port/Ready.antt =====
-- When the set-up of the port (src/port_init.c) succeeds.
use chrontabulator.Base.{
  ℕ, zero, suc, ◌≤◌, ◌≡◌, refl, sym, ◌↔◌, ◌⊎◌, inl, inr, Bool, true, false, not, List, [],
  if◌then◌else◌, arith,
}
use chrontabulator.Startup.Port.{
  Ret, success, failure, positive, is_nonzero, is_negative, EthDev, Call, dev_info_get,
  dev_configure, adjust_nb_desc, rx_queue_setup, tx_queue_setup, dev_start, macaddr_get,
  promiscuous_enable, rx_ring_size, tx_ring_size, call, mtu_refused, port_conf, after_start,
  set_up_queues, configure_port, chrono_port_init,
}
use chrontabulator.Startup.Port.Waits.{waits_us, init-waits}

-- Every call that has to returns 0, the others no error, and the device takes the MTU.
pub record IsUsable (d : EthDev) (mtu : ℕ) (force_10g : Bool) : Type 0 where
  pub is_valid : d.is_valid ≡ true
  pub info : d.info ≡ success
  pub mtu_taken : (mtu ≡ 0) ⊎ ((d.min_mtu ≤ mtu) × (mtu ≤ d.max_mtu))
  pub configured : d.configured (port_conf d mtu force_10g) ≡ success
  pub adjusted : d.adjusted ≡ success
  pub rx_set_up : is_negative d.rx_set_up ≡ false
  pub tx_set_up : is_negative d.tx_set_up ≡ false
  pub started : is_negative d.started ≡ false
  pub mac : d.mac ≡ success
  pub promiscuous : d.promiscuous ≡ success

-- A call that has to return 0, and one that may not return an error.
call-nonzero :
    (c : Call) (rc : Ret) (next : Ret × List Call)
    → (call c (is_nonzero rc) rc next).0 ≡ success
    → (rc ≡ success) × (next.0 ≡ success)
call-nonzero c success next h = (refl, h)
call-nonzero c (failure e) next h = absurd (ground arith)
call-nonzero c (positive n) next h = absurd (ground arith)

call-negative :
    (c : Call) (rc : Ret) (next : Ret × List Call)
    → (call c (is_negative rc) rc next).0 ≡ success
    → (is_negative rc ≡ false) × (next.0 ≡ success)
call-negative c success next h = (refl, h)
call-negative c (failure e) next h = absurd (ground arith)
call-negative c (positive n) next h = (refl, h)

taken :
    (d : EthDev) (mtu : ℕ)
    → mtu_refused d mtu ≡ false
    → (mtu ≡ 0) ⊎ ((d.min_mtu ≤ mtu) × (mtu ≤ d.max_mtu))
unfolding mtu_refused
taken d zero h = inl refl
taken d (suc m) h = inr (ground arith, ground arith)

not_refused :
    (d : EthDev) (mtu : ℕ)
    → (mtu ≡ 0) ⊎ ((d.min_mtu ≤ mtu) × (mtu ≤ d.max_mtu))
    → mtu_refused d mtu ≡ false
unfolding mtu_refused
not_refused d mtu (inl e) = ground arith
not_refused d mtu (inr (l, u)) = ground arith

init-IsUsable :
    (d : EthDev) (mtu : ℕ) (force_10g : Bool)
    → (chrono_port_init d mtu force_10g).0 ≡ success
    → IsUsable d mtu force_10g
unfolding chrono_port_init configure_port set_up_queues after_start
init-IsUsable d mtu f h = by_valid d.is_valid refl h
  where
    queues :
        (mtu_refused d mtu ≡ false)
        → d.is_valid ≡ true
        → d.info ≡ success
        → d.configured (port_conf d mtu f) ≡ success
        → d.adjusted ≡ success
        → (set_up_queues d).0 ≡ success
        → IsUsable d mtu f
    queues m v i c a q =
        let rx = call-negative (rx_queue_setup d.nb_rxd) d.rx_set_up _ q in
        let tx = call-negative (tx_queue_setup d.nb_txd) d.tx_set_up _ rx.1 in
        let st = call-negative dev_start d.started (after_start d) tx.1 in
        let mc = call-nonzero macaddr_get d.mac _ st.1 in
        let pr = call-nonzero promiscuous_enable d.promiscuous (success, []) mc.1 in
        record {
          is_valid = v;
          info = i;
          mtu_taken = taken d mtu m;
          configured = c;
          adjusted = a;
          rx_set_up = rx.0;
          tx_set_up = tx.0;
          started = st.0;
          mac = mc.0;
          promiscuous = pr.0;
        }

    by_mtu :
        (b : Bool)
        → b ≡ mtu_refused d mtu
        → d.is_valid ≡ true
        → d.info ≡ success
        → (if b
            then (failure 1, [])
            else call
                (dev_configure (port_conf d mtu f))
                (is_nonzero (d.configured (port_conf d mtu f)))
                (d.configured (port_conf d mtu f))
                (call
                  (adjust_nb_desc rx_ring_size tx_ring_size)
                  (is_nonzero d.adjusted)
                  d.adjusted
                  (set_up_queues d))).0
          ≡ success
        → IsUsable d mtu f
    by_mtu true e v i h = absurd (ground arith)
    by_mtu false e v i h =
        let c =
          call-nonzero (dev_configure (port_conf d mtu f)) (d.configured (port_conf d mtu f)) _ h in
        let a =
          call-nonzero (adjust_nb_desc rx_ring_size tx_ring_size) d.adjusted (set_up_queues d)
            c.1 in
        queues (sym e) v i c.0 a.0 a.1

    by_valid :
        (b : Bool)
        → b ≡ d.is_valid
        → (if not b
            then (failure 1, [])
            else call dev_info_get (is_nonzero d.info) d.info (configure_port d mtu f)).0
          ≡ success
        → IsUsable d mtu f
    by_valid false e h = absurd (ground arith)
    by_valid true e h =
        let i = call-nonzero dev_info_get d.info (configure_port d mtu f) h in
        by_mtu (mtu_refused d mtu) refl (sym e) i.0 i.1

IsUsable-init :
    (d : EthDev) (mtu : ℕ) (force_10g : Bool)
    → IsUsable d mtu force_10g
    → (chrono_port_init d mtu force_10g).0 ≡ success
unfolding chrono_port_init configure_port set_up_queues after_start
IsUsable-init d mtu f u = simp (
  u.is_valid,
  u.info,
  not_refused d mtu u.mtu_taken,
  u.configured,
  u.adjusted,
  u.rx_set_up,
  u.tx_set_up,
  u.started,
  u.mac,
  u.promiscuous,
)

-- Whatever the device answers: the set-up of the port succeeds exactly if the port is valid, the
-- MTU asked for is 0 or within the device's range, and each call succeeds (the set-up of the queues
-- and the start may return a positive number); and its delays for the link to come up are 10
-- seconds at most, together.
pub chrono_port_init-IsUsable :
    (d : EthDev) (mtu : ℕ) (force_10g : Bool)
    → (((chrono_port_init d mtu force_10g).0 ≡ success) ↔ IsUsable d mtu force_10g)
      × (waits_us (chrono_port_init d mtu force_10g).1 ≤ 10000000)
chrono_port_init-IsUsable d mtu f =
    ((init-IsUsable d mtu f, IsUsable-init d mtu f), init-waits d mtu f)
