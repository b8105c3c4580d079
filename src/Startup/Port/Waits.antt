-- ===== src/Startup/Port/Waits.antt =====
-- How long the set-up of the port (src/port_init.c) waits for the link.
use chrontabulator.Base.{
  ℕ, zero, suc, ◌+◌, ◌-◌, ◌*◌, ◌≤◌, ◌<◌, ◌≡◌, refl, sym, ap, Bool, true, false, not, List, [], ◌∷◌,
  ◌++◌, if_cases, arith, ltb, ltb→lt, if◌then◌else◌,
}
use chrontabulator.Startup.Port.{
  Ret, success, failure, is_nonzero, is_negative, EthDev, Call, dev_info_get, dev_configure,
  adjust_nb_desc, rx_queue_setup, tx_queue_setup, dev_start, macaddr_get, link_get, delay_us,
  promiscuous_enable, rx_ring_size, tx_ring_size, poll_interval_ms, max_wait_ms, call, mtu_refused,
  port_conf, wait_for_link, link_rounds, after_start, set_up_queues, configure_port,
  chrono_port_init,
}

-- The time that the calls wait.
unfoldable pub waits_us : List Call → ℕ
waits_us [] = 0
waits_us (delay_us n ∷ cs) = n + waits_us cs
waits_us (c ∷ cs) = waits_us cs

waits-append : (cs ds : List Call) → waits_us (cs ++ ds) ≡ waits_us cs + waits_us ds
unfolding waits_us
waits-append [] ds = omega arith
waits-append (dev_info_get ∷ cs) ds = waits-append cs ds
waits-append (dev_configure c ∷ cs) ds = waits-append cs ds
waits-append (adjust_nb_desc m n ∷ cs) ds = waits-append cs ds
waits-append (rx_queue_setup n ∷ cs) ds = waits-append cs ds
waits-append (tx_queue_setup n ∷ cs) ds = waits-append cs ds
waits-append (dev_start ∷ cs) ds = waits-append cs ds
waits-append (macaddr_get ∷ cs) ds = waits-append cs ds
waits-append (link_get ∷ cs) ds = waits-append cs ds
waits-append (delay_us n ∷ cs) ds = omega (arith, waits-append cs ds)
waits-append (promiscuous_enable ∷ cs) ds = waits-append cs ds

-- With `j` waits left, by the test of the loop and not by the fuel.
link-waits :
    (fuel : ℕ) (up : ℕ → Bool) (k w j : ℕ)
    → w + 200 * j ≡ 10000
    → 0 < j
    → waits_us (wait_for_link fuel up k w) ≤ j * 200000
unfolding waits_us wait_for_link
link-waits zero up k w j e p = omega arith
link-waits (suc fuel) up k w j e p =
    let waited = w + poll_interval_ms in
    let again = wait_for_link fuel up (suc k) waited in
    if_cases (λ (cs : List Call). waits_us (link_get ∷ cs) ≤ j * 200000) (up k)
      {y = delay_us 200000 ∷ (if ltb waited max_wait_ms then again else [])} (λ t. omega arith)
      (λ t.
        if_cases (λ (cs : List Call). waits_us (delay_us 200000 ∷ cs) ≤ j * 200000)
          (ltb waited max_wait_ms) {x = again}
          (λ l.
            let left : waited < max_wait_ms = ltb→lt waited max_wait_ms l in
            omega (arith, link-waits fuel up (suc k) waited (j - 1) (omega arith) (omega arith)))
          (λ l. omega arith))

-- More rounds than the fuel has are never made.
link_rounds-enough :
    (fuel more : ℕ) (up : ℕ → Bool) (k w : ℕ)
    → 0 < fuel
    → fuel ≤ more
    → max_wait_ms ≤ w + fuel
    → wait_for_link more up k w ≡ wait_for_link fuel up k w
unfolding wait_for_link
link_rounds-enough zero more up k w p l h = absurd (omega arith)
link_rounds-enough (suc fuel) zero up k w p l h = absurd (omega arith)
link_rounds-enough (suc fuel) (suc more) up k w p l h =
    let wait = λ (cs : List Call).
      link_get ∷ (if up k then [] else delay_us (poll_interval_ms * 1000) ∷ cs) in
    ap wait (
      same (ltb waited max_wait_ms) refl (λ left.
        link_rounds-enough fuel more up (suc k) waited (omega arith) (omega arith) (omega arith)))
  where
    waited : ℕ
    waited = w + poll_interval_ms

    same :
        (b : Bool)
        → b ≡ ltb waited max_wait_ms
        → (waited < max_wait_ms
            → wait_for_link more up (suc k) waited ≡ wait_for_link fuel up (suc k) waited)
        → (if b then wait_for_link more up (suc k) waited else [])
          ≡ (if b then wait_for_link fuel up (suc k) waited else [])
    same false e ih = refl
    same true e ih = ih (ltb→lt waited max_wait_ms (sym e))

-- The loop ends within its fuel: with any more it makes the same calls.
pub wait_for_link-ends :
    (more : ℕ) (up : ℕ → Bool)
    → link_rounds ≤ more
    → wait_for_link more up 0 0 ≡ wait_for_link link_rounds up 0 0
wait_for_link-ends more up h =
    link_rounds-enough link_rounds more up 0 0 (omega arith) h (omega arith)

after_start-waits : (d : EthDev) → waits_us (after_start d).1 ≤ 10000000
unfolding after_start waits_us
after_start-waits d =
    let calls =
      (call promiscuous_enable (is_nonzero d.promiscuous) d.promiscuous (success, [])).1 in
    by_mac (is_nonzero d.mac) (is_nonzero d.promiscuous)
  where
    by_mac :
        (b p : Bool)
        → waits_us
            (call macaddr_get b d.mac (
              (call promiscuous_enable p d.promiscuous (success, [])).0,
              wait_for_link link_rounds d.link_up 0 0
                  ++ (call promiscuous_enable p d.promiscuous (success, [])).1,
            )).1
          ≤ 10000000
    by_mac true p = omega arith
    by_mac false true = omega (
      arith,
      waits-append (wait_for_link link_rounds d.link_up 0 0) (promiscuous_enable ∷ []),
      link-waits link_rounds d.link_up 0 0 50 refl (omega arith),
    )
    by_mac false false = omega (
      arith,
      waits-append (wait_for_link link_rounds d.link_up 0 0) (promiscuous_enable ∷ []),
      link-waits link_rounds d.link_up 0 0 50 refl (omega arith),
    )

-- A call that does not wait itself.
call-waits :
    (c : Call) (failed : Bool) (rc : Ret) (next : Ret × List Call)
    → waits_us (c ∷ []) ≡ 0
    → waits_us next.1 ≤ 10000000
    → waits_us (call c failed rc next).1 ≤ 10000000
call-waits c true rc next z h = omega arith
call-waits c false rc next z h = omega (arith, waits-append (c ∷ []) next.1)

pub init-waits :
    (d : EthDev) (mtu : ℕ) (force_10g : Bool)
    → waits_us (chrono_port_init d mtu force_10g).1 ≤ 10000000
unfolding chrono_port_init configure_port set_up_queues waits_us
init-waits d mtu f =
    let P = λ (r : Ret × List Call). waits_us r.1 ≤ 10000000 in
    let conf = port_conf d mtu f in
    let start = call dev_start (is_negative d.started) d.started (after_start d) in
    let tx = call (tx_queue_setup d.nb_txd) (is_negative d.tx_set_up) d.tx_set_up start in
    if_cases P (not d.is_valid) {x = (failure 1, [])} (λ e. omega arith)
      (λ e. call-waits dev_info_get (is_nonzero d.info) d.info (configure_port d mtu f) refl (
        if_cases P (mtu_refused d mtu) {x = (failure 1, [])} (λ m. omega arith)
          (λ m.
            call-waits (dev_configure conf) (is_nonzero (d.configured conf)) (d.configured conf)
              (call (adjust_nb_desc rx_ring_size tx_ring_size) (is_nonzero d.adjusted) d.adjusted
                (set_up_queues d))
              refl
              (call-waits (adjust_nb_desc rx_ring_size tx_ring_size) (is_nonzero d.adjusted)
                d.adjusted (set_up_queues d) refl
                (call-waits (rx_queue_setup d.nb_rxd) (is_negative d.rx_set_up) d.rx_set_up tx refl
                  (call-waits (tx_queue_setup d.nb_txd) (is_negative d.tx_set_up) d.tx_set_up start
                    refl
                    (call-waits dev_start (is_negative d.started) d.started (after_start d) refl
                      (after_start-waits d))))))))
