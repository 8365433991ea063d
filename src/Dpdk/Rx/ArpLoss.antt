-- ===== src/Dpdk/Rx/ArpLoss.antt =====
-- `dispatch_rx_pkts` on a burst that starts with an ARP packet: `dispatch_total` does not count
-- it, but the loop that frees starts from there.
use axio_emulator.Prelude.{
  ℕ, zero, suc, ◌+◌, ◌≤◌, ◌≡◌, ◌≢◌, refl, ap₂, ◌∙◌, List, [], ◌∷◌, ◌++◌, Bool, true, some, length,
  take, drop, count, arith,
}
use axio_emulator.Dpdk.{Port, Dispatcher, htons}
use axio_emulator.Dpdk.Header.{is_arp_packet}
use axio_emulator.Dpdk.Echo.{received}
use axio_emulator.Dpdk.Arp.{arpop_request, handle_arp_packet-other}
use axio_emulator.Dpdk.Rx.{dispatch_one, dispatch_loop, dispatch_rx_pkts}
use axio_emulator.Dpdk.Rx.Dispatch.{AllRoutable, dispatch_loop-Done}
use axio_emulator.Dpdk.Rx.Routes.{spread, IsReceiver}

arp_passed :
    (alloc : ℕ → ℕ) (accepts : ℕ → ℕ → Bool) (port : Port) (a : ℕ) (ps : List ℕ) (d : Dispatcher)
    → is_arp_packet (d.mem a) ≡ true
    → htons (d.mem a).arp.op ≢ arpop_request
    → dispatch_loop alloc accepts port (a ∷ ps) d ≡ dispatch_loop alloc accepts port ps d
unfolding dispatch_loop dispatch_one
arp_passed alloc accepts port a ps d is_arp ne =
    rw (is_arp, handle_arp_packet-other alloc accepts port a d ne, dispatch_loop) refl

-- The last of some packets, or `p` when there are none.
abbrev pub last : ℕ → List ℕ → ℕ
last p [] = p
last p (q ∷ qs) = last q qs

drop-last :
    (n a : ℕ) (ps : List ℕ) → n ≤ length ps → drop n (a ∷ ps) ≡ last a (take n ps) ∷ drop n ps
drop-last zero a ps le = refl
drop-last (suc n) a [] le = absurd (omega (arith, le))
drop-last (suc n) a (p ∷ ps) le = drop-last n p ps (omega (arith, le))

-- Let the routes lead to queues, and let a burst start with an ARP packet that is no request, before
-- IP packets of types that have a route. Then the dispatch runs to its end, and `total` of the IP
-- packets, the first ones, are in the queues of the workers; but those given to `rte_pktmbuf_free` are
-- the last of these (or the ARP packet, when there is none) and the IP packets after it.
pub dispatch_rx_pkts-frees_live :
    (alloc : ℕ → ℕ) (accepts : ℕ → ℕ → Bool) (port : Port) (a : ℕ) (ps : List ℕ) (d : Dispatcher)
    → IsReceiver d
    → received d ≡ a ∷ ps
    → is_arp_packet (d.mem a) ≡ true
    → htons (d.mem a).arp.op ≢ arpop_request
    → AllRoutable d ps
    → (out : Dispatcher) × (total : ℕ) × (dispatch_rx_pkts alloc accepts port d ≡ some (out, total))
      × (total ≤ length ps)
      × ((x : ℕ) → spread x out.ws_rx_queues ≡ spread x d.ws_rx_queues + count x (take total ps))
      × (out.freed ≡ d.freed ++ (last a (take total ps) ∷ drop total ps))
unfolding dispatch_rx_pkts
dispatch_rx_pkts-frees_live alloc accepts port a ps d v burst is_arp ne n =
    let (out, total, runs, r) = dispatch_loop-Done alloc accepts port ps d v n in
    let runs' = arp_passed alloc accepts port a ps d is_arp ne ∙ runs in
    (
      record out { freed = out.freed ++ drop total (a ∷ ps); rx_queue_idx = 0 },
      total,
      rw (burst, runs', dispatch_rx_pkts) refl,
      r.bound,
      r.moved,
      ap₂ ◌++◌ r.kept.freed (drop-last total a ps r.bound),
    )
