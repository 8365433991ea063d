-- ===== src/Dpdk/Rx.antt =====
-- `dispatch_rx_pkts` (dpdk_dispatcher_dataplane.cc). `alloc` and `accepts` are those of the replies
-- to ARP requests; a division by zero in `rr_select` and a failed `assert` give `none`.
pub mod Routes
pub mod Dispatch
pub mod ArpLoss
use axio_emulator.Prelude.{
  ℕ, ◌+◌, List, [], ◌∷◌, ◌++◌, Bool, true, false, Option, none, some, set, drop, if◌then◌else◌,
}
use axio_emulator.Queue.{enqueue}
use axio_emulator.Rules.{RuleTable, rr_select}
use axio_emulator.Roce.Rx.{rx_queue_at}
use axio_emulator.Dpdk.{Port, Dispatcher}
use axio_emulator.Dpdk.Header.{is_arp_packet, resolve_pkt_hdr}
use axio_emulator.Dpdk.Echo.{received}
use axio_emulator.Dpdk.Arp.{handle_arp_packet}

-- How one pass of the loop ends.
pub data Pass : Type 0 where
  answered enqueued full : Pass

-- A packet for the workspace that `rr_select` gives.
pub dispatch_to : ℕ → RuleTable → ℕ → Dispatcher → Pass × Dispatcher
dispatch_to ws_id table p d =
    let (fits, q) = enqueue (rx_queue_at d.ws_rx_queues ws_id) p in
    (
      if fits then enqueued else full,
      record d { ws_rx_queues = set d.ws_rx_queues ws_id q; rx_rule_table = table },
    )

abbrev pub routed : ℕ → Dispatcher → Option (ℕ × RuleTable) → Option (Pass × Dispatcher)
routed p d none = none
routed p d (some (ws_id, table)) = some (dispatch_to ws_id table p d)

abbrev pub handled : Option Dispatcher → Option (Pass × Dispatcher)
handled none = none
handled (some d) = some (answered, d)

pub dispatch_one : (ℕ → ℕ) → (ℕ → ℕ → Bool) → Port → ℕ → Dispatcher → Option (Pass × Dispatcher)
dispatch_one alloc accepts port p d =
    if is_arp_packet (d.mem p)
    then handled (handle_arp_packet alloc accepts port p d)
    else routed p d (rr_select d.rx_rule_table (resolve_pkt_hdr (d.mem p)))

abbrev pub one_more : Option (Dispatcher × ℕ) → Option (Dispatcher × ℕ)
one_more none = none
one_more (some (d, total)) = some (d, total + 1)

-- The loop over the packets received; it gives the state and `dispatch_total`.
pub dispatch_loop : (ℕ → ℕ) → (ℕ → ℕ → Bool) → Port → List ℕ → Dispatcher → Option (Dispatcher × ℕ)
dispatch_loop alloc accepts port [] d = some (d, 0)
dispatch_loop alloc accepts port (p ∷ ps) d = elim (dispatch_one alloc accepts port p d) [
  | none ↦ none
  | some (pass, d') ↦ elim pass [
    | answered ↦ dispatch_loop alloc accepts port ps d'
    | enqueued ↦ one_more (dispatch_loop alloc accepts port ps d')
    | full ↦ some (d', 0)
  ]
]

-- The loop that frees the packets from number `dispatch_total` on.
abbrev pub free_rest : List ℕ → Option (Dispatcher × ℕ) → Option (Dispatcher × ℕ)
free_rest ps none = none
free_rest ps (some (d, total)) =
    some (record d { freed = d.freed ++ drop total ps; rx_queue_idx = 0 }, total)

pub dispatch_rx_pkts : (ℕ → ℕ) → (ℕ → ℕ → Bool) → Port → Dispatcher → Option (Dispatcher × ℕ)
dispatch_rx_pkts alloc accepts port d =
    free_rest (received d) (dispatch_loop alloc accepts port (received d) d)
