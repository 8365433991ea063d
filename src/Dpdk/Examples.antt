-- ===== src/Dpdk/Examples.antt =====
-- A dispatcher with two workers, and packets on their way through it.
use axio_emulator.Prelude.{
  ℕ, zero, suc, ◌+◌, ◌<◌, ◌≤◌, ◌≡◌, ◌≢◌, refl, ap, List, [], ◌∷◌, ◌++◌, Bool, true, false, some,
  length, take, drop, get_or, count, replicate, length-replicate, ◌==◌, if◌then◌else◌, Bool-cases,
  inl, inr, arith,
}
use axio_emulator.Queue.{LockFreeQueue, init}
use axio_emulator.Queue.Refine.{IsValid, init-IsValid, contents, capacity}
use axio_emulator.Rules.{RuleTable, add_route}
use axio_emulator.Rules
use axio_emulator.Roce.Rx.{rx_queue_at}
use axio_emulator.Dpdk.{Mbuf, Mem, Port, Dispatcher, htons, htonl}
use axio_emulator.Dpdk.Header.{
  resolve_pkt_hdr, set_pkt_hdr, is_arp_packet, Sealed, set_pkt_hdr-Sealed,
}
use axio_emulator.Dpdk.Echo.{IsDispatcher}
use axio_emulator.Dpdk.Tx.{tx_flush, stop, idle, busy, tx_flush-all}
use axio_emulator.Dpdk.Collect.{collect_tx_pkts}
use axio_emulator.Dpdk.Collect.Refine.{Collected, dpdk_collect-Collected}
use axio_emulator.Dpdk.Arp.{Answers, handle_arp_packet, handle_arp_packet-Answers}
use axio_emulator.Dpdk.Rx.{dispatch_rx_pkts}
use axio_emulator.Dpdk.Rx.Dispatch.{dispatch_rx_pkts-conserves}
use axio_emulator.Dpdk.Rx.Routes.{spread, IsReceiver, all_done, one_ip}
use axio_emulator.Dpdk.Rx.ArpLoss.{last, dispatch_rx_pkts-frees_live}

abbrev mac1 : List ℕ
mac1 = 2 ∷ 0 ∷ 0 ∷ 0 ∷ 0 ∷ 1 ∷ []

abbrev mac2 : List ℕ
mac2 = 2 ∷ 0 ∷ 0 ∷ 0 ∷ 0 ∷ 2 ∷ []

abbrev port1 : Port
port1 = record {
  mac_addr = mac1;
  ipv4_addr = htonl 167772161;
  dmac = mac2;
  daddr = htonl 167772162;
  local_mac = mac1;
  local_ip = 167772161;
  disp_tx_batch_size = 2;
}

-- A packet whose Ethernet type is `type` in the order of the host, with an ARP operation.
abbrev packet : ℕ → ℕ → Mbuf
packet type op = record {
  pkt_len = 100;
  l2_len = 0;
  l3_len = 0;
  ip_cksum = 0;
  eth = record { d_addr = mac1; s_addr = mac2; type = htons type };
  ip = record {
    saddr = 1;
    daddr = 2;
    ihl = 5;
    version = 4;
    tos = 0;
    tot_len = 0;
    ttl = 64;
    frag_off = 0;
    protocol = 17;
  };
  udp = record { source = 1; dest = 2; len = 0 };
  ws = record { workload_type = 1; segment_num = 1 };
  payload = [];
  arp = record {
    hrd = htons 1;
    pro = htons 2048;
    hln = 6;
    pln = 4;
    op = htons op;
    sha = mac2;
    spa = htonl 167772162;
    tha = [];
    tpa = htonl 167772161;
  };
}

set_pkt_hdr_example : Sealed port1 (packet 0 0) (set_pkt_hdr port1 (packet 0 0))
set_pkt_hdr_example =
    set_pkt_hdr-Sealed port1 (packet 0 0) (omega arith) (omega arith) (omega arith) (omega arith)

abbrev rules : RuleTable
rules = add_route Rules.init 1 1

abbrev two_packets : LockFreeQueue
two_packets = record { queue = 7 ∷ 8 ∷ replicate 4094 0; head = 0; tail = 2 }

two_packets-IsValid : IsValid two_packets
two_packets-IsValid = record {
  storage = ap (λ n. suc (suc n)) (length-replicate 4094 0);
  head_in = omega arith;
  tail_in = omega arith;
}

abbrev workers : List LockFreeQueue
workers = two_packets ∷ init ∷ []

workers-IsValid : (i : ℕ) → IsValid (get_or workers i init)
workers-IsValid zero = two_packets-IsValid
workers-IsValid (suc zero) = init-IsValid
workers-IsValid (suc (suc i)) = init-IsValid

-- Packets 3 and 4 are received, 5 waits to be sent; each packet is made by `mem`.
abbrev busy_dispatcher : Mem → Dispatcher
busy_dispatcher mem = record {
  mem = mem;
  tx_queue = 5 ∷ replicate 2047 0;
  tx_queue_idx = 1;
  rx_queue = 3 ∷ 4 ∷ [];
  rx_queue_idx = 2;
  ws_queue_idx = 0;
  ws_tx_queues = workers;
  ws_rx_queues = workers;
  rx_rule_table = rules;
  arp_num = 0;
  sent = [];
  freed = [];
}

abbrev ip_only : Dispatcher
ip_only = busy_dispatcher (λ p. packet 2048 0)

ip_only-IsDispatcher : IsDispatcher ip_only
ip_only-IsDispatcher = record {
  storage = ap suc (length-replicate 2047 0);
  tx_in = omega arith;
  rx_in = omega arith;
}

collect_example :
    Collected port1 2 2047 ip_only
      (collect_tx_pkts port1 ip_only).0
      (collect_tx_pkts port1 ip_only).1
collect_example =
    dpdk_collect-Collected port1 ip_only
      (record { rings = ip_only-IsDispatcher; ws_in = omega arith; queues = workers-IsValid })

-- The NIC is busy at the first call.
dpdk_tx_flush_example :
    tx_flush ((λ n. 0) ∷ (λ n. n) ∷ []) ip_only
    ≡ some (record ip_only { sent = 5 ∷ []; tx_queue_idx = 0 }, 1)
dpdk_tx_flush_example =
    tx_flush-all 1 ((λ n. 0) ∷ (λ n. n) ∷ []) ip_only
      (idle (λ n. omega arith) (busy (λ n. omega arith) (λ n ne. ne) stop)) (omega arith)

rules-in_range : (t j : ℕ) → j < length (rules.table t) → get_or (rules.table t) j 0 < 2
unfolding add_route Rules.init
rules-in_range t j lt = elim (Bool-cases (t == 1)) [
  | inl e ↦ rw e (single j)
  | inr e ↦ rw e (omega arith)
]
  where
    single : (j : ℕ) → get_or (1 ∷ []) j 0 < 2
    single zero = omega arith
    single (suc j) = omega arith

rules-routed : 0 < length (rules.table 1)
unfolding add_route Rules.init
rules-routed = omega arith

busy-IsReceiver : (mem : Mem) → IsReceiver (busy_dispatcher mem)
busy-IsReceiver mem = record {
  queues = workers-IsValid;
  routed = record { in_range = rules-in_range };
}

abbrev alloc1 : ℕ → ℕ
alloc1 n = 20 + n

abbrev second_try : ℕ → ℕ → Bool
second_try n t = t == 1

ip_packet : is_arp_packet (packet 2048 0) ≡ false
unfolding is_arp_packet
ip_packet = refl

arp_packet : is_arp_packet (packet 2054 2) ≡ true
unfolding is_arp_packet
arp_packet = refl

dpdk_dispatch_rx_pkts_example :
    (out : Dispatcher) × (total : ℕ) × (dispatch_rx_pkts alloc1 second_try port1 ip_only
      ≡ some (out, total))
    × IsReceiver out
    × ((x : ℕ)
        → spread x out.ws_rx_queues + count x out.freed
          ≡ spread x workers + count x [] + count x (3 ∷ 4 ∷ []))
    × (out.freed ≡ [] ++ drop total (3 ∷ 4 ∷ []))
    × (out.rx_queue_idx ≡ 0)
    × (total ≤ 2)
    × (total < 2 → (i : ℕ) × (length (contents (rx_queue_at out.ws_rx_queues i)) ≡ capacity))
unfolding resolve_pkt_hdr
dpdk_dispatch_rx_pkts_example =
    dispatch_rx_pkts-conserves alloc1 second_try port1 ip_only
      (busy-IsReceiver (λ p. packet 2048 0))
      (one_ip ip_packet rules-routed (one_ip ip_packet rules-routed all_done))

abbrev arp_first_mem : Mem
arp_first_mem p = if p == 3 then packet 2054 2 else packet 2048 0

abbrev arp_first : Dispatcher
arp_first = busy_dispatcher arp_first_mem

frees_live_example :
    (out : Dispatcher) × (total : ℕ) × (dispatch_rx_pkts alloc1 second_try port1 arp_first
      ≡ some (out, total))
    × (total ≤ 1)
    × ((x : ℕ) → spread x out.ws_rx_queues ≡ spread x workers + count x (take total (4 ∷ [])))
    × (out.freed ≡ [] ++ (last 3 (take total (4 ∷ [])) ∷ drop total (4 ∷ [])))
unfolding resolve_pkt_hdr
frees_live_example =
    dispatch_rx_pkts-frees_live alloc1 second_try port1 3 (4 ∷ []) arp_first
      (busy-IsReceiver arp_first_mem) refl arp_packet (omega arith)
      (one_ip ip_packet rules-routed all_done)

abbrev asked : Dispatcher
asked = busy_dispatcher (λ p. packet 2054 1)

arp_example :
    (out : Dispatcher) × (handle_arp_packet alloc1 second_try port1 3 asked ≡ some out)
    × Answers (packet 2054 1) (out.mem 20) mac1
    × (out.sent ≡ 20 ∷ [])
    × ((q : ℕ) → q ≢ 20 → out.mem q ≡ packet 2054 1)
arp_example =
    handle_arp_packet-Answers alloc1 second_try port1 3 asked (omega arith) (omega arith) refl refl
