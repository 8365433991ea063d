-- ===== src/Phases/Examples.antt =====
-- A dispatcher with two workers, the first of which has two packets to send; two packets have been
-- received.
use axio_emulator.Prelude.{
  ℕ, zero, suc, ◌≡◌, refl, ap, List, [], ◌∷◌, some, get_or, replicate, length-replicate, arith,
}
use axio_emulator.Queue.{LockFreeQueue, init}
use axio_emulator.Queue.Refine.{IsValid, init-IsValid}
use axio_emulator.Rules.{RuleTable, add_route}
use axio_emulator.Rules
use axio_emulator.Stats.{NetStats, no_durations}
use axio_emulator.Dpdk.{Mbuf, Port}
use axio_emulator.Dpdk.Echo.{IsDispatcher}
use axio_emulator.Dpdk.Collect.Visit.{IsCollector, visit}
use axio_emulator.Dpdk.Tx.{Accepts, stop, busy}
use axio_emulator.Phases.{DispatcherWs, bursted_tx, nic_tx_phase}
use axio_emulator.Phases.Counted.{taken, IsSent, nic_tx_phase-bursted_tx}

abbrev port1 : Port
port1 = record {
  mac_addr = 1 ∷ [];
  ipv4_addr = 1;
  dmac = 2 ∷ [];
  daddr = 2;
  local_mac = 1 ∷ [];
  local_ip = 1;
  disp_tx_batch_size = 1;
}

abbrev ip_packet : Mbuf
ip_packet = record {
  pkt_len = 100;
  l2_len = 0;
  l3_len = 0;
  ip_cksum = 0;
  eth = record { d_addr = 1 ∷ []; s_addr = 2 ∷ []; type = 8 };
  ip = record {
    saddr = 1;
    daddr = 2;
    ihl = 5;
    version = 4;
    tos = 0;
    tot_len = 0;
    ttl = 64;
    frag_off = 0;
    protocol = 17;
  };
  udp = record { source = 1; dest = 2; len = 0 };
  ws = record { workload_type = 1; segment_num = 1 };
  payload = [];
  arp = record { hrd = 0; pro = 0; hln = 0; pln = 0; op = 0; sha = []; spa = 0; tha = []; tpa = 0 };
}

abbrev two_packets : LockFreeQueue
two_packets = record { queue = 7 ∷ 8 ∷ replicate 4094 0; head = 0; tail = 2 }

two_packets-IsValid : IsValid two_packets
two_packets-IsValid = record {
  storage = ap (λ n. suc (suc n)) (length-replicate 4094 0);
  head_in = omega arith;
  tail_in = omega arith;
}

abbrev no_packets : LockFreeQueue
no_packets = record { queue = replicate 4096 0; head = 0; tail = 0 }

no_packets-IsValid : IsValid no_packets
no_packets-IsValid = record {
  storage = length-replicate 4096 0;
  head_in = omega arith;
  tail_in = omega arith;
}

abbrev workers : List LockFreeQueue
workers = two_packets ∷ no_packets ∷ []

workers-IsValid : (i : ℕ) → IsValid (get_or workers i init)
workers-IsValid zero = two_packets-IsValid
workers-IsValid (suc zero) = no_packets-IsValid
workers-IsValid (suc (suc i)) = init-IsValid

abbrev rules : RuleTable
rules = add_route Rules.init 1 1

abbrev counters : NetStats
counters = record {
  app_tx_msg_num = 0;
  app_rx_msg_num = 0;
  app_tx_invoke_times = 0;
  app_tx = no_durations;
  app_tx_stall = no_durations;
  app_tx_mbuf_trace_addr = 0;
  app_tx_mbuf_reuse_tmp_interval = 0;
  app_tx_mbuf_reuse_interval = 0;
  app_tx_nb_traced_mbuf = 0;
  app_rx_invoke_times = 0;
  app_rx = no_durations;
  app_rx_stall = no_durations;
  disp_tx_pkt_num = 0;
  disp_rx_pkt_num = 10;
  disp_tx_duration = 0;
  disp_tx_stall_duration = 0;
  disp_rx_duration = 0;
  disp_rx_stall_duration = 0;
  nic_tx_pkt_num = 0;
  nic_rx_pkt_num = 0;
  nic_rx_duration = 0;
  nic_rx_times = 0;
  app_apply_mbuf_stalls = 0;
  app_enqueue_drops = 0;
  mbuf_alloc_times = 0;
  mbuf_usage = 0;
  disp_enqueue_drops = 1;
}

abbrev running : DispatcherWs
running = record {
  dispatcher = record {
    mem = λ p. ip_packet;
    tx_queue = 5 ∷ replicate 2047 0;
    tx_queue_idx = 1;
    rx_queue = 3 ∷ 4 ∷ [];
    rx_queue_idx = 2;
    ws_queue_idx = 0;
    ws_tx_queues = workers;
    ws_rx_queues = workers;
    rx_rule_table = rules;
    arp_num = 0;
    sent = [];
    freed = [];
  };
  stats = counters;
  nic_rx_prev_desc = 0;
  nic_rx_prev_tick = 0;
}

running-IsDispatcher : IsDispatcher running.dispatcher
running-IsDispatcher = record {
  storage = ap suc (length-replicate 2047 0);
  tx_in = omega arith;
  rx_in = omega arith;
}

running-IsCollector : IsCollector running.dispatcher
running-IsCollector = record {
  rings = running-IsDispatcher;
  ws_in = omega arith;
  queues = workers-IsValid;
}

running-taken : taken port1 running.dispatcher ≡ 7 ∷ 8 ∷ []
unfolding visit
running-taken = refl

abbrev calls3 : List (ℕ → ℕ)
calls3 = (λ n. n) ∷ (λ n. n) ∷ (λ n. n) ∷ []

calls3-Accepts : Accepts 3 calls3
calls3-Accepts =
    busy (λ n. omega arith) (λ n ne. ne)
      (busy (λ n. omega arith) (λ n ne. ne) (busy (λ n. omega arith) (λ n ne. ne) stop))

nic_tx_phase_example :
    (out : DispatcherWs) × (nic_tx_phase port1 30 40 calls3 (bursted_tx port1 10 20 6 running)
      ≡ some out)
    × IsSent port1 running out
nic_tx_phase_example =
    nic_tx_phase-bursted_tx port1 10 20 6 30 40 3 calls3 running running-IsCollector calls3-Accepts
      (ground (arith, running-taken))
