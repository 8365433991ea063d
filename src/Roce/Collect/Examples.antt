-- ===== src/Roce/Collect/Examples.antt =====
-- Two workspaces, one of which has packets.
use axio_emulator.Prelude.{ℕ, zero, suc, ap, [], ◌∷◌, replicate, length-replicate, arith}
use axio_emulator.Queue.{LockFreeQueue, init}
use axio_emulator.Queue.Refine.{IsValid, init-IsValid}
use axio_emulator.Roce.{depth}
use axio_emulator.Roce.Collect.{Collector, queue_at, collect_tx_pkts}
use axio_emulator.Roce.Collect.Refine.{IsCollector, Collected, collect_tx_pkts-Collected}

abbrev two_packets : LockFreeQueue
two_packets = record { queue = 7 ∷ 8 ∷ replicate 4094 0; head = 0; tail = 2 }

two_packets-IsValid : IsValid two_packets
two_packets-IsValid = record {
  storage = ap (λ n. suc (suc n)) (length-replicate 4094 0);
  head_in = omega arith;
  tail_in = omega arith;
}

abbrev workspaces : Collector
workspaces = record {
  ws_tx_queues = two_packets ∷ init ∷ [];
  ws_queue_idx = 1;
  tx_queue = replicate depth 0;
  tx_queue_idx = 5;
}

workspaces-IsValid : (i : ℕ) → IsValid (queue_at workspaces.ws_tx_queues i)
workspaces-IsValid zero = two_packets-IsValid
workspaces-IsValid (suc zero) = init-IsValid
workspaces-IsValid (suc (suc i)) = init-IsValid

workspaces-IsCollector : IsCollector workspaces
workspaces-IsCollector = record {
  storage = length-replicate depth 0;
  idx_in = omega arith;
  ws_in = omega arith;
  queues = workspaces-IsValid;
}

collect_tx_pkts_example :
    Collected 2 2043 workspaces (collect_tx_pkts workspaces).0 (collect_tx_pkts workspaces).1
collect_tx_pkts_example = collect_tx_pkts-Collected workspaces workspaces-IsCollector
