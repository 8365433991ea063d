-- ===== src/Roce/Rx/Examples.antt =====
-- Two packets wait for one workspace.
use axio_emulator.Prelude.{
  ℕ, zero, suc, ◌+◌, ◌%◌, ◌<◌, ◌≡◌, [], ◌∷◌, some, length, get_or, replicate, ◌==◌, Bool-cases, inl,
  inr, arith,
}
use axio_emulator.HugeAlloc.{posted}
use axio_emulator.Queue.{init}
use axio_emulator.Queue.Refine.{IsValid, init-IsValid}
use axio_emulator.Rules.{RuleTable, add_route}
use axio_emulator.Rules
use axio_emulator.Mbuf.{Mem}
use axio_emulator.Roce.{depth}
use axio_emulator.Roce.Rx.{RxRing, rx_queue_at, dispatch_rx_pkts}
use axio_emulator.Roce.Rx.Dispatch.{held, IsReceiver}
use axio_emulator.Roce.Rx.Deliver.{
  IsDelivered, deliver, before, all_waiting, dispatch_rx_pkts-Delivered,
}

abbrev memory : Mem
memory = λ p. record {
  length = 80;
  state = posted;
  next = p + 1;
  udp = record { source = 0; dest = 0 };
  ws = record { workload_type = 1; segment_num = 1 };
  payload = [];
}

abbrev rules : RuleTable
rules = add_route Rules.init 1 0

abbrev two_waiting : RxRing
two_waiting = record {
  rx_ring = replicate depth 9;
  recv_head = 0;
  ring_head = 2047;
  wait_for_disp = 2;
  ws_rx_queues = init ∷ [];
  rule_table = rules;
  mem = memory;
  posted_num = 2048;
}

queues-IsValid : (i : ℕ) → IsValid (rx_queue_at (init ∷ []) i)
queues-IsValid zero = init-IsValid
queues-IsValid (suc i) = init-IsValid

rules-in_range : (t j : ℕ) → j < length (rules.table t) → get_or (rules.table t) j 0 < 1
unfolding add_route Rules.init
rules-in_range t j lt = elim (Bool-cases (t == 1)) [
  | inl e ↦ rw e (single j)
  | inr e ↦ rw e (omega arith)
]
  where
    single : (j : ℕ) → get_or (0 ∷ []) j 0 < 1
    single zero = omega arith
    single (suc j) = omega arith

two_waiting-IsReceiver : IsReceiver two_waiting
two_waiting-IsReceiver = record {
  queues = queues-IsValid;
  routed = record { in_range = rules-in_range };
}

rules-routed : 0 < length (rules.table 1)
unfolding add_route Rules.init
rules-routed = omega arith

dispatch_rx_pkts_example :
    (out : RxRing) × (total : ℕ) × (dispatch_rx_pkts two_waiting ≡ some (out, total))
    × IsReceiver out
    × IsDelivered out
        (deliver rules.table rules.select_idx (all_waiting two_waiting) (before two_waiting))
    × (held out.ws_rx_queues ≡ held two_waiting.ws_rx_queues + total)
    × (out.wait_for_disp ≡ 0)
    × (out.ring_head ≡ (2047 + 2) % depth)
dispatch_rx_pkts_example =
    dispatch_rx_pkts-Delivered two_waiting two_waiting-IsReceiver (rules-routed, (rules-routed, tt))
