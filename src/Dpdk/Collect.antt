-- ===== src/Dpdk/Collect.antt =====
-- `collect_tx_pkts` (dpdk_dispatcher_dataplane.cc): a queue with fewer packets than
-- `kDispTxBatchSize` is passed over, and the header of each packet moved is set. There are at
-- most kWorkspaceMaxNum = 16 queues (src/common.h), so `nb_collect_queue` does not wrap.
pub mod Visit
pub mod Refine
use axio_emulator.Prelude.{
  ℕ, zero, suc, ◌+◌, ◌-◌, ◌%◌, List, length, get_or, set, Bool, ltb, ◌==◌, if◌then◌else◌,
}
use axio_emulator.Queue.{LockFreeQueue, init, dequeue, get_size}
use axio_emulator.Dpdk.{Mem, ring_entries, Port, Dispatcher}
use axio_emulator.Dpdk.Header.{set_hdr_at}

-- `ws_tx_queues_[i]`.
abbrev pub queue_at : List LockFreeQueue → ℕ → LockFreeQueue
queue_at qs i = get_or qs i init

-- The loop over `i < tx_size`: the worker's queue, the packets, `tx_queue_` and `tx_queue_idx_`.
pub pull : Port → ℕ → LockFreeQueue → Mem → List ℕ → ℕ → LockFreeQueue × Mem × List ℕ × ℕ
pull port zero q mem buf idx = (q, mem, buf, idx)
pull port (suc n) q mem buf idx =
    let (p, q') = dequeue q in pull port n q' (set_hdr_at port mem p) (set buf idx p) (idx + 1)

-- The test that passes a queue over, and `tx_size` of one that is not.
abbrev pub too_few : Port → LockFreeQueue → Bool
too_few port q = ltb (get_size q) port.disp_tx_batch_size

pub pull_size : Port → LockFreeQueue → ℕ → ℕ
pull_size port q remain_ring_size =
    if too_few port q
    then 0
    else if ltb remain_ring_size (get_size q)
    then remain_ring_size
    else get_size q

-- The body of the `while`, for `tx_size` packets; 0 for a queue that is passed over.
pub collect_from : Port → ℕ → Dispatcher → Dispatcher
collect_from port tx_size d =
    let (q, mem, buf, idx) =
      pull port tx_size (queue_at d.ws_tx_queues d.ws_queue_idx) d.mem d.tx_queue d.tx_queue_idx in
    record d {
      ws_tx_queues = set d.ws_tx_queues d.ws_queue_idx q;
      ws_queue_idx = (d.ws_queue_idx + 1) % length d.ws_tx_queues;
      mem = mem;
      tx_queue = buf;
      tx_queue_idx = idx;
    }

-- The `while`, with `k` queues still to visit; it gives the state and `nb_collect_num`.
pub collect_loop : Port → ℕ → ℕ → Dispatcher → Dispatcher × ℕ
collect_loop port zero remain_ring_size d = (d, 0)
collect_loop port (suc k) remain_ring_size d =
    let tx_size = pull_size port (queue_at d.ws_tx_queues d.ws_queue_idx) remain_ring_size in
    let (d', nb) = collect_loop port k (remain_ring_size - tx_size) (collect_from port tx_size d) in
    if remain_ring_size == 0 then (d, 0) else (d', tx_size + nb)

pub collect_tx_pkts : Port → Dispatcher → Dispatcher × ℕ
collect_tx_pkts port d = collect_loop port (length d.ws_tx_queues) (ring_entries - d.tx_queue_idx) d
