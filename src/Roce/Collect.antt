-- ===== src/Roce/Collect.antt =====
-- `collect_tx_pkts` (src/dispatcher_impl/roce/roce_dispatcher_dataplane.cc): it moves packets from
-- the queues of the workspaces to the dispatcher's transmit queue. A `lock_free_queue*` is a position
-- in the list of queues. `nb_collect_queue` is a `uint8_t`; it does not wrap, since there are at most
-- kWorkspaceMaxNum = 16 queues (src/common.h).
pub mod Refine
mod Examples
use axio_emulator.Prelude.{
  ℕ, zero, suc, ◌+◌, ◌-◌, ◌%◌, List, length, get_or, set, ltb, ◌==◌, if◌then◌else◌,
}
use axio_emulator.Queue.{LockFreeQueue, init, dequeue, get_size}
use axio_emulator.Roce.{depth}

pub record Collector : Type 0 where
  pub ws_tx_queues : List LockFreeQueue
  pub ws_queue_idx : ℕ
  pub tx_queue : List ℕ
  pub tx_queue_idx : ℕ

-- `ws_tx_queues_[i]`.
abbrev pub queue_at : List LockFreeQueue → ℕ → LockFreeQueue
queue_at qs i = get_or qs i init

-- The loop over `i < tx_size`: the worker's queue, `tx_queue_` and `tx_queue_idx_` afterwards.
pub pull : ℕ → LockFreeQueue → List ℕ → ℕ → LockFreeQueue × List ℕ × ℕ
pull zero q buf idx = (q, buf, idx)
pull (suc n) q buf idx = let (p, q') = dequeue q in pull n q' (set buf idx p) (idx + 1)

-- `tx_size`.
pub pull_size : LockFreeQueue → ℕ → ℕ
pull_size q remain_ring_size =
    if ltb remain_ring_size (get_size q) then remain_ring_size else get_size q

-- The body of the `while`, for `tx_size` packets.
pub collect_from : ℕ → Collector → Collector
collect_from tx_size c =
    let (q, buf, idx) =
      pull tx_size (queue_at c.ws_tx_queues c.ws_queue_idx) c.tx_queue c.tx_queue_idx in
    record c {
      ws_tx_queues = set c.ws_tx_queues c.ws_queue_idx q;
      ws_queue_idx = (c.ws_queue_idx + 1) % length c.ws_tx_queues;
      tx_queue = buf;
      tx_queue_idx = idx;
    }

-- The `while`, with `k` queues still to visit; it gives the state and `nb_collect_num`.
pub collect_loop : ℕ → ℕ → Collector → Collector × ℕ
collect_loop zero remain_ring_size c = (c, 0)
collect_loop (suc k) remain_ring_size c =
    let tx_size = pull_size (queue_at c.ws_tx_queues c.ws_queue_idx) remain_ring_size in
    let (c', nb) = collect_loop k (remain_ring_size - tx_size) (collect_from tx_size c) in
    if remain_ring_size == 0 then (c, 0) else (c', tx_size + nb)

pub collect_tx_pkts : Collector → Collector × ℕ
collect_tx_pkts c = collect_loop (length c.ws_tx_queues) (depth - c.tx_queue_idx) c
