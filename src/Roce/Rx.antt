-- ===== src/Roce/Rx.antt =====
-- `post_recvs`, `rx_burst` and `dispatch_rx_pkts` (src/dispatcher_impl/roce/roce_dispatcher_dataplane.cc).
-- The lengths of the packets that a poll of the receive queue finds are an argument; a division by
-- zero in `rr_select` gives `none`. `posted` counts the buffers handed to the NIC by `ibv_post_recv`.
pub mod Dispatch
pub mod Deliver
mod Examples
use axio_emulator.Prelude.{
  ℕ, zero, suc, ◌+◌, ◌-◌, ◌%◌, List, [], ◌∷◌, Bool, true, false, Option, none, some, length, get_or,
  set, leb, ◌==◌, if◌then◌else◌,
}
use axio_emulator.HugeAlloc.{BufferState, posted, app_owned, free}
use axio_emulator.Queue.{LockFreeQueue, init, enqueue}
use axio_emulator.Rules.{RuleTable, rr_select}
use axio_emulator.Mbuf.{Mem, WsHdr, extract_ws_hdr, set_state, set_length}
use axio_emulator.Roce.{depth}

-- The RECV fields of the dispatcher, and its receive queues and routes.
pub record RxRing : Type 0 where
  pub rx_ring : List ℕ
  pub recv_head : ℕ
  pub ring_head : ℕ
  pub wait_for_disp : ℕ
  pub ws_rx_queues : List LockFreeQueue
  pub rule_table : RuleTable
  pub mem : Mem
  pub posted_num : ℕ

abbrev pub rx_queue_at : List LockFreeQueue → ℕ → LockFreeQueue
rx_queue_at qs i = get_or qs i init

-- `post_recvs(num_recvs)`, for a number above 0.
pub post_recvs : ℕ → RxRing → RxRing
post_recvs num_recvs rx =
    let last = rx.recv_head + (num_recvs - 1) in
    let last_wr_i = if leb depth last then last - depth else last in
    record rx { recv_head = (last_wr_i + 1) % depth; posted_num = rx.posted_num + num_recvs }

abbrev pub is_free : BufferState → Bool
is_free free = true
is_free posted = false
is_free app_owned = false

-- The loop over the buffers that the application has freed; `fuel` for the buffers of the ring.
pub repost : ℕ → ℕ → Mem → ℕ × Mem
repost zero ring_entry mem = (0, mem)
repost (suc fuel) ring_entry mem =
    let mem1 = set_state mem ring_entry posted in
    let (n, mem') = repost fuel (mem1 ring_entry).next mem1 in
    if is_free (mem ring_entry).state then (n + 1, mem') else (0, mem)

-- The loop that sets the lengths, from index `i` on.
pub set_lengths : RxRing → ℕ → List ℕ → Mem → Mem
set_lengths rx i [] mem = mem
set_lengths rx i (byte_len ∷ lens) mem =
    set_lengths rx (i + 1) lens (
      set_length mem (get_or rx.rx_ring ((rx.ring_head + rx.wait_for_disp + i) % depth) 0) byte_len)

-- `rx_burst`, where the poll returns the lengths `lens`.
pub rx_burst : List ℕ → RxRing → RxRing × ℕ
rx_burst lens rx =
    let (num_recvs, mem) = repost depth (get_or rx.rx_ring rx.recv_head 0) rx.mem in
    let rx' = record rx { mem = mem } in
    let rx'' = if num_recvs == 0 then rx' else post_recvs num_recvs rx' in
    (
      record rx'' {
        mem = set_lengths rx'' 0 lens rx''.mem;
        wait_for_disp = rx''.wait_for_disp + length lens;
      },
      length lens,
    )

-- The body of the loop of `dispatch_rx_pkts`, for the workspace that `rr_select` gives.
pub dispatch_to : ℕ → RuleTable → ℕ → RxRing → Bool × RxRing
dispatch_to ws_id table ring_entry rx =
    let (fits, q) = enqueue (rx_queue_at rx.ws_rx_queues ws_id) ring_entry in
    (
      fits,
      record rx {
        ws_rx_queues = set rx.ws_rx_queues ws_id q;
        rule_table = table;
        mem = set_state rx.mem ring_entry (if fits then app_owned else free);
      },
    )

-- The loop, with `n` packets to come; it gives `dispatch_total`.
pub dispatch_loop : ℕ → ℕ → RxRing → Option (RxRing × ℕ)
dispatch_loop zero ring_entry rx = some (rx, 0)
dispatch_loop (suc n) ring_entry rx =
    elim (rr_select rx.rule_table (extract_ws_hdr rx.mem ring_entry).workload_type) [
      | none ↦ none
      | some (ws_id, table) ↦
          let (fits, rx') = dispatch_to ws_id table ring_entry rx in
          elim (dispatch_loop n (rx'.mem ring_entry).next rx') [
            | none ↦ none
            | some (rx'', total) ↦ some (rx'', if fits then total + 1 else total)
          ]
    ]

pub dispatch_rx_pkts : RxRing → Option (RxRing × ℕ)
dispatch_rx_pkts rx = elim (dispatch_loop rx.wait_for_disp (get_or rx.rx_ring rx.ring_head 0) rx) [
  | none ↦ none
  | some (rx', total) ↦ some (
    record rx' { ring_head = (rx'.ring_head + rx'.wait_for_disp) % depth; wait_for_disp = 0 },
    total,
  )
]
