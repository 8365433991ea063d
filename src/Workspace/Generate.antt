-- ===== src/Workspace/Generate.antt =====
-- `generate_pkts`: what becomes of the packets of a batch.
use mathlib.Core.Path.{subst}
use native.Mathlib.Nat.{mul_comm}
use axio_emulator.Prelude.{
  ℕ, ◌+◌, ◌*◌, ◌≤◌, ◌≡◌, refl, sym, ap, ◌∙◌, List, ◌++◌, true, some, length, take, drop, get_or,
  ◌<◌, length-take, take-append-drop, length-append, arith,
}
use axio_emulator.Queue.Refine.{IsValid, contents}
use axio_emulator.Queue.Bulk.{enqueue_all-Inserted, room}
use axio_emulator.Rules.{RuleTable, rr_select}
use axio_emulator.Mbuf.{de_alloc_bulk}
use axio_emulator.Mbuf.Free.{de_alloc_bulk-free}
use axio_emulator.HugeAlloc.{free}
use axio_emulator.Workspace.{Params, Workspace, fill_msgs, send_pkts, generate_pkts}

-- The packets of the batch.
abbrev pub batch : Params → Workspace → List ℕ
batch k w = take (k.request_pkts_num * k.tx_msg_batch_size) w.tx_mbuf

pub record Generated (k : Params) (w out : Workspace) : Type 0 where
  pub valid : IsValid out.tx_queue
  pub queued : contents out.tx_queue ≡ contents w.tx_queue ++ take (room w.tx_queue) (batch k w)
  pub tx_count : out.app_tx ≡ w.app_tx + length (take (room w.tx_queue) (batch k w))
  pub drop_count : out.app_drops ≡ w.app_drops + length (drop (room w.tx_queue) (batch k w))
  pub freed :
      (i : ℕ)
      → i < length (drop (room w.tx_queue) (batch k w))
      → (out.mem (get_or (drop (room w.tx_queue) (batch k w)) i 0)).state ≡ free

send_pkts-Generated :
    (k : Params) (dest : ℕ) (table : RuleTable) (w : Workspace)
    → IsValid w.tx_queue
    → k.request_pkts_num * k.tx_msg_batch_size ≤ length w.tx_mbuf
    → Generated k w (send_pkts k dest table w)
unfolding send_pkts
send_pkts-Generated k dest table w v le =
    let n = k.request_pkts_num * k.tx_msg_batch_size in
    let e = enqueue_all-Inserted (batch k w) v in
    let total = length-take n w.tx_mbuf in
    let parts =
      sym (length-append (take (room w.tx_queue) (batch k w)) (drop (room w.tx_queue) (batch k w)))
      ∙ ap length (take-append-drop (room w.tx_queue) (batch k w)) in
    record {
      valid = e.valid;
      queued = e.held;
      tx_count = omega (
        arith,
        ap length e.dropped,
        parts,
        total,
        mul_comm k.request_pkts_num k.tx_msg_batch_size,
      );
      drop_count = ap (λ xs. w.app_drops + length xs) e.dropped;
      freed = λ i lt.
          let mem =
            fill_msgs k k.tx_msg_batch_size (record { source = w.ws_id; dest = dest })
              (record { workload_type = w.workload_type; segment_num = k.request_pkts_num })
              w.tx_mbuf 0 w.mem in
          subst
            (λ xs.
              (de_alloc_bulk mem xs (get_or (drop (room w.tx_queue) (batch k w)) i 0)).state ≡ free)
            (sym e.dropped) (de_alloc_bulk-free (drop (room w.tx_queue) (batch k w)) mem i lt);
    }

-- With the flag of a batch under the budget set, a route chosen for the type, a valid transmit queue
-- and as many buffers as a batch has packets: the packets go to the transmit queue in order while it
-- has room, the rest of them are dropped and have the state `kFREE_BUF`, and the two counters say how
-- many went each way.
pub generate_pkts-Generated :
    (k : Params) (w : Workspace) (dest : ℕ) (table : RuleTable)
    → w.infly_flag ≡ true
    → rr_select w.rule_table w.workload_type ≡ some (dest, table)
    → IsValid w.tx_queue
    → k.request_pkts_num * k.tx_msg_batch_size ≤ length w.tx_mbuf
    → (out : Workspace) × (generate_pkts k w ≡ some out) × Generated k w out
unfolding generate_pkts
generate_pkts-Generated k w dest table flag route v le =
    (send_pkts k dest table w, rw (flag, route) refl, send_pkts-Generated k dest table w v le)
