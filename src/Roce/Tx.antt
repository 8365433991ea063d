-- ===== src/Roce/Tx.antt =====
-- `tx_burst` and `tx_flush` (src/dispatcher_impl/roce/roce_dispatcher_dataplane.cc).
pub mod Complete
pub mod Burst
pub mod Flush
mod Examples
use axio_emulator.Prelude.{
  ℕ, zero, suc, ◌+◌, ◌-◌, ◌%◌, List, [], ◌∷◌, ◌++◌, Option, none, some, length, get_or, set, take,
  drop, ◌==◌, if◌then◌else◌,
}
use axio_emulator.Prelude.Ring.{slots}
use axio_emulator.HugeAlloc.{posted, free}
use axio_emulator.Mbuf.{Mem, set_state, set_length}
use axio_emulator.Roce.{Node, client, server, depth}

-- The SEND fields of the dispatcher; `freed` lists the buffers given back to the allocator by
-- `free_buf`, and `sent` those posted to the NIC by `ibv_post_send`, both oldest first.
pub record TxRing : Type 0 where
  pub send_head : ℕ
  pub send_tail : ℕ
  pub free_send_wr_num : ℕ
  pub sw_ring : List ℕ
  pub tx_queue : List ℕ
  pub tx_queue_idx : ℕ
  pub freed : List ℕ
  pub sent : List ℕ

-- What becomes of a buffer whose send is complete.
pub complete_buf : Node → Mem → ℕ → Mem
complete_buf client mem m = set_state (set_length mem m 0) m free
complete_buf server mem m = set_state mem m free

abbrev pub give_back : Node → List ℕ → ℕ → List ℕ
give_back client freed m = freed ++ (m ∷ [])
give_back server freed m = freed

-- The loop over the `ret` completions.
pub complete : Node → ℕ → Mem → TxRing → Mem × TxRing
complete node zero mem tx = (mem, tx)
complete node (suc n) mem tx =
    let m = get_or tx.sw_ring tx.send_head 0 in
    complete node n (complete_buf node mem m)
      (record tx { send_head = (tx.send_head + 1) % depth; freed = give_back node tx.freed m })

-- `sw_ring_[send_tail_] = m; send_tail_ = ...; free_send_wr_num_--;`
pub mount : TxRing → ℕ → TxRing
mount tx m = record tx {
  sw_ring = set tx.sw_ring tx.send_tail m;
  send_tail = (tx.send_tail + 1) % depth;
  free_send_wr_num = tx.free_send_wr_num - 1;
}

-- The loop over the buffers to send: the new state, and how many were mounted.
pub mount_all : List ℕ → Mem → TxRing → Mem × TxRing × ℕ
mount_all [] mem tx = (mem, tx, 0)
mount_all (m ∷ ms) mem tx =
    let (mem', tx', n) = mount_all ms (set_state mem m posted) (mount tx m) in
    if tx.free_send_wr_num == 0 then (mem, tx, 0) else (mem', tx', n + 1)

-- `tx_burst(tx, nb_tx)` where the poll of the send queue returns `ret`. Entry `i` of `send_wr` and of
-- `send_sgl` describes the buffer in `sw_ring_[i]`; the chain that is posted starts where the first
-- buffer was mounted.
pub tx_burst : Node → ℕ → List ℕ → Mem → TxRing → Mem × TxRing × ℕ
tx_burst node ret bufs mem tx =
    let (mem', tx') =
      complete node ret mem (record tx { free_send_wr_num = tx.free_send_wr_num + ret }) in
    let (mem'', tx'', nb_tx_res) = mount_all bufs mem' tx' in
    (
      mem'',
      record tx'' { sent = tx''.sent ++ slots depth tx''.sw_ring tx'.send_tail nb_tx_res },
      nb_tx_res,
    )

-- The loop of `tx_flush`, over the polls to come: each says how many of the sends in flight are
-- complete. `none` means that buffers are left when the polls are used up.
pub flush_loop : Node → List (ℕ → ℕ) → List ℕ → Mem → TxRing → ℕ → Option (Mem × TxRing × ℕ)
flush_loop node polls [] mem tx tx_total = some (mem, tx, tx_total)
flush_loop node [] (m ∷ ms) mem tx tx_total = none
flush_loop node (poll ∷ polls) (m ∷ ms) mem tx tx_total =
    let (mem', tx', n) = tx_burst node (poll (depth - tx.free_send_wr_num)) (m ∷ ms) mem tx in
    flush_loop node polls (drop n (m ∷ ms)) mem' tx' (tx_total + n)

abbrev finish : Option (Mem × TxRing × ℕ) → Option (Mem × TxRing × ℕ)
finish none = none
finish (some (mem, tx, tx_total)) = some (mem, record tx { tx_queue_idx = 0 }, tx_total)

pub tx_flush : Node → List (ℕ → ℕ) → Mem → TxRing → Option (Mem × TxRing × ℕ)
tx_flush node polls mem tx =
    finish (flush_loop node polls (take tx.tx_queue_idx tx.tx_queue) mem tx 0)
