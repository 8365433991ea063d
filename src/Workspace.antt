-- ===== src/Workspace.antt =====
-- The application phases of a client in src/workspace.h, in the build without OneStage and with
-- EnableInflyMessageLimit (src/common.h): `apply_mbufs`, `generate_pkts`, `app_handler` and
-- `msg_handler_client`. The buffers that `alloc_bulk` hands out are an argument. A division by zero
-- of `rr_select` and a failed `rt_assert` give `none`; the time measurements are left out.
pub mod Generate
pub mod Receive
mod Examples
use axio_emulator.Prelude.{
  ℕ, zero, suc, ◌+◌, ◌-◌, ◌*◌, ◌/◌, List, [], ◌∷◌, Bool, true, false, Option, none, some, length,
  get_or, take, ltb, ◌==◌, if◌then◌else◌,
}
use axio_emulator.Queue.{LockFreeQueue, get_size}
use axio_emulator.Queue.Bulk.{enqueue_all, dequeue_n}
use axio_emulator.Rules.{RuleTable, apply_infly_budget, return_infly_budget, rr_select}
use axio_emulator.Mbuf.{Mem, Mbuf, UdpHdr, WsHdr, set_payload, extract_ws_hdr, de_alloc_bulk}

-- The constants of src/common.h and the batch sizes of the configuration.
pub record Params : Type 0 where
  pub request_pkts_num : ℕ
  pub response_pkts_num : ℕ
  pub tx_msg_batch_size : ℕ
  pub rx_msg_batch_size : ℕ
  pub full_padding_size : ℕ
  pub last_padding_size : ℕ

pub record Workspace : Type 0 where
  pub ws_id : ℕ
  pub workload_type : ℕ
  pub infly_flag : Bool
  pub tx_mbuf : List ℕ
  pub tx_queue : LockFreeQueue
  pub rx_queue : LockFreeQueue
  pub rule_table : RuleTable
  pub mem : Mem
  pub app_tx : ℕ
  pub app_drops : ℕ
  pub app_rx : ℕ
  pub apply_mbuf_stalls : ℕ

-- `apply_mbufs`, where `alloc_bulk` fails `stalls` times and then fills `tx_mbuf_` with `mbufs`.
pub apply_mbufs : Params → ℕ → List ℕ → Workspace → Workspace
apply_mbufs k stalls mbufs w =
    let (granted, table) = apply_infly_budget w.rule_table w.workload_type k.tx_msg_batch_size in
    if granted
    then record w {
      rule_table = table;
      infly_flag = true;
      tx_mbuf = mbufs;
      apply_mbuf_stalls = w.apply_mbuf_stalls + stalls;
    }
    else record w { rule_table = table; infly_flag = false }

-- `set_payload(*mbuf_ptr, ...); mbuf_ptr++;`, with `mbuf_ptr` as the position in `tx_mbuf_`.
abbrev pub mbuf_at : List ℕ → ℕ → ℕ
mbuf_at mbufs i = get_or mbufs i 0

-- The loop over `seg_idx`, with `n` segments to come.
pub fill_segs : ℕ → UdpHdr → WsHdr → ℕ → List ℕ → ℕ → Mem → Mem
fill_segs zero uh hdr size mbufs i mem = mem
fill_segs (suc n) uh hdr size mbufs i mem =
    fill_segs n uh hdr size mbufs (i + 1) (set_payload mem (mbuf_at mbufs i) uh hdr size)

-- The loop over `msg_idx`, with `n` messages to come.
pub fill_msgs : Params → ℕ → UdpHdr → WsHdr → List ℕ → ℕ → Mem → Mem
fill_msgs k zero uh hdr mbufs i mem = mem
fill_msgs k (suc n) uh hdr mbufs i mem =
    let segs = k.request_pkts_num - 1 in
    let mem' = fill_segs segs uh hdr k.full_padding_size mbufs i mem in
    fill_msgs k n uh hdr mbufs (i + segs + 1)
      (set_payload mem' (mbuf_at mbufs (i + segs)) uh hdr k.last_padding_size)

-- The rest of `generate_pkts`, once the destination is known.
pub send_pkts : Params → ℕ → RuleTable → Workspace → Workspace
send_pkts k dest table w =
    let uh : UdpHdr = record { source = w.ws_id; dest = dest } in
    let hdr : WsHdr = record {
      workload_type = w.workload_type;
      segment_num = k.request_pkts_num;
    } in
    let mem = fill_msgs k k.tx_msg_batch_size uh hdr w.tx_mbuf 0 w.mem in
    let (q, dropped) =
      enqueue_all w.tx_queue (take (k.request_pkts_num * k.tx_msg_batch_size) w.tx_mbuf) in
    record w {
      rule_table = table;
      tx_queue = q;
      mem = de_alloc_bulk mem dropped;
      app_tx = w.app_tx + (k.tx_msg_batch_size * k.request_pkts_num - length dropped);
      app_drops = w.app_drops + length dropped;
    }

abbrev pub send_selected : Params → Workspace → Option (ℕ × RuleTable) → Option Workspace
send_selected k w none = none
send_selected k w (some (dest, table)) = some (send_pkts k dest table w)

pub generate_pkts : Params → Workspace → Option Workspace
generate_pkts k w =
    if w.infly_flag then send_selected k w (rr_select w.rule_table w.workload_type) else some w

-- `msg_handler_client(msg, msg_num)`.
pub msg_handler_client : Params → List ℕ → ℕ → Workspace → Workspace
msg_handler_client k msg msg_num w =
    let type = (extract_ws_hdr w.mem (mbuf_at msg 0)).workload_type in
    record w {
      rule_table = return_infly_budget w.rule_table type msg_num;
      mem = de_alloc_bulk w.mem (take (msg_num * k.response_pkts_num) msg);
    }

-- `rt_assert(mbuf != nullptr)`, for all the packets taken.
pub all_valid : List ℕ → Bool
all_valid [] = true
all_valid (p ∷ ps) = if p == 0 then false else all_valid ps

-- `app_handler` from the first `dequeue` on, with `msg_num` messages.
pub receive : Params → ℕ → Workspace → Option Workspace
receive k msg_num w =
    let (pkts, q) = dequeue_n (msg_num * k.response_pkts_num) w.rx_queue in
    let handled = msg_handler_client k pkts msg_num (record w { rx_queue = q }) in
    if all_valid pkts
    then some (record handled { app_rx = handled.app_rx + msg_num * k.response_pkts_num })
    else none

pub app_handler : Params → Workspace → Option Workspace
app_handler k w =
    let msg_num = get_size w.rx_queue / k.response_pkts_num in
    if ltb msg_num k.rx_msg_batch_size then some w else receive k msg_num w
