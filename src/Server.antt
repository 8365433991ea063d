-- ===== src/Server.antt =====
-- The message handlers of a server, src/ws_impl/msg_handlers.cc, in the build without ApplyNewMbuf:
-- the responses are written into the buffers of the requests. `fs_read` and `kv_handler` are left
-- out: the first needs ApplyNewMbuf, the second stores under keys that it reads from outside of the
-- variable it has chosen. The stateful memory is seen as words for `memory_intense_app`, and as
-- blocks of `kMTU` bytes for `fs_write`; a program uses one of them.
pub mod Respond
mod Examples
use axio_emulator.Prelude.{
  ℕ, zero, suc, ◌+◌, ◌-◌, ◌*◌, ◌/◌, ◌%◌, List, [], ◌∷◌, Option, none, some, length, get_or, take,
  drop, ltb, ◌==◌, if◌then◌else◌,
}
use axio_emulator.Queue.{LockFreeQueue}
use axio_emulator.Queue.Bulk.{enqueue_all}
use axio_emulator.Rules.{RuleTable, rr_select}
use axio_emulator.Mbuf.{Mem, UdpHdr, WsHdr, set_payload, de_alloc_bulk}

-- `kRxMsgHandler`, the values that are modelled.
pub data MsgHandler : Type 0 where
  empty t_app l_app m_app fs_write : MsgHandler

-- The constants of src/common.h and of the dispatcher.
pub record ServerParams : Type 0 where
  pub request_pkts_num : ℕ
  pub response_pkts_num : ℕ
  pub response_payload_size : ℕ
  pub memory_access_range : ℕ
  pub stateful_memory_size : ℕ
  pub mtu : ℕ

pub record Server : Type 0 where
  pub ws_id : ℕ
  pub workload_type : ℕ
  pub tx_queue : LockFreeQueue
  pub rule_table : RuleTable
  pub mem : Mem
  pub stateful_words : ℕ → ℕ
  pub stateful_blocks : ℕ → List ℕ
  pub access_ptr : ℕ
  pub app_drops : ℕ

-- `set_payload(*mbuf_ptr, ...); mbuf_ptr++;` for each packet of a list: the loop of
-- `throughput_intense_app` and `latency_intense_app`.
pub respond : List ℕ → UdpHdr → WsHdr → ℕ → Mem → Mem
respond [] uh hdr size mem = mem
respond (p ∷ ps) uh hdr size mem = respond ps uh hdr size (set_payload mem p uh hdr size)

abbrev pub store {ℓ} : {A : Type ℓ} → (ℕ → A) → ℕ → A → ℕ → A
store f i a j = if j == i then a else f j

-- The loop over `j` of `memory_intense_app`, with `n` words to come.
pub access_words : ServerParams → ℕ → Server → Server
access_words k zero s = s
access_words k (suc n) s =
    let ptr = (s.access_ptr + 1) % (k.stateful_memory_size / 8) in
    access_words k n
      (record s { access_ptr = ptr; stateful_words = store s.stateful_words ptr ptr })

pub memory_intense_app : ServerParams → List ℕ → UdpHdr → WsHdr → Server → Server
memory_intense_app k [] uh hdr s = s
memory_intense_app k (p ∷ ps) uh hdr s =
    let s' = access_words k (k.memory_access_range / 8) s in
    memory_intense_app k ps uh hdr
      (record s' { mem = set_payload s'.mem p uh hdr k.response_payload_size })

-- The first loop of `fs_write`, for `kMemoryAccessRangePerPkt` above 0.
pub write_blocks : ServerParams → List ℕ → Server → Server
write_blocks k [] s = s
write_blocks k (p ∷ ps) s =
    let ptr = (s.access_ptr + 1) % (k.stateful_memory_size / k.mtu) in
    write_blocks k ps (record s {
      access_ptr = ptr;
      stateful_blocks = store s.stateful_blocks ptr (take k.mtu (s.mem p).payload);
    })

-- The handler for `msg_num` messages.
pub handle : ServerParams → MsgHandler → List ℕ → ℕ → UdpHdr → WsHdr → Server → Server
handle k empty msg msg_num uh hdr s = s
handle k t_app msg msg_num uh hdr s = record s {
  mem = respond (take (msg_num * k.request_pkts_num) msg) uh hdr k.response_payload_size s.mem;
}
handle k l_app msg msg_num uh hdr s = record s {
  mem = respond (take (msg_num * k.request_pkts_num) msg) uh hdr k.response_payload_size s.mem;
}
handle k m_app msg msg_num uh hdr s =
    memory_intense_app k (take (msg_num * k.request_pkts_num) msg) uh hdr s
handle k fs_write msg msg_num uh hdr s =
    let s' = write_blocks k (take (msg_num * k.request_pkts_num) msg) s in
    record s' { mem = respond (take msg_num msg) uh hdr k.response_payload_size s'.mem }

-- The end of `msg_handler_server`: the responses go to the transmit queue, the packets that are
-- not needed for them are freed.
pub send_responses : ServerParams → List ℕ → ℕ → Server → Server
send_responses k msg msg_num s =
    let pkt_num = msg_num * k.request_pkts_num in
    let resp_pkt_num = msg_num * k.response_pkts_num in
    let (q, dropped) = enqueue_all s.tx_queue (take resp_pkt_num msg) in
    let mem = de_alloc_bulk s.mem dropped in
    record s {
      tx_queue = q;
      mem =
          if ltb resp_pkt_num pkt_num
          then de_alloc_bulk mem (take (pkt_num - resp_pkt_num) (drop resp_pkt_num msg))
          else mem;
      app_drops = s.app_drops + length dropped;
    }

-- `empty` returns before the responses are sent.
pub after_select :
    ServerParams → MsgHandler → List ℕ → ℕ → Server → Option (ℕ × RuleTable) → Option Server
after_select k h msg msg_num s none = none
after_select k empty msg msg_num s (some (dest, table)) = some (record s { rule_table = table })
after_select k h msg msg_num s (some (dest, table)) = some (
    send_responses k msg msg_num (
      handle k h msg msg_num (record { source = s.ws_id; dest = dest })
        (record { workload_type = s.workload_type; segment_num = k.response_pkts_num })
        (record s { rule_table = table })))

pub msg_handler_server : ServerParams → MsgHandler → List ℕ → ℕ → Server → Option Server
msg_handler_server k h msg msg_num s =
    after_select k h msg msg_num s (rr_select s.rule_table s.workload_type)
