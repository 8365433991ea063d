-- ===== src/Mbuf.antt =====
-- src/dispatcher_impl/roce/buffer.h, and the functions on one buffer that roce_dispatcher.cc gives to
-- the workspaces. Memory maps a `Buffer*` to its fields; the bytes of a packet are kept as the
-- fields of its UDP and workspace headers and the payload behind them.
pub mod Payload
pub mod Free
mod Examples
use axio_emulator.Prelude.{
  ℕ, ◌+◌, ◌-◌, List, [], ◌∷◌, ◌++◌, Bool, true, false, replicate, take, drop, ◌==◌, if◌then◌else◌,
}
use axio_emulator.HugeAlloc.{BufferState, posted, app_owned, free}

-- `struct udphdr`, as far as it is set, and `struct ws_hdr` (src/ws_impl/ws_hdr.h).
pub record UdpHdr : Type 0 where
  pub source : ℕ
  pub dest : ℕ

pub record WsHdr : Type 0 where
  pub workload_type : ℕ
  pub segment_num : ℕ

pub record Mbuf : Type 0 where
  pub length : ℕ
  pub state : BufferState
  pub next : ℕ
  pub udp : UdpHdr
  pub ws : WsHdr
  pub payload : List ℕ

abbrev pub Mem : Type 0
Mem = ℕ → Mbuf

abbrev pub write : Mem → ℕ → Mbuf → Mem
write mem p m q = if q == p then m else mem q

unfoldable pub set_state : Mem → ℕ → BufferState → Mem
set_state mem p s = write mem p (record (mem p) { state = s })

pub set_length : Mem → ℕ → ℕ → Mem
set_length mem p n = write mem p (record (mem p) { length = n })

-- `sizeof(ethhdr) + sizeof(iphdr) + sizeof(udphdr) + sizeof(ws_hdr)`.
abbrev pub header_size : ℕ
header_size = 14 + 20 + 8 + 16

-- The letter 'a', repeated, and a terminating 0; it is used for sizes above 0.
pub filler : ℕ → List ℕ
filler payload_size = replicate (payload_size - 1) b'a' ++ (0 ∷ [])

-- `roce_set_mbuf_paylod`.
pub set_payload : Mem → ℕ → UdpHdr → WsHdr → ℕ → Mem
set_payload mem p uh hdr payload_size =
    let m = mem p in
    write mem p (record m {
      length = header_size + payload_size;
      udp = uh;
      ws = hdr;
      payload =
          if payload_size == 0
          then m.payload
          else filler payload_size ++ drop payload_size m.payload;
    })

-- `roce_cp_payload`.
pub cp_payload : Mem → ℕ → ℕ → UdpHdr → WsHdr → ℕ → Mem
cp_payload mem dst src uh hdr payload_size =
    let m = mem dst in
    write mem dst (record m {
      length = header_size + payload_size;
      udp = uh;
      ws = hdr;
      payload = take payload_size (mem src).payload ++ drop payload_size m.payload;
    })

-- `roce_extracr_ws_hdr`.
unfoldable pub extract_ws_hdr : Mem → ℕ → WsHdr
extract_ws_hdr mem p = (mem p).ws

-- `roce_mbuf_de_alloc` and `roce_mbuf_de_alloc_bulk`: they leave the freelists alone.
pub de_alloc : Mem → ℕ → Mem
de_alloc mem p = set_state mem p free

pub de_alloc_bulk : Mem → List ℕ → Mem
de_alloc_bulk mem [] = mem
de_alloc_bulk mem (p ∷ ps) = de_alloc_bulk (de_alloc mem p) ps
