-- ===== src/Dpdk.antt =====
-- src/dispatcher_impl/dpdk/dpdk_dispatcher_dataplane.cc and dpdk_pkt_handlers.cc: the data path over
-- DPDK. A packet buffer keeps the fields of its headers, in the byte order of the wire, on a
-- little-endian host. `sent` and `freed` are what was given to `rte_eth_tx_burst`, as far as it
-- accepted it, and to `rte_pktmbuf_free`, in order.
pub mod Header
pub mod Payload
pub mod Echo
pub mod Collect
pub mod Rx
pub mod Arp
pub mod Tx
pub mod Ownership
mod Examples
use axio_emulator.Prelude.{ℕ, ◌+◌, ◌*◌, ◌/◌, ◌%◌, List, ◌==◌, if◌then◌else◌}
use axio_emulator.Queue.{LockFreeQueue}
use axio_emulator.Rules.{RuleTable}
use axio_emulator.Mbuf.{WsHdr}

-- `struct eth_hdr`, `struct iphdr`, `struct udphdr` and `arp_hdr_t`, as far as they are used; a
-- `MAC` address is the list of its bytes.
pub record EthHdr : Type 0 where
  pub d_addr : List ℕ
  pub s_addr : List ℕ
  pub type : ℕ

pub record IpHdr : Type 0 where
  pub saddr : ℕ
  pub daddr : ℕ
  pub ihl : ℕ
  pub version : ℕ
  pub tos : ℕ
  pub tot_len : ℕ
  pub ttl : ℕ
  pub frag_off : ℕ
  pub protocol : ℕ

pub record UdpHdr : Type 0 where
  pub source : ℕ
  pub dest : ℕ
  pub len : ℕ

pub record ArpHdr : Type 0 where
  pub hrd : ℕ
  pub pro : ℕ
  pub hln : ℕ
  pub pln : ℕ
  pub op : ℕ
  pub sha : List ℕ
  pub spa : ℕ
  pub tha : List ℕ
  pub tpa : ℕ

-- `struct rte_mbuf` and the packet in it: an ARP packet is read through `arp`, any other through
-- `ip`, `udp`, `ws` and `payload`.
pub record Mbuf : Type 0 where
  pub pkt_len : ℕ
  pub l2_len : ℕ
  pub l3_len : ℕ
  pub ip_cksum : ℕ
  pub eth : EthHdr
  pub ip : IpHdr
  pub udp : UdpHdr
  pub ws : WsHdr
  pub payload : List ℕ
  pub arp : ArpHdr

abbrev pub Mem : Type 0
Mem = ℕ → Mbuf

abbrev pub write : Mem → ℕ → Mbuf → Mem
write mem p m q = if q == p then m else mem q

-- `kNumTxRingEntries`, `kNumRxRingEntries`, `kDefaultUdpPort`.
abbrev pub ring_entries : ℕ
ring_entries = 2048

abbrev pub default_udp_port : ℕ
default_udp_port = 10010

-- `htons` and `ntohs`, and `htonl` and `ntohl`.
abbrev pub htons : ℕ → ℕ
htons x = x % 256 * 256 + x / 256 % 256

abbrev pub htonl : ℕ → ℕ
htonl x = htons (x % 65536) * 65536 + htons (x / 65536 % 65536)

-- `resolve_`, `dmac_`, `daddr_`, `kLocalMac`, `ipv4_from_str(kLocalIpStr)` and `kDispTxBatchSize`.
pub record Port : Type 0 where
  pub mac_addr : List ℕ
  pub ipv4_addr : ℕ
  pub dmac : List ℕ
  pub daddr : ℕ
  pub local_mac : List ℕ
  pub local_ip : ℕ
  pub disp_tx_batch_size : ℕ

-- The fields of the dispatcher. `arp_num` counts the replies that were made so far.
pub record Dispatcher : Type 0 where
  pub mem : Mem
  pub tx_queue : List ℕ
  pub tx_queue_idx : ℕ
  pub rx_queue : List ℕ
  pub rx_queue_idx : ℕ
  pub ws_queue_idx : ℕ
  pub ws_tx_queues : List LockFreeQueue
  pub ws_rx_queues : List LockFreeQueue
  pub rx_rule_table : RuleTable
  pub arp_num : ℕ
  pub sent : List ℕ
  pub freed : List ℕ
