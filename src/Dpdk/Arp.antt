-- ===== src/Dpdk/Arp.antt =====
-- `handle_arp_packet` and `tx_burst_for_arp` (dpdk_dispatcher_dataplane.cc). For the reply of number
-- `n`, `alloc n` is what `rte_pktmbuf_alloc` gives, 0 for `nullptr`, and `accepts n t` tells
-- whether `rte_eth_tx_burst` takes the packet at try `t`. A failed `assert` gives `none`.
use axio_emulator.Prelude.{
  sym, ◌∙◌, ℕ, ◌+◌, ◌^◌, ◌<◌, ◌≡◌, ◌≢◌, refl, List, [], ◌∷◌, ◌++◌, Bool, true, ◌||◌, Option, none,
  some, ◌==◌, if◌then◌else◌, arith,
}
use axio_emulator.Dpdk.{ArpHdr, Mbuf, write, htons, htonl, Port, Dispatcher}
use axio_emulator.Dpdk.Header.{eth_p_arp, ethertype_ip, is_arp_packet, htonl_self}

-- `ARPHRD_ETHER`, `ARPOP_REQUEST` and `ARPOP_REPLY`.
abbrev pub arphrd_ether : ℕ
arphrd_ether = 1

abbrev pub arpop_request : ℕ
arpop_request = 1

abbrev pub arpop_reply : ℕ
arpop_reply = 2

-- The packet that is written over a new buffer: `pkt_size` is 14 + 28.
unfoldable pub arp_reply : Port → ArpHdr → Mbuf → Mbuf
arp_reply port request m = record m {
  pkt_len = 14 + 28;
  eth = record { d_addr = request.sha; s_addr = port.local_mac; type = htons eth_p_arp };
  arp = record {
    hrd = htons arphrd_ether;
    pro = htons ethertype_ip;
    hln = 6;
    pln = 4;
    op = htons arpop_reply;
    sha = port.local_mac;
    spa = htonl port.local_ip;
    tha = request.sha;
    tpa = request.spa;
  };
}

unfoldable pub tx_burst_for_arp :
    (ℕ → ℕ) → (ℕ → ℕ → Bool) → Port → ArpHdr → Dispatcher → Option Dispatcher
tx_burst_for_arp alloc accepts port request d =
    let p = alloc d.arp_num in
    if p == 0
    then none
    else some (record d {
      mem = write d.mem p (arp_reply port request (d.mem p));
      arp_num = d.arp_num + 1;
      sent = if accepts d.arp_num 0 || accepts d.arp_num 1 then d.sent ++ (p ∷ []) else d.sent;
    })

unfoldable pub handle_arp_packet :
    (ℕ → ℕ) → (ℕ → ℕ → Bool) → Port → ℕ → Dispatcher → Option Dispatcher
handle_arp_packet alloc accepts port p d =
    let arph = (d.mem p).arp in
    if htons arph.op == arpop_request
    then if htonl arph.tpa == port.local_ip
      then tx_burst_for_arp alloc accepts port arph d
      else some d
    else some d

-- What one who asked learns from a packet: an address and the station that has it.
pub record Answers (request reply : Mbuf) (mac : List ℕ) : Type 0 where
  pub is_arp : is_arp_packet reply ≡ true
  pub is_reply : htons reply.arp.op ≡ arpop_reply
  pub to_asker : reply.eth.d_addr ≡ request.arp.sha
  pub target_mac : reply.arp.tha ≡ request.arp.sha
  pub target_ip : reply.arp.tpa ≡ request.arp.spa
  pub address : htonl reply.arp.spa ≡ htonl request.arp.tpa
  pub station : reply.arp.sha ≡ mac
  pub sender : reply.eth.s_addr ≡ mac

-- When a buffer can be allocated and the local address is below 2^32, a request for the local
-- address is answered by one packet: in that buffer, it goes to the
-- asker and says that the address asked for belongs to the local MAC address. It is sent when the
-- NIC takes it at the first or the second try; no other buffer changes.
pub handle_arp_packet-Answers :
    (alloc : ℕ → ℕ) (accepts : ℕ → ℕ → Bool) (port : Port) (p : ℕ) (d : Dispatcher)
    → alloc d.arp_num ≢ 0
    → port.local_ip < 2 ^ 32
    → htons (d.mem p).arp.op ≡ arpop_request
    → htonl (d.mem p).arp.tpa ≡ port.local_ip
    → (out : Dispatcher) × (handle_arp_packet alloc accepts port p d ≡ some out)
      × Answers (d.mem p) (out.mem (alloc d.arp_num)) port.local_mac
      × (out.sent ≡ (
          if accepts d.arp_num 0 || accepts d.arp_num 1
          then d.sent ++ (alloc d.arp_num ∷ [])
          else d.sent))
      × ((q : ℕ) → q ≢ alloc d.arp_num → out.mem q ≡ d.mem q)
unfolding handle_arp_packet tx_burst_for_arp arp_reply is_arp_packet
handle_arp_packet-Answers alloc accepts port p d fresh small asks ours =
    let n = alloc d.arp_num in
    let reply = arp_reply port (d.mem p).arp (d.mem n) in
    let at : write d.mem n reply n ≡ reply = ground arith in
    (
      record d {
        mem = write d.mem n reply;
        arp_num = d.arp_num + 1;
        sent = if accepts d.arp_num 0 || accepts d.arp_num 1 then d.sent ++ (n ∷ []) else d.sent;
      },
      ground (arith, fresh, asks, ours),
      rw at (record {
        is_arp = refl;
        is_reply = refl;
        to_asker = refl;
        target_mac = refl;
        target_ip = refl;
        address = htonl_self port.local_ip small ∙ sym ours;
        station = refl;
        sender = refl;
      }),
      refl,
      λ q ne. ground (arith, ne),
    )

-- Anything else, a reply or a request for another address, changes nothing.
pub handle_arp_packet-other :
    (alloc : ℕ → ℕ) (accepts : ℕ → ℕ → Bool) (port : Port) (p : ℕ) (d : Dispatcher)
    → htons (d.mem p).arp.op ≢ arpop_request
    → handle_arp_packet alloc accepts port p d ≡ some d
unfolding handle_arp_packet
handle_arp_packet-other alloc accepts port p d ne = ground (arith, ne)
