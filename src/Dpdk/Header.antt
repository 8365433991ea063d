-- ===== src/Dpdk/Header.antt =====
-- `set_pkt_hdr`, `is_arp_packet` and `resolve_pkt_hdr` (dpdk_dispatcher_dataplane.cc), on one buffer.
use axio_emulator.Prelude.{
  ℕ, ◌+◌, ◌-◌, ◌/◌, ◌%◌, ◌^◌, ◌≤◌, ◌<◌, ◌≡◌, refl, Bool, false, ◌==◌, arith,
}
use axio_emulator.Dpdk.{EthHdr, Mbuf, Mem, write, default_udp_port, htons, htonl, Port}

-- `ETHERTYPE_IP`, `ETH_P_ARP`, `IP_FLAG_DF`, `IPPROTO_UDP`.
abbrev pub ethertype_ip : ℕ
ethertype_ip = 2048

abbrev pub eth_p_arp : ℕ
eth_p_arp = 2054

abbrev pub ip_flag_df : ℕ
ip_flag_df = htons 16384

abbrev pub ipproto_udp : ℕ
ipproto_udp = 17

-- A difference that is stored in a `uint16_t`.
abbrev pub sub16 : ℕ → ℕ → ℕ
sub16 a b = (2 ^ 32 + a - b) % 2 ^ 16

pub eth_of : Port → EthHdr
eth_of port = record { d_addr = port.dmac; s_addr = port.mac_addr; type = htons ethertype_ip }

-- `set_pkt_hdr`, in which `ip_cksum` is the flag RTE_MBUF_F_TX_IP_CKSUM of `ol_flags`.
unfoldable pub set_pkt_hdr : Port → Mbuf → Mbuf
set_pkt_hdr port m = record m {
  eth = eth_of port;
  ip = record m.ip {
    saddr = port.ipv4_addr;
    daddr = port.daddr;
    ihl = 5;
    version = 4;
    tos = 0;
    tot_len = htons (sub16 m.pkt_len 14);
    ttl = 64;
    frag_off = ip_flag_df;
    protocol = ipproto_udp;
  };
  ip_cksum = 1;
  l2_len = 14;
  l3_len = 20;
  udp = record {
    source = htons ((m.udp.source + default_udp_port) % 2 ^ 16);
    dest = htons ((m.udp.dest + default_udp_port) % 2 ^ 16);
    len = htons (sub16 m.pkt_len 34);
  };
}

unfoldable pub set_hdr_at : Port → Mem → ℕ → Mem
set_hdr_at port mem p = write mem p (set_pkt_hdr port (mem p))

unfoldable pub is_arp_packet : Mbuf → Bool
is_arp_packet m = htons m.eth.type == eth_p_arp

unfoldable pub resolve_pkt_hdr : Mbuf → ℕ
resolve_pkt_hdr m = m.ws.workload_type

pub htons_self : (x : ℕ) → x < 2 ^ 16 → htons (htons x) ≡ x
htons_self x lt = omega arith

pub htonl_self : (x : ℕ) → x < 2 ^ 32 → htonl (htonl x) ≡ x
htonl_self x lt =
    let a = htons_self (x % 65536) (omega arith) in
    let b = htons_self (x / 65536 % 65536) (omega arith) in
    let c : htons (x % 65536) < 65536 = omega arith in
    let d : htons (x / 65536 % 65536) < 65536 = omega arith in omega (arith, a, b, c, d)

-- What the header says to its receiver.
pub record Sealed (port : Port) (m out : Mbuf) : Type 0 where
  pub is_ip : is_arp_packet out ≡ false
  pub to_mac : out.eth.d_addr ≡ port.dmac
  pub from_mac : out.eth.s_addr ≡ port.mac_addr
  pub to_ip : out.ip.daddr ≡ port.daddr
  pub from_ip : out.ip.saddr ≡ port.ipv4_addr
  pub ip_len : htons out.ip.tot_len + 14 ≡ m.pkt_len
  pub udp_len : htons out.udp.len + 34 ≡ m.pkt_len
  pub source : htons out.udp.source ≡ m.udp.source + default_udp_port
  pub dest : htons out.udp.dest ≡ m.udp.dest + default_udp_port
  pub type : resolve_pkt_hdr out ≡ resolve_pkt_hdr m
  pub payload : out.payload ≡ m.payload

-- For a packet of at least 34 bytes that an Ethernet frame can hold and ports that do not leave 16
-- bits, the receiver reads from the header an IP packet between the configured addresses, with
-- the lengths of the packet behind the Ethernet and IP headers, and the ports above
-- kDefaultUdpPort; the workload type and the payload are those of before.
pub set_pkt_hdr-Sealed :
    (port : Port) (m : Mbuf)
    → 34 ≤ m.pkt_len
    → m.pkt_len < 2 ^ 16
    → m.udp.source + default_udp_port < 2 ^ 16
    → m.udp.dest + default_udp_port < 2 ^ 16
    → Sealed port m (set_pkt_hdr port m)
unfolding set_pkt_hdr eth_of is_arp_packet resolve_pkt_hdr
set_pkt_hdr-Sealed port m long short s d = record {
  is_ip = refl;
  to_mac = refl;
  from_mac = refl;
  to_ip = refl;
  from_ip = refl;
  ip_len = omega (arith, htons_self (sub16 m.pkt_len 14) (omega arith));
  udp_len = omega (arith, htons_self (sub16 m.pkt_len 34) (omega arith));
  source = omega (arith, htons_self (m.udp.source + default_udp_port) (omega arith));
  dest = omega (arith, htons_self (m.udp.dest + default_udp_port) (omega arith));
  type = refl;
  payload = refl;
}
