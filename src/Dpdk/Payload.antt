-- ===== src/Dpdk/Payload.antt =====
-- The functions on buffers of src/dispatcher_impl/dpdk/dpdk_dispatcher.cc, and `fill_rx_pkts`
-- (dpdk_dispatcher_dataplane.cc). `reset` and `append` are `rte_pktmbuf_reset` and
-- `rte_pktmbuf_append`; the packets that `rte_pktmbuf_alloc` gives are an argument.
use axio_emulator.Prelude.{
  ℕ, ◌+◌, ◌≤◌, ◌≡◌, ◌≢◌, refl, sym, ap, ◌∙◌, List, [], ◌∷◌, ◌++◌, length, length-set, set, take,
  drop, take-set_next, Option, none, some, true, ltb, ◌==◌, if◌then◌else◌, arith,
}
use mathlib.Core.List.{append_assoc, append-nil}
use axio_emulator.Mbuf.{WsHdr, filler, header_size}
use axio_emulator.Dpdk.{UdpHdr, Mbuf, Mem, write, ring_entries, Port, Dispatcher}
use axio_emulator.Dpdk.Header.{set_pkt_hdr, resolve_pkt_hdr}
use axio_emulator.Dpdk.Echo.{received}

module _ (reset : Mbuf → Mbuf) (append : Mbuf → ℕ → Mbuf) where
  -- `dpdk_set_mbuf_paylod`.
  unfoldable pub set_payload : Mem → ℕ → UdpHdr → WsHdr → ℕ → Mem
  set_payload mem p uh hdr payload_size =
      let m = append (reset (mem p)) (header_size + payload_size) in
      write mem p (record m {
        udp = uh;
        ws = hdr;
        payload =
            if payload_size == 0
            then m.payload
            else filler payload_size ++ drop payload_size m.payload;
      })

  -- `dpdk_mbuf_cp_payload`.
  unfoldable pub cp_payload : Mem → ℕ → ℕ → UdpHdr → WsHdr → ℕ → Mem
  cp_payload mem dst src uh hdr payload_size =
      let m = append (reset (mem dst)) (header_size + payload_size) in
      let mem' = write mem dst (record m { udp = uh; ws = hdr }) in
      write mem' dst (record (mem' dst) {
        payload = take payload_size (mem' src).payload ++ drop payload_size m.payload;
      })

  -- `fill_rx_pkts`, for the packets `ps` that are allocated; `none` is a failed `rt_assert`.
  unfoldable pub fill_rx_pkts : Port → List ℕ → Dispatcher → Option Dispatcher
  fill_rx_pkts port [] d = some d
  fill_rx_pkts port (p ∷ ps) d =
      let mem =
        set_payload d.mem p (record { source = 0; dest = 0; len = (d.mem p).udp.len })
          (record { workload_type = 0; segment_num = 1 }) 100 in
      let rest = fill_rx_pkts port ps (record d {
        mem = write mem p (set_pkt_hdr port (mem p));
        rx_queue = set d.rx_queue d.rx_queue_idx p;
        rx_queue_idx = d.rx_queue_idx + 1;
      }) in
      if ltb d.rx_queue_idx ring_entries then rest else none

  -- The workspace header that is set is the one read back, the packet is as long as headers and
  -- payload, and no other buffer changes, when `rte_pktmbuf_append` finds room in an emptied buffer.
  pub resolve_pkt_hdr-set_payload :
      (room : ℕ) (mem : Mem) (p q : ℕ) (uh : UdpHdr) (hdr : WsHdr) (payload_size : ℕ)
      → ((m : Mbuf) (n : ℕ) → n ≤ room → (append (reset m) n).pkt_len ≡ n)
      → header_size + payload_size ≤ room
      → let mem' = set_payload mem p uh hdr payload_size in
        (resolve_pkt_hdr (mem' p) ≡ hdr.workload_type)
        × ((mem' p).ws ≡ hdr)
        × ((mem' p).pkt_len ≡ header_size + payload_size)
        × (q ≢ p → mem' q ≡ mem q)
  unfolding set_payload resolve_pkt_hdr
  resolve_pkt_hdr-set_payload room mem p q uh hdr payload_size appended le =
      let len = appended (mem p) (header_size + payload_size) le in
      (ground arith, ground arith, ground (arith, len), λ ne. ground (arith, ne))

  -- A new packet that fits in the array is appended to the receive queue, and so are those that
  -- follow it, in order.
  pub fill_rx_pkts-received :
      (port : Port) (ps : List ℕ) (d : Dispatcher)
      → length d.rx_queue ≡ ring_entries
      → d.rx_queue_idx + length ps ≤ ring_entries
      → (out : Dispatcher) × (fill_rx_pkts port ps d ≡ some out)
        × (received out ≡ received d ++ ps)
        × (out.rx_queue_idx ≡ d.rx_queue_idx + length ps)
  unfolding fill_rx_pkts
  fill_rx_pkts-received port [] d len le = (d, refl, sym (append-nil (received d)), omega arith)
  fill_rx_pkts-received port (p ∷ ps) d len le =
      let mem =
        set_payload d.mem p (record { source = 0; dest = 0; len = (d.mem p).udp.len })
          (record { workload_type = 0; segment_num = 1 }) 100 in
      let same = length-set d.rx_queue d.rx_queue_idx p in
      let (out, runs, got, idx) =
        fill_rx_pkts-received port ps
          (record d {
            mem = write mem p (set_pkt_hdr port (mem p));
            rx_queue = set d.rx_queue d.rx_queue_idx p;
            rx_queue_idx = d.rx_queue_idx + 1;
          })
          (same ∙ len) (omega arith) in
      let fits : ltb d.rx_queue_idx ring_entries ≡ true = ground arith in
      (
        out,
        rw (fits, fill_rx_pkts) runs,
        got
            ∙ ap (λ xs. xs ++ ps) (take-set_next d.rx_queue d.rx_queue_idx p (omega (arith, len)))
            ∙ append_assoc (received d) (p ∷ []) ps,
        omega (arith, idx),
      )
