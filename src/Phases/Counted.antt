-- ===== src/Phases/Counted.antt =====
-- The counters of a dispatcher agree with the packets that it moves.
use axio_emulator.Prelude.{
  ℕ, ◌+◌, ◌-◌, ◌%◌, ◌^◌, ◌≤◌, ◌≡◌, refl, ap, ◌∙◌, List, [], ◌++◌, Bool, true, false, some, length,
  length-append, if◌then◌else◌, length-take, leb, Bool-cases, inl, inr, arith,
}
use axio_emulator.Stats.{sub64, disp_tx, nic_tx, add_mbuf_usage}
use axio_emulator.Dpdk.{Port, Dispatcher, ring_entries}
use axio_emulator.Dpdk.Header.{set_pkt_hdr}
use axio_emulator.Dpdk.Echo.{waiting, apply_all}
use axio_emulator.Dpdk.Collect.Refine.{dpdk_collect-Collected}
use axio_emulator.Dpdk.Collect.Visit.{IsCollector, visit, views}
use axio_emulator.Dpdk.Tx.{Accepts, tx_flush-all}
use axio_emulator.Phases.{DispatcherWs, bursted_tx, nic_tx_phase}

-- The packets that one pass over the workers' queues takes, in order.
abbrev pub taken : Port → Dispatcher → List ℕ
taken port d =
    (visit port.disp_tx_batch_size (length d.ws_tx_queues) (ring_entries - d.tx_queue_idx)
      d.ws_queue_idx (views d)).1

-- The packets that wait when they have been taken.
abbrev pub backlog : Port → Dispatcher → List ℕ
backlog port d = waiting d ++ taken port d

-- Whether they reach `kDispTxBatchSize`.
abbrev pub full : Port → Dispatcher → Bool
full port d = leb port.disp_tx_batch_size (d.tx_queue_idx + length (taken port d))

-- What the two transmit phases leave.
pub record IsSent (port : Port) (w out : DispatcherWs) : Type 0 where
  pub sent : out.dispatcher.sent ≡ (
      if full port w.dispatcher
      then w.dispatcher.sent ++ backlog port w.dispatcher
      else w.dispatcher.sent)
  pub left :
      waiting out.dispatcher ≡ (if full port w.dispatcher then [] else backlog port w.dispatcher)
  pub mem :
      out.dispatcher.mem ≡ apply_all (set_pkt_hdr port) (taken port w.dispatcher) w.dispatcher.mem
  pub disp_tx_num :
      out.stats.disp_tx_pkt_num % 2 ^ 64
      ≡ (w.stats.disp_tx_pkt_num + length (taken port w.dispatcher)) % 2 ^ 64
  pub nic_tx_num : out.stats.nic_tx_pkt_num ≡ (
      if full port w.dispatcher
      then (w.stats.nic_tx_pkt_num + (w.dispatcher.tx_queue_idx + length (taken port w.dispatcher)))
        % 2 ^ 64
      else w.stats.nic_tx_pkt_num)

-- The two transmit phases one after the other, on a dispatcher with well-formed rings and queues, when
-- as many of the NIC's calls accept packets as packets wait. The packets taken from the workers' queues
-- join those that wait, with the headers set, and the dispatcher's counter grows by their number,
-- modulo 2^64. When the packets that then wait reach a batch, all of them are sent, in this order, none
-- is left, and the NIC's counter grows by their number, modulo 2^64; when not, nothing is sent or
-- counted for the NIC, and they wait in this order.
pub nic_tx_phase-bursted_tx :
    (port : Port) (start now usage start' now' k : ℕ) (calls : List (ℕ → ℕ)) (w : DispatcherWs)
    → IsCollector w.dispatcher
    → Accepts k calls
    → w.dispatcher.tx_queue_idx + length (taken port w.dispatcher) ≤ k
    → (out : DispatcherWs) × (nic_tx_phase port start' now' calls
          (bursted_tx port start now usage w)
        ≡ some out)
      × IsSent port w out
unfolding bursted_tx nic_tx_phase disp_tx nic_tx add_mbuf_usage
nic_tx_phase-bursted_tx port start now usage start' now' k calls w v a few =
    let c = dpdk_collect-Collected port w.dispatcher v in
    let mid = bursted_tx port start now usage w in
    let idx : mid.dispatcher.tx_queue_idx
        ≡ w.dispatcher.tx_queue_idx + length (taken port w.dispatcher) =
      c.idx ∙ ap (λ n. w.dispatcher.tx_queue_idx + n) c.count in
    let num = c.count in
    elim (Bool-cases (full port w.dispatcher)) [
      | inl batch ↦
          let all : length (waiting mid.dispatcher) ≡ mid.dispatcher.tx_queue_idx = omega (
            arith,
            ap length c.taken,
            length-append (waiting w.dispatcher) (taken port w.dispatcher),
            length-take w.dispatcher.tx_queue_idx w.dispatcher.tx_queue,
            v.rings.storage,
            v.rings.tx_in,
            idx,
          ) in
          let sent = tx_flush-all k calls mid.dispatcher a (omega (arith, idx, few)) in
          let reached : leb port.disp_tx_batch_size mid.dispatcher.tx_queue_idx ≡ true =
            ground (arith, idx, batch) in
          (
            record mid {
              dispatcher = record mid.dispatcher {
                sent = mid.dispatcher.sent ++ waiting mid.dispatcher;
                tx_queue_idx = 0;
              };
              stats = nic_tx mid.dispatcher.tx_queue_idx (sub64 now' start') mid.stats;
            },
            rw (reached, sent, all) refl,
            record {
              sent = rw batch (
                  ap (λ xs. xs ++ waiting mid.dispatcher) c.sent
                  ∙ ap (λ xs. w.dispatcher.sent ++ xs) c.taken);
              left = rw batch refl;
              mem = c.sealed;
              disp_tx_num = ground (arith, num);
              nic_tx_num = rw batch (ground (arith, idx));
            },
          )
      | inr small ↦
          let short : leb port.disp_tx_batch_size mid.dispatcher.tx_queue_idx ≡ false =
            ground (arith, idx, small) in
          (
            mid,
            rw short refl,
            record {
              sent = rw small c.sent;
              left = rw small c.taken;
              mem = c.sealed;
              disp_tx_num = ground (arith, num);
              nic_tx_num = rw small (ground arith);
            },
          )
    ]

-- What `bursted_rx` leaves of a burst.
pub record IsCounted (w out : DispatcherWs) : Type 0 where
  pub counted :
      out.stats.disp_rx_pkt_num + out.stats.disp_enqueue_drops
      ≡ w.stats.disp_rx_pkt_num + w.stats.disp_enqueue_drops + w.dispatcher.rx_queue_idx
  pub emptied : out.dispatcher.rx_queue_idx ≡ 0
