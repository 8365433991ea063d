-- ===== src/Phases.antt =====
-- The dispatcher's phases of src/workspace.h, over DPDK: `bursted_tx`, `nic_tx`, `bursted_rx` and
-- `nic_rx`, in a build that measures no stage alone. The ticks `start` and `now` that `rdtsc` gives,
-- the mbufs in use, what the NIC accepts and receives, and the descriptors in use are arguments.
-- `nic_rx_cpt`, a `double`, is left out.
pub mod Counted
mod Examples
use axio_emulator.Prelude.{
  ℕ, ◌+◌, ◌-◌, ◌%◌, ◌^◌, List, Bool, true, false, ◌&&◌, not, Option, none, some, leb, ◌==◌,
  if◌then◌else◌,
}
use axio_emulator.Stats.{
  NetStats, sub64, disp_tx, disp_rx, disp_rx_stall_duration, nic_tx, nic_rx, add_mbuf_usage,
  enqueue_drops,
}
use axio_emulator.Dpdk.{Port, Dispatcher, ring_entries}
use axio_emulator.Dpdk.Echo.{PktHandler, pkt_handler_server}
use axio_emulator.Dpdk.Collect.{collect_tx_pkts}
use axio_emulator.Dpdk.Rx.{dispatch_rx_pkts}
use axio_emulator.Dpdk.Tx.{tx_flush, rx_burst}

-- The dispatcher of a workspace with its counters, `nic_rx_prev_desc_` and `nic_rx_prev_tick_`.
pub record DispatcherWs : Type 0 where
  pub dispatcher : Dispatcher
  pub stats : NetStats
  pub nic_rx_prev_desc : ℕ
  pub nic_rx_prev_tick : ℕ

unfoldable pub bursted_tx : Port → ℕ → ℕ → ℕ → DispatcherWs → DispatcherWs
bursted_tx port start now usage w =
    let (d, nb_collect) = collect_tx_pkts port w.dispatcher in
    let s = if nb_collect == 0 then w.stats else disp_tx nb_collect (sub64 now start) w.stats in
    record w { dispatcher = d; stats = add_mbuf_usage (usage % 2 ^ 32) s }

abbrev pub flushed_ws : ℕ → ℕ → DispatcherWs → Option (Dispatcher × ℕ) → Option DispatcherWs
flushed_ws start now w none = none
flushed_ws start now w (some (d, nb_tx)) =
    some (record w { dispatcher = d; stats = nic_tx nb_tx (sub64 now start) w.stats })

-- `none` when the calls given do not finish `tx_flush`.
unfoldable pub nic_tx_phase : Port → ℕ → ℕ → List (ℕ → ℕ) → DispatcherWs → Option DispatcherWs
nic_tx_phase port start now calls w =
    if leb port.disp_tx_batch_size w.dispatcher.tx_queue_idx
    then flushed_ws start now w (tx_flush calls w.dispatcher)
    else some w

abbrev pub dispatched_ws :
    ℕ → ℕ → ℕ → ℕ → DispatcherWs → Option (Dispatcher × ℕ) → Option DispatcherWs
dispatched_ws start now queue_size nb_handled w none = none
dispatched_ws start now queue_size nb_handled w (some (d, nb_dispatched)) =
    let nb = nb_handled + nb_dispatched in
    some (record w {
      dispatcher = d;
      stats = disp_rx nb (sub64 now start) (enqueue_drops (sub64 queue_size nb) w.stats);
    })

unfoldable pub bursted_rx :
    PktHandler → (ℕ → ℕ) → (ℕ → ℕ → Bool) → Port → ℕ → ℕ → DispatcherWs → Option DispatcherWs
bursted_rx handler alloc accepts port start now w =
    let queue_size = w.dispatcher.rx_queue_idx in
    let (d, nb_handled) = pkt_handler_server handler w.dispatcher in
    if queue_size == 0
    then some w
    else dispatched_ws start now queue_size nb_handled w (dispatch_rx_pkts alloc accepts port d)

-- The packets received are `ps`; `desc` and `next_desc` are the descriptors in use before and after.
unfoldable pub nic_rx_phase : ℕ → ℕ → ℕ → ℕ → ℕ → List ℕ → DispatcherWs → DispatcherWs
nic_rx_phase start now later desc next_desc ps w =
    let counted = not (desc == ring_entries) && not (desc == w.nic_rx_prev_desc) in
    let s =
      if counted
      then nic_rx desc w.nic_rx_prev_desc start w.nic_rx_prev_tick w.stats
      else w.stats in
    let (d, nb_rx) = rx_burst ps w.dispatcher in
    record w {
      dispatcher = d;
      stats = if nb_rx == 0 then s else disp_rx_stall_duration (sub64 later start) s;
      nic_rx_prev_desc = next_desc;
      nic_rx_prev_tick = now;
    }
