-- ===== src/Perf.antt =====
-- src/ws_impl/workspace.cc: `aggregate_stats` and what `update_stats` computes, over the `perf_stats`
-- of src/util/net_stats.h, in the build without OneStage. A `double` is known by the operations that
-- the code makes on it. The protocol in which `update_stats` is called is in `Measure`.
pub mod Kinds
pub mod Extremes
mod Examples
use axio_emulator.Prelude.{
  ℕ, zero, suc, ◌+◌, ◌%◌, ◌^◌, List, [], ◌∷◌, Bool, true, false, not, ltb, ◌==◌, if◌then◌else◌,
}
use axio_emulator.Stats.{NetStats, Durations, max_u64}
use axio_emulator.Roce.{Node, client, server}

-- The operations on `double`: conversions from and to whole numbers, arithmetic and `<`.
pub record Double (D : Type 0) : Type 0 where
  pub of_num : ℕ → D
  pub round_num : D → ℕ
  pub add : D → D → D
  pub mul : D → D → D
  pub div : D → D → D
  pub lt : D → D → Bool

-- `x_`, `x_max_`, `x_min_` and `x_avg_`, for each `x` of `app_tx_compl`, `app_tx_stall`,
-- `app_rx_compl` and `app_rx_stall`.
pub record Latency (D : Type 0) : Type 0 where
  pub total : D
  pub max : D
  pub min : D
  pub avg : D

pub record PerfStats (D : Type 0) : Type 0 where
  pub e2e_throughput : D
  pub e2e_compl : D
  pub app_tx_throughput : D
  pub app_rx_throughput : D
  pub app_tx_compl : Latency D
  pub app_tx_stall : Latency D
  pub app_rx_compl : Latency D
  pub app_rx_stall : Latency D
  pub disp_tx_throughput : D
  pub disp_rx_throughput : D
  pub disp_tx_compl : D
  pub disp_tx_stall : D
  pub disp_rx_compl : D
  pub disp_rx_stall : D
  pub disp_mbuf_usage : D
  pub nic_tx_throughput : D
  pub nic_rx_throughput : D
  pub nic_tx_compl : D
  pub nic_rx_compl : D

-- What is read of a workspace. `nic_rx_cpt` is the counter of `stats_` that is a `double`.
pub record Ws (D : Type 0) : Type 0 where
  pub stats : NetStats
  pub nic_rx_cpt : D
  pub freq : D
  pub is_worker : Bool
  pub is_dispatcher : Bool

-- `Dispatcher::kMemPoolSize`.
abbrev pub mem_pool_size : ℕ
mem_pool_size = 8192

-- A counter as a condition.
abbrev pub counted : ℕ → Bool
counted n = not (n == 0)

module _ {D : Type 0} ⦃d : Double D⦄ where
  -- `to_usec` (src/util/timer.h).
  abbrev pub to_usec : ℕ → D → D
  to_usec cycles freq = d.div (d.of_num cycles) (d.mul freq (d.of_num 1000))

  -- The time for each of `n`.
  abbrev pub usec_per : ℕ → ℕ → D → D
  usec_per cycles n freq = d.div (to_usec cycles freq) (d.of_num n)

  abbrev pub throughput : ℕ → ℕ → D
  throughput num duration = d.div (d.div (d.of_num num) (d.of_num 1000000)) (d.of_num duration)

  -- One of the four blocks for the applications.
  abbrev pub add_latency : D → ℕ → ℕ → Durations → Latency D → Latency D
  add_latency freq msg_num invoke_times t l =
      let self_max = to_usec t.max_duration freq in
      let self_min = to_usec t.min_duration freq in
      record {
        total = d.add l.total (usec_per t.avg_duration msg_num freq);
        max = if d.lt l.max self_max then self_max else l.max;
        min = if d.lt self_min l.min then self_min else l.min;
        avg = d.add l.avg (usec_per t.avg_duration invoke_times freq);
      }

  -- `self_nic_rx_compl` and `self_nic_rx_tp`.
  abbrev pub nic_rx_usec : Ws D → D
  nic_rx_usec w = usec_per (d.round_num w.nic_rx_cpt) w.stats.nic_rx_times w.freq

  abbrev pub nic_rx_tp : Ws D → D
  nic_rx_tp w =
      if counted w.stats.nic_rx_times then d.div (d.of_num 1) (nic_rx_usec w) else d.of_num 0

  abbrev pub mbuf_usage_of : NetStats → D
  mbuf_usage_of s =
      if ltb 0 s.mbuf_alloc_times
      then d.div (d.div (d.of_num s.mbuf_usage) (d.of_num s.mbuf_alloc_times))
          (d.of_num mem_pool_size)
      else d.of_num 0

  unfoldable pub aggregate_stats : ℕ → Ws D → PerfStats D → PerfStats D
  aggregate_stats duration w g =
      let s = w.stats in
      let tx = add_latency w.freq s.app_tx_msg_num s.app_tx_invoke_times in
      let rx = add_latency w.freq s.app_rx_msg_num s.app_rx_invoke_times in
      record g {
        app_tx_compl =
            if counted s.app_tx_msg_num then tx s.app_tx g.app_tx_compl else g.app_tx_compl;
        app_tx_stall =
            if counted s.app_tx_msg_num then tx s.app_tx_stall g.app_tx_stall else g.app_tx_stall;
        app_rx_compl =
            if counted s.app_rx_msg_num then rx s.app_rx g.app_rx_compl else g.app_rx_compl;
        app_rx_stall =
            if counted s.app_rx_msg_num then rx s.app_rx_stall g.app_rx_stall else g.app_rx_stall;
        disp_tx_compl =
            if counted s.disp_tx_pkt_num
            then d.add g.disp_tx_compl (usec_per s.disp_tx_duration s.disp_tx_pkt_num w.freq)
            else g.disp_tx_compl;
        disp_tx_stall =
            if counted s.disp_tx_pkt_num
            then d.add g.disp_tx_stall (usec_per s.disp_tx_stall_duration s.disp_tx_pkt_num w.freq)
            else g.disp_tx_stall;
        disp_rx_compl =
            if counted s.disp_rx_pkt_num
            then d.add g.disp_rx_compl (usec_per s.disp_rx_duration s.disp_rx_pkt_num w.freq)
            else g.disp_rx_compl;
        disp_rx_stall =
            if counted s.disp_rx_pkt_num
            then d.add g.disp_rx_stall (usec_per s.disp_rx_stall_duration s.disp_rx_pkt_num w.freq)
            else g.disp_rx_stall;
        nic_tx_compl =
            if counted s.nic_tx_pkt_num
            then d.add g.nic_tx_compl (usec_per s.disp_tx_stall_duration s.nic_tx_pkt_num w.freq)
            else g.nic_tx_compl;
        nic_rx_compl =
            if counted s.nic_rx_times then d.add g.nic_rx_compl (nic_rx_usec w) else g.nic_rx_compl;
        app_tx_throughput = d.add g.app_tx_throughput (throughput s.app_tx_msg_num duration);
        app_rx_throughput = d.add g.app_rx_throughput (throughput s.app_rx_msg_num duration);
        disp_tx_throughput = d.add g.disp_tx_throughput (throughput s.disp_tx_pkt_num duration);
        disp_rx_throughput = d.add g.disp_rx_throughput (throughput s.disp_rx_pkt_num duration);
        nic_tx_throughput = d.add g.nic_tx_throughput (throughput s.nic_tx_pkt_num duration);
        nic_rx_throughput = d.add g.nic_rx_throughput (nic_rx_tp w);
        disp_mbuf_usage = d.add g.disp_mbuf_usage (mbuf_usage_of s);
      }

  -- The loop of `update_stats` over the active workspaces.
  unfoldable pub aggregate_all : ℕ → List (Ws D) → PerfStats D → PerfStats D
  aggregate_all duration [] g = g
  aggregate_all duration (w ∷ ws) g = aggregate_all duration ws (aggregate_stats duration w g)

  -- `worker_num` and `dispatcher_num`, which are 8 bits wide.
  unfoldable pub worker_num : List (Ws D) → ℕ
  worker_num [] = 0
  worker_num (w ∷ ws) = let rest = worker_num ws in if w.is_worker then (rest + 1) % 2 ^ 8 else rest

  unfoldable pub dispatcher_num : List (Ws D) → ℕ
  dispatcher_num [] = 0
  dispatcher_num (w ∷ ws) =
      let rest = dispatcher_num ws in if w.is_dispatcher then (rest + 1) % 2 ^ 8 else rest

  abbrev pub mean_latency : ℕ → Latency D → Latency D
  mean_latency n l = record l { total = d.div l.total (d.of_num n); avg = d.div l.avg (d.of_num n) }

  unfoldable pub average : ℕ → ℕ → PerfStats D → PerfStats D
  average workers dispatchers g = record g {
    app_tx_compl = mean_latency workers g.app_tx_compl;
    app_tx_stall = mean_latency workers g.app_tx_stall;
    app_rx_compl = mean_latency workers g.app_rx_compl;
    app_rx_stall = mean_latency workers g.app_rx_stall;
    disp_tx_compl = d.div g.disp_tx_compl (d.of_num dispatchers);
    disp_tx_stall = d.div g.disp_tx_stall (d.of_num dispatchers);
    disp_rx_compl = d.div g.disp_rx_compl (d.of_num dispatchers);
    disp_rx_stall = d.div g.disp_rx_stall (d.of_num dispatchers);
    nic_tx_compl = d.div g.nic_tx_compl (d.of_num dispatchers);
    nic_rx_compl = d.div g.nic_rx_compl (d.of_num dispatchers);
    disp_mbuf_usage = d.div g.disp_mbuf_usage (d.of_num dispatchers);
  }

  -- `update_stats` of the first workspace that is done, for the active workspaces.
  unfoldable pub collect_stats : ℕ → List (Ws D) → PerfStats D → PerfStats D
  collect_stats duration ws g =
      average (worker_num ws) (dispatcher_num ws) (aggregate_all duration ws g)

  abbrev pub no_latency : Latency D
  no_latency = record {
    total = d.of_num 0;
    max = d.of_num 0;
    min = d.of_num max_u64;
    avg = d.of_num 0;
  }

  -- `perf_stats_init`.
  unfoldable pub perf_stats_init : PerfStats D
  perf_stats_init =
      let zero_num = d.of_num 0 in
      record {
        e2e_throughput = zero_num;
        e2e_compl = zero_num;
        app_tx_throughput = zero_num;
        app_rx_throughput = zero_num;
        app_tx_compl = no_latency;
        app_tx_stall = no_latency;
        app_rx_compl = no_latency;
        app_rx_stall = no_latency;
        disp_tx_throughput = zero_num;
        disp_rx_throughput = zero_num;
        disp_tx_compl = zero_num;
        disp_tx_stall = zero_num;
        disp_rx_compl = zero_num;
        disp_rx_stall = zero_num;
        disp_mbuf_usage = zero_num;
        nic_tx_throughput = zero_num;
        nic_rx_throughput = zero_num;
        nic_tx_compl = zero_num;
        nic_rx_compl = zero_num;
      }

  -- What `print_perf_stats` changes before it prints.
  abbrev pub check_min : Latency D → Latency D
  check_min l = record l { min = if d.lt l.max l.min then d.of_num 9999 else l.min }

  abbrev pub e2e_of : Node → PerfStats D → D
  e2e_of server g = g.disp_tx_throughput
  e2e_of client g = g.disp_rx_throughput

  unfoldable pub checked : Node → PerfStats D → PerfStats D
  checked node g = record g {
    app_tx_stall = check_min g.app_tx_stall;
    app_rx_stall = check_min g.app_rx_stall;
    app_tx_compl = check_min g.app_tx_compl;
    app_rx_compl = check_min g.app_rx_compl;
    e2e_throughput = e2e_of node g;
    e2e_compl = d.div (d.of_num 1) (e2e_of node g);
  }

  -- What an iteration prints.
  unfoldable pub report : Node → ℕ → List (Ws D) → PerfStats D
  report node duration ws = checked node (collect_stats duration ws perf_stats_init)
