-- ===== src/Perf/Kinds.antt =====
-- The four latencies of a report, and what one workspace does to each.
use axio_emulator.Prelude.{ℕ, ◌≡◌, refl, if◌then◌else◌}
use axio_emulator.Stats.{NetStats, Durations}
use axio_emulator.Perf.{Double, add_latency, Latency, PerfStats, Ws, counted, aggregate_stats}

-- The four latencies of the applications.
pub data Kind : Type 0 where
  app_tx_compl app_tx_stall app_rx_compl app_rx_stall : Kind

abbrev pub msg_num : Kind → NetStats → ℕ
msg_num app_tx_compl s = s.app_tx_msg_num
msg_num app_tx_stall s = s.app_tx_msg_num
msg_num app_rx_compl s = s.app_rx_msg_num
msg_num app_rx_stall s = s.app_rx_msg_num

abbrev pub invoke_times : Kind → NetStats → ℕ
invoke_times app_tx_compl s = s.app_tx_invoke_times
invoke_times app_tx_stall s = s.app_tx_invoke_times
invoke_times app_rx_compl s = s.app_rx_invoke_times
invoke_times app_rx_stall s = s.app_rx_invoke_times

abbrev pub durations : Kind → NetStats → Durations
durations app_tx_compl s = s.app_tx
durations app_tx_stall s = s.app_tx_stall
durations app_rx_compl s = s.app_rx
durations app_rx_stall s = s.app_rx_stall

module _ {D : Type 0} ⦃d : Double D⦄ where
  abbrev pub latency : Kind → PerfStats D → Latency D
  latency app_tx_compl g = g.app_tx_compl
  latency app_tx_stall g = g.app_tx_stall
  latency app_rx_compl g = g.app_rx_compl
  latency app_rx_stall g = g.app_rx_stall

  abbrev pub with_latency : Kind → Ws D → Latency D → Latency D
  with_latency k w l =
      if counted (msg_num k w.stats)
      then add_latency w.freq (msg_num k w.stats) (invoke_times k w.stats) (durations k w.stats) l
      else l

  pub latency-aggregate_stats :
      (duration : ℕ) (k : Kind) (w : Ws D) (g : PerfStats D)
      → latency k (aggregate_stats duration w g) ≡ with_latency k w (latency k g)
  unfolding aggregate_stats
  latency-aggregate_stats duration app_tx_compl w g = refl
  latency-aggregate_stats duration _ w g = refl
