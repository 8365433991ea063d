-- ===== src/Stats.antt =====
-- src/util/net_stats.h: the counters of a workspace, all 64 bits wide. A macro that takes the tick of
-- the start is given the duration `rdtsc() - n` as well; the macros are those of the build with
-- PERF_TEST_LAT, PERF_TEST_LAT_MIN_MAX and PERT_TEST_MBUF_RANGE.
pub mod Extremes
pub mod Reuse
mod Examples
use axio_emulator.Prelude.{ℕ, ◌+◌, ◌-◌, ◌%◌, ◌^◌, Bool, true, false, ltb, ◌==◌, if◌then◌else◌}

-- The sum, the maximum and the minimum of a kind of duration: `app_tx_avg_duration`,
-- `app_tx_max_duration`, `app_tx_min_duration`, and the same for `app_tx_stall`, `app_rx` and
-- `app_rx_stall`.
pub record Durations : Type 0 where
  pub avg_duration : ℕ
  pub max_duration : ℕ
  pub min_duration : ℕ

pub record NetStats : Type 0 where
  pub app_tx_msg_num : ℕ
  pub app_rx_msg_num : ℕ
  pub app_tx_invoke_times : ℕ
  pub app_tx : Durations
  pub app_tx_stall : Durations
  pub app_tx_mbuf_trace_addr : ℕ
  pub app_tx_mbuf_reuse_tmp_interval : ℕ
  pub app_tx_mbuf_reuse_interval : ℕ
  pub app_tx_nb_traced_mbuf : ℕ
  pub app_rx_invoke_times : ℕ
  pub app_rx : Durations
  pub app_rx_stall : Durations
  pub disp_tx_pkt_num : ℕ
  pub disp_rx_pkt_num : ℕ
  pub disp_tx_duration : ℕ
  pub disp_tx_stall_duration : ℕ
  pub disp_rx_duration : ℕ
  pub disp_rx_stall_duration : ℕ
  pub nic_tx_pkt_num : ℕ
  pub nic_rx_pkt_num : ℕ
  pub nic_rx_duration : ℕ
  pub nic_rx_times : ℕ
  pub app_apply_mbuf_stalls : ℕ
  pub app_enqueue_drops : ℕ
  pub mbuf_alloc_times : ℕ
  pub mbuf_usage : ℕ
  pub disp_enqueue_drops : ℕ

abbrev pub max_u64 : ℕ
max_u64 = 2 ^ 64 - 1

abbrev pub add64 : ℕ → ℕ → ℕ
add64 a b = (a + b) % 2 ^ 64

-- A difference of two ticks or counters.
abbrev pub sub64 : ℕ → ℕ → ℕ
sub64 a b = (2 ^ 64 + a - b) % 2 ^ 64

unfoldable pub no_durations : Durations
no_durations = record { avg_duration = 0; max_duration = 0; min_duration = max_u64 }

-- `net_stats_init`.
unfoldable pub init : NetStats
init = record {
  app_tx_msg_num = 0;
  app_rx_msg_num = 0;
  app_tx_invoke_times = 0;
  app_tx = no_durations;
  app_tx_stall = no_durations;
  app_tx_mbuf_trace_addr = 0;
  app_tx_mbuf_reuse_tmp_interval = 0;
  app_tx_mbuf_reuse_interval = 0;
  app_tx_nb_traced_mbuf = 0;
  app_rx_invoke_times = 0;
  app_rx = no_durations;
  app_rx_stall = no_durations;
  disp_tx_pkt_num = 0;
  disp_rx_pkt_num = 0;
  disp_tx_duration = 0;
  disp_tx_stall_duration = 0;
  disp_rx_duration = 0;
  disp_rx_stall_duration = 0;
  nic_tx_pkt_num = 0;
  nic_rx_pkt_num = 0;
  nic_rx_duration = 0;
  nic_rx_times = 0;
  app_apply_mbuf_stalls = 0;
  app_enqueue_drops = 0;
  mbuf_alloc_times = 0;
  mbuf_usage = 0;
  disp_enqueue_drops = 0;
}

-- What each of the four macros does to its sum, maximum and minimum.
unfoldable pub add_duration : ℕ → Durations → Durations
add_duration tick d = record {
  avg_duration = add64 d.avg_duration tick;
  max_duration = if ltb d.max_duration tick then tick else d.max_duration;
  min_duration = if ltb tick d.min_duration then tick else d.min_duration;
}

unfoldable pub app_tx_duration : ℕ → NetStats → NetStats
app_tx_duration tick s = record s {
  app_tx_invoke_times = add64 s.app_tx_invoke_times 1;
  app_tx = add_duration tick s.app_tx;
}

unfoldable pub app_tx_stall_duration : ℕ → NetStats → NetStats
app_tx_stall_duration tick s = record s { app_tx_stall = add_duration tick s.app_tx_stall }

unfoldable pub app_rx_duration : ℕ → NetStats → NetStats
app_rx_duration tick s = record s {
  app_rx_invoke_times = add64 s.app_rx_invoke_times 1;
  app_rx = add_duration tick s.app_rx;
}

unfoldable pub app_rx_stall_duration : ℕ → NetStats → NetStats
app_rx_stall_duration tick s = record s { app_rx_stall = add_duration tick s.app_rx_stall }

unfoldable pub app_tx : ℕ → NetStats → NetStats
app_tx n s = record s { app_tx_msg_num = add64 s.app_tx_msg_num n }

unfoldable pub app_rx : ℕ → NetStats → NetStats
app_rx n s = record s { app_rx_msg_num = add64 s.app_rx_msg_num n }

-- `net_stats_disp_tx` with `net_stats_disp_tx_duration`, and the same for `disp_rx`.
unfoldable pub disp_tx : ℕ → ℕ → NetStats → NetStats
disp_tx n tick s = record s {
  disp_tx_pkt_num = add64 s.disp_tx_pkt_num n;
  disp_tx_duration = add64 s.disp_tx_duration tick;
}

unfoldable pub disp_rx : ℕ → ℕ → NetStats → NetStats
disp_rx n tick s = record s {
  disp_rx_pkt_num = add64 s.disp_rx_pkt_num n;
  disp_rx_duration = add64 s.disp_rx_duration tick;
}

unfoldable pub disp_rx_stall_duration : ℕ → NetStats → NetStats
disp_rx_stall_duration tick s = record s {
  disp_rx_stall_duration = add64 s.disp_rx_stall_duration tick;
}

-- `net_stats_nic_tx` with `net_stats_disp_tx_stall_duration`.
unfoldable pub nic_tx : ℕ → ℕ → NetStats → NetStats
nic_tx n tick s = record s {
  nic_tx_pkt_num = add64 s.nic_tx_pkt_num n;
  disp_tx_stall_duration = add64 s.disp_tx_stall_duration tick;
}

-- `net_stats_nic_rx` with `net_stats_nic_rx_duration`, and the count of `net_stats_nic_rx_cpt`.
unfoldable pub nic_rx : ℕ → ℕ → ℕ → ℕ → NetStats → NetStats
nic_rx desc prev_desc tick prev_tick s = record s {
  nic_rx_pkt_num = add64 s.nic_rx_pkt_num (sub64 desc prev_desc);
  nic_rx_duration = add64 s.nic_rx_duration (sub64 tick prev_tick);
  nic_rx_times = add64 s.nic_rx_times 1;
}

unfoldable pub apply_mbuf_stalls : NetStats → NetStats
apply_mbuf_stalls s = record s { app_apply_mbuf_stalls = add64 s.app_apply_mbuf_stalls 1 }

unfoldable pub app_drops : ℕ → NetStats → NetStats
app_drops n s = record s { app_enqueue_drops = add64 s.app_enqueue_drops n }

-- `mbuf_alloc_times` is a `uint32_t`.
unfoldable pub add_mbuf_usage : ℕ → NetStats → NetStats
add_mbuf_usage n s = record s {
  mbuf_alloc_times = (s.mbuf_alloc_times + 1) % 2 ^ 32;
  mbuf_usage = add64 s.mbuf_usage n;
}

unfoldable pub enqueue_drops : ℕ → NetStats → NetStats
enqueue_drops n s = record s { disp_enqueue_drops = add64 s.disp_enqueue_drops n }

-- `net_stats_app_tx_mbuf_reuse_interval`: with no mbuf followed, this one is from now on; otherwise
-- the others are counted until it comes again.
unfoldable pub mbuf_reuse_interval : ℕ → NetStats → NetStats
mbuf_reuse_interval mbuf_addr s =
    if s.app_tx_mbuf_trace_addr == 0
    then record s {
      app_tx_mbuf_trace_addr = mbuf_addr;
      app_tx_nb_traced_mbuf = add64 s.app_tx_nb_traced_mbuf 1;
    }
    else if mbuf_addr == s.app_tx_mbuf_trace_addr
    then record s {
      app_tx_mbuf_reuse_interval =
          add64 s.app_tx_mbuf_reuse_interval s.app_tx_mbuf_reuse_tmp_interval;
      app_tx_mbuf_trace_addr = 0;
      app_tx_mbuf_reuse_tmp_interval = 0;
    }
    else record s { app_tx_mbuf_reuse_tmp_interval = add64 s.app_tx_mbuf_reuse_tmp_interval 1 }
