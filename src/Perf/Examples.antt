-- ===== src/Perf/Examples.antt =====
-- The report of two workspaces, with whole numbers in place of `double`.
use axio_emulator.Prelude.{ℕ, ◌+◌, ◌*◌, ◌/◌, List, [], ◌∷◌, true, false, ltb, arith}
use axio_emulator.Stats.{init}
use axio_emulator.Roce.{client}
use axio_emulator.Perf.{Double, Ws, report}
use axio_emulator.Perf.Kinds.{app_rx_compl, latency}
use axio_emulator.Perf.Extremes.{IsOrder, IsSpanned, report-IsSpanned}

instance abbrev whole : Double ℕ
whole = record { of_num = λ n. n; round_num = λ x. x; add = ◌+◌; mul = ◌*◌; div = ◌/◌; lt = ltb }

whole-IsOrder : IsOrder ℕ
whole-IsOrder = record { irrefl = λ x. ground arith; trans = λ x y z p q. ground arith }

abbrev worker : ℕ → ℕ → Ws ℕ
worker most num = record {
  stats = record init {
    app_rx_msg_num = num;
    app_rx_invoke_times = 2;
    app_rx = record { avg_duration = 90000; max_duration = most; min_duration = 4000 };
  };
  nic_rx_cpt = 0;
  freq = 2;
  is_worker = true;
  is_dispatcher = false;
}

abbrev workers : List (Ws ℕ)
workers = worker 60000 10 ∷ worker 50000 5 ∷ worker 0 0 ∷ []

report-IsSpanned_example :
    IsSpanned app_rx_compl workers (latency app_rx_compl (report client 1 workers))
report-IsSpanned_example = report-IsSpanned whole-IsOrder client 1 app_rx_compl workers
