-- ===== src/Pipeline/Examples.antt =====
-- A pipeline with two workloads: workspace 0 generates for both, workspace 1 dispatches.
use axio_emulator.Prelude.{◌≡◌, List, [], ◌∷◌, map, arith}
use axio_emulator.Pipeline.{
  WorkloadConfig, WorkloadPipe, named, tx_application, tx_dispatcher, rx_application, build,
}
use axio_emulator.Pipeline.Build.{one, more, pipe_for, build-pipe_for}

abbrev sender : WorkloadConfig
sender = record {
  workload_type = 1;
  phases = named tx_application ∷ named tx_dispatcher ∷ [];
  app_ws_group = (0 ∷ []) ∷ [];
  dispatcher_group = 1 ∷ [];
}

abbrev receiver : WorkloadConfig
receiver = record {
  workload_type = 2;
  phases = named rx_application ∷ named tx_application ∷ [];
  app_ws_group = (0 ∷ 2 ∷ []) ∷ [];
  dispatcher_group = 1 ∷ [];
}

build_example : build (sender ∷ receiver ∷ []) [] ≡ map pipe_for (sender ∷ receiver ∷ [])
build_example = build-pipe_for (sender ∷ receiver ∷ []) (more (omega arith) one)

abbrev pipes : List WorkloadPipe
pipes = build (sender ∷ receiver ∷ []) []
