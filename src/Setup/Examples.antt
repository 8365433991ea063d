-- ===== src/Setup/Examples.antt =====
-- A dispatcher, workspace 4, and two workers with workloads 1 and 2.
use axio_emulator.Prelude.{
  ℕ, ◌+◌, ◌≡◌, ◌<◌, refl, List, [], ◌∷◌, some, none, get_elem?, ◌==◌, if◌then◌else◌, Bool-cases,
  inl, inr, arith,
}
use axio_emulator.Rules.{RuleTable}
use axio_emulator.Setup.{Member, Wiring}
use axio_emulator.Setup.Worker.{init_worker, init_worker-lem}
use axio_emulator.Config.Workload.{Workloads}
use axio_emulator.Config.Assign.{IsGrouped}

abbrev worker : ℕ → ℕ → Member
worker id workload = record {
  ws_id = id;
  ws_type = 2;
  workload_type = workload;
  dispatcher_ws_id = 4;
  tx_queue = 100 + id;
  rx_queue = 200 + id;
  mem_reg = 0;
}

abbrev dispatcher4 : Member
dispatcher4 = record {
  ws_id = 4;
  ws_type = 1;
  workload_type = 0;
  dispatcher_ws_id = 0;
  tx_queue = 0;
  rx_queue = 0;
  mem_reg = 300;
}

abbrev members : List Member
members = worker 0 1 ∷ dispatcher4 ∷ worker 1 2 ∷ []

abbrev no_rules : RuleTable
no_rules = record { table = λ t. []; infly_budget = λ t. none; select_idx = 0 }

abbrev unwired : Wiring
unwired = record { ws_tx_queues = []; ws_rx_queues = λ i. 0; rx_rule_table = no_rules }

-- Workspace 3 is in group 1 of workload 1, whose dispatchers are 5 and 6.
abbrev configured : Workloads
configured = record {
  pipephase = λ t. [];
  appws = λ t. (2 ∷ []) ∷ (3 ∷ []) ∷ [];
  dispatcher = λ t. 5 ∷ 6 ∷ [];
  remote_dispatcher = λ t. 9 ∷ [];
  ws_id_workload = λ id. if id == 3 then some 1 else none;
  ws_id_group_idx = λ id. some 1;
}

configured-IsGrouped : IsGrouped configured
unfolding IsGrouped
configured-IsGrouped = λ id type e. elim (Bool-cases (id == 3)) [
  | inl is ↦
      let same : id ≡ 3 = ground arith in
      rw same (record { idx = 1; in_map = refl; in_range = omega arith; in_group = omega arith })
  | inr other ↦ absurd (ground (arith, e, other))
]

init_worker_example :
    (group : ℕ) × (dispatcher : ℕ) × (out : RuleTable) × (init_worker configured 3 no_rules
      ≡ some (1, dispatcher, out))
    × (get_elem? (5 ∷ 6 ∷ []) group ≡ some dispatcher)
    × (group < 2)
    × (some 1 ≡ some group)
    × (out.table 1 ≡ 9 ∷ [])
init_worker_example =
    init_worker-lem configured 3 1 no_rules configured-IsGrouped refl (omega arith)
