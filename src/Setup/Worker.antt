-- ===== src/Setup/Worker.antt =====
-- The constructor of `Workspace`: the checks of the parameters, and what a worker reads from the
-- configuration.
use axio_emulator.Prelude.{
  ℕ, zero, suc, ◌*◌, ◌≤◌, ◌<◌, ◌≡◌, refl, sym, ap, ◌∙◌, List, [], ◌∷◌, ◌++◌, Bool, true, false,
  ◌&&◌, Option, none, some, length, get_elem?, ltb, leb, ◌==◌, if◌then◌else◌, arith,
}
use mathlib.Core.List.{append_assoc, append-nil}
use axio_emulator.Queue.{ws_queue_size}
use axio_emulator.Rules.{RuleTable, infly_message_budget, add_route}
use axio_emulator.Config.Workload.{Workloads}
use axio_emulator.Config.Assign.{IsGrouped}

-- The constants of the build that the checks use: `kInvaildWorkspaceType`, `kAppRequestPktsNum` and
-- `kAppReponsePktsNum`.
pub record Build : Type 0 where
  pub invalid_workspace_type : ℕ
  pub request_pkts_num : ℕ
  pub response_pkts_num : ℕ

-- The arguments of the constructor and the tunable parameters.
pub record Settings : Type 0 where
  pub ws_type : ℕ
  pub phy_port : ℕ
  pub numa_node : ℕ
  pub app_core_num : ℕ
  pub app_tx_msg_batch_size : ℕ
  pub app_rx_msg_batch_size : ℕ

-- `kMaxPhyPorts`, `kMaxNumaNodes`, `kWorkspaceMaxNum`, `kMaxBatchSize` and `kMemPoolSize`.
abbrev pub mem_pool_size : ℕ
mem_pool_size = 8192

abbrev pub max_batch_size : ℕ
max_batch_size = 512

-- The checks, in order, of a workspace that is used.
unfoldable pub check_params : Build → Settings → Bool
check_params b s =
    not_equal s.ws_type b.invalid_workspace_type
    && ltb s.phy_port 2
    && ltb s.numa_node 2
    && leb s.app_core_num 16
    && leb s.app_tx_msg_batch_size max_batch_size
    && leb s.app_rx_msg_batch_size max_batch_size
    && leb s.app_tx_msg_batch_size infly_message_budget
    && leb s.app_rx_msg_batch_size infly_message_budget
    && leb s.app_tx_msg_batch_size ws_queue_size
    && leb s.app_rx_msg_batch_size ws_queue_size
    && leb (s.app_tx_msg_batch_size * b.request_pkts_num) mem_pool_size
    && leb (s.app_rx_msg_batch_size * b.response_pkts_num) mem_pool_size
  where
    not_equal : ℕ → ℕ → Bool
    not_equal x y = if x == y then false else true

abbrev pub or_zero : Option ℕ → ℕ
or_zero none = 0
or_zero (some n) = n

-- `add_route` of each remote dispatcher.
unfoldable pub add_routes : ℕ → List ℕ → RuleTable → RuleTable
add_routes type [] r = r
add_routes type (id ∷ ids) r = add_routes type ids (add_route r type id)

abbrev pub worker_of : ℕ → RuleTable → Option ℕ → Option (ℕ × ℕ × RuleTable)
worker_of type table none = none
worker_of type table (some dispatcher) = some (type, dispatcher, table)

-- Phase 1 of a worker: its workload, its dispatcher and its transmit routes. `none` is the access
-- past the end of the dispatchers of the workload.
unfoldable pub init_worker : Workloads → ℕ → RuleTable → Option (ℕ × ℕ × RuleTable)
init_worker w ws_id table =
    let type = or_zero (w.ws_id_workload ws_id) in
    let group_idx = or_zero (w.ws_id_group_idx ws_id) in
    worker_of type (add_routes type (w.remote_dispatcher type) table)
      (get_elem? (w.dispatcher type) group_idx)

add_routes-table :
    (type : ℕ) (ids : List ℕ) (r : RuleTable)
    → (add_routes type ids r).table type ≡ r.table type ++ ids
unfolding add_routes add_route
add_routes-table type [] r = sym (append-nil (r.table type))
add_routes-table type (id ∷ ids) r =
    let one : (add_route r type id).table type ≡ r.table type ++ (id ∷ []) = ground arith in
    add_routes-table type ids (add_route r type id)
    ∙ ap (λ xs. xs ++ ids) one
    ∙ append_assoc (r.table type) (id ∷ []) ids

get_elem?-in : (xs : List ℕ) (i : ℕ) → i < length xs → (x : ℕ) × (get_elem? xs i ≡ some x)
get_elem?-in [] i lt = absurd (omega arith)
get_elem?-in (x ∷ xs) zero lt = (x, refl)
get_elem?-in (x ∷ xs) (suc i) lt = get_elem?-in xs i (omega arith)

-- With a configuration whose groups agree with its maps, and a dispatcher for each group, a worker
-- of a workload gets the dispatcher of its own group, without an access out of bounds, and a route
-- to each remote dispatcher of the workload, in order.
pub init_worker-lem :
    (w : Workloads) (ws_id type : ℕ) (table : RuleTable)
    → IsGrouped w
    → w.ws_id_workload ws_id ≡ some type
    → length (w.appws type) ≤ length (w.dispatcher type)
    → (group : ℕ) × (dispatcher : ℕ) × (out : RuleTable) × (init_worker w ws_id table
        ≡ some (type, dispatcher, out))
      × (get_elem? (w.dispatcher type) group ≡ some dispatcher)
      × (group < length (w.appws type))
      × (w.ws_id_group_idx ws_id ≡ some group)
      × (out.table type ≡ table.table type ++ w.remote_dispatcher type)
unfolding IsGrouped init_worker
init_worker-lem w ws_id type table v has le =
    let r = v ws_id type has in
    let (d, found) = get_elem?-in (w.dispatcher type) r.idx (omega (arith, r.in_range, le)) in
    (
      r.idx,
      d,
      add_routes type (w.remote_dispatcher type) table,
      rw (has, r.in_map, found) refl,
      found,
      r.in_range,
      r.in_map,
      add_routes-table type (w.remote_dispatcher type) table,
    )

-- Parameters that pass the checks: a batch fits in a queue with a slot to spare and in the budget,
-- and its packets fit in the memory pool.
pub check_params-fits :
    (b : Build) (s : Settings)
    → check_params b s ≡ true
    → (s.app_tx_msg_batch_size < ws_queue_size)
      × (s.app_rx_msg_batch_size < ws_queue_size)
      × (s.app_tx_msg_batch_size ≤ infly_message_budget)
      × (s.app_tx_msg_batch_size * b.request_pkts_num ≤ mem_pool_size)
      × (s.app_rx_msg_batch_size * b.response_pkts_num ≤ mem_pool_size)
unfolding check_params
check_params-fits b s e =
    (ground (arith, e), ground (arith, e), ground (arith, e), ground (arith, e), ground (arith, e))
