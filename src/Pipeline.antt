-- ===== src/Pipeline.antt =====
-- src/datapath_pipeline.h, in the build without OneStage: from the configured workloads to the loop
-- that each workspace runs. A `std::map` is the list of its entries in the order of its keys; a
-- `phase_t` is one of the seven member functions of `Workspace` that are used.
pub mod Loop
pub mod Build
mod Examples
use axio_emulator.Prelude.{
  ℕ, zero, suc, List, [], ◌∷◌, ◌++◌, Bool, true, false, ◌||◌, Option, none, some, get_or, ltb, ◌==◌,
  if◌then◌else◌,
}

pub data Func : Type 0 where
  apply_mbufs generate_pkts bursted_tx nic_tx app_handler nic_rx bursted_rx : Func

pub data PhaseType : Type 0 where
  tx_nic tx_dispatcher tx_application rx_nic rx_dispatcher rx_application : PhaseType

-- The strings that the configuration names the phases by.
pub data PhaseName : Type 0 where
  named : PhaseType → PhaseName
  unknown : ℕ → PhaseName

pub record PipePhase : Type 0 where
  pub phase_type : PhaseType
  pub launch_wss : List ℕ
  pub loop : List Func

pub record WorkloadPipe : Type 0 where
  pub workload_type : ℕ
  pub pipeline : List PipePhase

-- `ws_type`, bit by bit: WORKER, DISPATCHER, NIC_OFFLOAD.
pub record WsType : Type 0 where
  pub worker : Bool
  pub dispatcher : Bool
  pub nic_offload : Bool

abbrev pub invalid_workload_type : ℕ
invalid_workload_type = 17

-- `==` on the member functions.
pub func_id : Func → ℕ
func_id apply_mbufs = 0
func_id generate_pkts = 1
func_id bursted_tx = 2
func_id nic_tx = 3
func_id app_handler = 4
func_id nic_rx = 5
func_id bursted_rx = 6

abbrev pub same_func : Func → Func → Bool
same_func f g = func_id f == func_id g

-- `name_phase_type_map_[phase_name]`: a name that is not there gets the value 0, kTxNICType.
pub phase_of : PhaseName → PhaseType
phase_of (named t) = t
phase_of (unknown n) = tx_nic

-- `phase_loop_map_`.
pub phase_loop : PhaseType → List Func
phase_loop tx_application = apply_mbufs ∷ generate_pkts ∷ []
phase_loop tx_dispatcher = bursted_tx ∷ nic_tx ∷ []
phase_loop tx_nic = []
phase_loop rx_nic = []
phase_loop rx_application = app_handler ∷ []
phase_loop rx_dispatcher = nic_rx ∷ bursted_rx ∷ []

-- `check_ws_id`.
pub contains : List ℕ → ℕ → Bool
contains [] ws_id = false
contains (ws ∷ wss) ws_id = if ws == ws_id then true else contains wss ws_id

abbrev pub check_ws_id : PipePhase → ℕ → Bool
check_ws_id p ws_id = contains p.launch_wss ws_id

-- `workload_pipe_map_.count(workload_type) > 0`.
pub has_workload : List WorkloadPipe → ℕ → Bool
has_workload [] t = false
has_workload (w ∷ ws) t = if w.workload_type == t then true else has_workload ws t

-- `workload_pipe_map_.insert`, for a key that is not there.
pub insert : List WorkloadPipe → WorkloadPipe → List WorkloadPipe
insert [] w = w ∷ []
insert (x ∷ xs) w = if ltb w.workload_type x.workload_type then w ∷ x ∷ xs else x ∷ insert xs w

pub new_workload : List WorkloadPipe → ℕ → List WorkloadPipe
new_workload ws t =
    if has_workload ws t then ws else insert ws (record { workload_type = t; pipeline = [] })

-- `workload_pipe_map_[workload_type]->pipeline_.push_back(pipe_phase)`.
pub push_phase : List WorkloadPipe → ℕ → PipePhase → List WorkloadPipe
push_phase [] t p = []
push_phase (w ∷ ws) t p =
    if w.workload_type == t
    then record w { pipeline = w.pipeline ++ (p ∷ []) } ∷ ws
    else w ∷ push_phase ws t p

-- The three overloads of `new_pipe_phase`: with the workspaces of a dispatcher group, with those of
-- the groups of an application (`flatten`), and with none.
pub new_pipe_phase : List WorkloadPipe → ℕ → PhaseType → List ℕ → List WorkloadPipe
new_pipe_phase ws t phase_type ws_group =
    if has_workload ws t
    then push_phase ws t
        (record { phase_type = phase_type; launch_wss = ws_group; loop = phase_loop phase_type })
    else ws

pub flatten : List (List ℕ) → List ℕ
flatten [] = []
flatten (xs ∷ xss) = xs ++ flatten xss

-- One entry of the three maps of `workloads_config`, which config.cc fills together.
pub record WorkloadConfig : Type 0 where
  pub workload_type : ℕ
  pub phases : List PhaseName
  pub app_ws_group : List (List ℕ)
  pub dispatcher_group : List ℕ

-- The branches of the constructor's inner loop.
pub ws_group : WorkloadConfig → PhaseType → List ℕ
ws_group c tx_application = flatten c.app_ws_group
ws_group c rx_application = flatten c.app_ws_group
ws_group c tx_dispatcher = c.dispatcher_group
ws_group c rx_dispatcher = c.dispatcher_group
ws_group c tx_nic = []
ws_group c rx_nic = []

pub add_phases : WorkloadConfig → List PhaseName → List WorkloadPipe → List WorkloadPipe
add_phases c [] ws = ws
add_phases c (n ∷ ns) ws =
    add_phases c ns (new_pipe_phase ws c.workload_type (phase_of n) (ws_group c (phase_of n)))

-- The constructor.
pub build : List WorkloadConfig → List WorkloadPipe → List WorkloadPipe
build [] ws = ws
build (c ∷ cs) ws = build cs (add_phases c c.phases (new_workload ws c.workload_type))

-- `std::find`, and the loop that adds the functions of a phase.
pub mem : Func → List Func → Bool
mem f [] = false
mem f (g ∷ gs) = if same_func g f then true else mem f gs

pub add_funcs : List Func → List Func → List Func
add_funcs ws_loop [] = ws_loop
add_funcs ws_loop (f ∷ fs) = add_funcs (if mem f ws_loop then ws_loop else ws_loop ++ (f ∷ [])) fs

-- `ws_type |= ...`.
pub add_type : WsType → PhaseType → WsType
add_type t tx_application = record t { worker = true }
add_type t rx_application = record t { worker = true }
add_type t tx_dispatcher = record t { dispatcher = true }
add_type t rx_dispatcher = record t { dispatcher = true }
add_type t tx_nic = record t { nic_offload = true }
add_type t rx_nic = record t { nic_offload = true }

pub visit_phases : ℕ → List PipePhase → WsType × List Func → WsType × List Func
visit_phases ws_id [] (t, l) = (t, l)
visit_phases ws_id (p ∷ ps) (t, l) =
    visit_phases ws_id ps
      (if check_ws_id p ws_id then (add_type t p.phase_type, add_funcs l p.loop) else (t, l))

pub visit_pipes : ℕ → List WorkloadPipe → WsType × List Func → WsType × List Func
visit_pipes ws_id [] s = s
visit_pipes ws_id (w ∷ ws) s = visit_pipes ws_id ws (visit_phases ws_id w.pipeline s)

pub generate_ws_loop : List WorkloadPipe → ℕ → List Func → WsType × List Func
generate_ws_loop ws ws_id ws_loop =
    visit_pipes ws_id ws
      (record { worker = false; dispatcher = false; nic_offload = false }, ws_loop)

-- Does a phase of the pipeline run on the workspace?
pub runs_on : ℕ → List PipePhase → Bool
runs_on ws_id [] = false
runs_on ws_id (p ∷ ps) = if check_ws_id p ws_id then true else runs_on ws_id ps

pub get_workload_type : List WorkloadPipe → ℕ → ℕ
get_workload_type [] ws_id = invalid_workload_type
get_workload_type (w ∷ ws) ws_id =
    if runs_on ws_id w.pipeline then w.workload_type else get_workload_type ws ws_id
