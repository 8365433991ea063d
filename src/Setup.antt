-- ===== src/Setup.antt =====
-- src/ws_impl/workspace.cc and workspace_context.h: how workspaces find each other. A pointer to a
-- queue or to the memory of a dispatcher is a number, and `nullptr` is 0; the workspaces register
-- one after the other, under the mutex of the context. The failure of `rt_assert` is `none`.
pub mod Worker
pub mod Registered
pub mod Steps
pub mod Wired
mod Examples
use axio_emulator.Prelude.{
  ℕ, zero, suc, ◌+◌, ◌/◌, ◌%◌, List, [], ◌∷◌, ◌++◌, Bool, true, false, Option, none, some, ◌==◌,
  if◌then◌else◌,
}
use axio_emulator.Rules.{RuleTable, update, add_route}

-- The fields of a workspace that the others use.
pub record Member : Type 0 where
  pub ws_id : ℕ
  pub ws_type : ℕ
  pub workload_type : ℕ
  pub dispatcher_ws_id : ℕ
  pub tx_queue : ℕ
  pub rx_queue : ℕ
  pub mem_reg : ℕ

-- `ws_type & WORKER` and `ws_type & DISPATCHER`.
abbrev pub is_worker : Member → Bool
is_worker w = w.ws_type / 2 % 2 == 1

abbrev pub is_dispatcher : Member → Bool
is_dispatcher w = w.ws_type % 2 == 1

-- `WsContext`.
pub record Context : Type 0 where
  pub ws : ℕ → Option Member
  pub active_ws_id : List ℕ
  pub ws_tx_queue_map : ℕ → Option ℕ
  pub ws_rx_queue_map : ℕ → Option ℕ
  pub mem_reg_map : ℕ → Option ℕ
  pub ws_id_dispatcher_map : ℕ → Option ℕ

unfoldable pub init : Context
init = record {
  ws = λ i. none;
  active_ws_id = [];
  ws_tx_queue_map = λ i. none;
  ws_rx_queue_map = λ i. none;
  mem_reg_map = λ i. none;
  ws_id_dispatcher_map = λ i. none;
}

unfoldable pub register_worker : Member → Context → Context
register_worker w ctx =
    if is_worker w
    then record ctx {
      ws_tx_queue_map = update ctx.ws_tx_queue_map w.ws_id (some w.tx_queue);
      ws_rx_queue_map = update ctx.ws_rx_queue_map w.ws_id (some w.rx_queue);
      ws_id_dispatcher_map = update ctx.ws_id_dispatcher_map w.ws_id (some w.dispatcher_ws_id);
    }
    else ctx

abbrev pub first_reg : Option ℕ → ℕ → Option ℕ
first_reg none reg = some reg
first_reg (some r) reg = some r

-- A dispatcher that is there already is reported, and not replaced.
unfoldable pub register_dispatcher : Member → Context → Context
register_dispatcher w ctx =
    if is_dispatcher w
    then record ctx {
      mem_reg_map = update ctx.mem_reg_map w.ws_id (first_reg (ctx.mem_reg_map w.ws_id) w.mem_reg);
    }
    else ctx

unfoldable pub register_ws : Member → Context → Option Context
register_ws w ctx = elim (ctx.ws w.ws_id) [
  | some other ↦ none
  | none ↦ some (
      register_dispatcher w (
        register_worker w (record ctx {
          ws = update ctx.ws w.ws_id (some w);
          active_ws_id = ctx.active_ws_id ++ (w.ws_id ∷ []);
        })))
]

unfoldable pub register_all : List Member → Context → Option Context
register_all [] ctx = some ctx
register_all (w ∷ ws) ctx = elim (register_ws w ctx) [
  | none ↦ none
  | some ctx' ↦ register_all ws ctx'
]

abbrev pub pointer : Option ℕ → ℕ
pointer none = 0
pointer (some p) = p

-- `set_mem_reg`: `operator[]` makes a null pointer where there is none.
unfoldable pub set_mem_reg : Member → Context → Context × ℕ
set_mem_reg w ctx =
    let reg = pointer (ctx.mem_reg_map w.dispatcher_ws_id) in
    (record ctx { mem_reg_map = update ctx.mem_reg_map w.dispatcher_ws_id (some reg) }, reg)

-- What a dispatcher is told: `ws_tx_queues_`, `ws_rx_queues_` and `rx_rule_table_`.
pub record Wiring : Type 0 where
  pub ws_tx_queues : List ℕ
  pub ws_rx_queues : ℕ → ℕ
  pub rx_rule_table : RuleTable

-- `add_ws_tx_queue`, `add_ws_rx_queue` and `add_rx_rule`, for one worker.
unfoldable pub connect : Context → ℕ → Member → Wiring → Wiring
connect ctx ws_id w d = record {
  ws_tx_queues = d.ws_tx_queues ++ (pointer (ctx.ws_tx_queue_map ws_id) ∷ []);
  ws_rx_queues = update d.ws_rx_queues ws_id (pointer (ctx.ws_rx_queue_map ws_id));
  rx_rule_table = add_route d.rx_rule_table w.workload_type ws_id;
}

abbrev pub assigned_to : ℕ → Option ℕ → Bool
assigned_to self none = false
assigned_to self (some d) = d == self

abbrev pub connect_member : Context → ℕ → Option Member → Wiring → Wiring
connect_member ctx ws_id none d = d
connect_member ctx ws_id (some w) d = connect ctx ws_id w d

-- The loop over the active workspaces; a workspace of the map is registered.
unfoldable pub connect_all : ℕ → Context → List ℕ → Wiring → Wiring
connect_all self ctx [] d = d
connect_all self ctx (id ∷ ids) d = connect_all self ctx ids (
    if assigned_to self (ctx.ws_id_dispatcher_map id)
    then connect_member ctx id (ctx.ws id) d
    else d)

unfoldable pub set_dispatcher_config : ℕ → Context → Wiring → Wiring
set_dispatcher_config self ctx d = connect_all self ctx ctx.active_ws_id d
