-- ===== src/Config/Workload.antt =====
-- `config_workload` (src/config.cc): one line `workload : type : phases : remote dispatchers :
-- groups of workspaces : dispatchers`. A missing entry of a map of vectors is an empty vector.
use axio_emulator.Prelude.{
  ℕ, zero, suc, ◌+◌, ◌-◌, ◌%◌, ◌^◌, List, [], ◌∷◌, ◌++◌, Option, none, some, length, count, ltb,
  ◌==◌, if◌then◌else◌,
}
use axio_emulator.Rules.{update}
use axio_emulator.Text.{tokens, stoi}

-- `kInvalidWsId`, `kInvalidWorkloadType`.
abbrev pub invalid_ws_id : ℕ
invalid_ws_id = 17

abbrev pub invalid_workload_type : ℕ
invalid_workload_type = 17

pub record Workloads : Type 0 where
  pub pipephase : ℕ → List (List ℕ)
  pub appws : ℕ → List (List ℕ)
  pub dispatcher : ℕ → List ℕ
  pub remote_dispatcher : ℕ → List ℕ
  pub ws_id_workload : ℕ → Option ℕ
  pub ws_id_group_idx : ℕ → Option ℕ

-- A number in a `uint8_t` that must be below `bound`.
unfoldable pub parse_id : ℕ → List ℕ → Option ℕ
parse_id bound text = elim (stoi 10 text) [
  | none ↦ none
  | some v ↦ if ltb (v % 2 ^ 8) bound then some (v % 2 ^ 8) else none
]

abbrev pub cons_id : Option ℕ → Option (List ℕ) → Option (List ℕ)
cons_id none rest = none
cons_id (some id) none = none
cons_id (some id) (some ids) = some (id ∷ ids)

unfoldable pub parse_ids : List (List ℕ) → Option (List ℕ)
parse_ids [] = some []
parse_ids (t ∷ ts) = cons_id (parse_id invalid_ws_id t) (parse_ids ts)

-- `start_ws_id` up to `end_ws_id`.
unfoldable pub ids_from : ℕ → ℕ → List ℕ
ids_from start zero = []
ids_from start (suc n) = start ∷ ids_from (start + 1) n

abbrev pub range_of : List ℕ → Option (Option (List ℕ))
range_of [] = none
range_of (start ∷ []) = none
range_of (start ∷ last ∷ ids) = some (some (ids_from start (last + 1 - start)))

abbrev pub some_ids : Option (List ℕ) → Option (Option (List ℕ))
some_ids none = none
some_ids (some ids) = some (some ids)

abbrev pub range_ids : Option (List ℕ) → Option (Option (List ℕ))
range_ids none = none
range_ids (some ids) = range_of ids

-- The workspaces of one group; `some none` is a text that is reported and passed over.
unfoldable pub parse_group : List ℕ → Option (Option (List ℕ))
parse_group text =
    if count b'-' text == 0
    then if length (tokens b',' text) == 0
      then some none
      else some_ids (parse_ids (tokens b',' text))
    else if length (tokens b'-' text) == 2
    then range_ids (parse_ids (tokens b'-' text))
    else some none

-- Each workspace gets its workload and its group, unless it has a workload already.
unfoldable pub assign : ℕ → ℕ → List ℕ → Workloads → Option Workloads
assign type group [] w = some w
assign type group (id ∷ ids) w = elim (w.ws_id_workload id) [
  | some t ↦ none
  | none ↦ assign type group ids (record w {
    ws_id_workload = update w.ws_id_workload id (some type);
    ws_id_group_idx = update w.ws_id_group_idx id (some group);
  })
]

unfoldable pub add_group : ℕ → List ℕ → Workloads → Workloads
add_group type ids w = record w { appws = update w.appws type (w.appws type ++ (ids ∷ [])) }

-- The groups, the first of which has the number `group`.
unfoldable pub config_groups : ℕ → ℕ → List (List ℕ) → Workloads → Option Workloads
config_groups type group [] w = some w
config_groups type group (text ∷ texts) w = elim (parse_group text) [
  | none ↦ none
  | some parsed ↦ elim parsed [
    | none ↦ config_groups type group texts w
    | some ids ↦ elim (assign type group ids w) [
      | none ↦ none
      | some w' ↦ config_groups type ((group + 1) % 2 ^ 8) texts (add_group type ids w')
    ]
  ]
]

abbrev pub with_dispatchers : ℕ → Workloads → Option (List ℕ) → Option Workloads
with_dispatchers type w none = none
with_dispatchers type w (some ids) =
    some (record w { dispatcher = update w.dispatcher type (w.dispatcher type ++ ids) })

abbrev pub with_remotes : ℕ → Workloads → Option (List ℕ) → Option Workloads
with_remotes type w none = none
with_remotes type w (some ids) = some (record w {
  remote_dispatcher = update w.remote_dispatcher type (w.remote_dispatcher type ++ ids);
})

-- The value of number `idx`, from 1 on.
unfoldable pub config_value : ℕ → ℕ → List ℕ → Workloads → Option Workloads
config_value idx type value w =
    if idx == 1
    then some
        (record w { pipephase = update w.pipephase type (w.pipephase type ++ tokens b',' value) })
    else if idx == 2
    then with_remotes type w (parse_ids (tokens b',' value))
    else if idx == 3
    then config_groups type 0 (tokens b'|' value) w
    else if idx == 4
    then with_dispatchers type w (parse_ids (tokens b'|' value))
    else some w

unfoldable pub config_values : ℕ → ℕ → List (List ℕ) → Workloads → Option Workloads
config_values idx type [] w = some w
config_values idx type (v ∷ vs) w = elim (config_value idx type v w) [
  | none ↦ none
  | some w' ↦ config_values (idx + 1) type vs w'
]

-- The first value is the type. `value_idx` is a `uint8_t`; a line has fewer than 256 values.
unfoldable pub config_workload : List (List ℕ) → Workloads → Option Workloads
config_workload [] w = some w
config_workload (v ∷ vs) w = elim (parse_id invalid_workload_type v) [
  | none ↦ none
  | some type ↦ config_values 1 type vs w
]
