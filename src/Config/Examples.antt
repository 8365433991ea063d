-- ===== src/Config/Examples.antt =====
-- A line of the configuration for workload 1, with the groups 0-1 and 2,3.
use axio_emulator.Prelude.{ℕ, ◌≡◌, refl, List, [], ◌∷◌, Option, none, some}
use axio_emulator.Text.{codes, tokens, stoi, skip_space, digits, value}
use axio_emulator.Config.Workload.{
  Workloads, parse_id, parse_ids, ids_from, parse_group, assign, add_group, config_groups,
  config_value, config_values, config_workload,
}

abbrev blank : Workloads
blank = record {
  pipephase = λ t. [];
  appws = λ t. [];
  dispatcher = λ t. [];
  remote_dispatcher = λ t. [];
  ws_id_workload = λ id. none;
  ws_id_group_idx = λ id. none;
}

abbrev line : List (List ℕ)
line = codes "1" ∷ codes "a,b" ∷ codes "9" ∷ codes "0-1|2,3" ∷ codes "4|4" ∷ []

abbrev accepted : Option Workloads → Workloads
accepted none = blank
accepted (some w) = w

second_group : (accepted (config_workload line blank)).ws_id_group_idx 3 ≡ some 1
unfolding config_workload config_values config_value config_groups assign add_group parse_group
    parse_ids parse_id ids_from tokens stoi skip_space digits value
second_group = refl

twice : config_workload line (accepted (config_workload line blank)) ≡ none
unfolding config_workload config_values config_value config_groups assign add_group parse_group
    parse_ids parse_id ids_from tokens stoi skip_space digits value
twice = refl
