-- ===== src/Config.antt =====
-- src/config.h and src/config.cc: the configuration file. The failure of `rt_assert`, which exits, an
-- exception, and an access out of bounds are `none`.
pub mod Workload
pub mod Server
pub mod Trim
pub mod Assign
mod Examples
use axio_emulator.Prelude.{
  ℕ, zero, suc, ◌+◌, ◌%◌, ◌^◌, List, [], ◌∷◌, ◌++◌, Bool, true, false, ◌&&◌, Option, none, some,
  length, get_or, leb, ◌==◌, if◌then◌else◌,
}
use axio_emulator.Text.{codes, same, tokens}
use axio_emulator.Config.Workload.{Workloads, config_workload}
use axio_emulator.Config.Server.{ServerConfig, config_server}
use axio_emulator.Config.Trim.{trim, strip_front}

-- `config_map_`, in the order in which its keys appear first; `workloads_config_`.
pub record UserConfig : Type 0 where
  pub config_map : List (List ℕ × List (List ℕ))
  pub workloads : Workloads

-- `config_map_[key].push_back(value)`.
pub push_value : List ℕ → List ℕ → List (List ℕ × List (List ℕ)) → List (List ℕ × List (List ℕ))
push_value key value [] = (key, value ∷ []) ∷ []
push_value key value ((k, vs) ∷ rest) =
    let more = push_value key value rest in
    if same k key then (k, vs ++ (value ∷ [])) ∷ rest else (k, vs) ∷ more

pub push_values :
    List ℕ → List (List ℕ) → List (List ℕ × List (List ℕ)) → List (List ℕ × List (List ℕ))
push_values key [] entries = entries
push_values key (v ∷ vs) entries = push_values key vs (push_value key v entries)

pub trim_all : List (List ℕ) → Option (List (List ℕ))
trim_all [] = some []
trim_all (v ∷ vs) = elim (trim v) [
  | none ↦ none
  | some t ↦ elim (trim_all vs) [ none ↦ none | some ts ↦ some (t ∷ ts) ]
]

abbrev pub with_workloads : UserConfig → Option Workloads → Option UserConfig
with_workloads c none = none
with_workloads c (some w) = some (record c { workloads = w })

-- A line with at least two parts: its key, and the values behind it.
pub store : List ℕ → List (List ℕ) → UserConfig → Option UserConfig
store key values c =
    if same key (codes "workload")
    then with_workloads c (config_workload values c.workloads)
    else some (record c { config_map = push_values key values c.config_map })

pub store_line : List (List ℕ) → UserConfig → Option UserConfig
store_line [] c = some c
store_line (key ∷ []) c = some c
store_line (key ∷ v ∷ vs) c = elim (trim key) [
  | none ↦ none
  | some k ↦ elim (trim_all (v ∷ vs)) [ none ↦ none | some values ↦ store k values c ]
]

-- The body of the loop over the lines. `line[first]` of a line without a word is out of bounds.
pub load_line : List ℕ → UserConfig → Option UserConfig
load_line line c = elim (strip_front line) [
  | [] ↦ none
  | first ∷ rest ↦ if first == b'#' then some c else store_line (tokens b':' line) c
]

pub load_lines : List (List ℕ) → UserConfig → Option UserConfig
load_lines [] c = some c
load_lines (line ∷ lines) c = elim (load_line line c) [
  | none ↦ none
  | some c' ↦ load_lines lines c'
]

abbrev pub with_server : UserConfig → Option ServerConfig → Option (UserConfig × ServerConfig)
with_server c none = none
with_server c (some s) = some (c, s)

-- `load`, for the text of a file; the lines are those of `std::getline`.
pub load : List ℕ → UserConfig → ServerConfig → Option (UserConfig × ServerConfig)
load text c s = elim (load_lines (tokens 10 text) c) [
  | none ↦ none
  | some c' ↦ with_server c' (config_server c'.config_map s)
]
