-- ===== src/Config/Assign.antt =====
-- Which workload and which group a workspace gets from a line of the configuration.
pub mod Groups
pub mod Line
use mathlib.Core.Path.{subst}
use axio_emulator.Prelude.{
  ℕ, zero, suc, ◌+◌, ◌-◌, ◌%◌, ◌^◌, ◌≤◌, ◌<◌, ◌≡◌, ◌≢◌, refl, sym, ap, ◌∙◌, List, [], ◌∷◌, ◌++◌,
  Bool, true, false, Option, none, some, length, length-append, get_or, count, ltb, ◌==◌,
  if◌then◌else◌, ◌⊎◌, inl, inr, Bool-cases, Option-cases, arith,
}
use axio_emulator.Rules.{update}
use axio_emulator.Text.{tokens}
use axio_emulator.Config.Workload.{
  Workloads, parse_id, parse_ids, parse_group, assign, add_group, config_groups, with_dispatchers,
  with_remotes, config_value, config_values, config_workload, invalid_workload_type,
}

-- What `assign` does to one workspace.
pub data Given (type group : ℕ) (ids : List ℕ) (w out : Workloads) (id : ℕ) : Type 0 where
  other :
      count id ids ≡ 0
      → out.ws_id_workload id ≡ w.ws_id_workload id
      → out.ws_id_group_idx id ≡ w.ws_id_group_idx id
      → Given type group ids w out id
  given :
      count id ids ≡ 1
      → w.ws_id_workload id ≡ none
      → out.ws_id_workload id ≡ some type
      → out.ws_id_group_idx id ≡ some group
      → Given type group ids w out id

pub record Assigned (type group : ℕ) (ids : List ℕ) (w out : Workloads) : Type 0 where
  pub appws : out.appws ≡ w.appws
  pub each : (id : ℕ) → Given type group ids w out id

abbrev give : ℕ → ℕ → ℕ → Workloads → Workloads
give type group id w = record w {
  ws_id_workload = update w.ws_id_workload id (some type);
  ws_id_group_idx = update w.ws_id_group_idx id (some group);
}

Given-suc :
    (type group i : ℕ) (ids : List ℕ) (w out : Workloads) (id : ℕ)
    → w.ws_id_workload i ≡ none
    → Given type group ids (give type group i w) out id
    → Given type group (i ∷ ids) w out id
Given-suc type group i ids w out id free (other c a b) = elim (Bool-cases (id == i)) [
  | inl e ↦
      let same : id ≡ i = ground arith in
      given (ground (arith, c, same)) (ap w.ws_id_workload same ∙ free) (a ∙ ground (arith, e))
        (b ∙ ground (arith, e))
  | inr e ↦ other (ground (arith, c, e)) (a ∙ ground (arith, e)) (b ∙ ground (arith, e))
]
Given-suc type group i ids w out id free (given c none_yet a b) = elim (Bool-cases (id == i)) [
  | inl e ↦ absurd (ground (arith, none_yet, e))
  | inr e ↦ given (ground (arith, c, e)) (ground (arith, none_yet, e)) a b
]

-- When the assignment succeeds, each workspace of the list is there once, had no workload, and has
-- this one now; the others keep theirs.
pub assign-Assigned :
    (type group : ℕ) (ids : List ℕ) (w out : Workloads)
    → assign type group ids w ≡ some out
    → Assigned type group ids w out
unfolding assign
assign-Assigned type group [] w out e =
    let same : w ≡ out = ground (arith, e) in
    rw (sym same) (record { appws = refl; each = λ id. other refl refl refl })
assign-Assigned type group (i ∷ ids) w out e = elim (Option-cases (w.ws_id_workload i)) [
  | inr (t, taken) ↦
      let fails : assign type group (i ∷ ids) w ≡ none = rw (taken, assign) refl in
      absurd (ground (arith, e, fails))
  | inl free ↦
      let step : assign type group (i ∷ ids) w ≡ assign type group ids (give type group i w) =
        rw (free, assign) refl in
      let r = assign-Assigned type group ids (give type group i w) out (sym step ∙ e) in
      record { appws = r.appws; each = λ id. Given-suc type group i ids w out id free (r.each id) }
]

-- A list with a workspace that has a workload already is refused.
pub assign-taken :
    (type group id t : ℕ) (ids : List ℕ) (w : Workloads)
    → count id ids ≢ 0
    → w.ws_id_workload id ≡ some t
    → assign type group ids w ≡ none
assign-taken type group id t ids w here taken = elim (Option-cases (assign type group ids w)) [
  | inl n ↦ n
  | inr (out, e) ↦ absurd (refused out ((assign-Assigned type group ids w out e).each id))
]
  where
    refused : (out : Workloads) → ¬ Given type group ids w out id
    refused out (other c a b) = here c
    refused out (given c free a b) = ground (arith, free, taken)

-- The group of a workspace: its number is in the map, and the workspace is in that group of the
-- workload.
pub record InGroup (w : Workloads) (type id : ℕ) : Type 0 where
  pub idx : ℕ
  pub in_map : w.ws_id_group_idx id ≡ some idx
  pub in_range : idx < length (w.appws type)
  pub in_group : 0 < count id (get_or (w.appws type) idx [])

unfoldable pub IsGrouped : Workloads → Type 0
IsGrouped w = (id type : ℕ) → w.ws_id_workload id ≡ some type → InGroup w type id

get_or-append :
    (xss : List (List ℕ)) (ys : List ℕ) (i : ℕ)
    → i < length xss
    → get_or (xss ++ (ys ∷ [])) i [] ≡ get_or xss i []
get_or-append [] ys i lt = absurd (omega arith)
get_or-append (xs ∷ xss) ys zero lt = refl
get_or-append (xs ∷ xss) ys (suc i) lt = get_or-append xss ys i (omega arith)

pub get_or-append_last :
    (xss : List (List ℕ)) (ys : List ℕ) → get_or (xss ++ (ys ∷ [])) (length xss) [] ≡ ys
get_or-append_last [] ys = refl
get_or-append_last (xs ∷ xss) ys = get_or-append_last xss ys

-- A group more does not change the groups of before.
pub InGroup-add :
    (type : ℕ) (ids : List ℕ) (w : Workloads) (t id : ℕ)
    → InGroup w t id
    → InGroup (add_group type ids w) t id
unfolding add_group
InGroup-add type ids w t id r = elim (Bool-cases (t == type)) [
  | inl e ↦
      let same : t ≡ type = ground arith in
      let groups : update w.appws type (w.appws type ++ (ids ∷ [])) t ≡ w.appws t ++ (ids ∷ []) =
        ground (arith, e, same) in
      record {
        idx = r.idx;
        in_map = r.in_map;
        in_range = rw groups (omega (arith, length-append (w.appws t) (ids ∷ []), r.in_range));
        in_group = rw (groups, get_or-append (w.appws t) ids r.idx r.in_range) r.in_group;
      }
  | inr e ↦
      let groups : update w.appws type (w.appws type ++ (ids ∷ [])) t ≡ w.appws t =
        ground (arith, e) in
      record {
        idx = r.idx;
        in_map = r.in_map;
        in_range = rw groups r.in_range;
        in_group = rw groups r.in_group;
      }
]
