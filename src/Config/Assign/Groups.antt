-- ===== src/Config/Assign/Groups.antt =====
-- A whole line of the configuration: `config_workload` keeps workspaces, workloads and groups in
-- agreement.
use axio_emulator.Prelude.{
  ℕ, ◌+◌, ◌%◌, ◌^◌, ◌<◌, ◌≡◌, refl, sym, ap, ◌∙◌, List, [], ◌∷◌, ◌++◌, Option, none, some, length,
  length-append, count, inl, inr, Option-cases, arith,
}
use axio_emulator.Rules.{update}
use axio_emulator.Config.Workload.{Workloads, parse_group, assign, add_group, config_groups}
use axio_emulator.Config.Assign.{
  Given, other, given, Assigned, assign-Assigned, InGroup, IsGrouped, InGroup-add,
  get_or-append_last,
}

-- What a step of the configuration keeps: the groups agree with the maps, and no workspace that has
-- a workload gets another.
pub record Configured (w out : Workloads) : Type 0 where
  pub grouped : IsGrouped out
  pub keeps : (id t : ℕ) → w.ws_id_workload id ≡ some t → out.ws_id_workload id ≡ some t

pub Configured-trans :
    {w mid out : Workloads} → Configured w mid → Configured mid out → Configured w out
Configured-trans a b = record {
  grouped = b.grouped;
  keeps = λ id t e. b.keeps id t (a.keeps id t e);
}

InGroup-same :
    (w out : Workloads) (t id : ℕ)
    → out.appws ≡ w.appws
    → out.ws_id_group_idx id ≡ w.ws_id_group_idx id
    → InGroup w t id
    → InGroup out t id
InGroup-same w out t id a b r =
    let groups = ap (λ (f : ℕ → List (List ℕ)). f t) a in
    record {
      idx = r.idx;
      in_map = b ∙ r.in_map;
      in_range = rw groups r.in_range;
      in_group = rw groups r.in_group;
    }

-- A step that leaves the application's groups and the two maps alone.
pub Configured-same :
    (w out : Workloads)
    → IsGrouped w
    → out.appws ≡ w.appws
    → out.ws_id_workload ≡ w.ws_id_workload
    → out.ws_id_group_idx ≡ w.ws_id_group_idx
    → Configured w out
unfolding IsGrouped
Configured-same w out v a b c = record {
  grouped = λ id t e.
      InGroup-same w out t id a (ap (λ (f : ℕ → Option ℕ). f id) c)
        (v id t (sym (ap (λ (f : ℕ → Option ℕ). f id) b) ∙ e));
  keeps = λ id t e. ap (λ (f : ℕ → Option ℕ). f id) b ∙ e;
}

InGroup-given :
    (type : ℕ) (ids : List ℕ) (w : Workloads) (id group : ℕ)
    → group ≡ length (w.appws type)
    → w.ws_id_group_idx id ≡ some group
    → count id ids ≡ 1
    → InGroup (add_group type ids w) type id
unfolding add_group
InGroup-given type ids w id group num at c =
    let groups : update w.appws type (w.appws type ++ (ids ∷ [])) type
        ≡ w.appws type ++ (ids ∷ []) =
      ground arith in
    record {
      idx = group;
      in_map = at;
      in_range = rw groups (omega (arith, num, length-append (w.appws type) (ids ∷ [])));
      in_group = rw (groups, num, get_or-append_last (w.appws type) ids) (omega (arith, c));
    }

-- One group more.
add_group-Configured :
    (type group : ℕ) (ids : List ℕ) (w mid : Workloads)
    → IsGrouped w
    → group ≡ length (w.appws type)
    → Assigned type group ids w mid
    → Configured w (add_group type ids mid)
unfolding IsGrouped add_group
add_group-Configured type group ids w mid v num a = record {
  grouped = λ id t e. one id t e (a.each id);
  keeps = λ id t e. kept id t e (a.each id);
}
  where
    one :
        (id t : ℕ)
        → mid.ws_id_workload id ≡ some t
        → Given type group ids w mid id
        → InGroup (add_group type ids mid) t id
    one id t e (other c b d) =
        InGroup-add type ids mid t id (InGroup-same w mid t id a.appws d (v id t (sym b ∙ e)))
    one id t e (given c free b d) =
        let same : t ≡ type = ground (arith, e, b) in
        rw same (
          InGroup-given type ids mid id group
            (num ∙ ap (λ (f : ℕ → List (List ℕ)). length (f type)) (sym a.appws)) d c)

    kept :
        (id t : ℕ)
        → w.ws_id_workload id ≡ some t
        → Given type group ids w mid id
        → mid.ws_id_workload id ≡ some t
    kept id t e (other c b d) = b ∙ e
    kept id t e (given c free b d) = absurd (ground (arith, e, free))

add_group-length :
    (type : ℕ) (ids : List ℕ) (w : Workloads)
    → length ((add_group type ids w).appws type) ≡ length (w.appws type) + 1
unfolding add_group
add_group-length type ids w = ground (arith, length-append (w.appws type) (ids ∷ []))

pub config_groups-Configured :
    (type group : ℕ) (texts : List (List ℕ)) (w out : Workloads)
    → IsGrouped w
    → group ≡ length (w.appws type)
    → group + length texts < 2 ^ 8
    → config_groups type group texts w ≡ some out
    → Configured w out
unfolding config_groups
config_groups-Configured type group [] w out v num lt e =
    let same : w ≡ out = ground (arith, e) in rw (sym same) (Configured-same w w v refl refl refl)
config_groups-Configured type group (text ∷ texts) w out v num lt e =
    elim (Option-cases (parse_group text)) [
      | inl n ↦
          let fails : config_groups type group (text ∷ texts) w ≡ none =
            rw (n, config_groups) refl in
          absurd (ground (arith, e, fails))
      | inr (parsed, p) ↦ elim (Option-cases parsed) [
        | inl bad ↦
            let step : config_groups type group (text ∷ texts) w
                ≡ config_groups type group texts w =
              rw (p, bad, config_groups) refl in
            config_groups-Configured type group texts w out v num (omega arith) (sym step ∙ e)
        | inr (ids, q) ↦ elim (Option-cases (assign type group ids w)) [
          | inl n ↦
              let fails : config_groups type group (text ∷ texts) w ≡ none =
                rw (p, q, n, config_groups) refl in
              absurd (ground (arith, e, fails))
          | inr (mid, r) ↦
              let a = assign-Assigned type group ids w mid r in
              let next = add_group type ids mid in
              let step : config_groups type group (text ∷ texts) w
                  ≡ config_groups type ((group + 1) % 2 ^ 8) texts next =
                rw (p, q, r, config_groups) refl in
              let one = add_group-Configured type group ids w mid v num a in
              let more = add_group-length type ids mid in
              let same = ap (λ (f : ℕ → List (List ℕ)). length (f type)) a.appws in
              Configured-trans one (
                config_groups-Configured type ((group + 1) % 2 ^ 8) texts next out one.grouped
                  (omega (arith, more, same, num, lt)) (omega arith) (sym step ∙ e))
        ]
      ]
    ]
