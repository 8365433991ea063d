-- ===== src/Pipeline/Build.antt =====
-- What the constructor builds from the configured workloads.
use mathlib.Core.List.{append_assoc, append-nil}
use axio_emulator.Prelude.{
  ℕ, ◌<◌, ◌≡◌, refl, sym, ap, ◌∙◌, List, [], ◌∷◌, ◌++◌, map, Bool, true, false, ◌&&◌, ltb, arith,
}
use axio_emulator.Pipeline.{
  PhaseName, PipePhase, WorkloadPipe, WorkloadConfig, phase_of, phase_loop, ws_group, has_workload,
  insert, new_workload, push_phase, new_pipe_phase, add_phases, build,
}

-- The phase and the pipeline that a configuration stands for.
pub phase_for : WorkloadConfig → PhaseName → PipePhase
phase_for c n = record {
  phase_type = phase_of n;
  launch_wss = ws_group c (phase_of n);
  loop = phase_loop (phase_of n);
}

pub pipe_for : WorkloadConfig → WorkloadPipe
pipe_for c = record { workload_type = c.workload_type; pipeline = map (phase_for c) c.phases }

-- The workload types in the order of a `std::map`, from above `t` on.
pub data IsSorted : List WorkloadConfig → Type 0 where
  none : IsSorted []
  one : {c : WorkloadConfig} → IsSorted (c ∷ [])
  more :
      {c d : WorkloadConfig} {ds : List WorkloadConfig}
      → c.workload_type < d.workload_type
      → IsSorted (d ∷ ds)
      → IsSorted (c ∷ d ∷ ds)

all_below : ℕ → List WorkloadPipe → Bool
all_below t [] = true
all_below t (w ∷ ws) = ltb w.workload_type t && all_below t ws

fresh : (t : ℕ) (ws : List WorkloadPipe) → all_below t ws ≡ true → has_workload ws t ≡ false
unfolding all_below has_workload
fresh t [] h = refl
fresh t (w ∷ ws) h = ground (arith, fresh t ws)

insert-last :
    (w : WorkloadPipe) (ws : List WorkloadPipe)
    → all_below w.workload_type ws ≡ true
    → insert ws w ≡ ws ++ (w ∷ [])
unfolding all_below insert
insert-last w [] h = refl
insert-last w (x ∷ xs) h = ground (arith, insert-last w xs)

has-last :
    (t : ℕ) (w : WorkloadPipe) (ws : List WorkloadPipe)
    → w.workload_type ≡ t
    → has_workload (ws ++ (w ∷ [])) t ≡ true
unfolding has_workload
has-last t w [] e = ground arith
has-last t w (x ∷ xs) e = ground (arith, has-last t w xs e)

push-last :
    (t : ℕ) (w : WorkloadPipe) (ws : List WorkloadPipe) (p : PipePhase)
    → w.workload_type ≡ t
    → all_below t ws ≡ true
    → push_phase (ws ++ (w ∷ [])) t p ≡ ws ++ (record w { pipeline = w.pipeline ++ (p ∷ []) } ∷ [])
unfolding push_phase all_below
push-last t w [] p e h = ground arith
push-last t w (x ∷ xs) p e h = ground (arith, push-last t w xs p e)

below-last :
    (t u : ℕ) (w : WorkloadPipe) (ws : List WorkloadPipe)
    → all_below t ws ≡ true
    → w.workload_type ≡ t
    → t < u
    → all_below u (ws ++ (w ∷ [])) ≡ true
unfolding all_below
below-last t u w [] h e lt = ground arith
below-last t u w (x ∷ xs) h e lt = ground (arith, below-last t u w xs)

add_phases-last :
    (c : WorkloadConfig) (ns : List PhaseName) (ps : List PipePhase) (ws : List WorkloadPipe)
    → all_below c.workload_type ws ≡ true
    → add_phases c ns (ws ++ (record { workload_type = c.workload_type; pipeline = ps } ∷ []))
      ≡ ws
        ++ (record { workload_type = c.workload_type; pipeline = ps ++ map (phase_for c) ns } ∷ [])
unfolding add_phases new_pipe_phase phase_for
add_phases-last c [] ps ws h =
    ap (λ qs. ws ++ (record { workload_type = c.workload_type; pipeline = qs } ∷ []))
      (sym (append-nil ps))
add_phases-last c (n ∷ ns) ps ws h =
    let w : WorkloadPipe = record { workload_type = c.workload_type; pipeline = ps } in
    rw (has-last c.workload_type w ws refl, push-last c.workload_type w ws (phase_for c n) refl h)
      (add_phases-last c ns (ps ++ (phase_for c n ∷ [])) ws h
        ∙ ap (λ qs. ws ++ (record { workload_type = c.workload_type; pipeline = qs } ∷ []))
            (append_assoc ps (phase_for c n ∷ []) (map (phase_for c) ns)))

add_workload :
    (c : WorkloadConfig) (ws : List WorkloadPipe)
    → all_below c.workload_type ws ≡ true
    → add_phases c c.phases (new_workload ws c.workload_type) ≡ ws ++ (pipe_for c ∷ [])
unfolding new_workload pipe_for
add_workload c ws h =
    let w : WorkloadPipe = record { workload_type = c.workload_type; pipeline = [] } in
    rw (fresh c.workload_type ws h, insert-last w ws h) (add_phases-last c c.phases [] ws h)

build-after :
    (c : WorkloadConfig) (cs : List WorkloadConfig) (ws : List WorkloadPipe)
    → IsSorted (c ∷ cs)
    → all_below c.workload_type ws ≡ true
    → build (c ∷ cs) ws ≡ ws ++ map pipe_for (c ∷ cs)
unfolding build pipe_for
build-after c [] ws s h = add_workload c ws h
build-after c (d ∷ ds) ws (more lt s) h =
    ap (build (d ∷ ds)) (add_workload c ws h)
    ∙ build-after d ds (ws ++ (pipe_for c ∷ [])) s
        (below-last c.workload_type d.workload_type (pipe_for c) ws h refl lt)
    ∙ append_assoc ws (pipe_for c ∷ []) (map pipe_for (d ∷ ds))

-- Each workload of the configuration gets one pipeline, in the order of the types, with one phase
-- for each name in the order of the names, on the workspaces of the application's or the dispatcher's
-- group that the kind of the phase says.
pub build-pipe_for : (cs : List WorkloadConfig) → IsSorted cs → build cs [] ≡ map pipe_for cs
unfolding build all_below
build-pipe_for [] s = refl
build-pipe_for (c ∷ cs) s = build-after c cs [] s refl
