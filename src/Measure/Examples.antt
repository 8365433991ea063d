-- ===== src/Measure/Examples.antt =====
-- Two workspaces, the first of which has a dispatcher, and one iteration.
use axio_emulator.Prelude.{ℕ, zero, suc, ◌≤◌, ◌<◌, ◌≡◌, ◌≢◌, refl, Bool, false, ◌==◌, length, arith}
use axio_emulator.Measure.{
  at_start, running, updated, at_end, after_end, System, move, update_stats, print_and_reset,
  entered, Step, starts, runs, updates, ends, leaves, resets, start, Reach, here, moved,
}
use axio_emulator.Measure.Places.{update_num}
use axio_emulator.Measure.Once.{IsFinished, Reach-reported, Reach-drained, Reach-report_alone}
use axio_emulator.Measure.Live.{Reach-measure_live}

abbrev first_dispatches : ℕ → Bool
first_dispatches i = i == 0

abbrev Run : System → Type 0
Run = Reach 2 1 first_dispatches

both : (P : ℕ → Type 0) → P 0 → P 1 → (j : ℕ) → j < 2 → P j
both P p q zero lj = p
both P p q (suc zero) lj = q
both P p q (suc (suc j)) lj = absurd (omega arith)

abbrev measuring : System
measuring =
    move (move (move (move (start first_dispatches) 0 at_start) 1 at_start) 0 running) 1 running

measuring-Run : Run measuring
measuring-Run =
    let s0 = start first_dispatches in
    let s1 = move s0 0 at_start in
    let s2 = move s1 1 at_start in
    let s3 = move s2 0 running in
    moved
      (moved
        (moved (moved here (starts 0 (omega arith) refl (omega arith)))
          (starts 1 (omega arith) refl (omega arith)))
        (runs 0 (omega arith) refl
          (both (λ j. 1 ≤ entered (s2.threads j)) (omega arith) (omega arith))))
      (runs 1 (omega arith) refl
        (both (λ j. 1 ≤ entered (s3.threads j)) (omega arith) (omega arith)))

abbrev all_updated : System
all_updated = update_stats 1 (update_stats 0 measuring)

all_updated-Run : Run all_updated
all_updated-Run =
    moved (moved measuring-Run (updates 0 (omega arith) refl)) (updates 1 (omega arith) refl)

abbrev reporting : System
reporting = move (move (move all_updated 0 at_end) 1 at_end) 0 after_end

reporting-Run : Run reporting
reporting-Run =
    let s2 = move (move all_updated 0 at_end) 1 at_end in
    moved
      (moved (moved all_updated-Run (ends 0 (omega arith) refl refl))
        (ends 1 (omega arith) refl refl))
      (leaves 0 (omega arith) refl
        (both (λ j. 2 ≤ entered (s2.threads j)) (omega arith) (omega arith)))

abbrev finished : System
finished = print_and_reset 1 (print_and_reset 0 (move reporting 1 after_end))

finished-Run : Run finished
finished-Run =
    moved
      (moved
        (moved reporting-Run (
          leaves 1 (omega arith) refl
            (both (λ j. 2 ≤ entered (reporting.threads j)) (omega arith) (omega arith))))
        (resets 0 (omega arith) refl))
      (resets 1 (omega arith) refl)

Reach-reported_example :
    (length finished.printed ≡ 1) × (finished.completed_ws_num ≡ 0) × (finished.end_signal ≡ false)
Reach-reported_example =
    Reach-reported 2 1 {ds = first_dispatches} {s = finished} (omega arith) (omega arith)
      finished-Run (both (λ j. IsFinished 1 (finished.threads j)) (refl, refl) (refl, refl))

Reach-drained_example :
    (all_updated.completed_ws_num ≡ 2)
    × ((j : ℕ)
        → j < 2
        → (update_num (all_updated.threads j) ≡ update_num (all_updated.threads 0))
          × ((all_updated.threads j).place ≢ running))
Reach-drained_example =
    Reach-drained 2 1 0 {ds = first_dispatches} {s = all_updated} (omega arith) all_updated-Run
      (omega arith) refl refl refl

Reach-report_alone_example :
    ((reporting.threads 1).place ≢ running)
    × ((reporting.threads 1).place ≢ updated)
    × ((reporting.threads 1).stats_init_ws ≡ false)
    × (update_num (reporting.threads 1) ≡ update_num (reporting.threads 0))
Reach-report_alone_example =
    Reach-report_alone 2 1 0 {ds = first_dispatches} {s = reporting} (omega arith) reporting-Run
      (omega arith) refl refl 1 (omega arith) (omega arith)

Reach-measure_live_example : (t : System) × Step 2 1 reporting t
Reach-measure_live_example =
    Reach-measure_live 2 1 0 {ds = first_dispatches} {s = reporting} (omega arith) reporting-Run
      (omega arith) (λ (p, k). omega (arith, k))
