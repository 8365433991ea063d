-- ===== src/Barrier/Rounds.antt =====
-- The rounds of the barrier: nobody leaves before all have come.
use axio_emulator.Prelude.{ℕ, ◌+◌, ◌≤◌, ◌<◌, ◌≢◌, List, get_or, replicate, arith}
use axio_emulator.Barrier.{Thread, Barrier, new_thread, init, Reach}
use axio_emulator.Barrier.Count.{Fits, idle, present, late}
use axio_emulator.Barrier.Inv.{Reach-Inv}

Fits-between :
    (g : ℕ) (t : Thread) → Fits g t → (t.left ≤ g) × (g ≤ t.entered) × (t.entered ≤ t.left + 1)
Fits-between g t (idle p e l) = (omega arith, omega arith, omega arith)
Fits-between g t (present p e l) = (omega arith, omega arith, omega arith)
Fits-between g t (late n s p e l) = (omega arith, omega arith, omega arith)

-- In every run of n threads, where n > 0, a thread that has returned from its k-th `wait` does so
-- after every other has called its k-th: no returns of one outnumber the calls of another.
pub Reach-left_le_entered :
    (n : ℕ) {b : Barrier} {ts : List Thread} (i j : ℕ)
    → n ≢ 0
    → Reach (init n, replicate n new_thread) (b, ts)
    → i < n
    → j < n
    → (get_or ts i new_thread).left ≤ (get_or ts j new_thread).entered
Reach-left_le_entered n {b} {ts} i j ne r li lj =
    let v = Reach-Inv n ne r in
    let (above, x, y) = Fits-between b.generation _ (v.fits i li) in
    let (z, below, u) = Fits-between b.generation _ (v.fits j lj) in omega (arith, above, below)
