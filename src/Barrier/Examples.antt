-- ===== src/Barrier/Examples.antt =====
-- Two threads in the first round.
use axio_emulator.Prelude.{◌≤◌, refl, List, get_or, set, replicate, arith}
use axio_emulator.Barrier.{Barrier, Thread, new_thread, init, arrive, arrives, Reach, here, moved}
use axio_emulator.Barrier.Rounds.{Reach-left_le_entered}

abbrev fresh : List Thread
fresh = replicate 2 new_thread

abbrev one_in : Barrier × List Thread
one_in = (
  (arrive (init 2) (get_or fresh 0 new_thread)).0,
  set fresh 0 (arrive (init 2) (get_or fresh 0 new_thread)).1,
)

one_in-Reach : Reach (init 2, fresh) one_in
unfolding replicate
one_in-Reach = moved here (arrives (init 2) fresh 0 (omega arith) refl)

abbrev both_in : Barrier × List Thread
both_in = (
  (arrive one_in.0 (get_or one_in.1 1 new_thread)).0,
  set one_in.1 1 (arrive one_in.0 (get_or one_in.1 1 new_thread)).1,
)

both_in-Reach : Reach (init 2, fresh) both_in
unfolding replicate
both_in-Reach = moved one_in-Reach (arrives one_in.0 one_in.1 1 (omega arith) refl)

Reach-left_le_entered_example :
    (get_or both_in.1 1 new_thread).left ≤ (get_or both_in.1 0 new_thread).entered
Reach-left_le_entered_example =
    Reach-left_le_entered 2 {b = both_in.0} {ts = both_in.1} 1 0 (omega arith) both_in-Reach
      (omega arith) (omega arith)
