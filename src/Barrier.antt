-- ===== src/Barrier.antt =====
-- src/util/barrier.h: the barrier that the threads meet at. The mutex makes each part of `wait`
-- between two waits on the condition variable one step: to arrive (up to `condition.wait`, or to
-- the end for the last thread), and to wake up, once the predicate holds. A wake-up with the predicate
-- false changes nothing. `generation` is a number; it does not reach 2^31.
pub mod Count
pub mod Inv
pub mod Rounds
mod Examples
use axio_emulator.Prelude.{ℕ, ◌+◌, ◌<◌, ◌≡◌, ◌≢◌, List, length, get_or, set, ltb, if◌then◌else◌}

-- A thread is outside `wait`, or waits with its value of `gen`.
pub data Place : Type 0 where
  outside : Place
  waiting : ℕ → Place

-- `entered` and `left` count a thread's calls of `wait` and its returns from them.
pub record Thread : Type 0 where
  pub place : Place
  pub entered : ℕ
  pub left : ℕ

pub record Barrier : Type 0 where
  pub count : ℕ
  pub total_threads : ℕ
  pub generation : ℕ

abbrev pub new_thread : Thread
new_thread = record { place = outside; entered = 0; left = 0 }

-- The constructor.
pub init : ℕ → Barrier
init num_threads = record { count = 0; total_threads = num_threads; generation = 0 }

-- `wait` up to `condition.wait`, or to its end.
pub arrive : Barrier → Thread → Barrier × Thread
arrive b t =
    if ltb (b.count + 1) b.total_threads
    then (
      record b { count = b.count + 1 },
      record { place = waiting b.generation; entered = t.entered + 1; left = t.left },
    )
    else (
      record b { count = 0; generation = b.generation + 1 },
      record { place = outside; entered = t.entered + 1; left = t.left + 1 },
    )

-- The rest of `wait`, when the predicate holds.
pub wake : Thread → Thread
wake t = record { place = outside; entered = t.entered; left = t.left + 1 }

pub data Step : Barrier × List Thread → Barrier × List Thread → Type 0 where
  arrives :
      (b : Barrier) (ts : List Thread) (i : ℕ)
      → i < length ts
      → (get_or ts i new_thread).place ≡ outside
      → Step
          (b, ts)
          ((arrive b (get_or ts i new_thread)).0, set ts i (arrive b (get_or ts i new_thread)).1)
  wakes :
      (b : Barrier) (ts : List Thread) (i gen : ℕ)
      → i < length ts
      → (get_or ts i new_thread).place ≡ waiting gen
      → gen ≢ b.generation
      → Step (b, ts) (b, set ts i (wake (get_or ts i new_thread)))

pub data Reach (start : Barrier × List Thread) : Barrier × List Thread → Type 0 where
  here : Reach start start
  moved : {s t : Barrier × List Thread} → Reach start s → Step s t → Reach start t
