-- ===== src/Measure.antt =====
-- `run_event_loop_timeout_st` and `update_stats` (src/ws_impl/workspace.cc): how the workspaces measure
-- together, as steps of their threads. Each iteration has two waits at the barrier. A wait returns
-- when every thread has entered it as often, which is what `Barrier.Rounds` shows. What the mutex
-- guards is one step, and so is the reset, during which no thread reads what it writes
-- (`Measure.Once`). The launches of the loops are left out, since they do not touch this state.
pub mod Places
pub mod Inv
pub mod Report
pub mod Once
pub mod Live
mod Examples
use axio_emulator.Prelude.{
  ℕ, zero, suc, ◌+◌, ◌*◌, ◌%◌, ◌^◌, ◌≤◌, ◌<◌, ◌≡◌, List, [], ◌∷◌, ◌++◌, Bool, true, false, ◌==◌,
  if◌then◌else◌,
}
use axio_emulator.Rules.{update}

-- Where a thread is in an iteration: before the first `wait`, in it, in the loop that measures,
-- after `update_stats`, in the second `wait`, and after it.
pub data Place : Type 0 where
  begin at_start running updated at_end after_end : Place

pub record Thread : Type 0 where
  pub place : Place
  pub iteration : ℕ
  pub is_dispatcher : Bool
  pub stats_init_ws : Bool

-- The fields of the context, what was printed (by the thread's number), and the threads.
pub record System : Type 0 where
  pub completed_ws_num : ℕ
  pub end_signal : Bool
  pub printed : List ℕ
  pub threads : ℕ → Thread

abbrev pub put : System → ℕ → Thread → System
put s i t = record s { threads = update s.threads i t }

abbrev pub move : System → ℕ → Place → System
move s i p = put s i (record (s.threads i) { place = p })

-- `update_stats`: the first workspace of an iteration takes the statistics, and will print them.
abbrev pub update_stats : ℕ → System → System
update_stats i s =
    let t = s.threads i in
    record s {
      completed_ws_num = (s.completed_ws_num + 1) % 2 ^ 8;
      end_signal = true;
      threads = update s.threads i (record t {
        place = updated;
        stats_init_ws = if s.end_signal then t.stats_init_ws else true;
      });
    }

-- The end of an iteration, and the next one.
abbrev pub print_and_reset : ℕ → System → System
print_and_reset i s =
    let t = s.threads i in
    let next = record t { place = begin; iteration = t.iteration + 1; stats_init_ws = false } in
    if t.stats_init_ws
    then record {
      completed_ws_num = 0;
      end_signal = false;
      printed = s.printed ++ (i ∷ []);
      threads = update s.threads i next;
    }
    else put s i next

-- The loop of a dispatcher ends when all have completed; a worker does not wait for that.
abbrev pub may_end : ℕ → System → ℕ → Bool
may_end n s i = if (s.threads i).is_dispatcher then s.completed_ws_num == n else true

-- How often a thread has entered the barrier.
abbrev pub entered_at : Place → ℕ → ℕ
entered_at begin k = 2 * k
entered_at at_start k = 2 * k + 1
entered_at running k = 2 * k + 1
entered_at updated k = 2 * k + 1
entered_at at_end k = 2 * k + 2
entered_at after_end k = 2 * k + 2

abbrev pub entered : Thread → ℕ
entered t = entered_at t.place t.iteration

-- A thread in its `m`-th wait may go on: all have entered it.
abbrev pub Opens : ℕ → System → ℕ → Type 0
Opens n s m = (j : ℕ) → j < n → m ≤ entered (s.threads j)

pub data Step (n iterations : ℕ) (s : System) : System → Type 0 where
  starts :
      (i : ℕ)
      → i < n
      → (s.threads i).place ≡ begin
      → (s.threads i).iteration < iterations
      → Step n iterations s (move s i at_start)
  runs :
      (i : ℕ)
      → i < n
      → (s.threads i).place ≡ at_start
      → Opens n s (entered (s.threads i))
      → Step n iterations s (move s i running)
  updates : (i : ℕ) → i < n → (s.threads i).place ≡ running → Step n iterations s (update_stats i s)
  ends :
      (i : ℕ)
      → i < n
      → (s.threads i).place ≡ updated
      → may_end n s i ≡ true
      → Step n iterations s (move s i at_end)
  leaves :
      (i : ℕ)
      → i < n
      → (s.threads i).place ≡ at_end
      → Opens n s (entered (s.threads i))
      → Step n iterations s (move s i after_end)
  resets :
      (i : ℕ) → i < n → (s.threads i).place ≡ after_end → Step n iterations s (print_and_reset i s)

-- Before the first iteration; `ds` tells which workspaces have a dispatcher.
abbrev pub start : (ℕ → Bool) → System
start ds = record {
  completed_ws_num = 0;
  end_signal = false;
  printed = [];
  threads =
      λ i. record { place = begin; iteration = 0; is_dispatcher = ds i; stats_init_ws = false };
}

pub data Reach (n iterations : ℕ) (ds : ℕ → Bool) : System → Type 0 where
  here : Reach n iterations ds (start ds)
  moved : {s t : System} → Reach n iterations ds s → Step n iterations s t → Reach n iterations ds t
