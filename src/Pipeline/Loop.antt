-- ===== src/Pipeline/Loop.antt =====
-- What `generate_ws_loop` puts in a workspace's loop.
use axio_emulator.Prelude.{ℕ, List, [], ◌∷◌, Bool, true, false, ◌||◌, ◌&&◌, not}
use axio_emulator.Pipeline.{Func, PipePhase, WorkloadPipe, check_ws_id, mem}

-- No function stands twice in the list.
pub unique : List Func → Bool
unique [] = true
unique (f ∷ fs) = not (mem f fs) && unique fs

-- Some phase that runs on the workspace has `f` in its loop.
pub in_phases : ℕ → Func → List PipePhase → Bool
in_phases ws_id f [] = false
in_phases ws_id f (p ∷ ps) = (check_ws_id p ws_id && mem f p.loop) || in_phases ws_id f ps

pub in_pipes : ℕ → Func → List WorkloadPipe → Bool
in_pipes ws_id f [] = false
in_pipes ws_id f (w ∷ ws) = in_phases ws_id f w.pipeline || in_pipes ws_id f ws
