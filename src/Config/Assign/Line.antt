-- ===== src/Config/Assign/Line.antt =====
-- The values of a line, in order.
use axio_emulator.Prelude.{◌≡◌}
use axio_emulator.Config.Workload.{Workloads}
use axio_emulator.Config.Assign.Groups.{Configured}

-- A value other than the groups leaves the groups alone.
record Beside (w out : Workloads) : Type 0 where
  configured : Configured w out
  appws : out.appws ≡ w.appws
