-- ===== src/Setup/Wired.antt =====
-- `set_dispatcher_config`: a dispatcher gets the queues of its own workers, and routes to them only.
use axio_emulator.Prelude.{List}
