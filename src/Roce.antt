-- ===== src/Roce.antt =====
-- src/dispatcher_impl/roce/roce_dispatcher_dataplane.cc, and the fields that it uses of
-- roce_dispatcher.h, with the RC transport. What the NIC does enters by arguments: how many send
-- completions a poll returns, and the lengths of the packets received.
pub mod Tx
pub mod Connect
pub mod Setup
pub mod Collect
pub mod Rx
use axio_emulator.Prelude.{ℕ}

-- `NODE_TYPE`.
pub data Node : Type 0 where
  client server : Node

-- `kSQDepth`, `kRQDepth`, `kNumTxRingEntries`, `kNumRxRingEntries`.
abbrev pub depth : ℕ
depth = 2048
