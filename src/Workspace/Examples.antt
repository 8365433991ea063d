-- ===== src/Workspace/Examples.antt =====
-- A client with two buffers to send and one response.
use axio_emulator.Prelude.{
  suc, ◌≡◌, refl, ap, [], ◌∷◌, true, some, replicate, length-replicate, arith,
}
use axio_emulator.Queue.{LockFreeQueue, init}
use axio_emulator.Queue.Refine.{IsValid, init-IsValid}
use axio_emulator.HugeAlloc.{app_owned}
use axio_emulator.Mbuf.{Mem}
use axio_emulator.Rules.{RuleTable, add_route, rr_select}
use axio_emulator.Rules
use axio_emulator.Workspace.{Params, Workspace, generate_pkts, app_handler}
use axio_emulator.Workspace.Generate.{Generated, generate_pkts-Generated}
use axio_emulator.Workspace.Receive.{Handled, app_handler-Received}

abbrev params : Params
params = record {
  request_pkts_num = 1;
  response_pkts_num = 1;
  tx_msg_batch_size = 2;
  rx_msg_batch_size = 1;
  full_padding_size = 1458;
  last_padding_size = 982;
}

abbrev memory : Mem
memory = λ p. record {
  length = 80;
  state = app_owned;
  next = 0;
  udp = record { source = 0; dest = 0 };
  ws = record { workload_type = 1; segment_num = 1 };
  payload = [];
}

abbrev one_response : LockFreeQueue
one_response = record { queue = 7 ∷ replicate 4095 0; head = 0; tail = 1 }

one_response-IsValid : IsValid one_response
one_response-IsValid = record {
  storage = ap suc (length-replicate 4095 0);
  head_in = omega arith;
  tail_in = omega arith;
}

abbrev rules : RuleTable
rules = add_route Rules.init 1 5

abbrev client : Workspace
client = record {
  ws_id = 0;
  workload_type = 1;
  infly_flag = true;
  tx_mbuf = 3 ∷ 4 ∷ [];
  tx_queue = init;
  rx_queue = one_response;
  rule_table = rules;
  mem = memory;
  app_tx = 0;
  app_drops = 0;
  app_rx = 0;
  apply_mbuf_stalls = 0;
}

selected : rr_select rules 1 ≡ some (5, record rules { select_idx = 1 })
unfolding rr_select add_route Rules.init
selected = refl

generate_pkts_example :
    (out : Workspace) × (generate_pkts params client ≡ some out) × Generated params client out
generate_pkts_example =
    generate_pkts-Generated params client 5 (record rules { select_idx = 1 }) refl selected
      init-IsValid (omega arith)

app_handler_example : Handled params client (app_handler params client)
app_handler_example = app_handler-Received params client one_response-IsValid
