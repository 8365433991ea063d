-- ===== src/Server/Examples.antt =====
-- A server with two requests and one response packet for each.
use axio_emulator.Prelude.{◌≡◌, refl, ◌≢◌, [], ◌∷◌, some}
use axio_emulator.Queue.{init}
use axio_emulator.Queue.Refine.{init-IsValid}
use axio_emulator.HugeAlloc.{app_owned}
use axio_emulator.Mbuf.{Mem}
use axio_emulator.Rules.{RuleTable, rr_select}
use axio_emulator.Server.{empty, m_app, ServerParams, Server, msg_handler_server}
use axio_emulator.Server.Respond.{Responded, msg_handler_server-Responded}

abbrev params : ServerParams
params = record {
  request_pkts_num = 1;
  response_pkts_num = 1;
  response_payload_size = 86;
  memory_access_range = 1024;
  stateful_memory_size = 262144;
  mtu = 1024;
}

abbrev memory : Mem
memory = λ p. record {
  length = 80;
  state = app_owned;
  next = 0;
  udp = record { source = 0; dest = 0 };
  ws = record { workload_type = 1; segment_num = 1 };
  payload = [];
}

abbrev rules : RuleTable
rules = record { table = λ t. 5 ∷ []; infly_budget = λ t. some 100; select_idx = 0 }

abbrev server : Server
server = record {
  ws_id = 3;
  workload_type = 1;
  tx_queue = init;
  rule_table = rules;
  mem = memory;
  stateful_words = λ i. 0;
  stateful_blocks = λ i. [];
  access_ptr = 0;
  app_drops = 0;
}

selected : rr_select rules 1 ≡ some (5, record rules { select_idx = 1 })
unfolding rr_select
selected = refl

m_app_ne : m_app ≢ empty
m_app_ne e = cc

msg_handler_server_example :
    (out : Server) × (msg_handler_server params m_app (3 ∷ 4 ∷ []) 2 server ≡ some out)
    × Responded params m_app (3 ∷ 4 ∷ []) 2 server out
msg_handler_server_example =
    msg_handler_server-Responded params m_app (3 ∷ 4 ∷ []) 2 server 5
      (record rules { select_idx = 1 }) m_app_ne selected init-IsValid
