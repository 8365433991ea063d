-- ===== src/Server/Respond.antt =====
-- What a server does with a batch of requests.
use mathlib.Core.Path.{subst}
use axio_emulator.Prelude.{
  ap₂, ℕ, zero, suc, ◌+◌, ◌*◌, ◌/◌, ◌<◌, ◌≡◌, refl, sym, ap, ◌∙◌, ◌≢◌, List, [], ◌∷◌, ◌++◌, some,
  length, get_or, take, drop, ltb, Bool-cases, inl, inr, arith,
}
use axio_emulator.Queue.Refine.{IsValid, contents}
use axio_emulator.Queue.Bulk.{enqueue_all, enqueue_all-Inserted, room}
use axio_emulator.Rules.{RuleTable, rr_select}
use axio_emulator.Mbuf.{Mem, UdpHdr, WsHdr, set_payload, de_alloc_bulk}
use axio_emulator.Mbuf.Payload.{set_payload-ws}
use axio_emulator.Mbuf.Free.{de_alloc_bulk-ws}
use axio_emulator.Server.{
  MsgHandler, empty, t_app, l_app, m_app, fs_write, ServerParams, Server, respond, access_words,
  memory_intense_app, write_blocks, handle, send_responses, after_select, msg_handler_server,
}

-- How many of the packets a handler writes a response into.
abbrev pub filled : ServerParams → MsgHandler → ℕ → ℕ
filled k empty msg_num = 0
filled k t_app msg_num = msg_num * k.request_pkts_num
filled k l_app msg_num = msg_num * k.request_pkts_num
filled k m_app msg_num = msg_num * k.request_pkts_num
filled k fs_write msg_num = msg_num

keeps-ws :
    (ps : List ℕ) (uh : UdpHdr) (hdr : WsHdr) (size : ℕ) (mem : Mem) (q : ℕ)
    → (mem q).ws ≡ hdr
    → (respond ps uh hdr size mem q).ws ≡ hdr
unfolding respond
keeps-ws [] uh hdr size mem q e = e
keeps-ws (p ∷ ps) uh hdr size mem q e =
    keeps-ws ps uh hdr size (set_payload mem p uh hdr size) q
      ((set_payload-ws mem p q uh hdr size).1 e)

respond-ws :
    (ps : List ℕ) (uh : UdpHdr) (hdr : WsHdr) (size : ℕ) (mem : Mem) (i : ℕ)
    → i < length ps
    → (respond ps uh hdr size mem (get_or ps i 0)).ws ≡ hdr
unfolding respond
respond-ws [] uh hdr size mem i lt = absurd (omega arith)
respond-ws (p ∷ ps) uh hdr size mem zero lt =
    keeps-ws ps uh hdr size (set_payload mem p uh hdr size) p
      ((set_payload-ws mem p p uh hdr size).0)
respond-ws (p ∷ ps) uh hdr size mem (suc i) lt =
    respond-ws ps uh hdr size (set_payload mem p uh hdr size) i (omega arith)

-- The handlers leave the transmit queue and the counter of drops alone.
record SameQueue (s t : Server) : Type 0 where
  queue : t.tx_queue ≡ s.tx_queue
  drops : t.app_drops ≡ s.app_drops

access_words-same :
    (k : ServerParams) (n : ℕ) (s : Server)
    → SameQueue s (access_words k n s) × ((access_words k n s).mem ≡ s.mem)
unfolding access_words
access_words-same k zero s = (record { queue = refl; drops = refl }, refl)
access_words-same k (suc n) s =
    let (q, m) = access_words-same k n _ in (record { queue = q.queue; drops = q.drops }, m)

memory_intense_app-respond :
    (k : ServerParams) (ps : List ℕ) (uh : UdpHdr) (hdr : WsHdr) (s : Server)
    → SameQueue s (memory_intense_app k ps uh hdr s)
      × ((memory_intense_app k ps uh hdr s).mem ≡ respond ps uh hdr k.response_payload_size s.mem)
unfolding memory_intense_app respond
memory_intense_app-respond k [] uh hdr s = (record { queue = refl; drops = refl }, refl)
memory_intense_app-respond k (p ∷ ps) uh hdr s =
    let (a, kept) = access_words-same k (k.memory_access_range / 8) s in
    let (q, m) = memory_intense_app-respond k ps uh hdr _ in
    (
      record { queue = q.queue ∙ a.queue; drops = q.drops ∙ a.drops },
      m
          ∙ ap
              (λ mem.
                respond ps uh hdr k.response_payload_size
                  (set_payload mem p uh hdr k.response_payload_size))
              kept,
    )

write_blocks-same :
    (k : ServerParams) (ps : List ℕ) (s : Server)
    → SameQueue s (write_blocks k ps s) × ((write_blocks k ps s).mem ≡ s.mem)
unfolding write_blocks
write_blocks-same k [] s = (record { queue = refl; drops = refl }, refl)
write_blocks-same k (p ∷ ps) s =
    let (q, m) = write_blocks-same k ps _ in (record { queue = q.queue; drops = q.drops }, m)

-- What a handler has done: the responses are in the first packets.
record Filled (k : ServerParams) (h : MsgHandler) (msg : List ℕ) (msg_num : ℕ) (hdr : WsHdr)
    (s t : Server) : Type 0 where
  same : SameQueue s t
  headers :
      (i : ℕ)
      → i < length (take (filled k h msg_num) msg)
      → (t.mem (get_or (take (filled k h msg_num) msg) i 0)).ws ≡ hdr

handle-Filled :
    (k : ServerParams) (h : MsgHandler) (msg : List ℕ) (msg_num : ℕ) (uh : UdpHdr) (hdr : WsHdr)
    (s : Server)
    → Filled k h msg msg_num hdr s (handle k h msg msg_num uh hdr s)
unfolding handle
handle-Filled k empty msg msg_num uh hdr s = record {
  same = record { queue = refl; drops = refl };
  headers = λ i lt. absurd (omega arith);
}
handle-Filled k t_app msg msg_num uh hdr s = record {
  same = record { queue = refl; drops = refl };
  headers = respond-ws _ uh hdr k.response_payload_size s.mem;
}
handle-Filled k l_app msg msg_num uh hdr s = record {
  same = record { queue = refl; drops = refl };
  headers = respond-ws _ uh hdr k.response_payload_size s.mem;
}
handle-Filled k m_app msg msg_num uh hdr s =
    let ps = take (msg_num * k.request_pkts_num) msg in
    let (q, m) = memory_intense_app-respond k ps uh hdr s in
    record {
      same = q;
      headers = λ i lt.
          ap (λ mem. (mem (get_or ps i 0)).ws) m
          ∙ respond-ws ps uh hdr k.response_payload_size s.mem i lt;
    }
handle-Filled k fs_write msg msg_num uh hdr s =
    let (q, m) = write_blocks-same k (take (msg_num * k.request_pkts_num) msg) s in
    record {
      same = record { queue = q.queue; drops = q.drops };
      headers = respond-ws (take msg_num msg) uh hdr k.response_payload_size _;
    }

-- The packets that become responses.
abbrev pub responses : ServerParams → List ℕ → ℕ → List ℕ
responses k msg msg_num = take (msg_num * k.response_pkts_num) msg

pub record Responded (k : ServerParams) (h : MsgHandler) (msg : List ℕ) (msg_num : ℕ)
    (s out : Server) : Type 0 where
  pub valid : IsValid out.tx_queue
  pub queued :
      contents out.tx_queue
      ≡ contents s.tx_queue ++ take (room s.tx_queue) (responses k msg msg_num)
  pub drops :
      out.app_drops ≡ s.app_drops + length (drop (room s.tx_queue) (responses k msg msg_num))
  pub headers :
      (i : ℕ)
      → i < length (take (filled k h msg_num) msg)
      → (out.mem (get_or (take (filled k h msg_num) msg) i 0)).ws
        ≡ record { workload_type = s.workload_type; segment_num = k.response_pkts_num }

send_responses-ws :
    (k : ServerParams) (msg : List ℕ) (msg_num : ℕ) (s : Server) (q : ℕ)
    → ((send_responses k msg msg_num s).mem q).ws ≡ (s.mem q).ws
unfolding send_responses
send_responses-ws k msg msg_num s q =
    let dropped = (enqueue_all s.tx_queue (responses k msg msg_num)).1 in
    let first = de_alloc_bulk-ws dropped s.mem q in
    elim (Bool-cases (ltb (msg_num * k.response_pkts_num) (msg_num * k.request_pkts_num))) [
      | inl e ↦ rw e (de_alloc_bulk-ws _ (de_alloc_bulk s.mem dropped) q ∙ first)
      | inr e ↦ rw e first
    ]

send_responses-Responded :
    (k : ServerParams) (h : MsgHandler) (msg : List ℕ) (msg_num : ℕ) (s t : Server)
    → IsValid s.tx_queue
    → Filled k h msg msg_num
        (record { workload_type = s.workload_type; segment_num = k.response_pkts_num })
        s
        t
    → Responded k h msg msg_num s (send_responses k msg msg_num t)
unfolding send_responses
send_responses-Responded k h msg msg_num s t v f =
    let rs = responses k msg msg_num in
    let e = enqueue_all-Inserted rs (subst IsValid (sym f.same.queue) v) in
    record {
      valid = e.valid;
      queued = e.held ∙ ap (λ q. contents q ++ take (room q) rs) f.same.queue;
      drops =
          ap (λ xs. t.app_drops + length xs) e.dropped
          ∙ ap₂ (λ n q. n + length (drop (room q) rs)) f.same.drops f.same.queue;
      headers = λ i lt.
          send_responses-ws k msg msg_num t (get_or (take (filled k h msg_num) msg) i 0)
          ∙ f.headers i lt;
    }

after_select-some :
    (k : ServerParams) (h : MsgHandler) (msg : List ℕ) (msg_num : ℕ) (s : Server) (dest : ℕ)
    (table : RuleTable)
    → h ≢ empty
    → after_select k h msg msg_num s (some (dest, table))
      ≡ some (
          send_responses k msg msg_num (
            handle k h msg msg_num
              (record { source = s.ws_id; dest = dest })
              (record { workload_type = s.workload_type; segment_num = k.response_pkts_num })
              (record s { rule_table = table })))
unfolding after_select
after_select-some k empty msg msg_num s dest table ne = absurd (ne refl)
after_select-some k t_app msg msg_num s dest table ne = refl
after_select-some k l_app msg msg_num s dest table ne = refl
after_select-some k m_app msg msg_num s dest table ne = refl
after_select-some k fs_write msg msg_num s dest table ne = refl

-- For a type that has a route and a handler that is not empty, the first packets of the batch, one
-- for each response packet, go to the transmit queue in order while it has room, those dropped are
-- counted, and each packet that the handler writes a response into has the response's header.
pub msg_handler_server-Responded :
    (k : ServerParams) (h : MsgHandler) (msg : List ℕ) (msg_num : ℕ) (s : Server) (dest : ℕ)
    (table : RuleTable)
    → h ≢ empty
    → rr_select s.rule_table s.workload_type ≡ some (dest, table)
    → IsValid s.tx_queue
    → (out : Server) × (msg_handler_server k h msg msg_num s ≡ some out)
      × Responded k h msg msg_num s out
unfolding msg_handler_server
msg_handler_server-Responded k h msg msg_num s dest table ne route v =
    let uh : UdpHdr = record { source = s.ws_id; dest = dest } in
    let hdr : WsHdr = record {
      workload_type = s.workload_type;
      segment_num = k.response_pkts_num;
    } in
    let s' : Server = record s { rule_table = table } in
    let t = handle k h msg msg_num uh hdr s' in
    let f = handle-Filled k h msg msg_num uh hdr s' in
    let r = send_responses-Responded k h msg msg_num s t v (record {
      same = record { queue = f.same.queue; drops = f.same.drops };
      headers = f.headers;
    }) in
    (
      send_responses k msg msg_num t,
      ap (after_select k h msg msg_num s) route ∙ after_select-some k h msg msg_num s dest table ne,
      r,
    )
