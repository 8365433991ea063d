-- ===== src/Roce/Rx/Deliver.antt =====
-- `dispatch_rx_pkts` as a delivery of packets to bounded lists, in the order of the ring and by the
-- routes of their types in turn.
use mathlib.Core.Path.{subst}
use native.Mathlib.Decide.{ℕ_discrete}
use axio_emulator.Prelude.{
  ℕ, zero, suc, ◌+◌, ◌%◌, ◌^◌, ◌<◌, ◌≡◌, ◌≢◌, refl, sym, ap, ap₂, ◌∙◌, List, [], ◌∷◌, some, true,
  false, length, length-set, get_or, get_or-set_self, get_or-set_ne, ◌==◌, if◌then◌else◌, arith,
}
use axio_emulator.HugeAlloc.{BufferState, app_owned, free}
use axio_emulator.Queue.{init, enqueue}
use axio_emulator.Queue.Refine.{contents, fifo_enqueue, enqueue_refines}
use axio_emulator.Rules.{RuleTable, update}
use axio_emulator.Mbuf.{Mem, extract_ws_hdr, set_state}
use axio_emulator.Roce.{depth}
use axio_emulator.Roce.Rx.{RxRing, rx_queue_at, dispatch_to, dispatch_loop, dispatch_rx_pkts}
use axio_emulator.Roce.Rx.Dispatch.{
  held, IsReceiver, select, Dispatched, dispatch_to-Dispatched, Dispatched-suc,
}

-- `n` buffers from `entry` on, by their `next_`, with the types in their headers.
abbrev pub waiting : ℕ → ℕ → Mem → List (ℕ × ℕ)
waiting zero entry mem = []
waiting (suc n) entry mem = (entry, (mem entry).ws.workload_type) ∷ waiting n (mem entry).next mem

-- Each of the types has a route.
abbrev pub HasRoutes : (ℕ → List ℕ) → List (ℕ × ℕ) → Type 0
HasRoutes table [] = Unit {0}
HasRoutes table (p ∷ ps) = (0 < length (table p.1)) × HasRoutes table ps

-- The bounded list of each worker, and the states of the buffers.
pub record Delivery : Type 0 where
  pub queue : ℕ → List ℕ
  pub state : ℕ → BufferState

-- A packet for a worker: into its list if there is room, and free otherwise.
abbrev pub give : ℕ → ℕ → Delivery → Delivery
give ws_id p s =
    let (fits, q) = fifo_enqueue (s.queue ws_id) p in
    record {
      queue = update s.queue ws_id q;
      state = update s.state p (if fits then app_owned else free);
    }

-- Each packet for the route of its type whose turn it is.
abbrev pub deliver : (ℕ → List ℕ) → ℕ → List (ℕ × ℕ) → Delivery → Delivery
deliver table turn [] s = s
deliver table turn (p ∷ ps) s =
    deliver table ((turn + 1) % 2 ^ 64) ps
      (give (get_or (table p.1) (turn % length (table p.1)) 0) p.0 s)

-- What a dispatcher has is what was delivered.
pub record IsDelivered (rx : RxRing) (s : Delivery) : Type 0 where
  pub queues :
      (i : ℕ) → i < length rx.ws_rx_queues → contents (rx_queue_at rx.ws_rx_queues i) ≡ s.queue i
  pub states : (p : ℕ) → (rx.mem p).state ≡ s.state p

==_same : (i : ℕ) → (i == i) ≡ true
==_same i = ground arith

==_other : (i j : ℕ) → i ≢ j → (i == j) ≡ false
==_other i j ne = ground arith

set_state-next :
    (mem : Mem) (p q : ℕ) (st : BufferState) → (set_state mem p st q).next ≡ (mem q).next
unfolding set_state
set_state-next mem p q st = elim (ℕ_discrete q p) [
  | yes e ↦ rw (e, ==_same p) refl
  | no ne ↦ rw (==_other q p ne) refl
]

set_state-ws : (mem : Mem) (p q : ℕ) (st : BufferState) → (set_state mem p st q).ws ≡ (mem q).ws
unfolding set_state
set_state-ws mem p q st = elim (ℕ_discrete q p) [
  | yes e ↦ rw (e, ==_same p) refl
  | no ne ↦ rw (==_other q p ne) refl
]

set_state-state :
    (mem : Mem) (p q : ℕ) (st : BufferState)
    → (set_state mem p st q).state ≡ (if q == p then st else (mem q).state)
unfolding set_state
set_state-state mem p q st = elim (ℕ_discrete q p) [
  | yes e ↦ rw (e, ==_same p) refl
  | no ne ↦ rw (==_other q p ne) refl
]

waiting-set_state :
    (n entry : ℕ) (mem : Mem) (p : ℕ) (st : BufferState)
    → waiting n entry (set_state mem p st) ≡ waiting n entry mem
waiting-set_state zero entry mem p st = refl
waiting-set_state (suc n) entry mem p st =
    ap₂ ◌∷◌ (ap (λ h. (entry, h.workload_type)) (set_state-ws mem p entry st)) (
      ap (λ e. waiting n e (set_state mem p st)) (set_state-next mem p entry st)
      ∙ waiting-set_state n (mem entry).next mem p st)

give-IsDelivered :
    (ws_id : ℕ) (table : RuleTable) (entry : ℕ) (rx : RxRing) (s : Delivery)
    → IsReceiver rx
    → ws_id < length rx.ws_rx_queues
    → IsDelivered rx s
    → IsDelivered (dispatch_to ws_id table entry rx).1 (give ws_id entry s)
unfolding dispatch_to
give-IsDelivered ws_id table entry rx s v lt d =
    let q = rx_queue_at rx.ws_rx_queues ws_id in
    let e =
      enqueue_refines {q = q} entry (v.queues ws_id)
      ∙ ap (λ xs. fifo_enqueue xs entry) (d.queues ws_id lt) in
    let q' = (enqueue q entry).1 in
    record {
      queues = λ i below. elim (ℕ_discrete i ws_id) [
        | yes at ↦
            rw (at, ==_same ws_id)
              (ap contents (get_or-set_self rx.ws_rx_queues ws_id q' init lt) ∙ ap (λ x. x.1) e)
        | no ne ↦ rw (==_other i ws_id ne) (
            ap contents (get_or-set_ne rx.ws_rx_queues ws_id i q' init (λ e. ne (sym e)))
            ∙ d.queues i (omega (arith, length-set rx.ws_rx_queues ws_id q', below)))
      ];
      states = λ p.
          set_state-state rx.mem entry p (if (enqueue q entry).0 then app_owned else free)
          ∙ ap₂ (λ b st. if p == entry then (if b then app_owned else free) else st)
              (ap (λ x. x.0) e) (d.states p);
    }

-- What is left to dispatch after a packet.
dispatch_to-waiting :
    (n ws_id : ℕ) (table : RuleTable) (entry : ℕ) (rx : RxRing)
    → let mid = (dispatch_to ws_id table entry rx).1 in
      waiting n (mid.mem entry).next mid.mem ≡ waiting n (rx.mem entry).next rx.mem
unfolding dispatch_to
dispatch_to-waiting n ws_id table entry rx =
    let st = if (enqueue (rx_queue_at rx.ws_rx_queues ws_id) entry).0 then app_owned else free in
    ap (λ e. waiting n e (set_state rx.mem entry st)) (set_state-next rx.mem entry entry st)
    ∙ waiting-set_state n (rx.mem entry).next rx.mem entry st

dispatch_to-table :
    (ws_id : ℕ) (table : RuleTable) (entry : ℕ) (rx : RxRing)
    → (dispatch_to ws_id table entry rx).1.rule_table ≡ table
unfolding dispatch_to
dispatch_to-table ws_id table entry rx = refl

-- The loop delivers what waits.
record Delivered (n entry : ℕ) (rx : RxRing) (s : Delivery) : Type 0 where
  out : RxRing
  total : ℕ
  runs : dispatch_loop n entry rx ≡ some (out, total)
  counts : Dispatched n rx out total
  same :
      IsDelivered out
        (deliver rx.rule_table.table rx.rule_table.select_idx (waiting n entry rx.mem) s)

dispatch_loop-Delivered :
    (n entry : ℕ) (rx : RxRing) (s : Delivery)
    → IsReceiver rx
    → HasRoutes rx.rule_table.table (waiting n entry rx.mem)
    → IsDelivered rx s
    → Delivered n entry rx s
unfolding dispatch_loop extract_ws_hdr
dispatch_loop-Delivered zero entry rx s v routes d = record {
  out = rx;
  total = 0;
  runs = refl;
  counts = record {
    valid = v;
    held_num = omega arith;
    bound = omega arith;
    ring_head = refl;
    wait = refl;
  };
  same = d;
}
dispatch_loop-Delivered (suc n) entry rx s v routes d =
    let type = (rx.mem entry).ws.workload_type in
    let c = select rx.rule_table type (length rx.ws_rx_queues) v.routed routes.0 in
    let one = dispatch_to-Dispatched c.ws_id c.after entry rx v c.in_range c.routed in
    let given = give-IsDelivered c.ws_id c.after entry rx s v c.in_range d in
    let (fits, mid) = dispatch_to c.ws_id c.after entry rx in
    let left = dispatch_to-waiting n c.ws_id c.after entry rx in
    let next = dispatch_to-table c.ws_id c.after entry rx ∙ c.next in
    let more =
      dispatch_loop-Delivered n (mid.mem entry).next mid (give c.ws_id entry s) one.valid
        (subst (HasRoutes mid.rule_table.table) (sym left) (
          subst (λ r. HasRoutes r.table (waiting n (rx.mem entry).next rx.mem)) (sym next)
            routes.1))
        given in
    let rest = waiting n (rx.mem entry).next rx.mem in
    let moved =
      ap (λ ws. deliver mid.rule_table.table mid.rule_table.select_idx ws (give c.ws_id entry s))
        left
      ∙ ap (λ (r : RuleTable). deliver r.table r.select_idx rest (give c.ws_id entry s)) next
      ∙ ap
          (λ i.
            deliver rx.rule_table.table ((rx.rule_table.select_idx + 1) % 2 ^ 64) rest
              (give i entry s))
          c.chosen in
    record {
      out = more.out;
      total = if fits then more.total + 1 else more.total;
      runs = rw (c.runs, dispatch_loop, more.runs) refl;
      counts = Dispatched-suc n rx mid more.out fits more.total one more.counts;
      same = subst (IsDelivered more.out) moved more.same;
    }

-- What is delivered before the dispatch.
abbrev pub before : RxRing → Delivery
before rx = record {
  queue = λ i. contents (rx_queue_at rx.ws_rx_queues i);
  state = λ p. (rx.mem p).state;
}

-- The packets that wait, from the head of the ring on.
abbrev pub all_waiting : RxRing → List (ℕ × ℕ)
all_waiting rx = waiting rx.wait_for_disp (get_or rx.rx_ring rx.ring_head 0) rx.mem

-- When the routes lead to queues and the type of each packet that waits has a route, the dispatch
-- runs to its end and is the delivery of these packets to bounded lists: each goes, in the order of
-- the ring, to the worker whose turn it is among the routes of its type, and is the application's,
-- or, if that worker's list is full, is free again. The number returned is that by which the queues
-- have grown, the queues stay well formed, none waits any more, and the head moves past all of them.
pub dispatch_rx_pkts-Delivered :
    (rx : RxRing)
    → IsReceiver rx
    → HasRoutes rx.rule_table.table (all_waiting rx)
    → (out : RxRing) × (total : ℕ) × (dispatch_rx_pkts rx ≡ some (out, total))
      × IsReceiver out
      × IsDelivered out
          (deliver rx.rule_table.table rx.rule_table.select_idx (all_waiting rx) (before rx))
      × (held out.ws_rx_queues ≡ held rx.ws_rx_queues + total)
      × (out.wait_for_disp ≡ 0)
      × (out.ring_head ≡ (rx.ring_head + rx.wait_for_disp) % depth)
unfolding dispatch_rx_pkts
dispatch_rx_pkts-Delivered rx v routes =
    let d =
      dispatch_loop-Delivered rx.wait_for_disp (get_or rx.rx_ring rx.ring_head 0) rx (before rx) v
        routes (record { queues = λ i lt. refl; states = λ p. refl }) in
    (
      record d.out {
        ring_head = (d.out.ring_head + d.out.wait_for_disp) % depth;
        wait_for_disp = 0;
      },
      d.total,
      rw (d.runs, dispatch_rx_pkts) refl,
      record { queues = d.counts.valid.queues; routed = d.counts.valid.routed },
      record { queues = d.same.queues; states = d.same.states },
      d.counts.held_num,
      refl,
      ap₂ (λ a b. (a + b) % depth) d.counts.ring_head d.counts.wait,
    )
