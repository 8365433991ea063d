-- ===== src/Dpdk/Rx/Routes.antt =====
-- How one packet is dispatched over DPDK, and how often a packet is in the queues of the workers.
use mathlib.Core.Path.{subst}
use axio_emulator.Prelude.{
  ℕ, zero, suc, ◌+◌, ◌<◌, ◌≡◌, refl, sym, ap, ◌∙◌, List, [], ◌∷◌, ◌++◌, Bool, true, false, some,
  length, length-set, set, count, count-append, get_or-set_self, ltb, Bool-cases, inl, inr,
  if◌then◌else◌, arith,
}
use axio_emulator.Queue.{LockFreeQueue, init, enqueue}
use axio_emulator.Queue.Refine.{
  IsValid, contents, capacity, used, length-slots, fifo_enqueue, enqueue_refines, enqueue-IsValid,
  set-IsValid,
}
use axio_emulator.Rules.{RuleTable}
use axio_emulator.Roce.Rx.{rx_queue_at}
use axio_emulator.Roce.Rx.Dispatch.{IsRouted, select}
use axio_emulator.Dpdk.{Mem, Port, Dispatcher}
use axio_emulator.Dpdk.Header.{is_arp_packet, resolve_pkt_hdr}
use axio_emulator.Dpdk.Rx.{Pass, enqueued, full, dispatch_to, dispatch_one}

-- How often a packet is in the queues of the workers.
abbrev pub spread : ℕ → List LockFreeQueue → ℕ
spread x [] = 0
spread x (q ∷ qs) = count x (contents q) + spread x qs

pub spread-set :
    (x : ℕ) (qs : List LockFreeQueue) (i : ℕ) (q : LockFreeQueue)
    → i < length qs
    → spread x (set qs i q) + count x (contents (rx_queue_at qs i))
      ≡ spread x qs + count x (contents q)
spread-set x [] i q lt = absurd (omega arith)
spread-set x (y ∷ ys) zero q lt = omega arith
spread-set x (y ∷ ys) (suc i) q lt = omega (arith, spread-set x ys i q (omega arith))

pub record IsReceiver (d : Dispatcher) : Type 0 where
  pub queues : (i : ℕ) → IsValid (rx_queue_at d.ws_rx_queues i)
  pub routed : IsRouted d.rx_rule_table (length d.ws_rx_queues)

-- None of the packets is an ARP packet, and the type in the header of each has a route.
pub data Routable (table : ℕ → List ℕ) (mem : Mem) : List ℕ → Type 0 where
  all_done : Routable table mem []
  one_ip :
      {p : ℕ} {ps : List ℕ}
      → is_arp_packet (mem p) ≡ false
      → 0 < length (table (resolve_pkt_hdr (mem p)))
      → Routable table mem ps
      → Routable table mem (p ∷ ps)

pub record Kept (d out : Dispatcher) : Type 0 where
  pub valid : IsReceiver out
  pub mem : out.mem ≡ d.mem
  pub table : out.rx_rule_table.table ≡ d.rx_rule_table.table
  pub freed : out.freed ≡ d.freed

pub dispatch_to-Kept :
    (ws_id : ℕ) (table : RuleTable) (p : ℕ) (d : Dispatcher)
    → IsReceiver d
    → IsRouted table (length d.ws_rx_queues)
    → table.table ≡ d.rx_rule_table.table
    → Kept d (dispatch_to ws_id table p d).1
unfolding dispatch_to
dispatch_to-Kept ws_id table p d v routes same =
    let q' = (enqueue (rx_queue_at d.ws_rx_queues ws_id) p).1 in
    record {
      valid = record {
        queues = λ i.
            set-IsValid d.ws_rx_queues ws_id i q' v.queues (enqueue-IsValid p (v.queues ws_id));
        routed = subst (IsRouted table) (sym (length-set d.ws_rx_queues ws_id q')) routes;
      };
      mem = refl;
      table = same;
      freed = refl;
    }

-- How `enqueue` ends on a valid ring.
pub data Tried (q : LockFreeQueue) (p : ℕ) : Bool → LockFreeQueue → Type 0 where
  fits : {q' : LockFreeQueue} → contents q' ≡ contents q ++ (p ∷ []) → Tried q p true q'
  no_room :
      {q' : LockFreeQueue}
      → contents q' ≡ contents q
      → length (contents q) ≡ capacity
      → Tried q p false q'

pub enqueue-Tried :
    (q : LockFreeQueue) (p : ℕ) → IsValid q → Tried q p (enqueue q p).0 (enqueue q p).1
unfolding fifo_enqueue
enqueue-Tried q p v =
    let e = enqueue_refines {q = q} p v in
    let most = length-slots q.queue q.head (used q) in
    elim (Bool-cases (ltb (length (contents q)) capacity)) [
      | inl lt ↦
          let done : (enqueue q p).0 ≡ true = ground (arith, e, lt) in
          rw done (fits (ground (arith, e, lt)))
      | inr ge ↦
          let failed : (enqueue q p).0 ≡ false = ground (arith, e, ge) in
          rw failed (no_room (ground (arith, e, ge)) (ground (arith, most, ge)))
    ]

-- How a packet is dispatched.
pub data Routes (d : Dispatcher) (p : ℕ) : Pass → Dispatcher → Type 0 where
  went :
      {out : Dispatcher}
      → Kept d out
      → ((x : ℕ) → spread x out.ws_rx_queues ≡ spread x d.ws_rx_queues + count x (p ∷ []))
      → Routes d p enqueued out
  stuck :
      {out : Dispatcher} (i : ℕ)
      → Kept d out
      → ((x : ℕ) → spread x out.ws_rx_queues ≡ spread x d.ws_rx_queues)
      → length (contents (rx_queue_at out.ws_rx_queues i)) ≡ capacity
      → Routes d p full out

pub dispatch_to-Routes :
    (ws_id : ℕ) (table : RuleTable) (p : ℕ) (d : Dispatcher)
    → IsReceiver d
    → ws_id < length d.ws_rx_queues
    → IsRouted table (length d.ws_rx_queues)
    → table.table ≡ d.rx_rule_table.table
    → Routes d p (dispatch_to ws_id table p d).0 (dispatch_to ws_id table p d).1
unfolding dispatch_to
dispatch_to-Routes ws_id table p d v lt routes unchanged =
    let q = rx_queue_at d.ws_rx_queues ws_id in
    let kept = dispatch_to-Kept ws_id table p d v routes unchanged in
    tried kept (enqueue q p).0 (enqueue q p).1 (enqueue-Tried q p (v.queues ws_id)) kept
  where
    tried :
        Kept d (dispatch_to ws_id table p d).1
        → (done : Bool) (q' : LockFreeQueue) → Tried (rx_queue_at d.ws_rx_queues ws_id) p done q'
        → Kept d (record d { ws_rx_queues = set d.ws_rx_queues ws_id q'; rx_rule_table = table })
        → Routes d p
            (if done then enqueued else full)
            (record d { ws_rx_queues = set d.ws_rx_queues ws_id q'; rx_rule_table = table })
    tried k true q' (fits e) kept = went kept (λ x.
        let c = count-append x (contents (rx_queue_at d.ws_rx_queues ws_id)) (p ∷ []) in
        let e' = ap (count x) e in omega (arith, spread-set x d.ws_rx_queues ws_id q' lt, c, e'))
    tried k false q' (no_room e f) kept =
        stuck ws_id kept
          (λ x.
            let e' = ap (count x) e in omega (arith, spread-set x d.ws_rx_queues ws_id q' lt, e'))
          (ap (λ r. length (contents r)) (get_or-set_self d.ws_rx_queues ws_id q' init lt)
            ∙ ap length e
            ∙ f)

pub dispatch_one-Routes :
    (alloc : ℕ → ℕ) (accepts : ℕ → ℕ → Bool) (port : Port) (p : ℕ) (d : Dispatcher)
    → IsReceiver d
    → is_arp_packet (d.mem p) ≡ false
    → 0 < length (d.rx_rule_table.table (resolve_pkt_hdr (d.mem p)))
    → (pass : Pass) × (out : Dispatcher) × (dispatch_one alloc accepts port p d ≡ some (pass, out))
      × Routes d p pass out
unfolding dispatch_one
dispatch_one-Routes alloc accepts port p d v ip route =
    let s =
      select d.rx_rule_table (resolve_pkt_hdr (d.mem p)) (length d.ws_rx_queues) v.routed route in
    (
      (dispatch_to s.ws_id s.after p d).0,
      (dispatch_to s.ws_id s.after p d).1,
      rw (ip, s.runs) refl,
      dispatch_to-Routes s.ws_id s.after p d v s.in_range s.routed (ap (λ r. r.table) s.next),
    )
