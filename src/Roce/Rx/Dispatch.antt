-- ===== src/Roce/Rx/Dispatch.antt =====
-- One turn of `dispatch_rx_pkts`: the choice of a queue, and how many packets the queues hold.
use native.Mathlib.Nat.{mod-lt}
use mathlib.Core.Path.{subst}
use axio_emulator.Prelude.{
  ℕ, zero, suc, ◌+◌, ◌%◌, ◌^◌, ◌≤◌, ◌<◌, ◌≡◌, refl, sym, ◌∙◌, List, [], ◌∷◌, some, Bool, length,
  length-append, length-set, get_or, set, if◌then◌else◌, arith,
}
use axio_emulator.Queue.{LockFreeQueue, enqueue}
use axio_emulator.Queue.Refine.{
  IsValid, contents, fifo_enqueue, enqueue_refines, enqueue-IsValid, set-IsValid,
}
use axio_emulator.Rules.{RuleTable, rr_select}
use axio_emulator.Roce.Rx.{RxRing, rx_queue_at, dispatch_to}

-- How many packets the workers' queues hold together.
abbrev pub held : List LockFreeQueue → ℕ
held [] = 0
held (q ∷ qs) = length (contents q) + held qs

held-set :
    (qs : List LockFreeQueue) (i : ℕ) (q : LockFreeQueue)
    → i < length qs
    → held (set qs i q) + length (contents (rx_queue_at qs i)) ≡ held qs + length (contents q)
held-set [] i q lt = absurd (omega arith)
held-set (x ∷ xs) zero q lt = omega arith
held-set (x ∷ xs) (suc i) q lt = omega (arith, held-set xs i q (omega arith))

-- The routes lead to queues.
pub record IsRouted (r : RuleTable) (n : ℕ) : Type 0 where
  pub in_range : (t j : ℕ) → j < length (r.table t) → get_or (r.table t) j 0 < n

pub record IsReceiver (rx : RxRing) : Type 0 where
  pub queues : (i : ℕ) → IsValid (rx_queue_at rx.ws_rx_queues i)
  pub routed : IsRouted rx.rule_table (length rx.ws_rx_queues)

pub record Selected (r : RuleTable) (type n : ℕ) : Type 0 where
  pub ws_id : ℕ
  pub after : RuleTable
  pub runs : rr_select r type ≡ some (ws_id, after)
  pub chosen : ws_id ≡ get_or (r.table type) (r.select_idx % length (r.table type)) 0
  pub next : after ≡ record r { select_idx = (r.select_idx + 1) % 2 ^ 64 }
  pub in_range : ws_id < n
  pub routed : IsRouted after n

-- A type that has a route.
pub select :
    (r : RuleTable) (type n : ℕ) → IsRouted r n → 0 < length (r.table type) → Selected r type n
unfolding rr_select
select r type n v pos =
    let len = length (r.table type) in
    record {
      ws_id = get_or (r.table type) (r.select_idx % len) 0;
      after = record r { select_idx = (r.select_idx + 1) % 2 ^ 64 };
      runs = ground arith;
      chosen = refl;
      next = refl;
      in_range = v.in_range type (r.select_idx % len) (mod-lt r.select_idx pos);
      routed = record { in_range = v.in_range };
    }

enqueue-length :
    (q : LockFreeQueue) (p : ℕ)
    → IsValid q
    → length (contents (enqueue q p).1)
      ≡ (if (enqueue q p).0 then length (contents q) + 1 else length (contents q))
unfolding fifo_enqueue
enqueue-length q p v =
    let e = enqueue_refines {q = q} p v in ground (arith, e, length-append (contents q) (p ∷ []))

-- What `n` turns of the loop do: `total` packets more are in the queues.
pub record Dispatched (n : ℕ) (rx out : RxRing) (total : ℕ) : Type 0 where
  pub valid : IsReceiver out
  pub held_num : held out.ws_rx_queues ≡ held rx.ws_rx_queues + total
  pub bound : total ≤ n
  pub ring_head : out.ring_head ≡ rx.ring_head
  pub wait : out.wait_for_disp ≡ rx.wait_for_disp

pub dispatch_to-Dispatched :
    (ws_id : ℕ) (table : RuleTable) (entry : ℕ) (rx : RxRing)
    → IsReceiver rx
    → ws_id < length rx.ws_rx_queues
    → IsRouted table (length rx.ws_rx_queues)
    → Dispatched 1 rx
        (dispatch_to ws_id table entry rx).1
        (if (dispatch_to ws_id table entry rx).0 then 1 else 0)
unfolding dispatch_to
dispatch_to-Dispatched ws_id table entry rx v lt routes =
    let q = rx_queue_at rx.ws_rx_queues ws_id in
    let q' = (enqueue q entry).1 in
    let more = enqueue-length q entry (v.queues ws_id) in
    let sum = held-set rx.ws_rx_queues ws_id q' lt in
    record {
      valid = record {
        queues = λ i.
            set-IsValid rx.ws_rx_queues ws_id i q' v.queues
              (enqueue-IsValid entry (v.queues ws_id));
        routed = subst (IsRouted table) (sym (length-set rx.ws_rx_queues ws_id q')) routes;
      };
      held_num = ground (arith, more, sum);
      bound = ground arith;
      ring_head = refl;
      wait = refl;
    }

pub Dispatched-suc :
    (n : ℕ) (rx mid out : RxRing) (fits : Bool) (total : ℕ)
    → Dispatched 1 rx mid (if fits then 1 else 0)
    → Dispatched n mid out total
    → Dispatched (suc n) rx out (if fits then total + 1 else total)
Dispatched-suc n rx mid out fits total a b = record {
  valid = b.valid;
  held_num = ground (arith, a.held_num, b.held_num);
  bound = ground (arith, b.bound);
  ring_head = b.ring_head ∙ a.ring_head;
  wait = b.wait ∙ a.wait;
}
