-- ===== src/Dpdk/Rx/Dispatch.antt =====
-- DPDK's `dispatch_rx_pkts`, for packets none of which is an ARP packet: none is lost or doubled.
use mathlib.Core.Path.{subst}
use axio_emulator.Prelude.{
  ℕ, suc, ◌+◌, ◌≤◌, ◌<◌, ◌≡◌, refl, sym, ap, ◌∙◌, List, [], ◌∷◌, ◌++◌, Bool, some, length, take,
  drop, count, count-append, count-take-drop, arith,
}
use axio_emulator.Queue.Refine.{contents, capacity}
use axio_emulator.Roce.Rx.{rx_queue_at}
use axio_emulator.Dpdk.{Port, Dispatcher}
use axio_emulator.Dpdk.Echo.{received}
use axio_emulator.Dpdk.Rx.{free_rest, Pass, dispatch_one, dispatch_loop, dispatch_rx_pkts}
use axio_emulator.Dpdk.Rx.Routes.{
  spread, IsReceiver, Routable, all_done, one_ip, Kept, Routes, went, stuck, dispatch_one-Routes,
}

-- What the loop does with a list of packets.
pub record Done (ps : List ℕ) (d out : Dispatcher) (total : ℕ) : Type 0 where
  pub kept : Kept d out
  pub bound : total ≤ length ps
  pub moved :
      (x : ℕ) → spread x out.ws_rx_queues ≡ spread x d.ws_rx_queues + count x (take total ps)
  pub why :
      total < length ps → (i : ℕ) × (length (contents (rx_queue_at out.ws_rx_queues i)) ≡ capacity)

-- The packets that can be dispatched with the routes of the dispatcher.
abbrev pub AllRoutable : Dispatcher → List ℕ → Type 0
AllRoutable d ps = Routable d.rx_rule_table.table d.mem ps

Routable-Kept :
    {d out : Dispatcher} {ps : List ℕ} → Kept d out → AllRoutable d ps → AllRoutable out ps
Routable-Kept {d} {out} {ps} k n =
    subst (λ mem. Routable out.rx_rule_table.table mem ps) (sym k.mem)
      (subst (λ table. Routable table d.mem ps) (sym k.table) n)

Kept-trans : {d mid out : Dispatcher} → Kept d mid → Kept mid out → Kept d out
Kept-trans a b = record {
  valid = b.valid;
  mem = b.mem ∙ a.mem;
  table = b.table ∙ a.table;
  freed = b.freed ∙ a.freed;
}

Done-one :
    (p : ℕ) (ps : List ℕ) (d mid out : Dispatcher) (total : ℕ)
    → Kept d mid
    → ((x : ℕ) → spread x mid.ws_rx_queues ≡ spread x d.ws_rx_queues + count x (p ∷ []))
    → Done ps mid out total
    → Done (p ∷ ps) d out (total + 1)
Done-one p ps d mid out total k one r = record {
  kept = Kept-trans k r.kept;
  bound = omega (arith, r.bound);
  moved = λ x.
      let more =
        ap (λ n. count x (take n (p ∷ ps))) {x = total + 1} {y = suc total} (omega arith) in
      omega (arith, r.moved x, one x, more);
  why = λ lt. r.why (omega arith);
}

pub dispatch_loop-Done :
    (alloc : ℕ → ℕ) (accepts : ℕ → ℕ → Bool) (port : Port) (ps : List ℕ) (d : Dispatcher)
    → IsReceiver d
    → AllRoutable d ps
    → (out : Dispatcher) × (total : ℕ) × (dispatch_loop alloc accepts port ps d ≡ some (out, total))
      × Done ps d out total
unfolding dispatch_loop
dispatch_loop-Done alloc accepts port [] d v all_done = (
  d,
  0,
  refl,
  record {
    kept = record { valid = v; mem = refl; table = refl; freed = refl };
    bound = omega arith;
    moved = λ x. omega arith;
    why = λ lt. absurd (omega arith);
  },
)
dispatch_loop-Done alloc accepts port (p ∷ ps) d v (one_ip ip route n) =
    let (pass, mid, runs, r) = dispatch_one-Routes alloc accepts port p d v ip route in
    next (λ m w k. dispatch_loop-Done alloc accepts port ps m w k) pass mid r runs
  where
    next :
        ((m : Dispatcher)
          → IsReceiver m
          → AllRoutable m ps
          → (out : Dispatcher) × (total : ℕ) × (dispatch_loop alloc accepts port ps m
              ≡ some (out, total))
            × Done ps m out total)
        → (pass : Pass) (mid : Dispatcher) → Routes d p pass mid
        → dispatch_one alloc accepts port p d ≡ some (pass, mid)
        → (out : Dispatcher) × (total : ℕ) × (dispatch_loop alloc accepts port (p ∷ ps) d
            ≡ some (out, total))
          × Done (p ∷ ps) d out total
    next rest _ mid (went k one) runs =
        let (out, total, more, done) = rest mid k.valid (Routable-Kept k n) in
        (
          out,
          total + 1,
          rw (runs, dispatch_loop, more) refl,
          Done-one p ps d mid out total k one done,
        )
    next rest _ mid (stuck i k same f) runs = (
      mid,
      0,
      rw (runs, dispatch_loop) refl,
      record {
        kept = k;
        bound = omega arith;
        moved = λ x. omega (arith, same x);
        why = λ lt. (i, f);
      },
    )

-- When the worker queues are valid, the routes lead to workers, no packet received is an ARP packet,
-- and the type of each has a route, the dispatch runs to its end: each packet is afterwards in the
-- queues of the workers and among those freed together as often as it was, and once more for each
-- time it was received; the receive queue is empty, and the queues are well formed. Packets are freed only when a worker's queue is full.
pub dispatch_rx_pkts-conserves :
    (alloc : ℕ → ℕ) (accepts : ℕ → ℕ → Bool) (port : Port) (d : Dispatcher)
    → IsReceiver d
    → AllRoutable d (received d)
    → (out : Dispatcher) × (total : ℕ) × (dispatch_rx_pkts alloc accepts port d ≡ some (out, total))
      × IsReceiver out
      × ((x : ℕ)
          → spread x out.ws_rx_queues + count x out.freed
            ≡ spread x d.ws_rx_queues + count x d.freed + count x (received d))
      × (out.freed ≡ d.freed ++ drop total (received d))
      × (out.rx_queue_idx ≡ 0)
      × (total ≤ length (received d))
      × (total < length (received d)
          → (i : ℕ) × (length (contents (rx_queue_at out.ws_rx_queues i)) ≡ capacity))
unfolding dispatch_rx_pkts
dispatch_rx_pkts-conserves alloc accepts port d v n =
    let (out, total, runs, r) = dispatch_loop-Done alloc accepts port (received d) d v n in
    let same = ap (λ xs. xs ++ drop total (received d)) r.kept.freed in
    (
      record out { freed = out.freed ++ drop total (received d); rx_queue_idx = 0 },
      total,
      rw (runs, dispatch_rx_pkts) refl,
      record { queues = r.kept.valid.queues; routed = r.kept.valid.routed },
      λ x.
          let c = count-append x d.freed (drop total (received d)) in
          let t = count-take-drop x total (received d) in
          let s = ap (count x) same in omega (arith, r.moved x, c, t, s),
      same,
      refl,
      r.bound,
      r.why,
    )

-- Nothing is dispatched from an empty receive queue.
pub dispatch_rx_pkts-none :
    (alloc : ℕ → ℕ) (accepts : ℕ → ℕ → Bool) (port : Port) (d : Dispatcher)
    → d.rx_queue_idx ≡ 0
    → (out : Dispatcher) × (dispatch_rx_pkts alloc accepts port d ≡ some (out, 0))
      × (out.rx_queue_idx ≡ 0)
unfolding dispatch_rx_pkts dispatch_loop
dispatch_rx_pkts-none alloc accepts port d e = (
  record d { freed = d.freed ++ []; rx_queue_idx = 0 },
  ap (λ n. free_rest (take n d.rx_queue) (dispatch_loop alloc accepts port (take n d.rx_queue) d))
      e,
  refl,
)
