-- ===== src/Dpdk/Collect/Refine.antt =====
-- DPDK's `collect_tx_pkts` on the contents of the queues.
use mathlib.Core.List.{append_assoc, append-nil}
use axio_emulator.Prelude.{
  ℕ, zero, suc, ◌+◌, ◌-◌, ◌%◌, ◌≤◌, ◌≡◌, refl, sym, ap, ap₂, ◌∙◌, List, [], ◌++◌, length, set, take,
  drop, length-append, length-take, ◌==◌, Bool-cases, inl, inr, arith,
}
use axio_emulator.Dpdk.{ring_entries, Port, Dispatcher}
use axio_emulator.Dpdk.Header.{set_pkt_hdr}
use axio_emulator.Dpdk.Echo.{waiting, apply_all, apply_all-append}
use axio_emulator.Dpdk.Collect.{queue_at, pull_size, collect_from, collect_loop, collect_tx_pkts}
use axio_emulator.Dpdk.Collect.Visit.{
  IsCollector, quota, visit, visit-no_room, views, view_at, Passed, collect_from-Passed,
}

pub record Collected (port : Port) (k room : ℕ) (d out : Dispatcher) (n : ℕ) : Type 0 where
  pub valid : IsCollector out
  pub count : n ≡ length (visit port.disp_tx_batch_size k room d.ws_queue_idx (views d)).1
  pub left : views out ≡ (visit port.disp_tx_batch_size k room d.ws_queue_idx (views d)).0
  pub taken :
      waiting out ≡ waiting d ++ (visit port.disp_tx_batch_size k room d.ws_queue_idx (views d)).1
  pub sealed :
      out.mem
      ≡ apply_all
          (set_pkt_hdr port)
          (visit port.disp_tx_batch_size k room d.ws_queue_idx (views d)).1
          d.mem
  pub sent : out.sent ≡ d.sent
  pub idx : out.tx_queue_idx ≡ d.tx_queue_idx + n

Collected-none :
    (port : Port) (k room : ℕ) (d : Dispatcher)
    → IsCollector d
    → visit port.disp_tx_batch_size k room d.ws_queue_idx (views d) ≡ (views d, [])
    → Collected port k room d d 0
unfolding apply_all
Collected-none port k room d v e = record {
  valid = v;
  count = ap (λ p. length p.1) (sym e);
  left = ap (λ p. p.0) (sym e);
  taken = sym (append-nil (waiting d)) ∙ ap (λ p. waiting d ++ p.1) (sym e);
  sealed = ap (λ p. apply_all (set_pkt_hdr port) p.1 d.mem) (sym e);
  sent = refl;
  idx = omega arith;
}

Collected-suc :
    (port : Port) (k room : ℕ) (d mid out : Dispatcher) (m n : ℕ)
    → Passed port room d mid m
    → Collected port k (room - m) mid out n
    → Collected port (suc k) room d out (m + n)
unfolding visit
Collected-suc port k room d mid out m n p r =
    let b = port.disp_tx_batch_size in
    let first = take (quota b room (view_at d)) (view_at d) in
    let rest =
      visit b k (room - quota b room (view_at d)) ((d.ws_queue_idx + 1) % length (views d))
        (set (views d) d.ws_queue_idx (drop (quota b room (view_at d)) (view_at d))) in
    let same : visit b k (room - m) mid.ws_queue_idx (views mid) ≡ rest =
      ap₂ (visit b k (room - m)) p.ws p.left
      ∙ ap
          (λ j.
            visit b k (room - j) ((d.ws_queue_idx + 1) % length (views d))
              (set (views d) d.ws_queue_idx (drop j (view_at d))))
          p.count in
    let mine : take m (view_at d) ≡ first = ap (λ j. take j (view_at d)) p.count in
    let size : m ≡ length first =
      ground (arith, p.count, length-take (quota b room (view_at d)) (view_at d)) in
    record {
      valid = r.valid;
      count = ap₂ ◌+◌ size (r.count ∙ ap (λ x. length x.1) same) ∙ sym (length-append first _);
      left = r.left ∙ ap (λ x. x.0) same;
      taken =
          r.taken
          ∙ ap₂ (λ xs ys. xs ++ ys) (p.taken ∙ ap (λ xs. waiting d ++ xs) mine) (ap (λ x. x.1) same)
          ∙ append_assoc (waiting d) first _;
      sealed =
          r.sealed
          ∙ ap₂ (apply_all (set_pkt_hdr port)) (ap (λ x. x.1) same)
              (p.sealed ∙ ap (λ xs. apply_all (set_pkt_hdr port) xs d.mem) mine)
          ∙ sym (apply_all-append (set_pkt_hdr port) first rest.1 d.mem);
      sent = r.sent ∙ p.sent;
      idx = omega (arith, r.idx, p.idx);
    }

visit-zero : (batch room i : ℕ) (xss : List (List ℕ)) → visit batch 0 room i xss ≡ (xss, [])
unfolding visit
visit-zero batch room i xss = refl

collect_loop-Collected :
    (port : Port) (k room : ℕ) (d : Dispatcher)
    → IsCollector d
    → room ≤ ring_entries - d.tx_queue_idx
    → Collected port k room d (collect_loop port k room d).0 (collect_loop port k room d).1
unfolding collect_loop
collect_loop-Collected port zero room d v le =
    Collected-none port zero room d v (visit-zero port.disp_tx_batch_size room _ _)
collect_loop-Collected port (suc k) room d v le = elim (Bool-cases (room == 0)) [
  | inl e ↦
      let none : room ≡ 0 = ground arith in
      rw e (
        Collected-none port (suc k) room d v (
          ap (λ r. visit port.disp_tx_batch_size (suc k) r d.ws_queue_idx (views d)) none
          ∙ visit-no_room port.disp_tx_batch_size (suc k) d.ws_queue_idx (views d)))
  | inr e ↦
      let n = pull_size port (queue_at d.ws_tx_queues d.ws_queue_idx) room in
      let p = collect_from-Passed port room d v le in
      rw e (
        Collected-suc port k room d (collect_from port n d) _ n _ p (
          collect_loop-Collected port k (room - n) (collect_from port n d) p.valid
            (omega (arith, p.idx, p.fits))))
]

-- One call visits each queue once, from `ws_queue_idx_` on: a queue with less than a batch gives
-- nothing, another its oldest packets while the transmit queue has room. They are appended in
-- order, each with its header set, the queues keep the rest, the result is the number moved, and
-- the transmit queue never overflows.
pub dpdk_collect-Collected :
    (port : Port) (d : Dispatcher)
    → IsCollector d
    → Collected port
        (length d.ws_tx_queues)
        (ring_entries - d.tx_queue_idx)
        d
        (collect_tx_pkts port d).0
        (collect_tx_pkts port d).1
unfolding collect_tx_pkts
dpdk_collect-Collected port d v =
    collect_loop-Collected port (length d.ws_tx_queues) (ring_entries - d.tx_queue_idx) d v
      (omega arith)
