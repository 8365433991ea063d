-- ===== src/Roce/Collect/Refine.antt =====
-- `collect_tx_pkts` on the contents of the queues.
use mathlib.Core.List.{append_assoc, append-nil}
use native.Mathlib.Nat.{mod-lt}
use mathlib.Core.Path.{subst}
use axio_emulator.Prelude.{
  ℕ, zero, suc, ◌+◌, ◌-◌, ◌%◌, ◌≤◌, ◌<◌, min, ◌≡◌, refl, sym, ap, ap₂, ◌∙◌, List, [], ◌∷◌, ◌++◌,
  map, length, get_or, set, take, drop, length-set, take-min, drop-min, set-get_or, length-map,
  map-set, get_or-map, length-append, length-take, take-set_next, ◌==◌, Bool-cases, inl, inr, arith,
}
use axio_emulator.Queue.{LockFreeQueue, init, dequeue}
use axio_emulator.Queue.Refine.{set-IsValid, IsValid, contents, get_size-length}
use axio_emulator.Queue.Bulk.{dequeue_n, dequeue_n_lem}
use axio_emulator.Roce.{depth}
use axio_emulator.Roce.Collect.{
  Collector, queue_at, pull, pull_size, collect_from, collect_loop, collect_tx_pkts,
}

-- The packets that wait for `tx_flush`.
abbrev pub waiting : Collector → List ℕ
waiting c = take c.tx_queue_idx c.tx_queue

pub record IsCollector (c : Collector) : Type 0 where
  pub storage : length c.tx_queue ≡ depth
  pub idx_in : c.tx_queue_idx ≤ depth
  pub ws_in : c.ws_queue_idx < length c.ws_tx_queues
  pub queues : (i : ℕ) → IsValid (queue_at c.ws_tx_queues i)

-- The contents of the queues, and what leaves them in order: each queue in turn, from number `i` on,
-- gives its oldest packets, as many as there is room for.
unfoldable pub visit : ℕ → ℕ → ℕ → List (List ℕ) → List (List ℕ) × List ℕ
visit zero room i xss = (xss, [])
visit (suc k) room i xss =
    let xs = get_or xss i [] in
    let (yss, ys) =
      visit k (room - length (take room xs)) ((i + 1) % length xss) (set xss i (drop room xs)) in
    (yss, take room xs ++ ys)

pull-dequeue_n :
    (n : ℕ) (q : LockFreeQueue) (buf : List ℕ) (idx : ℕ)
    → idx + n ≤ length buf
    → let (q', buf', idx') = pull n q buf idx in
      (q' ≡ (dequeue_n n q).1)
      × (length buf' ≡ length buf)
      × (idx' ≡ idx + n)
      × (take idx' buf' ≡ take idx buf ++ (dequeue_n n q).0)
unfolding pull dequeue_n
pull-dequeue_n zero q buf idx le = (refl, refl, omega arith, sym (append-nil (take idx buf)))
pull-dequeue_n (suc n) q buf idx le =
    let (p, q') = dequeue q in
    let (same, len, idx', taken) =
      pull-dequeue_n n q' (set buf idx p) (idx + 1) (omega (arith, length-set buf idx p)) in
    (
      same,
      len ∙ length-set buf idx p,
      idx' ∙ omega arith,
      taken
          ∙ ap (λ xs. xs ++ (dequeue_n n q').0) (take-set_next buf idx p (omega arith))
          ∙ append_assoc (take idx buf) (p ∷ []) ((dequeue_n n q').0),
    )

-- Nothing is taken when there is no room.
visit-no_room : (k i : ℕ) (xss : List (List ℕ)) → visit k 0 i xss ≡ (xss, [])
unfolding visit
visit-no_room zero i xss = refl
visit-no_room (suc k) i xss = rw (set-get_or xss i []) (visit-no_room k ((i + 1) % length xss) xss)

abbrev pub views : Collector → List (List ℕ)
views c = map contents c.ws_tx_queues

-- One pass of the loop, with `room` places left.
record Passed (room : ℕ) (c out : Collector) (n : ℕ) : Type 0 where
  valid : IsCollector out
  count : n ≡ length (take room (get_or (views c) c.ws_queue_idx []))
  idx : out.tx_queue_idx ≡ c.tx_queue_idx + n
  ws : out.ws_queue_idx ≡ (c.ws_queue_idx + 1) % length (views c)
  left : views out ≡ set (views c) c.ws_queue_idx (drop room (get_or (views c) c.ws_queue_idx []))
  taken : waiting out ≡ waiting c ++ take room (get_or (views c) c.ws_queue_idx [])

collect_from-Passed :
    (room : ℕ) (c : Collector)
    → IsCollector c
    → room ≤ depth - c.tx_queue_idx
    → let n = pull_size (queue_at c.ws_tx_queues c.ws_queue_idx) room in
      Passed room c (collect_from n c) n
unfolding collect_from pull_size
collect_from-Passed room c v le =
    let q = queue_at c.ws_tx_queues c.ws_queue_idx in
    let n = pull_size q room in
    let size : n ≡ min room (length (contents q)) =
      ground (arith, get_size-length (v.queues c.ws_queue_idx)) in
    let at : get_or (views c) c.ws_queue_idx [] ≡ contents q =
      get_or-map contents c.ws_tx_queues c.ws_queue_idx init [] v.ws_in in
    let (taken, rest, valid) = dequeue_n_lem n (v.queues c.ws_queue_idx) (omega (arith, size)) in
    let (same, len, idx, out) =
      pull-dequeue_n n q c.tx_queue c.tx_queue_idx (omega (arith, size, v.storage, v.idx_in)) in
    record {
      valid = record {
        storage = len ∙ v.storage;
        idx_in = omega (arith, idx, size, v.idx_in);
        ws_in =
            rw (length-set c.ws_tx_queues c.ws_queue_idx _)
              (mod-lt (c.ws_queue_idx + 1) (omega (arith, v.ws_in)));
        queues = λ i.
            set-IsValid c.ws_tx_queues c.ws_queue_idx i _ v.queues (subst IsValid (sym same) valid);
      };
      count =
          size ∙ sym (length-take room (contents q)) ∙ ap (λ xs. length (take room xs)) (sym at);
      idx = idx;
      ws = ap (λ k. (c.ws_queue_idx + 1) % k) (sym (length-map contents c.ws_tx_queues));
      left =
          map-set contents c.ws_tx_queues c.ws_queue_idx _
          ∙ ap (set (views c) c.ws_queue_idx) (
              ap contents same
              ∙ rest
              ∙ ap (λ k. drop k (contents q)) size
              ∙ drop-min room (contents q)
              ∙ ap (drop room) (sym at));
      taken =
          out
          ∙ ap (λ xs. waiting c ++ xs)
              (taken
                ∙ ap (λ k. take k (contents q)) size
                ∙ take-min room (contents q)
                ∙ ap (take room) (sym at));
    }

pub record Collected (k room : ℕ) (c out : Collector) (n : ℕ) : Type 0 where
  pub valid : IsCollector out
  pub count : n ≡ length (visit k room c.ws_queue_idx (views c)).1
  pub idx : out.tx_queue_idx ≡ c.tx_queue_idx + n
  pub left : views out ≡ (visit k room c.ws_queue_idx (views c)).0
  pub taken : waiting out ≡ waiting c ++ (visit k room c.ws_queue_idx (views c)).1

Collected-none :
    (k room : ℕ) (c : Collector)
    → IsCollector c
    → visit k room c.ws_queue_idx (views c) ≡ (views c, [])
    → Collected k room c c 0
Collected-none k room c v e = record {
  valid = v;
  count = ap (λ p. length p.1) (sym e);
  idx = omega arith;
  left = ap (λ p. p.0) (sym e);
  taken = sym (append-nil (waiting c)) ∙ ap (λ p. waiting c ++ p.1) (sym e);
}

Collected-suc :
    (k room : ℕ) (c mid out : Collector) (m n : ℕ)
    → Passed room c mid m
    → Collected k (room - m) mid out n
    → Collected (suc k) room c out (m + n)
unfolding visit
Collected-suc k room c mid out m n p r =
    let first = take room (get_or (views c) c.ws_queue_idx []) in
    let same : visit k (room - m) mid.ws_queue_idx (views mid)
        ≡ visit k (room - length first) ((c.ws_queue_idx + 1) % length (views c))
            (set (views c) c.ws_queue_idx (drop room (get_or (views c) c.ws_queue_idx []))) =
      ap (λ j. visit k (room - j) mid.ws_queue_idx (views mid)) p.count
      ∙ ap₂ (visit k (room - length first)) p.ws p.left in
    record {
      valid = r.valid;
      count = ap₂ ◌+◌ p.count (r.count ∙ ap (λ x. length x.1) same) ∙ sym (length-append first _);
      idx = omega (arith, r.idx, p.idx);
      left = r.left ∙ ap (λ x. x.0) same;
      taken =
          r.taken
          ∙ ap₂ (λ xs ys. xs ++ ys) p.taken (ap (λ x. x.1) same)
          ∙ append_assoc (waiting c) first _;
    }

visit-zero : (room i : ℕ) (xss : List (List ℕ)) → visit 0 room i xss ≡ (xss, [])
unfolding visit
visit-zero room i xss = refl

collect_loop-Collected :
    (k room : ℕ) (c : Collector)
    → IsCollector c
    → room ≤ depth - c.tx_queue_idx
    → Collected k room c (collect_loop k room c).0 (collect_loop k room c).1
unfolding collect_loop
collect_loop-Collected zero room c v le = Collected-none zero room c v (visit-zero room _ _)
collect_loop-Collected (suc k) room c v le = elim (Bool-cases (room == 0)) [
  | inl e ↦
      let none : room ≡ 0 = ground arith in
      rw e (
        Collected-none (suc k) room c v (
          ap (λ r. visit (suc k) r c.ws_queue_idx (views c)) none
          ∙ visit-no_room (suc k) c.ws_queue_idx (views c)))
  | inr e ↦
      let n = pull_size (queue_at c.ws_tx_queues c.ws_queue_idx) room in
      let p = collect_from-Passed room c v le in
      rw e (
        Collected-suc k room c (collect_from n c) _ n _ p
          (collect_loop-Collected k (room - n) (collect_from n c) p.valid (omega (arith, p.idx))))
]

-- One call visits each queue once, from `ws_queue_idx_` on, and takes its oldest packets while the
-- transmit queue has room: they are appended in order, the queues keep the rest, the result is the
-- number moved, and the transmit queue never overflows.
pub collect_tx_pkts-Collected :
    (c : Collector)
    → IsCollector c
    → Collected
        (length c.ws_tx_queues)
        (depth - c.tx_queue_idx)
        c
        (collect_tx_pkts c).0
        (collect_tx_pkts c).1
unfolding collect_tx_pkts
collect_tx_pkts-Collected c v =
    collect_loop-Collected (length c.ws_tx_queues) (depth - c.tx_queue_idx) c v (omega arith)
