-- ===== src/Dpdk/Collect/Visit.antt =====
-- One pass of DPDK's `collect_tx_pkts` on the contents of the queues.
use mathlib.Core.List.{append_assoc, append-nil}
use native.Mathlib.Nat.{mod-lt}
use mathlib.Core.Path.{subst}
use axio_emulator.Prelude.{
  ℕ, zero, suc, ◌+◌, ◌-◌, ◌%◌, ◌≤◌, ◌<◌, min, ◌≡◌, refl, sym, ap, ◌∙◌, List, [], ◌∷◌, ◌++◌, map,
  length, get_or, set, take, drop, length-set, set-get_or, length-map, map-set, get_or-map,
  take-set_next, ltb, if◌then◌else◌, arith,
}
use axio_emulator.Queue.{LockFreeQueue, init, dequeue}
use axio_emulator.Queue.Refine.{set-IsValid, IsValid, contents, get_size-length}
use axio_emulator.Queue.Bulk.{dequeue_n, dequeue_n_lem}
use axio_emulator.Dpdk.{Mem, ring_entries, Port, Dispatcher}
use axio_emulator.Dpdk.Header.{set_pkt_hdr, set_hdr_at}
use axio_emulator.Dpdk.Echo.{IsDispatcher, waiting, apply_all}
use axio_emulator.Dpdk.Collect.{queue_at, pull, pull_size, collect_from}

pub record IsCollector (d : Dispatcher) : Type 0 where
  pub rings : IsDispatcher d
  pub ws_in : d.ws_queue_idx < length d.ws_tx_queues
  pub queues : (i : ℕ) → IsValid (queue_at d.ws_tx_queues i)

-- How many packets of a queue are taken: none of a queue that holds less than a batch.
abbrev pub quota : ℕ → ℕ → List ℕ → ℕ
quota batch room xs = if ltb (length xs) batch then 0 else min room (length xs)

-- The contents of the queues, and what leaves them in order: each queue in turn, from number `i` on,
-- gives its quota of its oldest packets.
unfoldable pub visit : ℕ → ℕ → ℕ → ℕ → List (List ℕ) → List (List ℕ) × List ℕ
visit batch zero room i xss = (xss, [])
visit batch (suc k) room i xss =
    let xs = get_or xss i [] in
    let n = quota batch room xs in
    let (yss, ys) = visit batch k (room - n) ((i + 1) % length xss) (set xss i (drop n xs)) in
    (yss, take n xs ++ ys)

pub record Pulled (port : Port) (n : ℕ) (q : LockFreeQueue) (mem : Mem) (buf : List ℕ) (idx : ℕ)
    (q' : LockFreeQueue) (mem' : Mem) (buf' : List ℕ) (idx' : ℕ) : Type 0 where
  pub queue : q' ≡ (dequeue_n n q).1
  pub storage : length buf' ≡ length buf
  pub next : idx' ≡ idx + n
  pub taken : take idx' buf' ≡ take idx buf ++ (dequeue_n n q).0
  pub sealed : mem' ≡ apply_all (set_pkt_hdr port) (dequeue_n n q).0 mem

pub pull-Pulled :
    (port : Port) (n : ℕ) (q : LockFreeQueue) (mem : Mem) (buf : List ℕ) (idx : ℕ)
    → idx + n ≤ length buf
    → let (q', mem', buf', idx') = pull port n q mem buf idx in
      Pulled port n q mem buf idx q' mem' buf' idx'
unfolding pull dequeue_n apply_all set_hdr_at
pull-Pulled port zero q mem buf idx le = record {
  queue = refl;
  storage = refl;
  next = omega arith;
  taken = sym (append-nil (take idx buf));
  sealed = refl;
}
pull-Pulled port (suc n) q mem buf idx le =
    let (p, q') = dequeue q in
    let len = length-set buf idx p in
    let r =
      pull-Pulled port n q' (set_hdr_at port mem p) (set buf idx p) (idx + 1)
        (omega (arith, len)) in
    record {
      queue = r.queue;
      storage = r.storage ∙ len;
      next = r.next ∙ omega arith;
      taken =
          r.taken
          ∙ ap (λ xs. xs ++ (dequeue_n n q').0) (take-set_next buf idx p (omega arith))
          ∙ append_assoc (take idx buf) (p ∷ []) ((dequeue_n n q').0);
      sealed = r.sealed;
    }

pub visit-no_room : (batch k i : ℕ) (xss : List (List ℕ)) → visit batch k 0 i xss ≡ (xss, [])
unfolding visit
visit-no_room batch zero i xss = refl
visit-no_room batch (suc k) i xss =
    let none : quota batch 0 (get_or xss i []) ≡ 0 = ground arith in
    rw (none, set-get_or xss i []) (visit-no_room batch k ((i + 1) % length xss) xss)

abbrev pub views : Dispatcher → List (List ℕ)
views d = map contents d.ws_tx_queues

abbrev pub view_at : Dispatcher → List ℕ
view_at d = get_or (views d) d.ws_queue_idx []

-- One pass of the loop, with `room` places left.
pub record Passed (port : Port) (room : ℕ) (d out : Dispatcher) (n : ℕ) : Type 0 where
  pub valid : IsCollector out
  pub count : n ≡ quota port.disp_tx_batch_size room (view_at d)
  pub fits : n ≤ room
  pub idx : out.tx_queue_idx ≡ d.tx_queue_idx + n
  pub ws : out.ws_queue_idx ≡ (d.ws_queue_idx + 1) % length (views d)
  pub left : views out ≡ set (views d) d.ws_queue_idx (drop n (view_at d))
  pub taken : waiting out ≡ waiting d ++ take n (view_at d)
  pub sealed : out.mem ≡ apply_all (set_pkt_hdr port) (take n (view_at d)) d.mem
  pub sent : out.sent ≡ d.sent

pub collect_from-Passed :
    (port : Port) (room : ℕ) (d : Dispatcher)
    → IsCollector d
    → room ≤ ring_entries - d.tx_queue_idx
    → let n = pull_size port (queue_at d.ws_tx_queues d.ws_queue_idx) room in
      Passed port room d (collect_from port n d) n
unfolding collect_from pull_size
collect_from-Passed port room d v le =
    let q = queue_at d.ws_tx_queues d.ws_queue_idx in
    let n = pull_size port q room in
    let len = get_size-length (v.queues d.ws_queue_idx) in
    let at : view_at d ≡ contents q =
      get_or-map contents d.ws_tx_queues d.ws_queue_idx init [] v.ws_in in
    let size : n ≡ quota port.disp_tx_batch_size room (contents q) = ground (arith, len) in
    let small : n ≤ room = ground arith in
    let few : n ≤ length (contents q) = ground (arith, len) in
    let (taken, rest, valid) = dequeue_n_lem n (v.queues d.ws_queue_idx) few in
    let r =
      pull-Pulled port n q d.mem d.tx_queue d.tx_queue_idx
        (omega (arith, small, v.rings.storage, v.rings.tx_in)) in
    record {
      valid = record {
        rings = record {
          storage = r.storage ∙ v.rings.storage;
          tx_in = omega (arith, r.next, small, v.rings.tx_in);
          rx_in = v.rings.rx_in;
        };
        ws_in =
            rw (length-set d.ws_tx_queues d.ws_queue_idx _)
              (mod-lt (d.ws_queue_idx + 1) (omega (arith, v.ws_in)));
        queues = λ i.
            set-IsValid d.ws_tx_queues d.ws_queue_idx i _ v.queues
              (subst IsValid (sym r.queue) valid);
      };
      count = size ∙ ap (quota port.disp_tx_batch_size room) (sym at);
      fits = small;
      idx = r.next;
      ws = ap (λ k. (d.ws_queue_idx + 1) % k) (sym (length-map contents d.ws_tx_queues));
      left =
          map-set contents d.ws_tx_queues d.ws_queue_idx _
          ∙ ap (set (views d) d.ws_queue_idx) (ap contents r.queue ∙ rest ∙ ap (drop n) (sym at));
      taken = r.taken ∙ ap (λ xs. waiting d ++ xs) (taken ∙ ap (take n) (sym at));
      sealed =
          r.sealed
          ∙ ap (λ xs. apply_all (set_pkt_hdr port) xs d.mem) (taken ∙ ap (take n) (sym at));
      sent = refl;
    }
