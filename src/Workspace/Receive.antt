-- ===== src/Workspace/Receive.antt =====
-- `app_handler` of a client: the responses that it takes, and the budget that it gives back.
use axio_emulator.Prelude.{
  ℕ, zero, suc, ◌+◌, ◌*◌, ◌/◌, ◌%◌, ◌^◌, ◌≤◌, ◌<◌, ◌≡◌, refl, ap, List, [], ◌∷◌, true, false, none,
  some, length, take, drop, get_or, ltb, Option, Bool-cases, inl, inr, arith,
}
use native.Mathlib.Nat.{div-mul-le_self}
use axio_emulator.Queue.Refine.{IsValid, contents, get_size-length}
use axio_emulator.Queue.Bulk.{dequeue_n, dequeue_n_lem}
use axio_emulator.Rules.{budget, return_infly_budget}
use axio_emulator.Mbuf.{extract_ws_hdr, de_alloc_bulk}
use axio_emulator.HugeAlloc.{free}
use axio_emulator.Workspace.{
  Params, Workspace, msg_handler_client, mbuf_at, all_valid, receive, app_handler,
}
use axio_emulator.Rules.Budget.{return_infly_budget-budget}
use axio_emulator.Mbuf.Free.{de_alloc_bulk-free}

-- The whole messages that wait, and their packets.
abbrev pub msgs : Params → Workspace → ℕ
msgs k w = length (contents w.rx_queue) / k.response_pkts_num

abbrev pub responses : Params → Workspace → List ℕ
responses k w = take (msgs k w * k.response_pkts_num) (contents w.rx_queue)

pub record Received (k : Params) (w out : Workspace) : Type 0 where
  pub valid : IsValid out.rx_queue
  pub left : contents out.rx_queue ≡ drop (msgs k w * k.response_pkts_num) (contents w.rx_queue)
  pub count : out.app_rx ≡ w.app_rx + msgs k w * k.response_pkts_num
  pub returned :
      let type = (extract_ws_hdr w.mem (mbuf_at (responses k w) 0)).workload_type in
      budget out.rule_table type ≡ (budget w.rule_table type + msgs k w) % 2 ^ 64
  pub freed :
      (i : ℕ) → i < length (responses k w) → (out.mem (get_or (responses k w) i 0)).state ≡ free

take_idem : (n : ℕ) (xs : List ℕ) → take n (take n xs) ≡ take n xs
take_idem zero xs = refl
take_idem (suc n) [] = refl
take_idem (suc n) (x ∷ xs) = ap (◌∷◌ x) (take_idem n xs)

receive-Received :
    (k : Params) (w : Workspace)
    → IsValid w.rx_queue
    → all_valid (responses k w) ≡ true
    → (out : Workspace) × (receive k (msgs k w) w ≡ some out) × Received k w out
unfolding receive msg_handler_client
receive-Received k w v nonnull =
    let n = msgs k w * k.response_pkts_num in
    let (pkts, q) = dequeue_n n w.rx_queue in
    let (taken, rest, valid) =
      dequeue_n_lem n v (div-mul-le_self (length (contents w.rx_queue)) k.response_pkts_num) in
    let out : Workspace = record w {
      rx_queue = q;
      rule_table =
          return_infly_budget w.rule_table (extract_ws_hdr w.mem (mbuf_at pkts 0)).workload_type
            (msgs k w);
      mem = de_alloc_bulk w.mem (take n pkts);
      app_rx = w.app_rx + n;
    } in
    (
      out,
      rw (taken, nonnull) refl,
      record {
        valid = record {
          storage = valid.storage;
          head_in = valid.head_in;
          tail_in = valid.tail_in;
        };
        left = rest;
        count = refl;
        returned = rw taken (return_infly_budget-budget w.rule_table _ (msgs k w));
        freed = λ i lt.
            rw (taken, take_idem n (contents w.rx_queue))
              (de_alloc_bulk-free (responses k w) w.mem i lt);
      },
    )

receive-null :
    (k : Params) (w : Workspace)
    → IsValid w.rx_queue
    → all_valid (responses k w) ≡ false
    → receive k (msgs k w) w ≡ none
unfolding receive
receive-null k w v null =
    let (taken, rest, valid) =
      dequeue_n_lem (msgs k w * k.response_pkts_num) v
        (div-mul-le_self (length (contents w.rx_queue)) k.response_pkts_num) in
    rw (taken, null) refl

-- What `app_handler` comes to: fewer whole messages wait than a batch, or a batch of them is taken, or
-- the assertion fails on a null packet.
pub data Handled (k : Params) (w : Workspace) : Option Workspace → Type 0 where
  waits : msgs k w < k.rx_msg_batch_size → Handled k w (some w)
  took :
      (out : Workspace)
      → k.rx_msg_batch_size ≤ msgs k w
      → all_valid (responses k w) ≡ true
      → Received k w out
      → Handled k w (some out)
  failed : k.rx_msg_batch_size ≤ msgs k w → all_valid (responses k w) ≡ false → Handled k w none

-- On a valid receive queue, `app_handler` does nothing when fewer whole messages wait than a batch.
-- Otherwise, when no packet of the whole messages is null, it takes them all in order, leaves what is
-- not a whole message in the queue, counts the packets, sets the state of each of them to `kFREE_BUF`
-- and returns the number of messages, modulo 2^64, to the budget of the type in the first packet's
-- header; when one of the packets is null, its assertion fails.
pub app_handler-Received :
    (k : Params) (w : Workspace) → IsValid w.rx_queue → Handled k w (app_handler k w)
unfolding app_handler
app_handler-Received k w v = elim (Bool-cases (ltb (msgs k w) k.rx_msg_batch_size)) [
  | inl few ↦ rw (get_size-length v, few) (waits (ground (arith, few)))
  | inr enough ↦ elim (Bool-cases (all_valid (responses k w))) [
    | inl nonnull ↦
        let (out, runs, r) = receive-Received k w v nonnull in
        rw (get_size-length v, enough, runs) (took out (ground (arith, enough)) nonnull r)
    | inr null ↦
        rw (get_size-length v, enough, receive-null k w v null)
          (failed (ground (arith, enough)) null)
  ]
]
