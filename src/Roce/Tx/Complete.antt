-- ===== src/Roce/Tx/Complete.antt =====
-- The send ring, and the sends that `tx_burst` gives back (src/dispatcher_impl/roce).
use mathlib.Core.List.{append_assoc, append-nil}
use native.Mathlib.Nat.{mod-eq_of_lt, add-zero, mod-lt}
use axio_emulator.Prelude.{
  ℕ, zero, suc, ◌+◌, ◌-◌, ◌%◌, ◌≤◌, ◌<◌, ◌≡◌, refl, sym, ap, ◌∙◌, List, [], ◌∷◌, ◌++◌, length,
  get_or, take, drop, arith,
}
use axio_emulator.Prelude.Ring.{step_in, slots, slots_ne_zero}
use axio_emulator.Mbuf.{Mem}
use axio_emulator.Roce.{Node, client, server, depth}
use axio_emulator.Roce.Tx.{TxRing, complete, complete_buf, give_back}

pub record IsValid (tx : TxRing) : Type 0 where
  pub storage : length tx.sw_ring ≡ depth
  pub head_in : tx.send_head < depth
  pub few : tx.free_send_wr_num ≤ depth
  pub tail_at : tx.send_tail ≡ (tx.send_head + (depth - tx.free_send_wr_num)) % depth

-- The sends in flight, oldest first.
abbrev pub in_flight : TxRing → List ℕ
in_flight tx = slots depth tx.sw_ring tx.send_head (depth - tx.free_send_wr_num)

abbrev pub all_freed : Node → List ℕ → List ℕ → List ℕ
all_freed client freed ms = freed ++ ms
all_freed server freed ms = freed

-- The completion loop takes the `n` oldest of `k` sends, and leaves the rest of the ring alone.
pub record Completed (node : Node) (n k : ℕ) (tx out : TxRing) : Type 0 where
  pub ring : out.sw_ring ≡ tx.sw_ring
  pub tail : out.send_tail ≡ tx.send_tail
  pub head : out.send_head ≡ (tx.send_head + n) % depth
  pub num : out.free_send_wr_num ≡ tx.free_send_wr_num
  pub queue : out.tx_queue ≡ tx.tx_queue
  pub idx : out.tx_queue_idx ≡ tx.tx_queue_idx
  pub sent : out.sent ≡ tx.sent
  pub freed : out.freed ≡ all_freed node tx.freed (take n (slots depth tx.sw_ring tx.send_head k))
  pub left :
      slots depth out.sw_ring out.send_head (k - n) ≡ drop n (slots depth tx.sw_ring tx.send_head k)

pub all_freed-nil : (node : Node) (freed : List ℕ) → all_freed node freed [] ≡ freed
all_freed-nil client freed = append-nil freed
all_freed-nil server freed = refl

pub all_freed-cons :
    (node : Node) (freed : List ℕ) (m : ℕ) (ms : List ℕ)
    → all_freed node (give_back node freed m) ms ≡ all_freed node freed (m ∷ ms)
all_freed-cons client freed m ms = append_assoc freed (m ∷ []) ms
all_freed-cons server freed m ms = refl

pub complete-Completed :
    (node : Node) (n k : ℕ) (mem : Mem) (tx : TxRing)
    → tx.send_head < depth
    → n ≤ k
    → Completed node n k tx (complete node n mem tx).1
unfolding complete
complete-Completed node zero k mem tx lt le = record {
  ring = refl;
  tail = refl;
  head = sym (ap (λ h. h % depth) (add-zero tx.send_head) ∙ mod-eq_of_lt lt);
  num = refl;
  queue = refl;
  idx = refl;
  sent = refl;
  freed = sym (all_freed-nil node tx.freed);
  left = ap (slots depth tx.sw_ring tx.send_head) (omega arith);
}
complete-Completed node (suc n) k mem tx lt le =
    let m = get_or tx.sw_ring tx.send_head 0 in
    let tx1 : TxRing = record tx {
      send_head = (tx.send_head + 1) % depth;
      freed = give_back node tx.freed m;
    } in
    let c =
      complete-Completed node n (k - 1) (complete_buf node mem m) tx1
        (mod-lt (tx.send_head + 1) (omega arith)) (omega arith) in
    let first = slots_ne_zero depth tx.sw_ring tx.send_head k (omega arith) in
    record {
      ring = c.ring;
      tail = c.tail;
      head = c.head ∙ sym (step_in depth tx.send_head n);
      num = c.num;
      queue = c.queue;
      idx = c.idx;
      sent = c.sent;
      freed =
          c.freed
          ∙ all_freed-cons node tx.freed m _
          ∙ ap (λ xs. all_freed node tx.freed (take (suc n) xs)) (sym first);
      left =
          ap
            (slots depth (complete node n (complete_buf node mem m) tx1).1.sw_ring
              (complete node n (complete_buf node mem m) tx1).1.send_head)
            (omega arith)
          ∙ c.left
          ∙ ap (drop (suc n)) (sym first);
    }
