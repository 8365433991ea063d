-- ===== src/Roce/Tx/Burst.antt =====
-- The sends in flight form a queue: completions take the oldest, `tx_burst` appends.
use mathlib.Core.List.{append_assoc, append-nil}
use native.Mathlib.Nat.{mod-add-mod, mod-lt}
use axio_emulator.Prelude.{
  ℕ, zero, suc, ◌+◌, ◌-◌, ◌%◌, ◌≤◌, min, ◌≡◌, refl, sym, ap, ap₂, ◌∙◌, ◌≢◌, List, [], ◌∷◌, ◌++◌,
  length, set, take, drop, length-set, ◌==◌, inl, inr, Bool-cases, arith,
}
use axio_emulator.Prelude.Ring.{slots, slots-set, drop-slots, length-slots}
use axio_emulator.Mbuf.{Mem, set_state}
use axio_emulator.HugeAlloc.{posted}
use axio_emulator.Roce.{Node, depth}
use axio_emulator.Roce.Tx.{TxRing, complete, mount, mount_all, tx_burst}
use axio_emulator.Roce.Tx.Complete.{IsValid, in_flight, all_freed, Completed, complete-Completed}

-- The mounting loop appends to the ring the buffers that there is room for.
pub record Mounted (bufs : List ℕ) (tx out : TxRing) (n : ℕ) : Type 0 where
  pub count : n ≡ min (length bufs) tx.free_send_wr_num
  pub valid : IsValid out
  pub ring : in_flight out ≡ in_flight tx ++ take n bufs
  pub num : out.free_send_wr_num ≡ tx.free_send_wr_num - n
  pub queue : out.tx_queue ≡ tx.tx_queue
  pub idx : out.tx_queue_idx ≡ tx.tx_queue_idx
  pub sent : out.sent ≡ tx.sent
  pub freed : out.freed ≡ tx.freed
  pub head : out.send_head ≡ tx.send_head

mount-ring :
    (tx : TxRing) (m : ℕ)
    → IsValid tx
    → tx.free_send_wr_num ≢ 0
    → in_flight (mount tx m) ≡ in_flight tx ++ (m ∷ [])
unfolding mount
mount-ring tx m v ne =
    let one_more : depth - (tx.free_send_wr_num - 1) ≡ suc (depth - tx.free_send_wr_num) =
      omega (arith, v.few) in
    ap (λ k. slots depth (set tx.sw_ring tx.send_tail m) tx.send_head k) one_more
    ∙ slots-set depth tx.sw_ring m (depth - tx.free_send_wr_num) tx.send_head tx.send_tail v.storage
        v.head_in (omega (arith, v.few)) v.tail_at

mount-IsValid : (tx : TxRing) (m : ℕ) → IsValid tx → tx.free_send_wr_num ≢ 0 → IsValid (mount tx m)
unfolding mount
mount-IsValid tx m v ne = record {
  storage = length-set tx.sw_ring tx.send_tail m ∙ v.storage;
  head_in = v.head_in;
  few = omega (arith, v.few);
  tail_at =
      ap (λ t. (t + 1) % depth) v.tail_at
      ∙ mod-add-mod (tx.send_head + (depth - tx.free_send_wr_num)) depth 1
      ∙ ap (λ k. k % depth) (omega (arith, v.few));
}

Mounted-cons :
    (m : ℕ) (ms : List ℕ) (tx out : TxRing) (n : ℕ)
    → IsValid tx
    → tx.free_send_wr_num ≢ 0
    → Mounted ms (mount tx m) out n
    → Mounted (m ∷ ms) tx out (n + 1)
unfolding mount
Mounted-cons m ms tx out n v ne r =
    let num : (mount tx m).free_send_wr_num ≡ tx.free_send_wr_num - 1 = refl in
    record {
      count = omega (arith, r.count);
      valid = r.valid;
      ring =
          r.ring
          ∙ ap (λ xs. xs ++ take n ms) (mount-ring tx m v ne)
          ∙ append_assoc (in_flight tx) (m ∷ []) (take n ms)
          ∙ ap (λ k. in_flight tx ++ take k (m ∷ ms)) {x = suc n} {y = n + 1} (omega arith);
      num = r.num ∙ omega arith;
      queue = r.queue;
      idx = r.idx;
      sent = r.sent;
      freed = r.freed;
      head = r.head;
    }

mount_all-Mounted :
    (bufs : List ℕ) (mem : Mem) (tx : TxRing)
    → IsValid tx
    → Mounted bufs tx (mount_all bufs mem tx).1 (mount_all bufs mem tx).2
unfolding mount_all
mount_all-Mounted [] mem tx v = record {
  count = omega arith;
  valid = v;
  ring = sym (append-nil (in_flight tx));
  num = omega arith;
  queue = refl;
  idx = refl;
  sent = refl;
  freed = refl;
  head = refl;
}
mount_all-Mounted (m ∷ ms) mem tx v = elim (Bool-cases (tx.free_send_wr_num == 0)) [
  | inl e ↦ rw e (record {
    count = ground arith;
    valid = v;
    ring = sym (append-nil (in_flight tx));
    num = omega arith;
    queue = refl;
    idx = refl;
    sent = refl;
    freed = refl;
    head = refl;
  })
  | inr e ↦
      let ne : tx.free_send_wr_num ≢ 0 = ground arith in
      let r =
        mount_all-Mounted ms (set_state mem m posted) (mount tx m) (mount-IsValid tx m v ne) in
      rw e (Mounted-cons m ms tx _ _ v ne r)
]

drop-append : (k : ℕ) (xs ys : List ℕ) → length xs ≡ k → drop k (xs ++ ys) ≡ ys
drop-append zero [] ys e = refl
drop-append zero (x ∷ xs) ys e = absurd (omega (arith, e))
drop-append (suc k) [] ys e = absurd (omega (arith, e))
drop-append (suc k) (x ∷ xs) ys e = drop-append k xs ys (omega (arith, e))

-- The chain of entries from the first that was mounted describes the buffers, in order.
chain-Mounted :
    (bufs : List ℕ) (tx out : TxRing) (n : ℕ)
    → IsValid tx
    → Mounted bufs tx out n
    → slots depth out.sw_ring tx.send_tail n ≡ take n bufs
chain-Mounted bufs tx out n v r =
    let k = depth - tx.free_send_wr_num in
    ap (λ i. slots depth out.sw_ring i n) v.tail_at
    ∙ sym (drop-slots depth out.sw_ring k n tx.send_head v.head_in)
    ∙ ap₂ (λ h j. drop k (slots depth out.sw_ring h j)) (sym r.head)
        (omega (arith, r.num, r.count, v.few))
    ∙ ap (drop k) r.ring
    ∙ drop-append k (in_flight tx) (take n bufs) (length-slots depth tx.sw_ring tx.send_head k)

-- What a burst does with `bufs` when the poll finds `ret` of the sends complete: `n` are taken.
pub record IsBurst (node : Node) (ret : ℕ) (bufs : List ℕ) (tx out : TxRing) (n : ℕ) : Type 0 where
  pub count : n ≡ min (length bufs) (tx.free_send_wr_num + ret)
  pub valid : IsValid out
  pub ring : in_flight out ≡ drop ret (in_flight tx) ++ take n bufs
  pub freed : out.freed ≡ all_freed node tx.freed (take ret (in_flight tx))
  pub sent : out.sent ≡ tx.sent ++ take n bufs
  pub num : out.free_send_wr_num ≡ tx.free_send_wr_num + ret - n
  pub queue : out.tx_queue ≡ tx.tx_queue
  pub idx : out.tx_queue_idx ≡ tx.tx_queue_idx

Completed-IsValid :
    (node : Node) (ret : ℕ) (tx out : TxRing)
    → IsValid tx
    → ret ≤ depth - tx.free_send_wr_num
    → Completed node ret
        (depth - tx.free_send_wr_num)
        (record tx { free_send_wr_num = tx.free_send_wr_num + ret })
        out
    → IsValid out
Completed-IsValid node ret tx out v le c = record {
  storage = ap length c.ring ∙ v.storage;
  head_in = rw c.head (mod-lt (tx.send_head + ret) (omega arith));
  few = omega (arith, c.num, v.few);
  tail_at =
      c.tail
      ∙ v.tail_at
      ∙ ap (λ k. k % depth) (omega (arith, v.few))
      ∙ sym (mod-add-mod (tx.send_head + ret) depth (depth - (tx.free_send_wr_num + ret)))
      ∙ ap₂ (λ h f. (h + (depth - f)) % depth) (sym c.head) (sym c.num);
}

-- A burst after a poll with `ret` completions, no more than are in flight: it gives back the `ret`
-- oldest sends, mounts as many of the buffers as then fit, posts exactly these, and keeps the
-- ring well formed.
pub tx_burst-IsBurst :
    (node : Node) (ret : ℕ) (bufs : List ℕ) (mem : Mem) (tx : TxRing)
    → IsValid tx
    → ret ≤ depth - tx.free_send_wr_num
    → IsBurst node ret bufs tx (tx_burst node ret bufs mem tx).1 (tx_burst node ret bufs mem tx).2
unfolding tx_burst
tx_burst-IsBurst node ret bufs mem tx v le =
    let tx0 : TxRing = record tx { free_send_wr_num = tx.free_send_wr_num + ret } in
    let (mem1, tx1) = complete node ret mem tx0 in
    let c = complete-Completed node ret (depth - tx.free_send_wr_num) mem tx0 v.head_in le in
    let v1 = Completed-IsValid node ret tx tx1 v le c in
    let m = mount_all-Mounted bufs mem1 tx1 v1 in
    record {
      count = m.count ∙ ap (min (length bufs)) c.num;
      valid = record {
        storage = m.valid.storage;
        head_in = m.valid.head_in;
        few = m.valid.few;
        tail_at = m.valid.tail_at;
      };
      ring =
          m.ring
          ∙ ap (λ xs. xs ++ take (mount_all bufs mem1 tx1).2 bufs)
              (ap (slots depth tx1.sw_ring tx1.send_head) (omega (arith, c.num)) ∙ c.left);
      freed = m.freed ∙ c.freed;
      sent = ap₂ ◌++◌ (m.sent ∙ c.sent) (chain-Mounted bufs tx1 _ _ v1 m);
      num = m.num ∙ ap (λ k. k - (mount_all bufs mem1 tx1).2) c.num;
      queue = m.queue ∙ c.queue;
      idx = m.idx ∙ c.idx;
    }
