-- ===== src/Queue/Spsc.antt =====
-- src/util/lock_free_queue.h under one producer and one consumer thread that interleave: each of
-- `enqueue` and `dequeue` is taken apart into its accesses of `head_`, `tail_` and the array.
-- Loads and stores are taken in the order of the program (the indices are `volatile`, and x86
-- keeps the order of one thread's stores); the memory model is not part of the model.
pub mod Known
pub mod Order
use mathlib.Core.List.{append_assoc}
use axio_emulator.Prelude.{
  ℕ, zero, suc, ◌+◌, ◌-◌, ◌%◌, ◌≤◌, ◌<◌, ◌≡◌, refl, sym, ap, ap₂, ◌∙◌, ◌≢◌, List, [], ◌∷◌, ◌++◌,
  true, false, get_or, set, length-set, get_or-set_self, get_or-set_ne, ◌==◌, if◌then◌else◌, arith,
}
use axio_emulator.Queue.{LockFreeQueue, ws_queue_size, init, next_index, enqueue}
use axio_emulator.Queue.Refine.{
  IsValid, used, slots, contents, next_index-mod, slots_ne_zero, init-IsValid,
}

-- Where the producer stands in `enqueue`, and the consumer in `dequeue`.
pub data Producer : Type 0 where
  outside : Producer
  checked : ℕ → Producer
  written : ℕ → Producer

pub data Consumer : Type 0 where
  away : Consumer
  ready : Consumer
  loaded : ℕ → Consumer

-- The ring, both threads, the pointers for which `enqueue` returned true, and what `dequeue`
-- returned.
pub record System : Type 0 where
  pub ring : LockFreeQueue
  pub producer : Producer
  pub consumer : Consumer
  pub sent : List ℕ
  pub received : List ℕ

unfoldable pub start : System
start = record { ring = init; producer = outside; consumer = away; sent = []; received = [] }

unfoldable pub write_slot : LockFreeQueue → ℕ → LockFreeQueue
write_slot q pkt = record q { queue = set q.queue q.tail pkt }

unfoldable pub publish_tail : LockFreeQueue → LockFreeQueue
publish_tail q = record q { tail = next_index q.tail }

unfoldable pub publish_head : LockFreeQueue → LockFreeQueue
publish_head q = record q { head = next_index q.head }

pub data Step (s : System) : System → Type 0 where
  -- `if (next_tail == head_) return false;`
  full : s.producer ≡ outside → next_index s.ring.tail ≡ s.ring.head → Step s s
  check :
      (pkt : ℕ)
      → s.producer ≡ outside
      → next_index s.ring.tail ≢ s.ring.head
      → Step s (record s { producer = checked pkt })
  -- `queue_[tail_] = pkt;`
  write :
      (pkt : ℕ)
      → s.producer ≡ checked pkt
      → Step s (record s { ring = write_slot s.ring pkt; producer = written pkt })
  -- `tail_ = next_tail; return true;`
  publish :
      (pkt : ℕ)
      → s.producer ≡ written pkt
      → Step s
          (record s { ring = publish_tail s.ring; producer = outside; sent = s.sent ++ (pkt ∷ []) })
  -- `if (head_ == tail_) return nullptr;`
  empty : s.consumer ≡ away → s.ring.head ≡ s.ring.tail → Step s s
  find : s.consumer ≡ away → s.ring.head ≢ s.ring.tail → Step s (record s { consumer = ready })
  -- `uint8_t* ret = queue_[head_];`
  load :
      s.consumer ≡ ready
      → Step s (record s { consumer = loaded (get_or s.ring.queue s.ring.head 0) })
  -- `head_ = (head_ + 1) & mask_; return ret;`
  take :
      (pkt : ℕ)
      → s.consumer ≡ loaded pkt
      → Step s (record s {
        ring = publish_head s.ring;
        consumer = away;
        received = s.received ++ (pkt ∷ []);
      })

pub data Reach : System → Type 0 where
  here : Reach start
  next : {s t : System} → Reach s → Step s t → Reach t

-- With no step of the other thread between, the producer's steps are `enqueue`.
pub solo_enqueue :
    (q : LockFreeQueue) (pkt : ℕ)
    → enqueue q pkt ≡ (
        if next_index q.tail == q.head then (false, q) else (true, publish_tail (write_slot q pkt)))
unfolding enqueue publish_tail write_slot
solo_enqueue q pkt = refl
