-- ===== src/Queue.antt =====
-- src/util/lock_free_queue.h: the ring of packet pointers between an application thread and a
-- dispatcher. A pointer is a number and `nullptr` is 0; `size_t` arithmetic is modulo 2^64.
-- The functions stay shut outside this module's children.
pub mod Refine
pub mod Bulk
pub mod Spsc
mod Examples
use axio_emulator.Prelude.{
  ℕ, ◌+◌, ◌-◌, ◌%◌, ◌^◌, bit_and, List, Bool, true, false, get_or, set, replicate, ◌==◌,
  if◌then◌else◌,
}

-- `kWsQueueSize`, and `mask_`.
abbrev pub ws_queue_size : ℕ
ws_queue_size = 4096

abbrev pub mask : ℕ
mask = ws_queue_size - 1

pub record LockFreeQueue : Type 0 where
  pub queue : List ℕ
  pub head : ℕ
  pub tail : ℕ

-- The constructor.
pub init : LockFreeQueue
init = record { queue = replicate ws_queue_size 0; head = 0; tail = 0 }

-- `(i + 1) & mask_`.
pub next_index : ℕ → ℕ
next_index i = bit_and ((i + 1) % 2 ^ 64) mask

pub enqueue : LockFreeQueue → ℕ → Bool × LockFreeQueue
enqueue q pkt =
    if next_index q.tail == q.head
    then (false, q)
    else (true, record q { queue = set q.queue q.tail pkt; tail = next_index q.tail })

pub dequeue : LockFreeQueue → ℕ × LockFreeQueue
dequeue q =
    if q.head == q.tail
    then (0, q)
    else (get_or q.queue q.head 0, record q { head = next_index q.head })

pub reset_head : LockFreeQueue → LockFreeQueue
reset_head q = record q { head = 0 }

pub reset_tail : LockFreeQueue → LockFreeQueue
reset_tail q = record q { tail = 0 }

pub get_size : LockFreeQueue → ℕ
get_size q = bit_and ((2 ^ 64 + q.tail - q.head) % 2 ^ 64) mask
