-- ===== src/Queue/Spsc/Known.antt =====
-- What each thread has found out, and what the steps of the threads do to the contents.
use axio_emulator.Prelude.{
  ℕ, zero, suc, ◌+◌, ◌-◌, ◌%◌, ◌≤◌, ◌<◌, ◌≡◌, refl, ap, ap₂, ◌∙◌, ◌≢◌, List, [], ◌∷◌, ◌++◌, get_or,
  set, length-set, get_or-set_self, get_or-set_ne, arith,
}
use axio_emulator.Queue.{LockFreeQueue, ws_queue_size, init}
use axio_emulator.Queue.Refine.{
  IsValid, used, slots, contents, next_index-mod, slots_ne_zero, init-IsValid,
}
use axio_emulator.Queue.Spsc.{
  Producer, Consumer, System, start, write_slot, publish_tail, publish_head, outside, checked,
  written, away, ready, loaded,
}

-- What the threads have found out stays true until they use it.
unfoldable pub ProducerOk : Producer → LockFreeQueue → Type 0
ProducerOk outside q = Unit
ProducerOk (checked pkt) q = used q < ws_queue_size - 1
ProducerOk (written pkt) q = (used q < ws_queue_size - 1) × (get_or q.queue q.tail 0 ≡ pkt)

unfoldable pub ConsumerOk : Consumer → LockFreeQueue → Type 0
ConsumerOk away q = Unit
ConsumerOk ready q = used q ≢ 0
ConsumerOk (loaded pkt) q = (used q ≢ 0) × (get_or q.queue q.head 0 ≡ pkt)

pub record Inv (s : System) : Type 0 where
  pub valid : IsValid s.ring
  pub in_order : s.sent ≡ s.received ++ contents s.ring
  pub producer_ok : ProducerOk s.producer s.ring
  pub consumer_ok : ConsumerOk s.consumer s.ring

-- A write just past the held pointers does not touch them.
slots-set_past :
    (buf : List ℕ) (x n h i : ℕ)
    → h < ws_queue_size
    → n < ws_queue_size
    → i ≡ (h + n) % ws_queue_size
    → slots (set buf i x) h n ≡ slots buf h n
slots-set_past buf x zero h i hh hn e = refl
slots-set_past buf x (suc n) h i hh hn e =
    ap₂ ◌∷◌ (get_or-set_ne buf i h x 0 (omega arith))
      (slots-set_past buf x n ((h + 1) % ws_queue_size) i (omega arith) (omega arith) (omega arith))

slots_snoc :
    (buf : List ℕ) (n h i : ℕ)
    → h < ws_queue_size
    → i ≡ (h + n) % ws_queue_size
    → slots buf h (suc n) ≡ slots buf h n ++ (get_or buf i 0 ∷ [])
slots_snoc buf zero h i hh e = let at : i ≡ h = omega arith in rw at
slots_snoc buf (suc n) h i hh e =
    ap (◌∷◌ (get_or buf h 0))
      (slots_snoc buf n ((h + 1) % ws_queue_size) i (omega arith) (omega arith))

pub start-Inv : Inv start
unfolding start init ProducerOk ConsumerOk
start-Inv = record { valid = init-IsValid; in_order = refl; producer_ok = tt; consumer_ok = tt }

pub publish-contents :
    (q : LockFreeQueue) (pkt : ℕ)
    → IsValid q
    → used q < ws_queue_size - 1
    → get_or q.queue q.tail 0 ≡ pkt
    → IsValid (publish_tail q)
      × (contents (publish_tail q) ≡ contents q ++ (pkt ∷ []))
      × (used (publish_tail q) ≡ used q + 1)
unfolding publish_tail
publish-contents q pkt v few e = (
  ground (arith, next_index-mod q.tail),
  ground (arith, next_index-mod q.tail, slots_snoc q.queue (used q) q.head q.tail),
  ground (arith, next_index-mod q.tail),
)

pub take-contents :
    (q : LockFreeQueue) (pkt : ℕ)
    → IsValid q
    → used q ≢ 0
    → get_or q.queue q.head 0 ≡ pkt
    → IsValid (publish_head q)
      × (contents q ≡ pkt ∷ contents (publish_head q))
      × (used (publish_head q) + 1 ≡ used q)
unfolding publish_head
take-contents q pkt v some_left e = (
  ground (arith, next_index-mod q.head),
  ground (arith, next_index-mod q.head, slots_ne_zero q.queue q.head (used q)),
  ground (arith, next_index-mod q.head),
)

pub write-contents :
    (q : LockFreeQueue) (pkt : ℕ)
    → IsValid q
    → used q < ws_queue_size - 1
    → IsValid (write_slot q pkt)
      × (contents (write_slot q pkt) ≡ contents q)
      × (get_or (write_slot q pkt).queue q.tail 0 ≡ pkt)
      × (used q ≢ 0 → get_or (write_slot q pkt).queue q.head 0 ≡ get_or q.queue q.head 0)
unfolding write_slot
write-contents q pkt v few = (
  ground (arith, length-set q.queue q.tail pkt),
  ground (arith, slots-set_past q.queue pkt (used q) q.head q.tail),
  ground (arith, get_or-set_self q.queue q.tail pkt 0),
  λ left. get_or-set_ne q.queue q.tail q.head pkt 0 (ground arith),
)

-- The producer's steps keep what the consumer knows, and the other way round.
pub ConsumerOk-keep :
    (c : Consumer) (q r : LockFreeQueue)
    → used q ≤ used r
    → (used q ≢ 0 → get_or r.queue r.head 0 ≡ get_or q.queue q.head 0)
    → ConsumerOk c q
    → ConsumerOk c r
unfolding ConsumerOk
ConsumerOk-keep away q r more same ok = tt
ConsumerOk-keep ready q r more same ok = omega arith
ConsumerOk-keep (loaded pkt) q r more same ok = (omega arith, same ok.0 ∙ ok.1)

pub ProducerOk-keep :
    (p : Producer) (q r : LockFreeQueue)
    → used r ≤ used q
    → get_or r.queue r.tail 0 ≡ get_or q.queue q.tail 0
    → ProducerOk p q
    → ProducerOk p r
unfolding ProducerOk
ProducerOk-keep outside q r fewer same ok = tt
ProducerOk-keep (checked pkt) q r fewer same ok = omega arith
ProducerOk-keep (written pkt) q r fewer same ok = (omega arith, same ∙ ok.1)
