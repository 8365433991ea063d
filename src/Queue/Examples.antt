-- ===== src/Queue/Examples.antt =====
-- The queue on small inputs.
use axio_emulator.Prelude.{
  ◌≡◌, refl, [], ◌∷◌, ◌++◌, false, replicate, length, ap, take, drop, arith,
}
use axio_emulator.Queue.{LockFreeQueue, init, next_index, enqueue, dequeue, get_size}
use axio_emulator.Queue.Refine.{
  IsValid, contents, fifo_enqueue, fifo_dequeue, init-IsValid, enqueue-IsValid, enqueue_refines,
  dequeue_refines, get_size-length,
}
use axio_emulator.Queue.Bulk.{enqueue_all, enqueue_all-Inserted, Inserted, dequeue_n, dequeue_n_lem}
use axio_emulator.Queue.Spsc.Order.{interleaved_fifo}
use axio_emulator.Queue.Spsc.{
  System, Reach, here, next, start, check, write, publish, find, write_slot, publish_tail, checked,
  ready,
}

-- One packet in the queue.
abbrev one_packet : LockFreeQueue
one_packet = (enqueue init 7).1

one_packet-IsValid : IsValid one_packet
one_packet-IsValid = enqueue-IsValid 7 init-IsValid

contents-one_packet : contents one_packet ≡ 7 ∷ []
unfolding enqueue init next_index replicate
contents-one_packet = refl

full_refuses : (enqueue (record one_packet { tail = 4095 }) 9).0 ≡ false
unfolding enqueue init next_index
full_refuses = refl

enqueue_refines_example :
    ((enqueue one_packet 8).0, contents (enqueue one_packet 8).1)
    ≡ fifo_enqueue (contents one_packet) 8
enqueue_refines_example = enqueue_refines {q = one_packet} 8 one_packet-IsValid

dequeue_refines_example :
    ((dequeue one_packet).0, contents (dequeue one_packet).1) ≡ fifo_dequeue (contents one_packet)
dequeue_refines_example = dequeue_refines {q = one_packet} one_packet-IsValid

get_size_example : get_size one_packet ≡ 1
unfolding enqueue next_index init
get_size_example = get_size-length {q = one_packet} one_packet-IsValid

enqueue_all_example : Inserted one_packet (8 ∷ 9 ∷ []) (enqueue_all one_packet (8 ∷ 9 ∷ []))
enqueue_all_example = enqueue_all-Inserted (8 ∷ 9 ∷ []) {q = one_packet} one_packet-IsValid

dequeue_n_example :
    ((dequeue_n 1 one_packet).0 ≡ take 1 (contents one_packet))
    × (contents (dequeue_n 1 one_packet).1 ≡ drop 1 (contents one_packet))
    × IsValid (dequeue_n 1 one_packet).1
dequeue_n_example =
    dequeue_n_lem 1 {q = one_packet} one_packet-IsValid
      (omega (arith, ap length contents-one_packet))

-- The producer adds packet 7 and has checked for 8 when the consumer has read 7.
abbrev mid_run : System
mid_run = record start {
  ring = publish_tail (write_slot init 7);
  producer = checked 8;
  consumer = ready;
  sent = 7 ∷ [];
}

mid_run-Reach : Reach mid_run
unfolding start init next_index publish_tail write_slot
mid_run-Reach =
    next
      (next (next (next (next here (check 7 refl (omega arith))) (write 7 refl)) (publish 7 refl))
        (find refl (omega arith)))
      (check 8 refl (omega arith))

interleaved_fifo_example : mid_run.sent ≡ mid_run.received ++ contents mid_run.ring
interleaved_fifo_example = interleaved_fifo {s = mid_run} mid_run-Reach
